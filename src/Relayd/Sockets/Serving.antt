-- ===== src/Relayd/Sockets/Serving.antt =====
-- The parts of the beginning of a connection of rust/choosh-relayd/src/ws.rs, and the taking of an item, keep the invariant.
use choosh.Prelude.{
  ◌≤◌, ◌≡◌, refl, sym, ap, ◌∙◌, subst, inl, inr, true, false, List, [], ◌∷◌, none, some, arith,
  length, get_elem?, update_at, get_elem?-update_at_self, get_elem?-update_at_ne, get_elem?-append,
  get_elem?-append_old, Option-cases, Bytes, get, nat_eq, bytes_eq, same-cases, get-remove_self,
}
use choosh.Protocol.Relay.{DeviceId, IdentityClass}
use choosh.Relayd.State.{SocketId, outbound_channel_capacity}
use choosh.Relayd.Sockets.{
  authenticated, Socket, Server, serves, is_serving, kill, kill_connection, accept, deliver,
  new_server,
}
use choosh.Relayd.Sockets.Invariant.{IsValid, update-switched, update-routed, update-bounded}

pub new_server-IsValid : IsValid new_server
unfolding new_server
new_server-IsValid = record {
  switched = λ i socket h. absurd (ground arith);
  routed = λ d i h. absurd (ground arith);
  bounded = λ i socket h. absurd (ground arith);
}

pub accept-IsValid :
    (s : Server) (d : DeviceId) (c : IdentityClass) → IsValid s → IsValid (accept s d c)
unfolding accept
accept-IsValid s d c v = record {
  switched = λ i socket h serves lives. elim (get_elem?-append s.sockets (fresh d c) i socket h) [
    | inl old ↦ v.switched i socket old serves lives
    | inr (_, e) ↦ absurd (asleep socket e serves)
  ];
  routed = λ d' i h.
      let (socket, at, device, serves) = v.routed d' i h in
      (socket, get_elem?-append_old s.sockets (fresh d c) i socket at, device, serves);
  bounded = λ i socket h. elim (get_elem?-append s.sockets (fresh d c) i socket h) [
    | inl old ↦ v.bounded i socket old
    | inr (_, e) ↦ subst (λ k. length k.outbound ≤ outbound_channel_capacity) e (omega arith)
  ];
}
  where
    fresh : DeviceId → IdentityClass → Socket
    fresh d c = record {
      device_id = d;
      identity_class = c;
      phase = authenticated;
      killed = false;
      outbound = [];
    }

    asleep : (socket : Socket) → fresh d c ≡ socket → is_serving socket ≡ true → ⊥
    asleep socket e serves =
        let awake : is_serving (fresh d c) ≡ true = ap is_serving e ∙ serves in ground arith

pub deliver-IsValid : (s : Server) (i : SocketId) → IsValid s → IsValid (deliver s i)
unfolding deliver
deliver-IsValid s i v =
    let next : Socket → Socket =
      λ socket. record socket { outbound = elim socket.outbound [ [] ↦ [] | _ ∷ rest ↦ rest ] } in
    record {
      switched = update-switched s i next (λ k. refl) (λ k e. e) (λ k e. e) v;
      routed = update-routed s i next (λ k. refl) (λ k e. e) v;
      bounded = update-bounded s i next (λ k e. shorter k.outbound (v.bounded i k e)) v;
    }
  where
    shorter :
        (q : List Bytes)
        → length q ≤ outbound_channel_capacity
        → length (elim q as (λ _. List Bytes) [ [] ↦ [] | _ ∷ rest ↦ rest ])
          ≤ outbound_channel_capacity
    shorter [] h = h
    shorter (_ ∷ rest) h = omega arith

-- The device has no kill switch any more, and every socket keeps its device.
pub get-kill_connection :
    (s : Server) (d : DeviceId) → get (kill_connection s d).registry.kill_switches d ≡ none
unfolding kill_connection
get-kill_connection s d = elim (Option-cases (get s.registry.kill_switches d)) [
  | inl e ↦ rw (e, kill_connection) e
  | inr (i, e) ↦ rw (e, kill_connection) (get-remove_self d s.registry.kill_switches)
]

pub kill_connection-device :
    (s : Server) (d : DeviceId) (i : SocketId) (socket : Socket)
    → get_elem? s.sockets i ≡ some socket
    → (socket' : Socket) × (get_elem? (kill_connection s d).sockets i ≡ some socket')
      × (socket'.device_id ≡ socket.device_id)
unfolding kill_connection
kill_connection-device s d i socket h = elim (Option-cases (get s.registry.kill_switches d)) [
  | inl e ↦ (socket, rw (e, kill_connection) h, refl)
  | inr (j, e) ↦ elim (same-cases j i) [
    | inl own ↦ (
      kill socket,
      rw (e, kill_connection)
          (subst (λ n. get_elem? (update_at j kill s.sockets) n ≡ some (kill socket)) own
            (get_elem?-update_at_self j kill s.sockets socket
              (subst (λ n. get_elem? s.sockets n ≡ some socket) (sym own) h))),
      refl,
    )
    | inr other ↦ (
      socket,
      rw (e, kill_connection) (get_elem?-update_at_ne j i kill s.sockets other ∙ h),
      refl,
    )
  ]
]
