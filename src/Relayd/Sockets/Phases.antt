-- ===== src/Relayd/Sockets/Phases.antt =====
-- The phases of a connection of rust/choosh-relayd/src/ws.rs, one change of the registry after another, keep the invariant.
use choosh.Prelude.{
  ◌≡◌, refl, sym, ap, ◌∙◌, subst, inl, inr, true, false, none, some, arith, get_elem?, update_at,
  get_elem?-update_at, get_elem?-update_at_self, get_elem?-update_at_ne, eq_of_some, get, insert,
  remove, nat_eq, bytes_eq, same-cases, get-remove_self, get-remove_ne, get-insert_self,
  get-insert_ne,
}
use choosh.Protocol.Relay.{DeviceId}
use choosh.Relayd.State.{SocketId}
use choosh.Relayd.Sockets.{
  Phase, authenticated, marked_online, channel_open, serving, channel_removed, switch_removed,
  tunnels_closed, closed, Socket, Server, serves, routes, is_serving, is_routed, with_phase,
  set_phase,
}
use choosh.Relayd.Sockets.Invariant.{IsValid, update-switched, update-routed, update-bounded}

serves-routes : (p : Phase) → routes p ≡ false → serves p ≡ true → ⊥
serves-routes channel_open h k = ground arith
serves-routes serving h k = ground arith
serves-routes authenticated h k = ground arith
serves-routes marked_online h k = ground arith
serves-routes channel_removed h k = ground arith
serves-routes switch_removed h k = ground arith
serves-routes tunnels_closed h k = ground arith
serves-routes closed h k = ground arith

-- A socket whose channel is not in the registry goes on to another such phase.
pub move-IsValid :
    (s : Server) (i : SocketId) (p : Phase) (socket : Socket)
    → get_elem? s.sockets i ≡ some socket
    → is_routed socket ≡ false
    → routes p ≡ false
    → IsValid s
    → IsValid (set_phase s i p)
move-IsValid s i p socket at off still v = record {
  switched =
      update-switched s i (with_phase p) (λ k. refl) (λ k h. absurd (serves-routes p still h))
        (λ k h. h) v;
  routed = λ d j h.
      let (k, at', device, routed) = v.routed d j h in
      elim (same-cases i j) [
        | inl own ↦
            let same_socket : socket ≡ k =
              eq_of_some (sym at ∙ subst (λ n. get_elem? s.sockets n ≡ some k) (sym own) at') in
            let on : is_routed socket ≡ true = ap is_routed same_socket ∙ routed in
            absurd (ground arith)
        | inr other ↦
            (k, get_elem?-update_at_ne i j (with_phase p) s.sockets other ∙ at', device, routed)
      ];
  bounded = update-bounded s i (with_phase p) (λ k e. v.bounded i k e) v;
}

-- The channel of the socket `i` of the device is put into the registry.
pub open-IsValid :
    (s : Server) (i : SocketId) (d : DeviceId) (socket : Socket)
    → get_elem? s.sockets i ≡ some socket
    → socket.device_id ≡ d
    → IsValid s
    → IsValid (record (set_phase s i channel_open) {
      registry = record s.registry { connections = insert d i s.registry.connections };
    })
open-IsValid s i d socket at device v = record {
  switched =
      update-switched s i (with_phase channel_open) (λ k. refl) (λ k h. absurd (ground arith))
        (λ k h. h) v;
  routed = λ d' j h. elim (same-cases d' d) [
    | inl own ↦
        let here : i ≡ j = eq_of_some (
          sym (get-insert_self d i s.registry.connections)
          ∙ sym (ap (get (insert d i s.registry.connections)) own)
          ∙ h) in
        (
          with_phase channel_open socket,
          subst
              (λ n.
                get_elem? (update_at i (with_phase channel_open) s.sockets) n
                ≡ some (with_phase channel_open socket))
              here (get_elem?-update_at_self i (with_phase channel_open) s.sockets socket at),
          device ∙ sym own,
          refl,
        )
    | inr other ↦
        update-routed s i (with_phase channel_open) (λ k. refl) (λ k e. refl) v d' j
          (sym (get-insert_ne d d' i s.registry.connections other) ∙ h)
  ];
  bounded = update-bounded s i (with_phase channel_open) (λ k e. v.bounded i k e) v;
}

-- The socket `i` of the device begins to serve, when the device has no other kill switch.
pub start-IsValid :
    (s : Server) (i : SocketId) (d : DeviceId) (socket : Socket)
    → get_elem? s.sockets i ≡ some socket
    → socket.device_id ≡ d
    → get s.registry.kill_switches d ≡ none
    → IsValid s
    → IsValid (record (set_phase s i serving) {
      registry = record s.registry { kill_switches = insert d i s.registry.kill_switches };
    })
start-IsValid s i d socket at device free v = record {
  switched = λ j k h serves lives.
      let (old, was, change) = get_elem?-update_at i j (with_phase serving) s.sockets k h in
      elim change [
        | inl (e, e') ↦
            let same_socket : socket ≡ old =
              eq_of_some (sym at ∙ subst (λ n. get_elem? s.sockets n ≡ some old) (sym e) was) in
            let owner : k.device_id ≡ d =
              sym (ap (λ k. k.device_id) e') ∙ sym (ap (λ k. k.device_id) same_socket) ∙ device in
            subst (λ d'. get (insert d i s.registry.kill_switches) d' ≡ some j) (sym owner)
              (get-insert_self d i s.registry.kill_switches ∙ ap some e)
        | inr (_, e) ↦
            let held =
              v.switched j old was (ap is_serving e ∙ serves) (ap (λ k. k.killed) e ∙ lives) in
            let held' = subst (λ k. get s.registry.kill_switches k.device_id ≡ some j) e held in
            elim (same-cases k.device_id d) [
              | inl own ↦
                  absurd (taken j (sym free ∙ sym (ap (get s.registry.kill_switches) own) ∙ held'))
              | inr other ↦ get-insert_ne d k.device_id i s.registry.kill_switches other ∙ held'
            ]
      ];
  routed = update-routed s i (with_phase serving) (λ k. refl) (λ k e. refl) v;
  bounded = update-bounded s i (with_phase serving) (λ k e. v.bounded i k e) v;
}
  where
    taken : (j : SocketId) → none ≡ some j → ⊥
    taken j h = ground arith

-- The channel of the socket `i` of the device is taken out of the registry.
pub disconnect-IsValid :
    (s : Server) (i : SocketId) (d : DeviceId) (socket : Socket)
    → get_elem? s.sockets i ≡ some socket
    → socket.device_id ≡ d
    → IsValid s
    → IsValid (record (set_phase s i channel_removed) {
      registry = record s.registry { connections = remove d s.registry.connections };
    })
disconnect-IsValid s i d socket at device v = record {
  switched =
      update-switched s i (with_phase channel_removed) (λ k. refl) (λ k h. absurd (ground arith))
        (λ k h. h) v;
  routed = λ d' j h. elim (same-cases d' d) [
    | inl own ↦ absurd (
        gone j (
          sym (get-remove_self d s.registry.connections)
          ∙ sym (ap (get (remove d s.registry.connections)) own)
          ∙ h))
    | inr other ↦
        let (k, at', owner, routed) =
          v.routed d' j (sym (get-remove_ne d d' s.registry.connections other) ∙ h) in
        elim (same-cases i j) [
          | inl own ↦
              let same_socket : socket ≡ k =
                eq_of_some (sym at ∙ subst (λ n. get_elem? s.sockets n ≡ some k) (sym own) at') in
              absurd (other (sym owner ∙ sym (ap (λ k. k.device_id) same_socket) ∙ device))
          | inr apart ↦ (
            k,
            get_elem?-update_at_ne i j (with_phase channel_removed) s.sockets apart ∙ at',
            owner,
            routed,
          )
        ]
  ];
  bounded = update-bounded s i (with_phase channel_removed) (λ k e. v.bounded i k e) v;
}
  where
    gone : (j : SocketId) → none ≡ some j → ⊥
    gone j h = ground arith
