-- ===== src/Relayd/Sockets/Preservation.antt =====
-- The operations on the connections of rust/choosh-relayd/src/ws.rs keep the invariant.
use choosh.Prelude.{
  ℕ, ◌<◌, ◌≡◌, refl, sym, ap, ◌∙◌, subst, inl, inr, Bool, true, false, ◌&&◌, [], ◌∷◌, some, arith,
  ltb, length, length-append, get_elem?, update_at, get_elem?-update_at, Option-cases, Bool-cases,
  eq_of_some, Bytes, get, nat_eq, bytes_eq, same-cases, get-remove_ne,
}
use choosh.Protocol.Relay.{DeviceId, TunnelId}
use choosh.Relayd.State.{SocketId, outbound_channel_capacity}
use choosh.Relayd.Sockets.{
  Socket, Server, has_receiver, kill, enqueue, try_send, send_to, send_best_effort,
  wire_tunnel_frame, forward_data, forward_close, kill_connection,
}
use choosh.Relayd.Sockets.Invariant.{IsValid, update-switched, update-routed, update-bounded}

room :
    (n : ℕ) (b : Bool)
    → (b && ltb n outbound_channel_capacity) ≡ true
    → n < outbound_channel_capacity
room n b h = ground arith

-- What a successful `try_send` does: there was room, and the bytes stand behind the others.
pub try_send-eq_some :
    (s s' : Server) (i : SocketId) (wire : Bytes)
    → try_send s i wire ≡ some s'
    → (socket : Socket) × (get_elem? s.sockets i ≡ some socket)
      × (length socket.outbound < outbound_channel_capacity)
      × (record s { sockets = update_at i (enqueue wire) s.sockets } ≡ s')
unfolding try_send
try_send-eq_some s s' i wire h = elim (Option-cases (get_elem? s.sockets i)) [
  | inl e ↦ absurd (ground arith)
  | inr (socket, e) ↦
      elim (Bool-cases
        (has_receiver socket && ltb (length socket.outbound) outbound_channel_capacity)) [
          | inl free ↦
              (socket, e, room (length socket.outbound) (has_receiver socket) free, ground arith)
          | inr full ↦ absurd (ground arith)
        ]
]

pub enqueue-IsValid :
    (s : Server) (i : SocketId) (wire : Bytes) (socket : Socket)
    → get_elem? s.sockets i ≡ some socket
    → length socket.outbound < outbound_channel_capacity
    → IsValid s
    → IsValid (record s { sockets = update_at i (enqueue wire) s.sockets })
enqueue-IsValid s i wire socket at fits v = record {
  switched = update-switched s i (enqueue wire) (λ k. refl) (λ k e. e) (λ k e. e) v;
  routed = update-routed s i (enqueue wire) (λ k. refl) (λ k e. e) v;
  bounded =
      update-bounded s i (enqueue wire)
        (λ k e.
          let same_socket : socket ≡ k = eq_of_some (sym at ∙ e) in
          let old : length k.outbound < outbound_channel_capacity =
            subst (λ k. length k.outbound < outbound_channel_capacity) same_socket fits in
          omega (arith, length-append k.outbound (wire ∷ [])))
        v;
}

pub send_to-IsValid :
    (s s' : Server) (d : DeviceId) (wire : Bytes)
    → send_to s d wire ≡ some s'
    → IsValid s
    → IsValid s'
unfolding send_to
send_to-IsValid s s' d wire h v = elim (Option-cases (get s.registry.connections d)) [
  | inl e ↦ absurd (ground arith)
  | inr (i, e) ↦
      let (socket, at, fits, result) = try_send-eq_some s s' i wire (ground arith) in
      subst IsValid result (enqueue-IsValid s i wire socket at fits v)
]

pub send_best_effort-IsValid :
    (s : Server) (d : DeviceId) (wire : Bytes) → IsValid s → IsValid (send_best_effort s d wire)
unfolding send_best_effort
send_best_effort-IsValid s d wire v = elim (Option-cases (send_to s d wire)) [
  | inl e ↦ rw (e, send_best_effort) v
  | inr (s', e) ↦ rw (e, send_best_effort) (send_to-IsValid s s' d wire e v)
]

pub forward_close-IsValid :
    (s : Server) (d : DeviceId) (id : TunnelId) → IsValid s → IsValid (forward_close s d id)
unfolding forward_close
forward_close-IsValid s d id v = elim (Option-cases (wire_tunnel_frame id [])) [
  | inl e ↦ rw (e, forward_close) v
  | inr (wire, e) ↦ rw (e, forward_close) (send_best_effort-IsValid s d wire v)
]

pub forward_data-IsValid :
    (s s' : Server) (d : DeviceId) (id : TunnelId) (payload : Bytes)
    → forward_data s d id payload ≡ some s'
    → IsValid s
    → IsValid s'
unfolding forward_data
forward_data-IsValid s s' d id payload h v = elim (Option-cases (wire_tunnel_frame id payload)) [
  | inl e ↦ absurd (ground arith)
  | inr (wire, e) ↦ send_to-IsValid s s' d wire (ground arith) v
]

pub kill_connection-IsValid :
    (s : Server) (d : DeviceId) → IsValid s → IsValid (kill_connection s d)
unfolding kill_connection
kill_connection-IsValid s d v = elim (Option-cases (get s.registry.kill_switches d)) [
  | inl e ↦ rw (e, kill_connection) v
  | inr (at, e) ↦
      rw (e, kill_connection)
        (record {
          switched = λ i socket h serves lives.
              let held =
                update-switched s at kill (λ k. refl) (λ k e. e) (λ k e. absurd (ground arith)) v i
                  socket h serves lives in
              elim (same-cases socket.device_id d) [
                | inl own ↦
                    let same_socket : at ≡ i =
                      eq_of_some (sym e ∙ sym (ap (get s.registry.kill_switches) own) ∙ held) in
                    absurd (killed_lives at i same_socket socket h lives)
                | inr other ↦ get-remove_ne d socket.device_id s.registry.kill_switches other ∙ held
              ];
          routed = update-routed s at kill (λ k. refl) (λ k e. e) v;
          bounded = update-bounded s at kill (λ k e. v.bounded at k e) v;
        })
]
  where
    killed_lives :
        (at : SocketId) (i : SocketId)
        → at ≡ i
        → (socket : Socket) → get_elem? (update_at at kill s.sockets) i ≡ some socket
        → socket.killed ≡ false
        → ⊥
    killed_lives at i e socket h lives =
        let (old, was, change) = get_elem?-update_at at i kill s.sockets socket h in
        elim change [ inl (_, e') ↦ absurd (ground arith) | inr (ne, _) ↦ ne e ]
