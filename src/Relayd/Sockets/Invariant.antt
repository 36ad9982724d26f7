-- ===== src/Relayd/Sockets/Invariant.antt =====
-- The invariant of the connections of rust/choosh-relayd/src/ws.rs, and that the operations on them keep it.
use choosh.Prelude.{
  ◌≤◌, ◌≡◌, sym, ap, subst, nat_eq, same-cases, ◌∙◌, inl, inr, true, false, some, length, get_elem?,
  update_at, get_elem?-update_at, get_elem?-update_at_self, get_elem?-update_at_ne, get, bytes_eq,
}
use choosh.Protocol.Relay.{DeviceId}
use choosh.Relayd.State.{SocketId, outbound_channel_capacity}
use choosh.Relayd.Sockets.{Socket, Server, is_serving, is_routed}

-- A socket that serves and is not killed has its own kill switch in the registry; a device's connection is a socket of
-- this device that serves or is about to; and a channel holds no more than its capacity.
pub record IsValid (s : Server) : Type 0 where
  pub switched :
      (i : SocketId) (socket : Socket)
      → get_elem? s.sockets i ≡ some socket
      → is_serving socket ≡ true
      → socket.killed ≡ false
      → get s.registry.kill_switches socket.device_id ≡ some i
  pub routed :
      (device_id : DeviceId) (i : SocketId)
      → get s.registry.connections device_id ≡ some i
      → (socket : Socket) × (get_elem? s.sockets i ≡ some socket)
        × (socket.device_id ≡ device_id)
        × (is_routed socket ≡ true)
  pub bounded :
      (i : SocketId) (socket : Socket)
      → get_elem? s.sockets i ≡ some socket
      → length socket.outbound ≤ outbound_channel_capacity

-- A change of one socket that leaves its device and does not revive it.
pub update-switched :
    (s : Server) (at : SocketId) (f : Socket → Socket)
    → ((k : Socket) → (f k).device_id ≡ k.device_id)
    → ((k : Socket) → is_serving (f k) ≡ true → is_serving k ≡ true)
    → ((k : Socket) → (f k).killed ≡ false → k.killed ≡ false)
    → IsValid s
    → (i : SocketId) (socket : Socket) → get_elem? (update_at at f s.sockets) i ≡ some socket
    → is_serving socket ≡ true
    → socket.killed ≡ false
    → get s.registry.kill_switches socket.device_id ≡ some i
update-switched s at f same_device served alive v i socket h serves lives =
    let (old, was, change) = get_elem?-update_at at i f s.sockets socket h in
    elim change [
      | inl (_, e) ↦
          let serves' = served old (ap is_serving e ∙ serves) in
          let lives' = alive old (ap (λ k. k.killed) e ∙ lives) in
          let device = sym (same_device old) ∙ ap (λ k. k.device_id) e in
          subst (λ d. get s.registry.kill_switches d ≡ some i) device
            (v.switched i old was serves' lives')
      | inr (_, e) ↦
          subst (λ k. get s.registry.kill_switches k.device_id ≡ some i) e
            (v.switched i old was (ap is_serving e ∙ serves) (ap (λ k. k.killed) e ∙ lives))
    ]

-- A change of one socket that leaves its device and its place in the registry.
pub update-routed :
    (s : Server) (at : SocketId) (f : Socket → Socket)
    → ((k : Socket) → (f k).device_id ≡ k.device_id)
    → ((k : Socket) → is_routed k ≡ true → is_routed (f k) ≡ true)
    → IsValid s
    → (device_id : DeviceId) (i : SocketId) → get s.registry.connections device_id ≡ some i
    → (socket : Socket) × (get_elem? (update_at at f s.sockets) i ≡ some socket)
      × (socket.device_id ≡ device_id)
      × (is_routed socket ≡ true)
update-routed s at f same_device serves v device_id i h =
    let (k, found, device, served) = v.routed device_id i h in
    elim (same-cases at i) [
      | inl e ↦ (
        f k,
        subst (λ j. get_elem? (update_at at f s.sockets) j ≡ some (f k)) e
            (get_elem?-update_at_self at f s.sockets k (rw e found)),
        same_device k ∙ device,
        serves k served,
      )
      | inr ne ↦ (k, get_elem?-update_at_ne at i f s.sockets ne ∙ found, device, served)
    ]

pub update-bounded :
    (s : Server) (at : SocketId) (f : Socket → Socket)
    → ((k : Socket)
        → get_elem? s.sockets at ≡ some k
        → length (f k).outbound ≤ outbound_channel_capacity)
    → IsValid s
    → (i : SocketId) (socket : Socket) → get_elem? (update_at at f s.sockets) i ≡ some socket
    → length socket.outbound ≤ outbound_channel_capacity
update-bounded s at f fits v i socket h =
    let (old, was, change) = get_elem?-update_at at i f s.sockets socket h in
    elim change [
      | inl (e, e') ↦
          let here = fits old (subst (λ j. get_elem? s.sockets j ≡ some old) (sym e) was) in
          subst (λ k. length k.outbound ≤ outbound_channel_capacity) e' here
      | inr (_, e) ↦
          subst (λ k. length k.outbound ≤ outbound_channel_capacity) e (v.bounded i old was)
    ]
