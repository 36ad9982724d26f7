-- ===== src/Relayd/Tunnels.antt =====
-- rust/choosh-relayd/src/ws.rs: the routing of tunnel frames and the end of tunnels. A lock on the registry is held
-- for one operation, and the operations that answer one frame run without another task between them.
pub mod Preservation
pub mod Closing
pub mod Routing
use choosh.Prelude.{
  ℕ, ◌-◌, Bool, true, false, not, ◌||◌, List, [], ◌∷◌, Option, none, some, leb, if◌then◌else◌,
  Bytes, Map, get, retain, remove, modify, same, update_at, bytes_eq,
}
use choosh.Protocol.Relay.{DeviceId, TunnelId}
use choosh.Protocol.TunnelFrame.{decode_tunnel_frame}
use choosh.Relayd.State.{Registry, SocketId, Tunnel, other_party, tunnel_idle_timeout_seconds}
use choosh.Relayd.Sockets.{
  Server, channel_removed, switch_removed, tunnels_closed, closed, set_phase, forward_data,
  forward_close, kill_connection, mark_offline,
}

abbrev pub with_tunnels : Server → Map TunnelId Tunnel → Server
with_tunnels s tunnels = record s { registry = record s.registry { tunnels = tunnels } }

-- A close: the tunnel leaves the registry.
abbrev pub remove_tunnel : Server → TunnelId → Server
remove_tunnel s id = with_tunnels s (remove id s.registry.tunnels)

abbrev pub touch_tunnel : ℕ → Server → TunnelId → Server
touch_tunnel now s id =
    with_tunnels s (modify id (λ t. record t { last_activity_unix = now }) s.registry.tunnels)

-- A frame with a payload, from one party of the tunnel to the other.
unfoldable pub relay_data : ℕ → Server → TunnelId → Tunnel → DeviceId → Bytes → Server
relay_data now s id tunnel other payload =
    let touched = touch_tunnel now s id in
    elim (forward_data touched other id payload) [
      | some s' ↦ s'
      | none ↦
          forward_close (forward_close (remove_tunnel touched id) tunnel.requester_device_id id)
            tunnel.target_device_id id
    ]

abbrev pub relay_payload : ℕ → Server → TunnelId → Tunnel → DeviceId → Bytes → Server
relay_payload now s id tunnel other [] = forward_close (remove_tunnel s id) other id
relay_payload now s id tunnel other (b ∷ bs) = relay_data now s id tunnel other (b ∷ bs)

unfoldable pub route_frame : ℕ → Server → DeviceId → TunnelId → Bytes → Server
unfolding relay_data
route_frame now s from_device_id id payload = elim (get s.registry.tunnels id) [
  | none ↦ s
  | some tunnel ↦ elim (other_party tunnel from_device_id) [
    | none ↦ s
    | some other ↦ relay_payload now s id tunnel other payload
  ]
]

unfoldable pub handle_tunnel_frame : ℕ → Server → DeviceId → Bytes → Server
handle_tunnel_frame now s from_device_id frame = elim (decode_tunnel_frame frame) [
  | none ↦ s
  | some decoded ↦ route_frame now s from_device_id decoded.0 decoded.1
]

abbrev pub is_party : DeviceId → Tunnel → Bool
is_party device_id tunnel =
    same tunnel.requester_device_id device_id || same tunnel.target_device_id device_id

-- The ids of the device's tunnels, each with the device at the other end.
abbrev pub survivors : DeviceId → Map TunnelId Tunnel → List (TunnelId × DeviceId)
survivors device_id [] = []
survivors device_id (entry ∷ m) =
    let rest = survivors device_id m in
    if is_party device_id entry.1
    then (elim (other_party entry.1 device_id) [ none ↦ rest | some d ↦ (entry.0, d) ∷ rest ])
    else rest

abbrev pub notify : Server → List (TunnelId × DeviceId) → Server
notify s [] = s
notify s (item ∷ items) = notify (forward_close s item.1 item.0) items

unfoldable pub close_tunnels_for_device : Server → DeviceId → Server
close_tunnels_for_device s device_id =
    notify
      (with_tunnels s (retain (λ _ tunnel. not (is_party device_id tunnel)) s.registry.tunnels))
      (survivors device_id s.registry.tunnels)

abbrev pub is_expired : ℕ → Tunnel → Bool
is_expired now tunnel = leb tunnel_idle_timeout_seconds (now - tunnel.last_activity_unix)

-- The ids that `expired_tunnel_ids` gives, each with the device at either end.
abbrev pub expired_tunnels : ℕ → Map TunnelId Tunnel → List (TunnelId × DeviceId)
expired_tunnels now [] = []
expired_tunnels now (entry ∷ m) =
    let rest = expired_tunnels now m in
    if is_expired now entry.1
    then (entry.0, entry.1.requester_device_id) ∷ (entry.0, entry.1.target_device_id) ∷ rest
    else rest

-- One tick of the loop.
unfoldable pub reap_idle_tunnels : ℕ → Server → Server
reap_idle_tunnels now s =
    notify (with_tunnels s (retain (λ _ tunnel. not (is_expired now tunnel)) s.registry.tunnels))
      (expired_tunnels now s.registry.tunnels)

-- The removal of the channel, when the loop of a connection has ended, whatever ended it.
unfoldable pub remove_channel : Server → SocketId → DeviceId → Server
remove_channel s id device_id = record (set_phase s id channel_removed) {
  registry = record s.registry { connections = remove device_id s.registry.connections };
}

-- The removal of the kill switch that the device has by then, which drops it.
unfoldable pub remove_kill_switch : Server → SocketId → DeviceId → Server
unfolding kill_connection
remove_kill_switch s id device_id = kill_connection (set_phase s id switch_removed) device_id

-- The end of `serve_authenticated`.
unfoldable pub end_tunnels : Server → SocketId → DeviceId → Server
end_tunnels s id device_id = close_tunnels_for_device (set_phase s id tunnels_closed) device_id

-- The end of `handle_connection`.
unfoldable pub go_offline : Server → SocketId → DeviceId → Server
unfolding mark_offline
go_offline s id device_id = record (set_phase s id closed) {
  registry = mark_offline s.registry device_id;
}

-- The whole end, where no other task comes between.
unfoldable pub leave : Server → SocketId → DeviceId → Server
unfolding remove_channel remove_kill_switch end_tunnels go_offline
leave s id device_id =
    go_offline
      (end_tunnels (remove_kill_switch (remove_channel s id device_id) id device_id) id device_id)
      id device_id
