-- ===== src/Relayd/Tunnels/Routing.antt =====
-- Where the tunnel frames of rust/choosh-relayd/src/ws.rs go.
use choosh.Prelude.{◌≡◌, ◌⊎◌, some, get_elem?, nat_eq, bytes_eq}
use choosh.Protocol.Relay.{DeviceId}
use choosh.Relayd.State.{SocketId, Tunnel}
use choosh.Relayd.Sockets.{Socket, Server}

-- A socket of another device is as it was.
abbrev Spares : Server → Server → DeviceId → Type 0
Spares s s' d =
    (i : SocketId) (socket : Socket)
    → get_elem? s.sockets i ≡ some socket
    → (get_elem? s'.sockets i ≡ some socket) ⊎ (socket.device_id ≡ d)

-- The device is one of the tunnel's parties.
abbrev pub IsParty : DeviceId → Tunnel → Type 0
IsParty d tunnel = (d ≡ tunnel.requester_device_id) ⊎ (d ≡ tunnel.target_device_id)

-- A socket stays as it was, or is one of a party's.
abbrev SparesOthers : Server → Server → Tunnel → Type 0
SparesOthers s s' tunnel =
    (i : SocketId) (socket : Socket)
    → get_elem? s.sockets i ≡ some socket
    → (get_elem? s'.sockets i ≡ some socket) ⊎ IsParty socket.device_id tunnel
