-- ===== src/Relayd/Acts.antt =====
-- The elementary acts that the operations of rust/choosh-relayd/src/ws.rs are made of, each one change under one
-- lock. An invariant that every act keeps is kept by every step.
pub mod Sending
pub mod Handlers
pub mod OfSteps
use choosh.Prelude.{
  ℕ, ◌≡◌, Bool, true, false, List, Option, none, some, get_elem?, String, Bytes, Map, get, insert,
  retain, remove, modify, string_eq, bytes_eq,
}
use choosh.Protocol.Relay.{DeviceId, TunnelId, IdentityClass}
use choosh.Relayd.Listings.{is_devhost}
use choosh.Relayd.Requests.{revoke}
use choosh.Relayd.Access.{consume, Sessions}
use choosh.Relayd.Sockets.{
  FcmDispatch, Socket, Server, send_to, kill_connection, accept, set_phase, deliver, Phase,
  channel_open, serving, channel_removed, routes, is_routed,
}
use choosh.Relayd.State.{EnrolledDevice, EnrollmentToken, Registry, SocketId, Tunnel}
use choosh.Relayd.Tunnels.{with_tunnels, touch_tunnel}

pub data Act : Server → Server → Type 0 where
  token_minted :
      (s : Server) (token : String) (entry : EnrollmentToken)
      → get s.registry.tokens token ≡ none
      → Act s (record s {
        registry = record s.registry { tokens = insert token entry s.registry.tokens };
      })
  token_consumed :
      (s : Server) (token : String)
      → Act s (record s {
        registry = record s.registry { tokens = modify token consume s.registry.tokens };
      })
  device_added :
      (s : Server) (device_id : DeviceId) (device : EnrolledDevice)
      → get s.registry.devices device_id ≡ none
      → Act s (record s {
        registry = record s.registry { devices = insert device_id device s.registry.devices };
      })
  device_revoked :
      (s : Server) (device_id : DeviceId)
      → Act s (record s {
        registry = record s.registry { devices = modify device_id revoke s.registry.devices };
      })
  sessions_changed :
      (s : Server) (sessions : Sessions)
      → Act s (record s { registry = record s.registry { phone_sessions = sessions } })
  presence_changed :
      (s : Server) (online : Map DeviceId ℕ)
      → Act s (record s { registry = record s.registry { online_devices = online } })
  fcm_changed :
      (s : Server) (tokens : Map DeviceId String)
      → Act s (record s { registry = record s.registry { fcm_tokens = tokens } })
  fcm_dispatched : (s : Server) (all : List FcmDispatch) → Act s (record s { spawned = all })
  tunnel_opened :
      (s : Server) (id : TunnelId) (tunnel : Tunnel) (target : EnrolledDevice)
      → get s.registry.devices tunnel.target_device_id ≡ some target
      → is_devhost target ≡ true
      → Act s (with_tunnels s (insert id tunnel s.registry.tunnels))
  tunnel_touched : (now : ℕ) (s : Server) (id : TunnelId) → Act s (touch_tunnel now s id)
  tunnels_retained :
      (s : Server) (p : TunnelId → Tunnel → Bool)
      → Act s (with_tunnels s (retain p s.registry.tunnels))
  disconnected :
      (s : Server) (i : SocketId) (device_id : DeviceId) (socket : Socket)
      → get_elem? s.sockets i ≡ some socket
      → socket.device_id ≡ device_id
      → Act s (record (set_phase s i channel_removed) {
        registry = record s.registry { connections = remove device_id s.registry.connections };
      })
  killed : (s : Server) (device_id : DeviceId) → Act s (kill_connection s device_id)
  sent :
      (s s' : Server) (device_id : DeviceId) (wire : Bytes)
      → send_to s device_id wire ≡ some s'
      → Act s s'
  accepted : (s : Server) (device_id : DeviceId) (c : IdentityClass) → Act s (accept s device_id c)
  moved :
      (s : Server) (i : SocketId) (p : Phase) (socket : Socket)
      → get_elem? s.sockets i ≡ some socket
      → is_routed socket ≡ false
      → routes p ≡ false
      → Act s (set_phase s i p)
  opened :
      (s : Server) (i : SocketId) (device_id : DeviceId) (socket : Socket)
      → get_elem? s.sockets i ≡ some socket
      → socket.device_id ≡ device_id
      → Act s (record (set_phase s i channel_open) {
        registry = record s.registry { connections = insert device_id i s.registry.connections };
      })
  started :
      (s : Server) (i : SocketId) (device_id : DeviceId) (socket : Socket)
      → get_elem? s.sockets i ≡ some socket
      → socket.device_id ≡ device_id
      → get s.registry.kill_switches device_id ≡ none
      → Act s (record (set_phase s i serving) {
        registry = record s.registry {
          kill_switches = insert device_id i s.registry.kill_switches;
        };
      })
  delivered : (s : Server) (i : SocketId) → Act s (deliver s i)

pub data Acts (s : Server) : Server → Type 0 where
  none_yet : Acts s s
  then_act : {t u : Server} → Acts s t → Act t u → Acts s u

pub one-Act : {s t : Server} → Act s t → Acts s t
one-Act a = then_act none_yet a

pub Acts-trans : {s t u : Server} → Acts s t → Acts t u → Acts s u
Acts-trans a none_yet = a
Acts-trans a (then_act b c) = then_act (Acts-trans a b) c
