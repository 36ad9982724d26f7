-- ===== src/Relayd/Sockets.antt =====
-- rust/choosh-relayd/src/ws.rs: the connections, with the outbound channel and the kill switch of each. A socket
-- is a task that serves one client, and keeps its number when it has closed. The sender of a kill switch is owned by
-- the registry's map, so that removing or replacing it there drops it, and the task ends then as if it had fired.
pub mod Invariant
pub mod Preservation
pub mod Serving
pub mod Phases
use choosh.Prelude.{
  ℕ, ◌+◌, Bool, true, false, ◌&&◌, List, [], ◌∷◌, ◌++◌, Option, none, some, ltb, leb, if◌then◌else◌,
  length, get_elem?, update_at, String, Bytes, Map, get, insert, remove, modify, bytes_eq,
}
use choosh.Protocol.Framing.{encode_frame, ok, err}
use choosh.Protocol.Relay.{
  DeviceId, TunnelId, IdentityClass, WireAgentEvent, max_tunnel_frame_bytes,
}
use choosh.Protocol.TunnelFrame.{encode_tunnel_frame}
use choosh.Relayd.State.{Registry, SocketId, outbound_channel_capacity, new_registry}

-- Where a task stands: it has answered its client, has marked the device as online, has put its channel into the
-- registry, serves, and then has taken out its channel and its kill switch, has closed the tunnels, and has returned.
pub data Phase : Type 0 where
  authenticated marked_online channel_open serving : Phase
  channel_removed switch_removed tunnels_closed closed : Phase

-- `outbound` is what the channel holds, and `killed` tells that the kill switch fired or was dropped.
pub record Socket : Type 0 where
  pub device_id : DeviceId
  pub identity_class : IdentityClass
  pub phase : Phase
  pub killed : Bool
  pub outbound : List Bytes

-- A push through Firebase that a task of its own sends: the token, the device that reported, and the event.
pub record FcmDispatch : Type 0 where
  pub token : String
  pub from_device_id : DeviceId
  pub event : WireAgentEvent

pub record Server : Type 0 where
  pub registry : Registry
  pub sockets : List Socket
  pub spawned : List FcmDispatch

unfoldable pub new_server : Server
unfolding new_registry
new_server = record { registry = new_registry; sockets = []; spawned = [] }

abbrev pub serves : Phase → Bool
serves serving = true
serves _ = false

abbrev pub is_serving : Socket → Bool
is_serving socket = serves socket.phase

-- The channel can be in the registry.
abbrev pub routes : Phase → Bool
routes channel_open = true
routes serving = true
routes _ = false

abbrev pub is_routed : Socket → Bool
is_routed socket = routes socket.phase

-- The task has the receiving end of its channel.
abbrev pub receives : Phase → Bool
receives channel_open = true
receives serving = true
receives channel_removed = true
receives switch_removed = true
receives _ = false

abbrev pub has_receiver : Socket → Bool
has_receiver socket = receives socket.phase

abbrev pub kill : Socket → Socket
kill socket = record socket { killed = true }

abbrev pub enqueue : Bytes → Socket → Socket
enqueue wire socket = record socket { outbound = socket.outbound ++ wire ∷ [] }

-- `Sender::try_send`: none where the channel is full or its receiver is gone.
unfoldable pub try_send : Server → SocketId → Bytes → Option Server
try_send s id wire = elim (get_elem? s.sockets id) [
  | none ↦ none
  | some socket ↦
      if has_receiver socket && ltb (length socket.outbound) outbound_channel_capacity
      then some (record s { sockets = update_at id (enqueue wire) s.sockets })
      else none
]

-- The sender that `connections` has for a device, and `try_send` on it; none where either fails.
unfoldable pub send_to : Server → DeviceId → Bytes → Option Server
send_to s device_id wire = elim (get s.registry.connections device_id) [
  | none ↦ none
  | some id ↦ try_send s id wire
]

-- The same with the failure ignored.
unfoldable pub send_best_effort : Server → DeviceId → Bytes → Server
send_best_effort s device_id wire = elim (send_to s device_id wire) [ none ↦ s | some s' ↦ s' ]

unfoldable pub wire_tunnel_frame : TunnelId → Bytes → Option Bytes
wire_tunnel_frame tunnel_id payload =
    elim (encode_frame (encode_tunnel_frame tunnel_id payload) max_tunnel_frame_bytes) [
      | ok wire ↦ some wire
      | err _ ↦ none
    ]

unfoldable pub forward_data : Server → DeviceId → TunnelId → Bytes → Option Server
forward_data s to_device_id tunnel_id payload = elim (wire_tunnel_frame tunnel_id payload) [
  | none ↦ none
  | some wire ↦ send_to s to_device_id wire
]

unfoldable pub forward_close : Server → DeviceId → TunnelId → Server
forward_close s to_device_id tunnel_id = elim (wire_tunnel_frame tunnel_id []) [
  | none ↦ s
  | some wire ↦ send_best_effort s to_device_id wire
]

-- The kill switch of the device leaves the map, and the socket that it belongs to is killed.
unfoldable pub kill_connection : Server → DeviceId → Server
kill_connection s device_id = elim (get s.registry.kill_switches device_id) [
  | none ↦ s
  | some id ↦ record s {
    registry = record s.registry { kill_switches = remove device_id s.registry.kill_switches };
    sockets = update_at id kill s.sockets;
  }
]

unfoldable pub mark_online : ℕ → Registry → DeviceId → Registry
mark_online now r device_id = record r { online_devices = insert device_id now r.online_devices }

unfoldable pub mark_offline : Registry → DeviceId → Registry
mark_offline r device_id = record r { online_devices = remove device_id r.online_devices }

unfoldable pub registry_touch : ℕ → Registry → DeviceId → Registry
registry_touch now r device_id = record r {
  online_devices = modify device_id (λ _. now) r.online_devices;
}

-- A task that has authenticated its client.
unfoldable pub accept : Server → DeviceId → IdentityClass → Server
accept s device_id identity_class = record s {
  sockets =
      s.sockets
      ++ record {
        device_id = device_id;
        identity_class = identity_class;
        phase = authenticated;
        killed = false;
        outbound = [];
      }
        ∷ [];
}

abbrev pub with_phase : Phase → Socket → Socket
with_phase p socket = record socket { phase = p }

abbrev pub set_phase : Server → SocketId → Phase → Server
set_phase s id p = record s { sockets = update_at id (with_phase p) s.sockets }

-- `mark_online` in front of `serve_authenticated`.
unfoldable pub announce : ℕ → Server → SocketId → DeviceId → Server
unfolding mark_online
announce now s id device_id = record (set_phase s id marked_online) {
  registry = mark_online now s.registry device_id;
}

-- The insertion of the channel.
unfoldable pub add_channel : Server → SocketId → DeviceId → Server
add_channel s id device_id = record (set_phase s id channel_open) {
  registry = record s.registry { connections = insert device_id id s.registry.connections };
}

-- The insertion of the kill switch, which drops an old one.
unfoldable pub add_kill_switch : Server → SocketId → DeviceId → Server
unfolding kill_connection
add_kill_switch s id device_id =
    let s' = kill_connection s device_id in
    record (set_phase s' id serving) {
      registry = record s'.registry {
        kill_switches = insert device_id id s'.registry.kill_switches;
      };
    }

-- The whole beginning, where no other task comes between.
unfoldable pub register : ℕ → Server → SocketId → DeviceId → Server
unfolding announce add_channel add_kill_switch
register now s id device_id =
    add_kill_switch (add_channel (announce now s id device_id) id device_id) id device_id

-- The task takes the next item of its channel to write it to the client.
unfoldable pub deliver : Server → SocketId → Server
deliver s id = record s {
  sockets =
      update_at id
        (λ socket. record socket { outbound = elim socket.outbound [ [] ↦ [] | _ ∷ rest ↦ rest ] })
        s.sockets;
}
