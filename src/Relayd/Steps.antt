-- ===== src/Relayd/Steps.antt =====
-- rust/choosh-relayd/src/ws.rs: the steps of the whole relay. The tasks of the connections take turns: other tasks may
-- run between any two changes that the beginning and the end of a connection make to the registry. The answer to one frame
-- is one step.
use choosh.Prelude.{
  ℕ, ◌+◌, ◌≡◌, Bool, true, false, none, some, get_elem?, String, Bytes, done, get, insert,
  string_eq, bytes_eq,
}
use choosh.Protocol.Relay.{
  DeviceId, devhost, DeviceAuth, Enrolment, ControlRequest, ControlResponse,
}
use choosh.Relayd.Access.{
  Authenticated, authenticate_device, authenticate_phone, Sessions, handle_enroll,
}
use choosh.Relayd.Ca.{Crypto}
use choosh.Relayd.Listings.{Env}
use choosh.Relayd.Serve.{serve_frame}
use choosh.Relayd.Sockets.{
  authenticated, marked_online, channel_open, channel_removed, switch_removed, tunnels_closed,
  Socket, Server, is_serving, accept, announce, add_channel, add_kill_switch, deliver,
}
use choosh.Relayd.State.{
  Registry, SocketId, enrollment_token_validity_seconds, session_credential_validity_seconds,
}
use choosh.Relayd.Tunnels.{
  remove_channel, remove_kill_switch, end_tunnels, go_offline, reap_idle_tunnels,
}
use choosh.Relayd.Wire.{Json}

-- What the relay runs with: the crates, the key of its authority, and the JSON of requests and responses.
pub record Setting : Type 0 where
  pub crypto : Crypto
  pub ca_key : Bytes
  pub requests : Json ControlRequest
  pub responses : Json ControlResponse

abbrev pub with_registry : Server → Registry → Server
with_registry s r = record s { registry = r }

abbrev pub with_sessions : Server → Sessions → Server
with_sessions s sessions = record s { registry = record s.registry { phone_sessions = sessions } }

abbrev pub as_authenticated : Socket → Authenticated
as_authenticated socket = record {
  device_id = socket.device_id;
  identity_class = socket.identity_class;
}

unfoldable pub dev_mint_enrollment_token : Env → Server → Server
dev_mint_enrollment_token env s = record s {
  registry = record s.registry {
    tokens =
        insert env.generate_token
          (record {
            identity_class = devhost;
            expires_at_unix = env.now + enrollment_token_validity_seconds;
            consumed = false;
          })
          s.registry.tokens;
  };
}

-- `mint_session` of rust/choosh-relayd/src/webauthn.rs, behind a successful ceremony; the credential and the device id
-- of the phone are drawn at random.
unfoldable pub mint_session : ℕ → String → DeviceId → Server → Server
mint_session now credential device_id s = with_sessions s (
    insert credential
      (record {
        device_id = device_id;
        expires_at_unix = now + session_credential_validity_seconds;
      })
      s.registry.phone_sessions)

pub data Step (g : Setting) : Server → Server → Type 0 where
  device_accepted :
      (s : Server) (now : ℕ) (nonce : Bytes) (auth : DeviceAuth) (who : Authenticated)
      → authenticate_device g.crypto g.ca_key now s.registry nonce auth ≡ done who
      → Step g s (accept s who.device_id who.identity_class)
  session_minted :
      (s : Server) (now : ℕ) (credential : String) (device_id : DeviceId)
      → Step g s (mint_session now credential device_id s)
  phone_accepted :
      (s : Server) (now : ℕ) (credential : String) (sessions : Sessions) (who : Authenticated)
      → authenticate_phone now s.registry.phone_sessions credential ≡ (sessions, done who)
      → Step g s (accept (with_sessions s sessions) who.device_id who.identity_class)
  phone_refused :
      (s : Server) (now : ℕ) (credential : String)
      → Step g s (with_sessions s (authenticate_phone now s.registry.phone_sessions credential).0)
  announced :
      (s : Server) (now : ℕ) (i : SocketId) (socket : Socket)
      → get_elem? s.sockets i ≡ some socket
      → socket.phase ≡ authenticated
      → Step g s (announce now s i socket.device_id)
  channel_added :
      (s : Server) (i : SocketId) (socket : Socket)
      → get_elem? s.sockets i ≡ some socket
      → socket.phase ≡ marked_online
      → Step g s (add_channel s i socket.device_id)
  registered :
      (s : Server) (i : SocketId) (socket : Socket)
      → get_elem? s.sockets i ≡ some socket
      → socket.phase ≡ channel_open
      → Step g s (add_kill_switch s i socket.device_id)
  frame_served :
      (s : Server) (env : Env) (allowed : Bool) (i : SocketId) (socket : Socket) (frame : Bytes)
      → get_elem? s.sockets i ≡ some socket
      → is_serving socket ≡ true
      → Step g s
          (serve_frame g.requests g.responses env allowed s (as_authenticated socket) frame).server
  item_taken : (s : Server) (i : SocketId) → Step g s (deliver s i)
  left :
      (s : Server) (i : SocketId) (socket : Socket)
      → get_elem? s.sockets i ≡ some socket
      → is_serving socket ≡ true
      → Step g s (remove_channel s i socket.device_id)
  switched_off :
      (s : Server) (i : SocketId) (socket : Socket)
      → get_elem? s.sockets i ≡ some socket
      → socket.phase ≡ channel_removed
      → Step g s (remove_kill_switch s i socket.device_id)
  tunnels_ended :
      (s : Server) (i : SocketId) (socket : Socket)
      → get_elem? s.sockets i ≡ some socket
      → socket.phase ≡ switch_removed
      → Step g s (end_tunnels s i socket.device_id)
  gone_offline :
      (s : Server) (i : SocketId) (socket : Socket)
      → get_elem? s.sockets i ≡ some socket
      → socket.phase ≡ tunnels_closed
      → Step g s (go_offline s i socket.device_id)
  enrolled :
      (s : Server) (now : ℕ) (device_id : DeviceId) (request_id : String) (e : Enrolment)
      → Step g s (
          with_registry s (handle_enroll g.crypto g.ca_key now device_id s.registry request_id e).0)
  minted : (s : Server) (env : Env) → Step g s (dev_mint_enrollment_token env s)
  reaped : (s : Server) (now : ℕ) → Step g s (reap_idle_tunnels now s)

-- What any number of steps makes of a server.
pub data Reach (g : Setting) (s : Server) : Server → Type 0 where
  here : Reach g s s
  next : {t u : Server} → Reach g s t → Step g t u → Reach g s u

-- The token and the tunnel id that the environment draws at random are ones that the registry does not have.
abbrev pub Fresh : Env → Server → Type 0
Fresh env s =
    (get s.registry.tokens env.generate_token ≡ none)
    × (get s.registry.tunnels env.generate_tunnel_id ≡ none)

-- The random token, tunnel id or device id of a step is new to the registry.
abbrev pub IsFresh : {g : Setting} {s t : Server} → Step g s t → Type 0
IsFresh (frame_served s env allowed i socket frame at serves) = Fresh env s
IsFresh (enrolled s now device_id request_id e) = get s.registry.devices device_id ≡ none
IsFresh (minted s env) = Fresh env s
IsFresh _ = Unit {0}

-- The same for all steps of a run.
abbrev pub AllFresh : {g : Setting} {s t : Server} → Reach g s t → Type 0
AllFresh here = Unit {0}
AllFresh (next r st) = IsFresh st × AllFresh r
