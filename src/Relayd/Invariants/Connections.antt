-- ===== src/Relayd/Invariants/Connections.antt =====
-- The connections of rust/choosh-relayd/src/ws.rs in every reachable state, and what a revocation does to them.
use choosh.Prelude.{
  ◌≡◌, sym, ap, ◌∙◌, inl, inr, true, none, some, arith, get_elem?, Option-cases, Bool-cases, get,
  modify, retain, not, same, bytes_eq, string_eq,
}
use choosh.Protocol.Relay.{DeviceId}
use choosh.Relayd.Acts.{
  Act, token_minted, token_consumed, device_added, device_revoked, sessions_changed,
  presence_changed, fcm_changed, fcm_dispatched, tunnel_opened, tunnel_touched, tunnels_retained,
  disconnected, killed, sent, accepted, moved, opened, started, delivered, Acts, none_yet, then_act,
}
use choosh.Relayd.Acts.OfSteps.{Step-Acts}
use choosh.Relayd.Requests.{revoke, revoke_device, revoke_phone_session}
use choosh.Relayd.Sockets.{Socket, Server, is_serving, new_server, kill_connection}
use choosh.Relayd.Sockets.Invariant.{IsValid}
use choosh.Relayd.Sockets.Preservation.{send_to-IsValid, kill_connection-IsValid}
use choosh.Relayd.Sockets.Serving.{
  new_server-IsValid, accept-IsValid, deliver-IsValid, get-kill_connection,
}
use choosh.Relayd.Sockets.Phases.{move-IsValid, open-IsValid, start-IsValid, disconnect-IsValid}
use choosh.Relayd.State.{SocketId}
use choosh.Relayd.Steps.{Setting, Reach, here, next, AllFresh}

Act-IsValid : {s t : Server} → Act s t → IsValid s → IsValid t
Act-IsValid (token_minted s _ _ _) v = record {
  switched = v.switched;
  routed = v.routed;
  bounded = v.bounded;
}
Act-IsValid (token_consumed s _) v = record {
  switched = v.switched;
  routed = v.routed;
  bounded = v.bounded;
}
Act-IsValid (device_added s _ _ _) v = record {
  switched = v.switched;
  routed = v.routed;
  bounded = v.bounded;
}
Act-IsValid (device_revoked s _) v = record {
  switched = v.switched;
  routed = v.routed;
  bounded = v.bounded;
}
Act-IsValid (sessions_changed s _) v = record {
  switched = v.switched;
  routed = v.routed;
  bounded = v.bounded;
}
Act-IsValid (presence_changed s _) v = record {
  switched = v.switched;
  routed = v.routed;
  bounded = v.bounded;
}
Act-IsValid (fcm_changed s _) v = record {
  switched = v.switched;
  routed = v.routed;
  bounded = v.bounded;
}
Act-IsValid (fcm_dispatched s _) v = record {
  switched = v.switched;
  routed = v.routed;
  bounded = v.bounded;
}
Act-IsValid (tunnel_opened s _ _ _ _ _) v = record {
  switched = v.switched;
  routed = v.routed;
  bounded = v.bounded;
}
Act-IsValid (tunnel_touched now s _) v = record {
  switched = v.switched;
  routed = v.routed;
  bounded = v.bounded;
}
Act-IsValid (tunnels_retained s _) v = record {
  switched = v.switched;
  routed = v.routed;
  bounded = v.bounded;
}
Act-IsValid (disconnected s i d socket at device) v = disconnect-IsValid s i d socket at device v
Act-IsValid (moved s i p socket at off still) v = move-IsValid s i p socket at off still v
Act-IsValid (opened s i d socket at device) v = open-IsValid s i d socket at device v
Act-IsValid (killed s d) v = kill_connection-IsValid s d v
Act-IsValid (sent s s' d wire h) v = send_to-IsValid s s' d wire h v
Act-IsValid (accepted s d c) v = accept-IsValid s d c v
Act-IsValid (started s i d socket at device free) v = start-IsValid s i d socket at device free v
Act-IsValid (delivered s i) v = deliver-IsValid s i v

Acts-IsValid : {s t : Server} → Acts s t → IsValid s → IsValid t
Acts-IsValid none_yet v = v
Acts-IsValid (then_act a b) v = Act-IsValid b (Acts-IsValid a v)

Reach-IsValid' : {g : Setting} {s t : Server} (r : Reach g s t) → AllFresh r → IsValid s → IsValid t
Reach-IsValid' here _ v = v
Reach-IsValid' (next r st) (new, fresh) v =
    Acts-IsValid (Step-Acts _ st new) (Reach-IsValid' r fresh v)

-- In every state that the relay reaches from its start, whatever its clients do, by steps in which a random token,
-- tunnel id or device id is new to the registry: each socket that serves and is not killed has its own kill switch in
-- the registry under its device; the connection that the registry has for a device is a socket of this device
-- that serves or has only its kill switch still to add; and no outbound channel holds more than 256 items. A connection
-- begins and ends in several steps here, one for each change of the registry, and the answer to one frame is one step.
pub Reach-IsValid : {g : Setting} {s : Server} (r : Reach g new_server s) → AllFresh r → IsValid s
Reach-IsValid r fresh = Reach-IsValid' r fresh new_server-IsValid

-- Without a kill switch, whatever serves the device is killed.
no_switch :
    (s : Server) (d : DeviceId) (i : SocketId) (socket : Socket)
    → IsValid s
    → get s.registry.kill_switches d ≡ none
    → get_elem? s.sockets i ≡ some socket
    → is_serving socket ≡ true
    → socket.device_id ≡ d
    → socket.killed ≡ true
no_switch s d i socket v free at serves own = elim (Bool-cases socket.killed) [
  | inl dead ↦ dead
  | inr alive ↦
      let held = v.switched i socket at serves alive in
      let held' : get s.registry.kill_switches d ≡ some i =
        ap (get s.registry.kill_switches) (sym own) ∙ held in
      absurd (ground arith)
]

-- When a device that the registry knows is revoked, every socket that serves the device, the ones of earlier
-- connections included, is killed. This is so in every state that the relay reaches from its start by steps in which a
-- random token, tunnel id or device id is new to the registry.
pub revoke_device-kills :
    {g : Setting} (s : Server) (d : DeviceId) (i : SocketId) (socket : Socket)
    (r : Reach g new_server s)
    → AllFresh r
    → (revoke_device s d).1 ≡ true
    → get_elem? (revoke_device s d).0.sockets i ≡ some socket
    → is_serving socket ≡ true
    → socket.device_id ≡ d
    → socket.killed ≡ true
unfolding revoke_device
revoke_device-kills s d i socket r fresh found = elim (Option-cases (get s.registry.devices d)) [
  | inl e ↦ absurd (ground arith)
  | inr (device, e) ↦
      rw (revoke_device, e)
        (λ at serves own.
          let marked : Server = record s {
            registry = record s.registry { devices = modify d revoke s.registry.devices };
          } in
          let v = Reach-IsValid r fresh in
          no_switch (kill_connection marked d) d i socket
            (kill_connection-IsValid marked d
              (record { switched = v.switched; routed = v.routed; bounded = v.bounded }))
            (get-kill_connection marked d) at serves own)
]

-- The same for the sessions of a phone, found or not.
pub revoke_phone_session-kills :
    {g : Setting} (s : Server) (d : DeviceId) (i : SocketId) (socket : Socket)
    (r : Reach g new_server s)
    → AllFresh r
    → get_elem? (revoke_phone_session s d).0.sockets i ≡ some socket
    → is_serving socket ≡ true
    → socket.device_id ≡ d
    → socket.killed ≡ true
unfolding revoke_phone_session
revoke_phone_session-kills s d i socket r fresh at serves own =
    let v = Reach-IsValid r fresh in
    let without : Server = record s {
      registry = record s.registry {
        phone_sessions =
            retain (λ _ session. not (same session.device_id d)) s.registry.phone_sessions;
      };
    } in
    no_switch (kill_connection without d) d i socket
      (kill_connection-IsValid without d
        (record { switched = v.switched; routed = v.routed; bounded = v.bounded }))
      (get-kill_connection without d) at serves own
