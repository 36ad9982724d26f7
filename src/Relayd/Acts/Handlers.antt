-- ===== src/Relayd/Acts/Handlers.antt =====
-- The handlers of requests in rust/choosh-relayd/src/ws.rs, as elementary acts.
use choosh.Prelude.{
  ℕ, ◌+◌, ◌≡◌, inl, inr, Bool, true, false, not, List, [], ◌∷◌, ◌++◌, Option, some, arith,
  if◌then◌else◌, if_elim, Option-cases, Bool-cases, String, Outcome, Outcome-cases, done, failed,
  same, get, contains_key, insert, modify, retain, string_eq, bytes_eq,
}
use choosh.Protocol.Relay.{
  DeviceId, IdentityClass, phone, laptop_proxy, devhost, same_class, WireAgentEvent, ControlRequest,
  enroll, request_enrollment_token, list_devhosts, list_devhost_ssh_endpoints, open_tunnel,
  agent_event, register_fcm_token, revoke_device as revoke_device_request,
  revoke_phone_session as revoke_phone_session_request, ServerPush, tunnel_offered,
  agent_event as event_push,
}
use choosh.Protocol.TunnelFrame.{encode_tunnel_id_hex}
use choosh.Relayd.Access.{Authenticated}
use choosh.Relayd.Acts.{
  token_minted, device_revoked, sessions_changed, fcm_changed, fcm_dispatched, tunnel_opened,
  killed, Acts, none_yet, one-Act, Acts-trans,
}
use choosh.Relayd.Acts.Sending.{send_best_effort-Acts}
use choosh.Relayd.Dispatch.{phone_ids, route_to_phone, route_to_phones, route_agent_event, dispatch}
use choosh.Relayd.Listings.{Env, is_devhost}
use choosh.Relayd.Requests.{
  Answer, target_permitted, check_open_tunnel_permitted, push_to, push_tunnel_offered,
  handle_open_tunnel, revoke, revoke_device, revoke_phone_session,
}
use choosh.Relayd.Sockets.{Server}
use choosh.Relayd.State.{EnrolledDevice, Registry, Tunnel, enrollment_token_validity_seconds}
use choosh.Relayd.Steps.{Fresh}
use choosh.Relayd.Tunnels.{with_tunnels}
use choosh.Relayd.Wire.{encode_control}

push_to-Acts :
    (env : Env) (s : Server) (d : DeviceId) (push : ServerPush) → Acts s (push_to env s d push)
unfolding push_to
push_to-Acts env s d push = elim (Outcome-cases (encode_control env.push_json push)) [
  | inl (wire, e) ↦ rw (push_to, e) (send_best_effort-Acts s d wire)
  | inr (_, e) ↦ rw (push_to, e) none_yet
]

target_permitted-eq_done :
    (r : Registry) (target : DeviceId) (b : Bool)
    → target_permitted r target ≡ done b
    → (device : EnrolledDevice) × (get r.devices target ≡ some device) × (is_devhost device ≡ true)
target_permitted-eq_done r target b h = elim (Option-cases (get r.devices target)) [
  | inl e ↦ absurd (ground arith)
  | inr (device, e) ↦ elim (Bool-cases (is_devhost device)) [
    | inl ok ↦ (device, e, ok)
    | inr ko ↦ absurd (ground arith)
  ]
]

guard :
    (test : Bool) (o : Outcome String Bool) (b : Bool)
    → (if test then o else failed "not_permitted") ≡ done b
    → o ≡ done b
guard true o b h = h
guard false o b h = ground arith

-- Where a tunnel is permitted, its target is.
pub check_open_tunnel_permitted-eq_done :
    (r : Registry) (c : IdentityClass) (target : DeviceId) (purpose : String) (b : Bool)
    → check_open_tunnel_permitted r c target purpose ≡ done b
    → target_permitted r target ≡ done b
unfolding check_open_tunnel_permitted
check_open_tunnel_permitted-eq_done r phone target purpose b h = h
check_open_tunnel_permitted-eq_done r laptop_proxy target purpose b h =
    guard (same purpose "ssh") (target_permitted r target) b h
check_open_tunnel_permitted-eq_done r devhost target purpose b h =
    guard (same purpose "offload") (target_permitted r target) b h

handle_open_tunnel-Acts :
    (env : Env) (s : Server) (who : Authenticated) (r : String) (target : DeviceId)
    (purpose : String)
    → Acts s (handle_open_tunnel env s who r target purpose).0
unfolding handle_open_tunnel push_tunnel_offered
handle_open_tunnel-Acts env s who r target purpose =
    elim (Outcome-cases
      (check_open_tunnel_permitted s.registry who.identity_class target purpose)) [
        | inr (_, e) ↦ rw (handle_open_tunnel, e) none_yet
        | inl (b, e) ↦ elim (Bool-cases (contains_key s.registry.online_devices target)) [
          | inr off ↦ rw (handle_open_tunnel, e, off) none_yet
          | inl on ↦
              let (device, found, live) = target_permitted-eq_done s.registry target b (
                check_open_tunnel_permitted-eq_done s.registry who.identity_class target purpose b
                  e) in
              let tunnel : Tunnel = record {
                requester_device_id = who.device_id;
                target_device_id = target;
                purpose = purpose;
                last_activity_unix = env.now;
              } in
              rw (handle_open_tunnel, e, on)
                (Acts-trans
                  (one-Act (tunnel_opened s env.generate_tunnel_id tunnel device found live))
                  (push_to-Acts env
                    (with_tunnels s (insert env.generate_tunnel_id tunnel s.registry.tunnels))
                    target
                    (tunnel_offered (encode_tunnel_id_hex env.generate_tunnel_id) who.device_id
                      purpose)))
        ]
      ]

pub revoke_device-Acts : (s : Server) (d : DeviceId) → Acts s (revoke_device s d).0
unfolding revoke_device
revoke_device-Acts s d = elim (Option-cases (get s.registry.devices d)) [
  | inl e ↦ rw (revoke_device, e) none_yet
  | inr (device, e) ↦
      rw (revoke_device, e)
        (Acts-trans (one-Act (device_revoked s d)) (
          one-Act (
            killed
              (record s {
                registry = record s.registry { devices = modify d revoke s.registry.devices };
              })
              d)))
]

pub revoke_phone_session-Acts : (s : Server) (d : DeviceId) → Acts s (revoke_phone_session s d).0
unfolding revoke_phone_session
revoke_phone_session-Acts s d =
    let sessions = retain (λ _ session. not (same session.device_id d)) s.registry.phone_sessions in
    Acts-trans (one-Act (sessions_changed s sessions))
      (one-Act (killed (record s { registry = record s.registry { phone_sessions = sessions } }) d))

route_to_phone-Acts :
    (env : Env) (from : DeviceId) (event : WireAgentEvent) (n : Option ℕ) (s : Server)
    (d : DeviceId)
    → Acts s (route_to_phone env from event n s d)
unfolding route_to_phone
route_to_phone-Acts env from event n s d =
    elim (Bool-cases (contains_key s.registry.online_devices d)) [
      | inl on ↦ rw (route_to_phone, on) (push_to-Acts env s d (event_push from event n))
      | inr off ↦ elim (Option-cases (get s.registry.fcm_tokens d)) [
        | inl e ↦ rw (route_to_phone, off, e) none_yet
        | inr (token, e) ↦
            rw (route_to_phone, off, e)
              (one-Act (
                fcm_dispatched s (
                  s.spawned
                  ++ record { token = token; from_device_id = from; event = event } ∷ [])))
      ]
    ]

route_to_phones-Acts :
    (env : Env) (from : DeviceId) (event : WireAgentEvent) (n : Option ℕ) (s : Server)
    (ids : List DeviceId)
    → Acts s (route_to_phones env from event n s ids)
route_to_phones-Acts env from event n s [] = none_yet
route_to_phones-Acts env from event n s (d ∷ ids) =
    Acts-trans (route_to_phone-Acts env from event n s d)
      (route_to_phones-Acts env from event n (route_to_phone env from event n s d) ids)

pub dispatch-Acts :
    (env : Env) (s : Server) (who : Authenticated) (request : ControlRequest)
    → Fresh env s
    → Acts s (dispatch env s who request).0
unfolding dispatch route_agent_event
dispatch-Acts env s who (request_enrollment_token r c) (fresh, _) =
    if_elim {A = Answer} (λ answer. Acts s answer.0) (same_class who.identity_class phone)
      (one-Act (
        token_minted s env.generate_token
          (record {
            identity_class = c;
            expires_at_unix = env.now + enrollment_token_validity_seconds;
            consumed = false;
          })
          fresh))
      none_yet
dispatch-Acts env s who (list_devhosts r) f =
    if_elim {A = Answer} (λ answer. Acts s answer.0) (same_class who.identity_class phone) none_yet
      none_yet
dispatch-Acts env s who (list_devhost_ssh_endpoints r) f =
    if_elim {A = Answer} (λ answer. Acts s answer.0) (same_class who.identity_class laptop_proxy)
      none_yet none_yet
dispatch-Acts env s who (open_tunnel r target purpose) f =
    handle_open_tunnel-Acts env s who r target purpose
dispatch-Acts env s who (agent_event r event n) f =
    if_elim {A = Answer} (λ answer. Acts s answer.0) (same_class who.identity_class devhost)
      (route_to_phones-Acts env who.device_id event n s (phone_ids s.registry.phone_sessions))
      none_yet
dispatch-Acts env s who (register_fcm_token r token) f =
    if_elim {A = Answer} (λ answer. Acts s answer.0) (same_class who.identity_class phone)
      (one-Act (fcm_changed s (insert who.device_id token s.registry.fcm_tokens))) none_yet
dispatch-Acts env s who (revoke_device_request r d) f =
    if_elim {A = Answer} (λ answer. Acts s answer.0) (same_class who.identity_class phone)
      (revoke_device-Acts s d) none_yet
dispatch-Acts env s who (revoke_phone_session_request r d) f =
    if_elim {A = Answer} (λ answer. Acts s answer.0) (same_class who.identity_class phone)
      (revoke_phone_session-Acts s d) none_yet
dispatch-Acts env s who (enroll r e) f = none_yet
