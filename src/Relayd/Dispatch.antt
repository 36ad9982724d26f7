-- ===== src/Relayd/Dispatch.antt =====
-- rust/choosh-relayd/src/ws.rs: `dispatch`, from a request of an authenticated client to its handler, and the
-- fan-out of agent events.
use choosh.Prelude.{
  ℕ, ◌+◌, Bool, false, ◌||◌, ◌++◌, List, [], ◌∷◌, Option, none, some, if◌then◌else◌, String, Map,
  get, contains_key, insert, same, string_eq, bytes_eq,
}
use choosh.Protocol.Relay.{
  DeviceId, IdentityClass, phone, laptop_proxy, devhost, WireAgentEvent, ControlRequest, enroll,
  request_enrollment_token, list_devhosts, list_devhost_ssh_endpoints, open_tunnel, agent_event,
  register_fcm_token, revoke_device as revoke_device_request,
  revoke_phone_session as revoke_phone_session_request, request_enrollment_token_ok, agent_event_ok,
  register_fcm_token_ok, revoke_device_ok, revoke_phone_session_ok, agent_event as event_push,
}
use choosh.Relayd.Access.{Authenticated}
use choosh.Relayd.Sockets.{Server}
use choosh.Relayd.State.{PhoneSession, enrollment_token_validity_seconds}
use choosh.Relayd.Listings.{Env, handle_list_devhosts, list_ssh_endpoints}
use choosh.Relayd.Requests.{
  Answer, not_permitted, require_identity_class, push_to, handle_open_tunnel, revoke_device,
  revoke_phone_session, revoke_response,
}

-- The ids of the phones that have a session, each once.
abbrev pub mem_device : DeviceId → List DeviceId → Bool
mem_device device_id [] = false
mem_device device_id (d ∷ ds) = same device_id d || mem_device device_id ds

abbrev pub phone_ids : Map String PhoneSession → List DeviceId
phone_ids [] = []
phone_ids (entry ∷ m) =
    let rest = phone_ids m in
    if mem_device entry.1.device_id rest then rest else entry.1.device_id ∷ rest

-- One phone of the fan-out: a push if it is online, else a dispatch through Firebase if it has a token.
unfoldable pub route_to_phone :
    Env → DeviceId → WireAgentEvent → Option ℕ → Server → DeviceId → Server
unfolding push_to
route_to_phone env from event sequence s phone_id =
    if contains_key s.registry.online_devices phone_id
    then push_to env s phone_id (event_push from event sequence)
    else (elim (get s.registry.fcm_tokens phone_id) [
      | none ↦ s
      | some token ↦ record s {
        spawned = s.spawned ++ record { token = token; from_device_id = from; event = event } ∷ [];
      }
    ])

abbrev pub route_to_phones :
    Env → DeviceId → WireAgentEvent → Option ℕ → Server → List DeviceId → Server
route_to_phones env from event sequence s [] = s
route_to_phones env from event sequence s (phone_id ∷ ids) =
    route_to_phones env from event sequence (route_to_phone env from event sequence s phone_id) ids

unfoldable pub route_agent_event : Env → Server → DeviceId → WireAgentEvent → Option ℕ → Server
unfolding route_to_phone
route_agent_event env s from event sequence =
    route_to_phones env from event sequence s (phone_ids s.registry.phone_sessions)

abbrev pub mint_token : Env → Server → String → IdentityClass → Answer
mint_token env s request_id identity_class =
    let expires_at_unix = env.now + enrollment_token_validity_seconds in
    (
      record s {
        registry = record s.registry {
          tokens =
              insert env.generate_token
                (record {
                  identity_class = identity_class;
                  expires_at_unix = expires_at_unix;
                  consumed = false;
                })
                s.registry.tokens;
        };
      },
      request_enrollment_token_ok request_id env.generate_token (env.format_unix expires_at_unix),
    )

abbrev pub register_token : Server → DeviceId → String → Server
register_token s device_id fcm_token = record s {
  registry = record s.registry { fcm_tokens = insert device_id fcm_token s.registry.fcm_tokens };
}

unfoldable pub dispatch : Env → Server → Authenticated → ControlRequest → Answer
unfolding handle_open_tunnel revoke_device revoke_phone_session revoke_response route_agent_event
    not_permitted handle_list_devhosts list_ssh_endpoints
dispatch env s who (request_enrollment_token r identity_class) =
    require_identity_class s who phone "request-enrollment-token" r
      (mint_token env s r identity_class)
dispatch env s who (list_devhosts r) =
    require_identity_class s who phone "list-devhosts" r (s, handle_list_devhosts env s.registry r)
dispatch env s who (list_devhost_ssh_endpoints r) =
    require_identity_class s who laptop_proxy "list-devhost-ssh-endpoints" r
      (s, list_ssh_endpoints env s.registry r)
dispatch env s who (open_tunnel r target purpose) = handle_open_tunnel env s who r target purpose
dispatch env s who (agent_event r event sequence) =
    require_identity_class s who devhost "agent-event" r
      (route_agent_event env s who.device_id event sequence, agent_event_ok r)
dispatch env s who (register_fcm_token r fcm_token) =
    require_identity_class s who phone "register-fcm-token" r
      (register_token s who.device_id fcm_token, register_fcm_token_ok r)
dispatch env s who (revoke_device_request r device_id) =
    let (revoked, found) = revoke_device s device_id in
    require_identity_class s who phone "revoke-device" r (
      revoked,
      revoke_response found "no enrolled device with this device_id" r device_id revoke_device_ok,
    )
dispatch env s who (revoke_phone_session_request r device_id) =
    let (revoked, removed) = revoke_phone_session s device_id in
    require_identity_class s who phone "revoke-phone-session" r (
      revoked,
      revoke_response removed "no phone session recorded for this device_id" r device_id
          revoke_phone_session_ok,
    )
dispatch env s who (enroll r _) = (s, not_permitted r "enroll")
