-- ===== src/Relayd/Requests.antt =====
-- rust/choosh-relayd/src/ws.rs: the handlers of an authenticated client's requests, one by one.
use Prim.Native.String.{◌++◌ as append}
use choosh.Prelude.{
  ◌==◌, Bool, true, false, not, none, some, if◌then◌else◌, length, String, Outcome, done, failed,
  get, contains_key, insert, modify, retain, same, string_eq, bytes_eq,
}
use choosh.Protocol.Relay.{
  DeviceId, TunnelId, IdentityClass, phone, laptop_proxy, devhost, same_class, ControlResponse,
  open_tunnel_ok, error, ServerPush, tunnel_offered,
}
use choosh.Protocol.TunnelFrame.{encode_tunnel_id_hex}
use choosh.Relayd.Access.{Authenticated}
use choosh.Relayd.Sockets.{Server, send_best_effort, kill_connection}
use choosh.Relayd.State.{EnrolledDevice, Registry}
use choosh.Relayd.Tunnels.{with_tunnels}
use choosh.Relayd.Wire.{encode_control}
use choosh.Relayd.Listings.{Env, is_devhost}

abbrev pub Answer : Type 0
Answer = Server × ControlResponse

-- The target half of `check_open_tunnel_permitted`.
abbrev pub target_permitted : Registry → DeviceId → Outcome String Bool
target_permitted r target = elim (get r.devices target) [
  | none ↦ failed "not_permitted"
  | some device ↦ if is_devhost device then done true else failed "not_permitted"
]

unfoldable pub check_open_tunnel_permitted :
    Registry → IdentityClass → DeviceId → String → Outcome String Bool
check_open_tunnel_permitted r phone target purpose = target_permitted r target
check_open_tunnel_permitted r laptop_proxy target purpose =
    if same purpose "ssh" then target_permitted r target else failed "not_permitted"
check_open_tunnel_permitted r devhost target purpose =
    if same purpose "offload" then target_permitted r target else failed "not_permitted"

unfoldable pub not_permitted : String → String → ControlResponse
not_permitted request_id method =
    error request_id "not_permitted" (append method " is not permitted for this Identity class")

-- The guard that a request of one class starts with.
abbrev pub require_identity_class :
    Server → Authenticated → IdentityClass → String → String → Answer → Answer
require_identity_class s authenticated want method request_id permitted =
    if same_class authenticated.identity_class want
    then permitted
    else (s, not_permitted request_id method)

-- A push to a device that is connected, if it can be encoded and there is room.
unfoldable pub push_to : Env → Server → DeviceId → ServerPush → Server
push_to env s to_device_id push = elim (encode_control env.push_json push) [
  | failed _ ↦ s
  | done wire ↦ send_best_effort s to_device_id wire
]

unfoldable pub push_tunnel_offered : Env → Server → DeviceId → TunnelId → DeviceId → String → Server
push_tunnel_offered env s to_device_id tunnel_id from_device_id purpose =
    push_to env s to_device_id
      (tunnel_offered (encode_tunnel_id_hex tunnel_id) from_device_id purpose)

unfoldable pub handle_open_tunnel :
    Env → Server → Authenticated → String → DeviceId → String → Answer
unfolding check_open_tunnel_permitted push_tunnel_offered
handle_open_tunnel env s authenticated request_id target purpose =
    elim (check_open_tunnel_permitted s.registry authenticated.identity_class target purpose) [
      | failed code ↦ (
        s,
        error request_id code
            "open-tunnel is not permitted for this Identity class, purpose, or target",
      )
      | done _ ↦
          if not (contains_key s.registry.online_devices target)
          then (s, error request_id "target_offline" "target device is not currently connected")
          else (
            push_tunnel_offered env
                (with_tunnels s (
                  insert env.generate_tunnel_id
                    (record {
                      requester_device_id = authenticated.device_id;
                      target_device_id = target;
                      purpose = purpose;
                      last_activity_unix = env.now;
                    })
                    s.registry.tunnels))
                target env.generate_tunnel_id authenticated.device_id purpose,
            open_tunnel_ok request_id (encode_tunnel_id_hex env.generate_tunnel_id),
          )
    ]

abbrev pub revoke : EnrolledDevice → EnrolledDevice
revoke device = record device { revoked = true }

unfoldable pub revoke_device : Server → DeviceId → Server × Bool
unfolding kill_connection
revoke_device s device_id = elim (get s.registry.devices device_id) [
  | none ↦ (s, false)
  | some _ ↦
      let revoked = record s {
        registry = record s.registry { devices = modify device_id revoke s.registry.devices };
      } in
      (kill_connection revoked device_id, true)
]

unfoldable pub revoke_phone_session : Server → DeviceId → Server × Bool
unfolding kill_connection
revoke_phone_session s device_id =
    let sessions =
      retain (λ _ session. not (same session.device_id device_id)) s.registry.phone_sessions in
    let removed = not (length sessions == length s.registry.phone_sessions) in
    let without = record s { registry = record s.registry { phone_sessions = sessions } } in
    (kill_connection without device_id, removed)

unfoldable pub revoke_response :
    Bool → String → String → DeviceId → (String → DeviceId → ControlResponse) → ControlResponse
revoke_response found not_found_message request_id device_id ok =
    if not found
    then error request_id "unknown_device" not_found_message
    else ok request_id device_id
