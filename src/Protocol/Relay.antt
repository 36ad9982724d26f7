-- ===== src/Protocol/Relay.antt =====
-- rust/choosh-protocol/src/relay.rs: the messages between the relay and its clients, as data. Their JSON form,
-- which serde derives from the declarations, is not modelled. A device's id and alias, and all text in base64 or
-- hexadecimal, is the list of its bytes; other text is a string.
use choosh.Prelude.{ℕ, ◌*◌, Bool, true, false, List, Option, none, some, String, Bytes}

abbrev pub frame_class_control : ℕ
frame_class_control = 1

abbrev pub frame_class_tunnel : ℕ
frame_class_tunnel = 2

abbrev pub max_control_frame_bytes : ℕ
max_control_frame_bytes = 1024 * 1024

abbrev pub max_tunnel_frame_bytes : ℕ
max_tunnel_frame_bytes = 256 * 1024

abbrev pub tunnel_id_bytes : ℕ
tunnel_id_bytes = 8

abbrev pub DeviceId : Type 0
DeviceId = Bytes

-- The eight bytes that name a tunnel.
abbrev pub TunnelId : Type 0
TunnelId = Bytes

pub data IdentityClass : Type 0 where
  phone laptop_proxy devhost : IdentityClass

-- The derived `PartialEq`.
abbrev pub same_class : IdentityClass → IdentityClass → Bool
same_class phone phone = true
same_class laptop_proxy laptop_proxy = true
same_class devhost devhost = true
same_class _ _ = false

pub record DeviceAuth : Type 0 where
  pub device_id : DeviceId
  pub certificate : Bytes
  pub signature : Bytes

pub data ConnectionState : Type 0 where
  online offline : ConnectionState

pub record DevHostPresence : Type 0 where
  pub device_id : DeviceId
  pub alias : Bytes
  pub platform : String
  pub account_label : Option String
  pub connection_state : ConnectionState
  pub last_seen : String

pub record DevhostSshEndpoint : Type 0 where
  pub device_id : DeviceId
  pub alias : Bytes
  pub ssh_host_public_key : Bytes

pub data WireInputReason : Type 0 where
  approval permission question elicitation next_prompt : WireInputReason

pub data WireAgentStatus : Type 0 where
  starting busy waiting stopped failed : WireAgentStatus

pub data WireEditor : Type 0 where
  zed : WireEditor

pub data WireResourcePattern : Type 0 where
  a b c d : WireResourcePattern

pub data WireMobileProfile : Type 0 where
  personal work ask : WireMobileProfile

pub record ResourceReauth : Type 0 where
  pub resource_id : String
  pub display_name : String
  pub resource_kind : String
  pub resource_pattern : WireResourcePattern
  pub verification_uri : Option String
  pub user_code : Option String
  pub fetch_instructions : Option String
  pub mobile_profile : WireMobileProfile

-- The first two arguments of a variant with an item are `workspace_id` and `item_id`.
pub data WireAgentEvent : Type 0 where
  input_required : String → String → WireInputReason → WireAgentEvent
  turn_completed : String → String → WireAgentEvent
  files_changed : String → String → List String → WireAgentEvent
  agent_status : String → String → WireAgentStatus → WireAgentEvent
  editor_attached editor_detached : String → WireEditor → WireAgentEvent
  resource_reauth_required : ResourceReauth → WireAgentEvent

unfoldable pub workspace_id : WireAgentEvent → Option String
workspace_id (input_required workspace _ _) = some workspace
workspace_id (turn_completed workspace _) = some workspace
workspace_id (files_changed workspace _ _) = some workspace
workspace_id (agent_status workspace _ _) = some workspace
workspace_id (editor_attached workspace _) = some workspace
workspace_id (editor_detached workspace _) = some workspace
workspace_id (resource_reauth_required _) = none

pub record Enrolment : Type 0 where
  pub token : String
  pub identity_class : IdentityClass
  pub public_key : Bytes
  pub host_ssh_public_key : Option Bytes
  pub alias : Option Bytes
  pub platform : Option String
  pub account_label : Option String

-- The first argument of every request and response is its `request_id`.
pub data ControlRequest : Type 0 where
  enroll : String → Enrolment → ControlRequest
  request_enrollment_token : String → IdentityClass → ControlRequest
  list_devhosts list_devhost_ssh_endpoints : String → ControlRequest
  open_tunnel : String → DeviceId → String → ControlRequest
  agent_event : String → WireAgentEvent → Option ℕ → ControlRequest
  register_fcm_token : String → String → ControlRequest
  revoke_device revoke_phone_session : String → DeviceId → ControlRequest

pub data ControlResponse : Type 0 where
  enroll_ok : String → DeviceId → Bytes → ControlResponse
  request_enrollment_token_ok : String → String → String → ControlResponse
  list_devhosts_ok : String → List DevHostPresence → ControlResponse
  list_devhost_ssh_endpoints_ok : String → List DevhostSshEndpoint → ControlResponse
  open_tunnel_ok : String → Bytes → ControlResponse
  agent_event_ok register_fcm_token_ok : String → ControlResponse
  revoke_device_ok revoke_phone_session_ok : String → DeviceId → ControlResponse
  error : String → String → String → ControlResponse

-- The accessor `request_id` of the requests, and that of the responses.
unfoldable pub request_id : ControlRequest → String
request_id (enroll r _) = r
request_id (request_enrollment_token r _) = r
request_id (list_devhosts r) = r
request_id (list_devhost_ssh_endpoints r) = r
request_id (open_tunnel r _ _) = r
request_id (agent_event r _ _) = r
request_id (register_fcm_token r _) = r
request_id (revoke_device r _) = r
request_id (revoke_phone_session r _) = r

unfoldable pub response_id : ControlResponse → String
response_id (enroll_ok r _ _) = r
response_id (request_enrollment_token_ok r _ _) = r
response_id (list_devhosts_ok r _) = r
response_id (list_devhost_ssh_endpoints_ok r _) = r
response_id (open_tunnel_ok r _) = r
response_id (agent_event_ok r) = r
response_id (register_fcm_token_ok r) = r
response_id (revoke_device_ok r _) = r
response_id (revoke_phone_session_ok r _) = r
response_id (error r _ _) = r

pub data ServerPush : Type 0 where
  tunnel_offered : Bytes → DeviceId → String → ServerPush
  agent_event : DeviceId → WireAgentEvent → Option ℕ → ServerPush
  update_binary : String → String → String → String → ServerPush
