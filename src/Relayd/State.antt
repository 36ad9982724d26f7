-- ===== src/Relayd/State.antt =====
-- rust/choosh-relayd/src/state.rs: what the relay keeps of devices, tokens, sessions and tunnels. A connection's
-- outbound channel and its kill switch are named by the number of its socket.
use choosh.Prelude.{
  ℕ, ◌*◌, Bool, Option, none, some, String, Bytes, same, bytes_eq, if◌then◌else◌, Map, [],
}
use choosh.Protocol.Relay.{DeviceId, TunnelId, IdentityClass}

pub record EnrolledDevice : Type 0 where
  pub public_key : Bytes
  pub identity_class : IdentityClass
  pub alias : Bytes
  pub platform : Option String
  pub account_label : Option String
  pub revoked : Bool
  pub host_ssh_public_key : Option Bytes

pub record EnrollmentToken : Type 0 where
  pub identity_class : IdentityClass
  pub expires_at_unix : ℕ
  pub consumed : Bool

pub record PhoneSession : Type 0 where
  pub device_id : DeviceId
  pub expires_at_unix : ℕ

pub record Tunnel : Type 0 where
  pub requester_device_id : DeviceId
  pub target_device_id : DeviceId
  pub purpose : String
  pub last_activity_unix : ℕ

unfoldable pub other_party : Tunnel → DeviceId → Option DeviceId
other_party tunnel from_device_id =
    if same from_device_id tunnel.requester_device_id
    then some tunnel.target_device_id
    else if same from_device_id tunnel.target_device_id
    then some tunnel.requester_device_id
    else none

abbrev pub outbound_channel_capacity : ℕ
outbound_channel_capacity = 256

abbrev pub tunnel_idle_timeout_seconds : ℕ
tunnel_idle_timeout_seconds = 300

-- The number of a connection's socket.
abbrev pub SocketId : Type 0
SocketId = ℕ

pub record Registry : Type 0 where
  pub devices : Map DeviceId EnrolledDevice
  pub tokens : Map String EnrollmentToken
  pub phone_sessions : Map String PhoneSession
  pub online_devices : Map DeviceId ℕ
  pub connections : Map DeviceId SocketId
  pub kill_switches : Map DeviceId SocketId
  pub tunnels : Map TunnelId Tunnel
  pub fcm_tokens : Map DeviceId String

unfoldable pub new_registry : Registry
new_registry = record {
  devices = [];
  tokens = [];
  phone_sessions = [];
  online_devices = [];
  connections = [];
  kill_switches = [];
  tunnels = [];
  fcm_tokens = [];
}

abbrev pub session_credential_validity_seconds : ℕ
session_credential_validity_seconds = 90 * 24 * 60 * 60

abbrev pub enrollment_token_validity_seconds : ℕ
enrollment_token_validity_seconds = 15 * 60
