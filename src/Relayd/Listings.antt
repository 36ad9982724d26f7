-- ===== src/Relayd/Listings.antt =====
-- rust/choosh-relayd/src/ws.rs: the devhosts that a phone and a laptop proxy are told of. What the handlers draw or
-- format is in `Env`: the time, a fresh token and tunnel id, base64, the text of a time, and serde_json for the
-- pushes.
use choosh.Prelude.{
  ℕ, Bool, not, ◌&&◌, List, [], ◌∷◌, none, some, if◌then◌else◌, String, Bytes, Map, get,
  contains_key, string_eq, bytes_eq,
}
use choosh.Protocol.Relay.{
  DeviceId, TunnelId, devhost, same_class, online, offline, DevHostPresence, DevhostSshEndpoint,
  ControlResponse, list_devhosts_ok, list_devhost_ssh_endpoints_ok, ServerPush,
}
use choosh.Relayd.Access.{value_or}
use choosh.Relayd.State.{EnrolledDevice, Registry}
use choosh.Relayd.Wire.{Json}

pub record Env : Type 0 where
  pub now : ℕ
  pub generate_token : String
  pub generate_tunnel_id : TunnelId
  pub format_unix : ℕ → String
  pub base64_encode : Bytes → Bytes
  pub push_json : Json ServerPush

abbrev pub is_devhost : EnrolledDevice → Bool
is_devhost device = same_class device.identity_class devhost && not device.revoked

abbrev pub presence : Env → Map DeviceId ℕ → DeviceId → EnrolledDevice → DevHostPresence
presence env online_devices device_id device = record {
  device_id = device_id;
  alias = device.alias;
  platform = value_or "" device.platform;
  account_label = device.account_label;
  connection_state = if contains_key online_devices device_id then online else offline;
  last_seen = elim (get online_devices device_id) [ none ↦ "" | some seen ↦ env.format_unix seen ];
}

abbrev pub presences : Env → Map DeviceId ℕ → Map DeviceId EnrolledDevice → List DevHostPresence
presences env online_devices [] = []
presences env online_devices (entry ∷ m) =
    let rest = presences env online_devices m in
    if is_devhost entry.1 then presence env online_devices entry.0 entry.1 ∷ rest else rest

unfoldable pub handle_list_devhosts : Env → Registry → String → ControlResponse
handle_list_devhosts env r request_id =
    list_devhosts_ok request_id (presences env r.online_devices r.devices)

abbrev pub endpoints : Env → Map DeviceId EnrolledDevice → List DevhostSshEndpoint
endpoints env [] = []
endpoints env (entry ∷ m) =
    let rest = endpoints env m in
    if is_devhost entry.1
    then (elim entry.1.host_ssh_public_key [
      | none ↦ rest
      | some key ↦
          record {
            device_id = entry.0;
            alias = entry.1.alias;
            ssh_host_public_key = env.base64_encode key;
          }
          ∷ rest
    ])
    else rest

unfoldable pub list_ssh_endpoints : Env → Registry → String → ControlResponse
list_ssh_endpoints env r request_id =
    list_devhost_ssh_endpoints_ok request_id (endpoints env r.devices)
