-- ===== src/Relayd/Demo.antt =====
-- A run of the relay of rust/choosh-relayd, for the tests: a token is minted, a devhost enrols with it, comes back with
-- its certificate and is served.
use choosh.Prelude.{refl, Bool, false, [], ◌∷◌, none, some, Bytes, string_eq, bytes_eq, replicate}
use choosh.Protocol.Relay.{DeviceId, devhost, open_tunnel, DeviceAuth, Enrolment, ControlRequest}
use choosh.Relayd.Access.{
  authenticate_device, check_signature, handle_enroll, enroll_keys, host_key, consume_token,
}
use choosh.Relayd.Ca.{issue, verify, verify_signed}
use choosh.Relayd.Listings.{Env}
use choosh.Relayd.Sockets.{
  Phase, authenticated, marked_online, channel_open, Socket, Server, new_server, accept, announce,
  add_channel, register, mark_online,
}
use choosh.Relayd.State.{new_registry}
use choosh.Relayd.Steps.{
  Setting, with_registry, dev_mint_enrollment_token, device_accepted, announced, channel_added,
  registered, enrolled, minted, Reach, here, next, AllFresh,
}
use choosh.Relayd.Toy.{toy}
use choosh.Relayd.Wire.{Json}

abbrev pub no_json : {T : Type 0} → Json T
no_json = record { to_json = λ _. none; from_json = λ _. none }

-- Whatever the bytes, the request is to open a tunnel to the devhost.
abbrev pub always_open : Json ControlRequest
always_open = record {
  to_json = λ _. none;
  from_json = λ _. some (open_tunnel "t" (100 ∷ []) "offload");
}

abbrev pub demo : Setting
demo = record { crypto = toy; ca_key = 1 ∷ []; requests = always_open; responses = no_json }

abbrev pub demo_env : Env
demo_env = record {
  now = 1000;
  generate_token = "token";
  generate_tunnel_id = replicate 8 7;
  format_unix = λ _. "";
  base64_encode = λ bytes. bytes;
  push_json = no_json;
}

abbrev pub key : Bytes
key = replicate 32 5

abbrev pub dev : DeviceId
dev = 100 ∷ []

abbrev pub demo_enrolment : Enrolment
demo_enrolment = record {
  token = "token";
  identity_class = devhost;
  public_key = key;
  host_ssh_public_key = some (replicate 32 9);
  alias = none;
  platform = none;
  account_label = none;
}

abbrev pub demo_auth : DeviceAuth
demo_auth = record {
  device_id = dev;
  certificate = issue toy (1 ∷ []) dev key 1001;
  signature = replicate 64 0;
}

abbrev pub minted_server : Server
minted_server = dev_mint_enrollment_token demo_env new_server

abbrev pub enrolled_server : Server
enrolled_server =
    with_registry minted_server
      (handle_enroll toy (1 ∷ []) 1001 dev minted_server.registry "r" demo_enrolment).0

abbrev pub accepted_server : Server
accepted_server = accept enrolled_server dev devhost

abbrev pub connected : Server
connected = register 1003 accepted_server 0 dev

abbrev pub dev_socket : Phase → Bool → Socket
dev_socket phase killed = record {
  device_id = dev;
  identity_class = devhost;
  phase = phase;
  killed = killed;
  outbound = [];
}

unfoldable pub accepted-Reach : Reach demo new_server accepted_server
unfolding dev_mint_enrollment_token new_server new_registry handle_enroll enroll_keys host_key
    consume_token accept authenticate_device check_signature verify verify_signed issue
accepted-Reach =
    next
      (next (next here (minted new_server demo_env))
        (enrolled minted_server 1001 dev "r" demo_enrolment))
      (device_accepted enrolled_server 1002 [] demo_auth
        (record { device_id = dev; identity_class = devhost }) refl)

unfoldable pub demo-Reach : Reach demo new_server connected
unfolding register announce add_channel mark_online dev_mint_enrollment_token new_server
    new_registry handle_enroll enroll_keys host_key consume_token accept authenticate_device
    check_signature verify verify_signed issue
demo-Reach =
    next
      (next
        (next accepted-Reach
          (announced accepted_server 1003 0 (dev_socket authenticated false) refl refl))
        (channel_added (announce 1003 accepted_server 0 dev) 0 (dev_socket marked_online false) refl
          refl))
      (registered (add_channel (announce 1003 accepted_server 0 dev) 0 dev) 0
        (dev_socket channel_open false) refl refl)

pub demo-AllFresh : AllFresh demo-Reach
unfolding demo-Reach accepted-Reach dev_mint_enrollment_token new_server new_registry
demo-AllFresh = (tt, (tt, (tt, (tt, (refl, ((refl, refl), tt))))))
