-- ===== src/Relayd/Tests.antt =====
-- Witnesses for the relay: the devhost of the demonstration is revoked, and another one enrols.
use choosh.Prelude.{
  ◌≡◌, ◌≢◌, ◌≤◌, refl, true, false, [], ◌∷◌, none, some, failed, get, get_elem?, done, string_eq,
  bytes_eq, replicate,
}
use choosh.Protocol.Relay.{DeviceId, devhost, phone, error, same_class, DeviceAuth}
use choosh.Relayd.Access.{
  consume, new_device, authenticate_device, authenticate_phone, check_signature, handle_enroll,
  enroll_keys, host_key, consume_token,
}
use choosh.Relayd.Ca.{issue, verify, verify_signed}
use choosh.Relayd.Invariants.Connections.{Reach-IsValid, revoke_device-kills}
use choosh.Relayd.Listings.{Env}
use choosh.Relayd.Requests.{revoke_device}
use choosh.Relayd.Sockets.{
  serving, Server, new_server, accept, register, announce, add_channel, add_kill_switch,
  kill_connection, mark_online, mark_offline,
}
use choosh.Relayd.Sockets.Invariant.{IsValid}
use choosh.Relayd.State.{new_registry, EnrollmentToken}
use choosh.Relayd.Steps.{
  with_registry, with_sessions, mint_session, session_minted, phone_accepted,
  dev_mint_enrollment_token, enrolled, minted, Reach, here, next, AllFresh, reaped,
}
use choosh.Relayd.Toy.{toy}
use choosh.Relayd.Demo.{
  demo, demo_env, key, dev, demo_enrolment, demo_auth, minted_server, enrolled_server,
  accepted_server, connected, dev_socket, demo-Reach, demo-AllFresh,
}
use choosh.Relayd.Invariants.Devices.{Enrols, Reach-Enrols, revoke_device-refuses}
use choosh.Relayd.Access.Authentication.{Admitted, authenticate_device_sound}
use choosh.Relayd.Invariants.Tokens.{IsSpent, consume_token-once, handle_enroll-consumed}
use choosh.Relayd.Tunnels.{
  reap_idle_tunnels, leave, remove_channel, remove_kill_switch, end_tunnels, go_offline,
  close_tunnels_for_device,
}

-- A phone comes in behind the devhost.
abbrev phone_id : DeviceId
phone_id = 112 ∷ []

abbrev with_session : Server
with_session = mint_session 1003 "credential" phone_id connected

abbrev phone_server : Server
phone_server =
    accept
      (with_sessions with_session
        (authenticate_phone 1004 with_session.registry.phone_sessions "credential").0)
      phone_id phone

unfoldable phone-Reach : Reach demo new_server phone_server
unfolding mint_session authenticate_phone
phone-Reach = next (next demo-Reach (session_minted connected 1003 "credential" phone_id)) (
    phone_accepted with_session 1004 "credential" _
      (record { device_id = phone_id; identity_class = phone }) refl)

phone-AllFresh : AllFresh phone-Reach
unfolding phone-Reach
phone-AllFresh = (tt, (tt, demo-AllFresh))

Reach-IsValid_example : IsValid phone_server
Reach-IsValid_example = Reach-IsValid phone-Reach phone-AllFresh

revoked_found : (revoke_device connected dev).1 ≡ true
unfolding revoke_device register announce add_channel add_kill_switch kill_connection mark_online
    dev_mint_enrollment_token new_server new_registry handle_enroll enroll_keys host_key
    consume_token accept
revoked_found = refl

revoked_socket :
    get_elem? (revoke_device connected dev).0.sockets 0 ≡ some (dev_socket serving true)
unfolding revoke_device register announce add_channel add_kill_switch kill_connection mark_online
    dev_mint_enrollment_token new_server new_registry handle_enroll enroll_keys host_key
    consume_token accept
revoked_socket = refl

revoke_device-kills_example : (dev_socket serving true).killed ≡ true
revoke_device-kills_example =
    revoke_device-kills connected dev 0 (dev_socket serving true) demo-Reach demo-AllFresh
      revoked_found revoked_socket refl refl

enrolled_device :
    get connected.registry.devices dev
    ≡ some (new_device toy dev demo_enrolment key (some (replicate 32 9)))
unfolding register announce add_channel add_kill_switch kill_connection mark_online
    dev_mint_enrollment_token new_server new_registry handle_enroll enroll_keys host_key
    consume_token accept
enrolled_device = refl

Reach-Enrols_example :
    Enrols
      (get (reap_idle_tunnels 1400 connected).registry.devices dev)
      (new_device toy dev demo_enrolment key (some (replicate 32 9)))
Reach-Enrols_example =
    Reach-Enrols {g = demo} dev (new_device toy dev demo_enrolment key (some (replicate 32 9)))
      (next here (reaped connected 1400)) (tt, tt) enrolled_device

-- Another device enrols and is authenticated after the first has been revoked.
abbrev dev2 : DeviceId
dev2 = 101 ∷ []

abbrev demo_env2 : Env
demo_env2 = record demo_env { generate_token = "second" }

abbrev revoked_server : Server
revoked_server = (revoke_device connected dev).0

abbrev second_server : Server
second_server =
    with_registry (dev_mint_enrollment_token demo_env2 revoked_server)
      (handle_enroll toy (1 ∷ []) 1001 dev2
        (dev_mint_enrollment_token demo_env2 revoked_server).registry "r"
        (record demo_enrolment { token = "second" })).0

abbrev demo_auth2 : DeviceAuth
demo_auth2 = record demo_auth { device_id = dev2; certificate = issue toy (1 ∷ []) dev2 key 1001 }

unfoldable second-Reach : Reach demo revoked_server second_server
unfolding revoke_device register announce add_channel add_kill_switch kill_connection mark_online
    dev_mint_enrollment_token new_server new_registry handle_enroll enroll_keys host_key
    consume_token accept
second-Reach = next (next here (minted revoked_server demo_env2)) (
    enrolled (dev_mint_enrollment_token demo_env2 revoked_server) 1001 dev2 "r"
      (record demo_enrolment { token = "second" }))

second-AllFresh : AllFresh second-Reach
unfolding second-Reach revoke_device register announce add_channel add_kill_switch kill_connection
    mark_online dev_mint_enrollment_token new_server new_registry handle_enroll enroll_keys host_key
    consume_token accept
second-AllFresh = (refl, ((refl, refl), tt))

second_let_in :
    authenticate_device toy (1 ∷ []) 1002 second_server.registry [] demo_auth2
    ≡ done (record { device_id = dev2; identity_class = devhost })
unfolding revoke_device register announce add_channel add_kill_switch kill_connection mark_online
    dev_mint_enrollment_token new_server new_registry handle_enroll enroll_keys host_key
    consume_token accept authenticate_device check_signature verify verify_signed issue
second_let_in = refl

revoke_device-refuses_example : dev2 ≢ dev
revoke_device-refuses_example =
    revoke_device-refuses connected second_server dev 1002 [] demo_auth2
      (record { device_id = dev2; identity_class = devhost }) revoked_found second-Reach
      second-AllFresh second_let_in

authenticate_device_sound_example :
    Admitted toy
      (1 ∷ [])
      1002
      []
      second_server.registry
      demo_auth2
      (record { device_id = dev2; identity_class = devhost })
authenticate_device_sound_example =
    authenticate_device_sound toy (1 ∷ []) 1002 [] second_server.registry demo_auth2
      (record { device_id = dev2; identity_class = devhost }) second_let_in

-- The token of the first device.
abbrev demo_token : EnrollmentToken
demo_token = record { identity_class = devhost; expires_at_unix = 1900; consumed = false }

taken :
    consume_token 1001 minted_server.registry.tokens "token" devhost
    ≡ done (("token", consume demo_token) ∷ [])
unfolding consume_token dev_mint_enrollment_token new_server new_registry
taken = refl

consume_token-once_example :
    ((entry : EnrollmentToken) × (get minted_server.registry.tokens "token" ≡ some entry)
      × (entry.consumed ≡ false)
      × (1001 ≤ entry.expires_at_unix)
      × (same_class entry.identity_class devhost ≡ true))
    × (consume_token 1002
          (with_registry minted_server (record minted_server.registry {
            tokens = ("token", consume demo_token) ∷ [];
          })).registry.tokens
          "token"
          phone
        ≡ failed "token_consumed")
consume_token-once_example =
    consume_token-once {g = demo} minted_server
      (with_registry minted_server
        (record minted_server.registry { tokens = ("token", consume demo_token) ∷ [] }))
      1001 1002 "token" devhost phone (("token", consume demo_token) ∷ []) taken here tt

spent : IsSpent (get enrolled_server.registry.tokens "token")
unfolding consume_token dev_mint_enrollment_token new_server new_registry handle_enroll enroll_keys
    host_key
spent = (consume demo_token, refl, refl)

handle_enroll-consumed_example :
    handle_enroll toy (1 ∷ []) 1005 dev2 enrolled_server.registry "q" demo_enrolment ≡ (
      enrolled_server.registry,
      error "q" "token_consumed" "enrollment token is invalid, expired, consumed, or wrong class",
    )
handle_enroll-consumed_example =
    handle_enroll-consumed toy (1 ∷ []) 1005 dev2 enrolled_server.registry "q" demo_enrolment spent

-- A device that is authenticated when it is revoked, and registered afterwards, is served all the same.
served_though_revoked :
    get_elem? (register 1003 (revoke_device accepted_server dev).0 0 dev).sockets 0
    ≡ some (dev_socket serving false)
unfolding revoke_device register announce add_channel add_kill_switch kill_connection mark_online
    dev_mint_enrollment_token new_server new_registry handle_enroll enroll_keys host_key
    consume_token accept
served_though_revoked = refl

-- The device comes back on a second connection, and the first one ends: the second one is killed, and the
-- registry has no connection of the device.
abbrev reconnected : Server
reconnected = leave (register 1005 (accept connected dev devhost) 1 dev) 0 dev

second_killed : get_elem? reconnected.sockets 1 ≡ some (dev_socket serving true)
unfolding leave remove_channel remove_kill_switch end_tunnels go_offline close_tunnels_for_device
    mark_offline register announce add_channel add_kill_switch kill_connection mark_online
    dev_mint_enrollment_token new_server new_registry handle_enroll enroll_keys host_key
    consume_token accept
second_killed = refl

second_forgotten : get reconnected.registry.connections dev ≡ none
unfolding leave remove_channel remove_kill_switch end_tunnels go_offline close_tunnels_for_device
    mark_offline register announce add_channel add_kill_switch kill_connection mark_online
    dev_mint_enrollment_token new_server new_registry handle_enroll enroll_keys host_key
    consume_token accept
second_forgotten = refl
