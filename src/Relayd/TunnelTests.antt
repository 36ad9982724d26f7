-- ===== src/Relayd/TunnelTests.antt =====
-- Witnesses for the tunnels of the relay.
use choosh.Prelude.{
  ◌-◌, ◌≡◌, ◌&&◌, same, refl, true, false, not, leb, [], ◌∷◌, some, keep_if, get, Bytes, Distinct,
  bytes_eq, string_eq, replicate,
}
use choosh.Protocol.Relay.{DeviceId, TunnelId}
use choosh.Relayd.Access.{handle_enroll, enroll_keys, host_key, consume_token}
use choosh.Relayd.Demo.{demo, demo_env, dev, connected, dev_socket, demo-Reach, demo-AllFresh}
use choosh.Relayd.Dispatch.{dispatch}
use choosh.Relayd.Invariants.Tunnels.{LeadsToDevhost, Reach-LeadsToDevhost, Reach-Distinct}
use choosh.Relayd.Listings.{Env}
use choosh.Relayd.Requests.{
  handle_open_tunnel, check_open_tunnel_permitted, push_tunnel_offered, push_to,
}
use choosh.Relayd.Serve.{serve_frame, serve_class, handle_control_frame, with_touch}
use choosh.Relayd.Sockets.{
  serving, Socket, Server, accept, register, announce, add_channel, add_kill_switch,
  kill_connection, mark_online, new_server, registry_touch,
}
use choosh.Relayd.State.{new_registry, Tunnel}
use choosh.Relayd.Steps.{
  as_authenticated, dev_mint_enrollment_token, frame_served, Reach, next, AllFresh,
}
use choosh.Relayd.Tunnels.{close_tunnels_for_device, reap_idle_tunnels}
use choosh.Relayd.Tunnels.Closing.{tunnels-close_tunnels_for_device, tunnels-reap_idle_tunnels}
use choosh.Relayd.Wire.{encode_control, decode_control}

abbrev env : Env
env = record demo_env { generate_token = "second" }

abbrev tunnel_id : TunnelId
tunnel_id = replicate 8 7

-- The devhost opens a tunnel to itself.
abbrev tunnelled : Server
tunnelled =
    (serve_frame demo.requests demo.responses env true connected
      (as_authenticated (dev_socket serving false)) (1 ∷ [])).server

abbrev a_tunnel : Tunnel
a_tunnel = record {
  requester_device_id = dev;
  target_device_id = dev;
  purpose = "offload";
  last_activity_unix = 1000;
}

unfoldable tunnelled-Reach : Reach demo new_server tunnelled
unfolding register announce add_channel add_kill_switch kill_connection mark_online
    dev_mint_enrollment_token new_server new_registry handle_enroll enroll_keys host_key
    consume_token accept
tunnelled-Reach =
    next demo-Reach
      (frame_served connected env true 0 (dev_socket serving false) (1 ∷ []) refl refl)

tunnelled-AllFresh : AllFresh tunnelled-Reach
unfolding tunnelled-Reach register announce add_channel add_kill_switch kill_connection mark_online
    dev_mint_enrollment_token new_server new_registry handle_enroll enroll_keys host_key
    consume_token accept
tunnelled-AllFresh = ((refl, refl), demo-AllFresh)

opened : get tunnelled.registry.tunnels tunnel_id ≡ some a_tunnel
unfolding register announce add_channel add_kill_switch kill_connection mark_online
    dev_mint_enrollment_token new_server new_registry handle_enroll enroll_keys host_key
    consume_token accept serve_frame serve_class handle_control_frame with_touch registry_touch
    dispatch handle_open_tunnel check_open_tunnel_permitted push_tunnel_offered push_to
    encode_control decode_control
opened = refl

Reach-LeadsToDevhost_example : LeadsToDevhost tunnelled.registry.devices a_tunnel
Reach-LeadsToDevhost_example =
    Reach-LeadsToDevhost {g = demo} tunnel_id a_tunnel tunnelled-Reach tunnelled-AllFresh opened

Reach-Distinct_example : Distinct tunnelled.registry.tunnels
Reach-Distinct_example = Reach-Distinct {g = demo} tunnelled-Reach tunnelled-AllFresh

tunnels-close_tunnels_for_device_example :
    get (close_tunnels_for_device tunnelled dev).registry.tunnels tunnel_id
    ≡ keep_if
        (λ tunnel.
          not (same tunnel.requester_device_id dev) && not (same tunnel.target_device_id dev))
        (get tunnelled.registry.tunnels tunnel_id)
tunnels-close_tunnels_for_device_example =
    tunnels-close_tunnels_for_device tunnelled dev tunnel_id
      (Reach-Distinct {g = demo} tunnelled-Reach tunnelled-AllFresh)

tunnels-reap_idle_tunnels_example :
    get (reap_idle_tunnels 1299 tunnelled).registry.tunnels tunnel_id
    ≡ keep_if
        (λ tunnel. not (leb 300 (1299 - tunnel.last_activity_unix)))
        (get tunnelled.registry.tunnels tunnel_id)
tunnels-reap_idle_tunnels_example =
    tunnels-reap_idle_tunnels 1299 tunnelled tunnel_id
      (Reach-Distinct {g = demo} tunnelled-Reach tunnelled-AllFresh)

-- Two devices with a tunnel between them.
abbrev dev2 : DeviceId
dev2 = 101 ∷ []

abbrev second_socket : Socket
second_socket = record (dev_socket serving false) { device_id = dev2 }

abbrev pair_tunnel : Tunnel
pair_tunnel = record a_tunnel { requester_device_id = dev2 }

abbrev pair : Server
pair = record {
  registry = record {
    devices = [];
    tokens = [];
    phone_sessions = [];
    online_devices = [];
    connections = (dev, 0) ∷ (dev2, 1) ∷ [];
    kill_switches = (dev, 0) ∷ (dev2, 1) ∷ [];
    tunnels = (tunnel_id, pair_tunnel) ∷ [];
    fcm_tokens = [];
  };
  sockets = dev_socket serving false ∷ second_socket ∷ [];
  spawned = [];
}

abbrev hi : Bytes
hi = 2 ∷ 7 ∷ 7 ∷ 7 ∷ 7 ∷ 7 ∷ 7 ∷ 7 ∷ 7 ∷ 104 ∷ 105 ∷ []
