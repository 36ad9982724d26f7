-- ===== src/Relayd/Acts/Sending.antt =====
-- The sending and the routing of tunnel frames in rust/choosh-relayd/src/ws.rs, as elementary acts.
use choosh.Prelude.{
  ℕ, ◌≡◌, inl, inr, Bool, not, same, List, [], ◌∷◌, some, arith, Option-cases, Bytes, get, retain,
  bytes_eq,
}
use choosh.Protocol.Relay.{DeviceId, TunnelId}
use choosh.Protocol.TunnelFrame.{decode_tunnel_frame}
use choosh.Relayd.Acts.{tunnel_touched, tunnels_retained, sent, Acts, none_yet, one-Act, Acts-trans}
use choosh.Relayd.Sockets.{
  Server, send_to, send_best_effort, wire_tunnel_frame, forward_data, forward_close,
}
use choosh.Relayd.State.{Tunnel, other_party}
use choosh.Relayd.Tunnels.{
  with_tunnels, remove_tunnel, touch_tunnel, relay_data, relay_payload, route_frame,
  handle_tunnel_frame, notify, is_party, survivors, close_tunnels_for_device, is_expired,
  expired_tunnels, reap_idle_tunnels,
}

pub send_best_effort-Acts :
    (s : Server) (d : DeviceId) (wire : Bytes) → Acts s (send_best_effort s d wire)
unfolding send_best_effort
send_best_effort-Acts s d wire = elim (Option-cases (send_to s d wire)) [
  | inl e ↦ rw (send_best_effort, e) none_yet
  | inr (s', e) ↦ rw (send_best_effort, e) (one-Act (sent s s' d wire e))
]

forward_close-Acts : (s : Server) (d : DeviceId) (id : TunnelId) → Acts s (forward_close s d id)
unfolding forward_close
forward_close-Acts s d id = elim (Option-cases (wire_tunnel_frame id [])) [
  | inl e ↦ rw (forward_close, e) none_yet
  | inr (wire, e) ↦ rw (forward_close, e) (send_best_effort-Acts s d wire)
]

forward_data-Acts :
    (s s' : Server) (d : DeviceId) (id : TunnelId) (payload : Bytes)
    → forward_data s d id payload ≡ some s'
    → Acts s s'
unfolding forward_data
forward_data-Acts s s' d id payload h = elim (Option-cases (wire_tunnel_frame id payload)) [
  | inl e ↦ absurd (ground arith)
  | inr (wire, e) ↦ one-Act (sent s s' d wire (ground arith))
]

notify-Acts : (s : Server) (items : List (TunnelId × DeviceId)) → Acts s (notify s items)
notify-Acts s [] = none_yet
notify-Acts s (item ∷ items) =
    Acts-trans (forward_close-Acts s item.1 item.0)
      (notify-Acts (forward_close s item.1 item.0) items)

remove_tunnel-Acts : (s : Server) (id : TunnelId) → Acts s (remove_tunnel s id)
remove_tunnel-Acts s id = one-Act (tunnels_retained s (λ k _. not (same id k)))

relay_data-Acts :
    (now : ℕ) (s : Server) (id : TunnelId) (tunnel : Tunnel) (other : DeviceId) (payload : Bytes)
    → Acts s (relay_data now s id tunnel other payload)
unfolding relay_data
relay_data-Acts now s id tunnel other payload =
    let touched = touch_tunnel now s id in
    let touch : Acts s touched = one-Act (tunnel_touched now s id) in
    elim (Option-cases (forward_data touched other id payload)) [
      | inl e ↦
          let removed = remove_tunnel touched id in
          rw (relay_data, e)
            (Acts-trans touch (
              Acts-trans (remove_tunnel-Acts touched id) (
                Acts-trans (forward_close-Acts removed tunnel.requester_device_id id) (
                  forward_close-Acts (forward_close removed tunnel.requester_device_id id)
                    tunnel.target_device_id id))))
      | inr (s', e) ↦
          rw (relay_data, e) (Acts-trans touch (forward_data-Acts touched s' other id payload e))
    ]

relay_payload-Acts :
    (now : ℕ) (s : Server) (id : TunnelId) (tunnel : Tunnel) (other : DeviceId) (payload : Bytes)
    → Acts s (relay_payload now s id tunnel other payload)
relay_payload-Acts now s id tunnel other [] =
    Acts-trans (remove_tunnel-Acts s id) (forward_close-Acts (remove_tunnel s id) other id)
relay_payload-Acts now s id tunnel other (b ∷ bs) = relay_data-Acts now s id tunnel other (b ∷ bs)

route_frame-Acts :
    (now : ℕ) (s : Server) (from : DeviceId) (id : TunnelId) (payload : Bytes)
    → Acts s (route_frame now s from id payload)
unfolding route_frame
route_frame-Acts now s from id payload = elim (Option-cases (get s.registry.tunnels id)) [
  | inl e ↦ rw (route_frame, e) none_yet
  | inr (tunnel, e) ↦ elim (Option-cases (other_party tunnel from)) [
    | inl e' ↦ rw (route_frame, e, e') none_yet
    | inr (other, e') ↦ rw (route_frame, e, e') (relay_payload-Acts now s id tunnel other payload)
  ]
]

pub handle_tunnel_frame-Acts :
    (now : ℕ) (s : Server) (from : DeviceId) (frame : Bytes)
    → Acts s (handle_tunnel_frame now s from frame)
unfolding handle_tunnel_frame
handle_tunnel_frame-Acts now s from frame = elim (Option-cases (decode_tunnel_frame frame)) [
  | inl e ↦ rw (handle_tunnel_frame, e) none_yet
  | inr (decoded, e) ↦ rw (handle_tunnel_frame, e) (route_frame-Acts now s from decoded.0 decoded.1)
]

pub close_tunnels_for_device-Acts :
    (s : Server) (d : DeviceId) → Acts s (close_tunnels_for_device s d)
unfolding close_tunnels_for_device
close_tunnels_for_device-Acts s d =
    let p : TunnelId → Tunnel → Bool = λ _ tunnel. not (is_party d tunnel) in
    Acts-trans (one-Act (tunnels_retained s p))
      (notify-Acts (with_tunnels s (retain p s.registry.tunnels)) (survivors d s.registry.tunnels))

pub reap_idle_tunnels-Acts : (now : ℕ) (s : Server) → Acts s (reap_idle_tunnels now s)
unfolding reap_idle_tunnels
reap_idle_tunnels-Acts now s =
    let p : TunnelId → Tunnel → Bool = λ _ tunnel. not (is_expired now tunnel) in
    Acts-trans (one-Act (tunnels_retained s p)) (
      notify-Acts (with_tunnels s (retain p s.registry.tunnels))
        (expired_tunnels now s.registry.tunnels))
