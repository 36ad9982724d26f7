-- ===== src/Relayd/Tunnels/Closing.antt =====
-- Which tunnels end in rust/choosh-relayd/src/ws.rs: those of a device that leaves, and those that have been idle.
use choosh.Prelude.{
  ℕ, ◌-◌, ◌≡◌, refl, Option, none, some, arith, same, ◌&&◌, ap, ◌∙◌, not, leb, get, retain,
  Distinct, keep_if, get-retain, bytes_eq,
}
use choosh.Protocol.Relay.{DeviceId, TunnelId}
use choosh.Relayd.Sockets.{Server}
use choosh.Relayd.State.{Tunnel}
use choosh.Relayd.Tunnels.{
  with_tunnels, is_party, survivors, close_tunnels_for_device, is_expired, expired_tunnels,
  reap_idle_tunnels,
}
use choosh.Relayd.Tunnels.Preservation.{notify-Sends}

not_party :
    (d : DeviceId) (o : Option Tunnel)
    → keep_if (λ tunnel. not (is_party d tunnel)) o
      ≡ keep_if
          (λ tunnel.
            not (same tunnel.requester_device_id d) && not (same tunnel.target_device_id d))
          o
not_party d none = refl
not_party d (some tunnel) = ground arith

-- When the tunnels of a device are closed, where the registry has one tunnel for each id, a tunnel is left if and
-- only if the device neither requested it nor is its target, and then it is left as it was.
pub tunnels-close_tunnels_for_device :
    (s : Server) (d : DeviceId) (id : TunnelId)
    → Distinct s.registry.tunnels
    → get (close_tunnels_for_device s d).registry.tunnels id
      ≡ keep_if
          (λ tunnel.
            not (same tunnel.requester_device_id d) && not (same tunnel.target_device_id d))
          (get s.registry.tunnels id)
unfolding close_tunnels_for_device
tunnels-close_tunnels_for_device s d id distinct =
    let left = retain (λ _ tunnel. not (is_party d tunnel)) s.registry.tunnels in
    ap (λ r. get r.tunnels id)
      (notify-Sends (with_tunnels s left) (survivors d s.registry.tunnels)).0
    ∙ get-retain (λ _ tunnel. not (is_party d tunnel)) s.registry.tunnels id distinct
    ∙ not_party d (get s.registry.tunnels id)

-- Where the registry has one tunnel for each id, a tick of the reaper leaves a tunnel, as it was, if and only if fewer than 300 seconds have passed since its last
-- activity.
pub tunnels-reap_idle_tunnels :
    (now : ℕ) (s : Server) (id : TunnelId)
    → Distinct s.registry.tunnels
    → get (reap_idle_tunnels now s).registry.tunnels id
      ≡ keep_if
          (λ tunnel. not (leb 300 (now - tunnel.last_activity_unix)))
          (get s.registry.tunnels id)
unfolding reap_idle_tunnels
tunnels-reap_idle_tunnels now s id distinct =
    let left = retain (λ _ tunnel. not (is_expired now tunnel)) s.registry.tunnels in
    ap (λ r. get r.tunnels id)
      (notify-Sends (with_tunnels s left) (expired_tunnels now s.registry.tunnels)).0
    ∙ get-retain (λ _ tunnel. not (is_expired now tunnel)) s.registry.tunnels id distinct
