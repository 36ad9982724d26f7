-- ===== src/Relayd/Invariants/Tunnels.antt =====
-- The tunnels of rust/choosh-relayd in every reachable state: each leads to an enrolled devhost.
use choosh.Prelude.{
  ℕ, ◌≡◌, refl, sym, ◌∙◌, subst, inl, inr, Bool, true, not, [], ◌∷◌, some, arith, Option-cases,
  Bool-cases, if_elim, Map, Distinct, get, retain, modify, retain-Distinct, insert-Distinct,
  modify-Distinct, same, bytes_eq,
}
use choosh.Protocol.Relay.{
  DeviceId, TunnelId, IdentityClass, phone, laptop_proxy, devhost, same_class,
}
use choosh.Relayd.Acts.{
  Act, token_minted, token_consumed, device_added, device_revoked, sessions_changed,
  presence_changed, fcm_changed, fcm_dispatched, tunnel_opened, tunnel_touched, tunnels_retained,
  disconnected, killed, sent, accepted, moved, opened, started, delivered, Acts, none_yet, then_act,
}
use choosh.Relayd.Acts.OfSteps.{Step-Acts}
use choosh.Relayd.Invariants.Devices.{Enrols, Act-Enrols}
use choosh.Relayd.Listings.{is_devhost}
use choosh.Relayd.Sockets.{Server, new_server, kill_connection, accept, deliver}
use choosh.Relayd.State.{EnrolledDevice, Tunnel}
use choosh.Relayd.Steps.{Setting, Reach, here, next, AllFresh}
use choosh.Relayd.Tunnels.Preservation.{send_to-Sends}

-- The tunnel's target is an enrolled devhost.
abbrev pub LeadsToDevhost : Map DeviceId EnrolledDevice → Tunnel → Type 0
LeadsToDevhost devices tunnel =
    (device : EnrolledDevice) × (get devices tunnel.target_device_id ≡ some device)
    × (device.identity_class ≡ devhost)

abbrev pub AllLead : Map DeviceId EnrolledDevice → Map TunnelId Tunnel → Type 0
AllLead devices [] = Unit
AllLead devices (entry ∷ m) = LeadsToDevhost devices entry.1 × AllLead devices m

AllLead-retain :
    (devices : Map DeviceId EnrolledDevice) (p : TunnelId → Tunnel → Bool) (m : Map TunnelId Tunnel)
    → AllLead devices m
    → AllLead devices (retain p m)
AllLead-retain devices p [] h = tt
AllLead-retain devices p ((id, tunnel) ∷ m) (lead, h) =
    let rest = AllLead-retain devices p m h in
    if_elim (AllLead devices) (p id tunnel) (lead, rest) rest

AllLead-touch :
    (devices : Map DeviceId EnrolledDevice) (now : ℕ) (id : TunnelId) (m : Map TunnelId Tunnel)
    → AllLead devices m
    → AllLead devices (modify id (λ t. record t { last_activity_unix = now }) m)
AllLead-touch devices now id [] h = tt
AllLead-touch devices now id ((id', tunnel) ∷ m) (lead, h) =
    (if_elim (LeadsToDevhost devices) (same id id') lead lead, AllLead-touch devices now id m h)

AllLead-devices :
    (devices devices' : Map DeviceId EnrolledDevice)
    → ((d : DeviceId) (device : EnrolledDevice)
        → get devices d ≡ some device
        → Enrols (get devices' d) device)
    → (m : Map TunnelId Tunnel) → AllLead devices m
    → AllLead devices' m
AllLead-devices devices devices' keep [] h = tt
AllLead-devices devices devices' keep ((_, tunnel) ∷ m) ((device, at, host), h) =
    let (device', at', (_, class, _)) = keep tunnel.target_device_id device at in
    ((device', at', class ∙ host), AllLead-devices devices devices' keep m h)

AllLead-get :
    (devices : Map DeviceId EnrolledDevice) (m : Map TunnelId Tunnel) (id : TunnelId)
    (tunnel : Tunnel)
    → AllLead devices m
    → get m id ≡ some tunnel
    → LeadsToDevhost devices tunnel
AllLead-get devices [] id tunnel h at = absurd (ground arith)
AllLead-get devices ((id', other) ∷ m) id tunnel (lead, h) at = elim (Bool-cases (same id id')) [
  | inl hit ↦ let this : other ≡ tunnel = ground arith in subst (LeadsToDevhost devices) this lead
  | inr miss ↦ AllLead-get devices m id tunnel h (ground arith)
]

tunnels-kill_connection :
    (s : Server) (d : DeviceId) → (kill_connection s d).registry.tunnels ≡ s.registry.tunnels
unfolding kill_connection
tunnels-kill_connection s d = elim (Option-cases (get s.registry.kill_switches d)) [
  | inl e ↦ rw (kill_connection, e) refl
  | inr (i, e) ↦ rw (kill_connection, e) refl
]

class_of_devhost :
    (device : EnrolledDevice) → is_devhost device ≡ true → device.identity_class ≡ devhost
class_of_devhost device h = by_class device.identity_class (ground arith)
  where
    by_class : (c : IdentityClass) → same_class c devhost ≡ true → c ≡ devhost
    by_class phone e = absurd (ground arith)
    by_class laptop_proxy e = absurd (ground arith)
    by_class devhost e = refl

record TunnelsValid (s : Server) : Type 0 where
  lead : AllLead s.registry.devices s.registry.tunnels
  distinct : Distinct s.registry.tunnels

-- What an act does to the tunnels alone.
Act-lead :
    {s t : Server}
    → Act s t
    → TunnelsValid s
    → AllLead s.registry.devices t.registry.tunnels × Distinct t.registry.tunnels
unfolding accept deliver
Act-lead (token_minted s _ _ _) h = (h.lead, h.distinct)
Act-lead (token_consumed s _) h = (h.lead, h.distinct)
Act-lead (device_added s _ _ _) h = (h.lead, h.distinct)
Act-lead (device_revoked s _) h = (h.lead, h.distinct)
Act-lead (sessions_changed s _) h = (h.lead, h.distinct)
Act-lead (presence_changed s _) h = (h.lead, h.distinct)
Act-lead (fcm_changed s _) h = (h.lead, h.distinct)
Act-lead (fcm_dispatched s _) h = (h.lead, h.distinct)
Act-lead (tunnel_opened s id tunnel device at host) h = (
  (
    (device, at, class_of_devhost device host),
    AllLead-retain s.registry.devices (λ k _. not (same id k)) s.registry.tunnels h.lead,
  ),
  insert-Distinct id tunnel s.registry.tunnels h.distinct,
)
Act-lead (tunnel_touched now s id) h = (
  AllLead-touch s.registry.devices now id s.registry.tunnels h.lead,
  modify-Distinct id (λ t. record t { last_activity_unix = now }) s.registry.tunnels h.distinct,
)
Act-lead (tunnels_retained s p) h = (
  AllLead-retain s.registry.devices p s.registry.tunnels h.lead,
  retain-Distinct p s.registry.tunnels h.distinct,
)
Act-lead (disconnected s _ _ _ _ _) h = (h.lead, h.distinct)
Act-lead (moved s _ _ _ _ _ _) h = (h.lead, h.distinct)
Act-lead (opened s _ _ _ _ _) h = (h.lead, h.distinct)
Act-lead (killed s d) h =
    subst (λ m. AllLead s.registry.devices m × Distinct m) (sym (tunnels-kill_connection s d))
      (h.lead, h.distinct)
Act-lead (sent s s' d wire e) h =
    subst (λ r. AllLead s.registry.devices r.tunnels × Distinct r.tunnels)
      (sym (send_to-Sends s s' d wire e).0) (h.lead, h.distinct)
Act-lead (accepted s _ _) h = (h.lead, h.distinct)
Act-lead (started s _ _ _ _ _ _) h = (h.lead, h.distinct)
Act-lead (delivered s _) h = (h.lead, h.distinct)

Act-TunnelsValid : {s t : Server} → Act s t → TunnelsValid s → TunnelsValid t
Act-TunnelsValid {s = s} {t = t} a v =
    let (lead, distinct) = Act-lead a v in
    record {
      lead =
          AllLead-devices s.registry.devices t.registry.devices (λ d device. Act-Enrols d device a)
            t.registry.tunnels lead;
      distinct = distinct;
    }

Acts-TunnelsValid : {s t : Server} → Acts s t → TunnelsValid s → TunnelsValid t
Acts-TunnelsValid none_yet v = v
Acts-TunnelsValid (then_act a b) v = Act-TunnelsValid b (Acts-TunnelsValid a v)

Reach-TunnelsValid :
    {g : Setting} {s t : Server} (r : Reach g s t) → AllFresh r → TunnelsValid s → TunnelsValid t
Reach-TunnelsValid here _ v = v
Reach-TunnelsValid (next r st) (new, fresh) v =
    Acts-TunnelsValid (Step-Acts _ st new) (Reach-TunnelsValid r fresh v)

empty-TunnelsValid : TunnelsValid new_server
unfolding new_server
empty-TunnelsValid = record { lead = tt; distinct = tt }

-- In every state that the relay reaches from its start, by steps in which a random token, tunnel id or device id is
-- new to the registry, each tunnel leads to a device that is enrolled as a devhost.
pub Reach-LeadsToDevhost :
    {g : Setting} {s : Server} (id : TunnelId) (tunnel : Tunnel) (r : Reach g new_server s)
    → AllFresh r
    → get s.registry.tunnels id ≡ some tunnel
    → LeadsToDevhost s.registry.devices tunnel
Reach-LeadsToDevhost {s = s} id tunnel r fresh at =
    AllLead-get s.registry.devices s.registry.tunnels id tunnel
      (Reach-TunnelsValid r fresh empty-TunnelsValid).lead at

-- And the registry has one tunnel for each id.
pub Reach-Distinct :
    {g : Setting} {s : Server} (r : Reach g new_server s) → AllFresh r → Distinct s.registry.tunnels
Reach-Distinct r fresh = (Reach-TunnelsValid r fresh empty-TunnelsValid).distinct
