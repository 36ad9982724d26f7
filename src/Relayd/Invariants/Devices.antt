-- ===== src/Relayd/Invariants/Devices.antt =====
-- The enrolled devices of rust/choosh-relayd along the steps of the relay, and who is let in as one of them.
use choosh.Prelude.{
  ℕ, ◌≡◌, ◌≢◌, refl, sym, ap, ◌∙◌, inl, inr, Bool, true, false, ◌||◌, Option, none, some, arith,
  Option-cases, eq_of_some, Bytes, done, same-cases, get, modify, get-modify_self, get-modify_ne,
  get-insert_ne, bytes_eq,
}
use choosh.Protocol.Relay.{DeviceId, DeviceAuth}
use choosh.Relayd.Access.{Authenticated, authenticate_device}
use choosh.Relayd.Access.Authentication.{authenticate_device_sound}
use choosh.Relayd.Acts.{
  Act, token_minted, token_consumed, device_added, device_revoked, sessions_changed,
  presence_changed, fcm_changed, fcm_dispatched, tunnel_opened, tunnel_touched, tunnels_retained,
  disconnected, killed, sent, accepted, moved, opened, started, delivered, Acts, none_yet, then_act,
}
use choosh.Relayd.Acts.OfSteps.{Step-Acts}
use choosh.Relayd.Requests.{revoke, revoke_device}
use choosh.Relayd.Sockets.{Server, kill_connection, accept, deliver}
use choosh.Relayd.State.{EnrolledDevice}
use choosh.Relayd.Steps.{Setting, Reach, here, next, AllFresh}
use choosh.Relayd.Tunnels.Preservation.{send_to-Sends}

or_self : (a : Bool) → (a || a) ≡ a
or_self true = refl
or_self false = refl

or_true : (a : Bool) → (a || true) ≡ true
or_true true = refl
or_true false = refl

or_trans : (a b c : Bool) → (a || b) ≡ b → (b || c) ≡ c → (a || c) ≡ c
or_trans true b c h k = ground arith
or_trans false b c h k = refl

-- A device is still enrolled, with its key and class, and is revoked if it was.
abbrev pub Later : EnrolledDevice → EnrolledDevice → Type 0
Later device device' =
    (device'.public_key ≡ device.public_key)
    × (device'.identity_class ≡ device.identity_class)
    × (device.revoked || device'.revoked ≡ device'.revoked)

abbrev pub Enrols : Option EnrolledDevice → EnrolledDevice → Type 0
Enrols entry device = (device' : EnrolledDevice) × (entry ≡ some device') × Later device device'

still :
    (entry : Option EnrolledDevice) (device : EnrolledDevice)
    → entry ≡ some device
    → Enrols entry device
still entry device h = (device, h, (refl, refl, or_self device.revoked))

pub devices-kill_connection :
    (s : Server) (d : DeviceId) → (kill_connection s d).registry.devices ≡ s.registry.devices
unfolding kill_connection
devices-kill_connection s d = elim (Option-cases (get s.registry.kill_switches d)) [
  | inl e ↦ rw (kill_connection, e) refl
  | inr (i, e) ↦ rw (kill_connection, e) refl
]

pub Act-Enrols :
    {s t : Server} (d : DeviceId) (device : EnrolledDevice)
    → Act s t
    → get s.registry.devices d ≡ some device
    → Enrols (get t.registry.devices d) device
unfolding accept deliver
Act-Enrols d device (token_minted s _ _ _) h = still _ device h
Act-Enrols d device (token_consumed s _) h = still _ device h
Act-Enrols d device (device_added s new_id new free) h = elim (same-cases d new_id) [
  | inl own ↦ absurd (taken device (sym free ∙ sym (ap (get s.registry.devices) own) ∙ h))
  | inr other ↦ still _ device (get-insert_ne new_id d new s.registry.devices other ∙ h)
]
  where
    taken : (device : EnrolledDevice) → none ≡ some device → ⊥
    taken device e = ground arith
Act-Enrols d device (device_revoked s gone) h = elim (same-cases d gone) [
  | inl own ↦ (
    revoke device,
    ap (get (modify gone revoke s.registry.devices)) own
        ∙ get-modify_self gone revoke s.registry.devices device
            (sym (ap (get s.registry.devices) own) ∙ h),
    (refl, refl, or_true device.revoked),
  )
  | inr other ↦ still _ device (get-modify_ne gone d revoke s.registry.devices other ∙ h)
]
Act-Enrols d device (sessions_changed s _) h = still _ device h
Act-Enrols d device (presence_changed s _) h = still _ device h
Act-Enrols d device (fcm_changed s _) h = still _ device h
Act-Enrols d device (fcm_dispatched s _) h = still _ device h
Act-Enrols d device (tunnel_opened s _ _ _ _ _) h = still _ device h
Act-Enrols d device (tunnel_touched now s _) h = still _ device h
Act-Enrols d device (tunnels_retained s _) h = still _ device h
Act-Enrols d device (disconnected s _ _ _ _ _) h = still _ device h
Act-Enrols d device (moved s _ _ _ _ _ _) h = still _ device h
Act-Enrols d device (opened s _ _ _ _ _) h = still _ device h
Act-Enrols d device (killed s d') h =
    still _ device (ap (λ m. get m d) (devices-kill_connection s d') ∙ h)
Act-Enrols d device (sent s s' d' wire e) h =
    still _ device (ap (λ r. get r.devices d) (send_to-Sends s s' d' wire e).0 ∙ h)
Act-Enrols d device (accepted s _ _) h = still _ device h
Act-Enrols d device (started s _ _ _ _ _ _) h = still _ device h
Act-Enrols d device (delivered s _) h = still _ device h

Later-Later : (x y z : EnrolledDevice) → Later x y → Later y z → Later x z
Later-Later x y z (k, c, r) (k', c', r') =
    (k' ∙ k, c' ∙ c, or_trans x.revoked y.revoked z.revoked r r')

Acts-Enrols :
    {s t : Server} (d : DeviceId) (device : EnrolledDevice)
    → Acts s t
    → get s.registry.devices d ≡ some device
    → Enrols (get t.registry.devices d) device
Acts-Enrols d device none_yet h = still _ device h
Acts-Enrols d device (then_act a b) h =
    let (device', at, later) = Acts-Enrols d device a h in
    let (device'', at', later') = Act-Enrols d device' b at in
    (device'', at', Later-Later device device' device'' later later')

-- Along any steps of the relay in which a random token, tunnel id or device id is new to the registry, a device that is
-- enrolled stays enrolled with the same key and the same class, and once it is revoked it stays revoked.
pub Reach-Enrols :
    {g : Setting} {s t : Server} (d : DeviceId) (device : EnrolledDevice)
    → (r : Reach g s t) → AllFresh r
    → get s.registry.devices d ≡ some device
    → Enrols (get t.registry.devices d) device
Reach-Enrols d device here _ h = still _ device h
Reach-Enrols d device (next r st) (new, fresh) h =
    let (device', at, later) = Reach-Enrols d device r fresh h in
    let (device'', at', later') = Acts-Enrols d device' (Step-Acts _ st new) at in
    (device'', at', Later-Later device device' device'' later later')

revoke_device-marks :
    (s : Server) (d : DeviceId)
    → (revoke_device s d).1 ≡ true
    → (device : EnrolledDevice) × (get (revoke_device s d).0.registry.devices d ≡ some device)
      × (device.revoked ≡ true)
unfolding revoke_device
revoke_device-marks s d found = elim (Option-cases (get s.registry.devices d)) [
  | inl e ↦ absurd (ground arith)
  | inr (device, e) ↦
      let marked : Server = record s {
        registry = record s.registry { devices = modify d revoke s.registry.devices };
      } in
      (
        revoke device,
        rw (revoke_device, e)
            (ap (λ m. get m d) (devices-kill_connection marked d)
              ∙ get-modify_self d revoke s.registry.devices device e),
        refl,
      )
]

-- After a device that the registry knows was revoked, and after any further steps of the relay in which a random
-- token, tunnel id or device id is new to the registry, no client is authenticated as this device, with any
-- certificate and any signature.
pub revoke_device-refuses :
    {g : Setting} (s t : Server) (d : DeviceId) (now : ℕ) (nonce : Bytes) (auth : DeviceAuth)
    (who : Authenticated)
    → (revoke_device s d).1 ≡ true
    → (r : Reach g (revoke_device s d).0 t) → AllFresh r
    → authenticate_device g.crypto g.ca_key now t.registry nonce auth ≡ done who
    → who.device_id ≢ d
revoke_device-refuses {g = g} s t d now nonce auth who found r fresh let_in same_device =
    let (device, at, gone) = revoke_device-marks s d found in
    let (device', at', (_, _, stays)) = Reach-Enrols d device r fresh at in
    let (device'', _, _, _, known, live, _, _, _) =
      authenticate_device_sound g.crypto g.ca_key now nonce t.registry auth who let_in in
    let same_entry : device' ≡ device'' =
      eq_of_some (sym at' ∙ sym (ap (get t.registry.devices) same_device) ∙ known) in
    let alive : device'.revoked ≡ false = ap (λ e. e.revoked) same_entry ∙ live in
    absurd (ground arith)
