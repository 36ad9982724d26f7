-- ===== src/Relayd/Tunnels/Preservation.antt =====
-- What the sending of tunnel frames in rust/choosh-relayd/src/ws.rs leaves as it was: the registry and the device of
-- every socket.
use choosh.Prelude.{
  ◌≡◌, refl, sym, ◌∙◌, subst, inl, inr, List, [], ◌∷◌, some, arith, get_elem?, update_at,
  get_elem?-update_at_self, get_elem?-update_at_ne, Option-cases, Bytes, get, nat_eq, bytes_eq,
  same-cases,
}
use choosh.Protocol.Relay.{DeviceId, TunnelId}
use choosh.Relayd.State.{SocketId}
use choosh.Relayd.Sockets.{
  Socket, Server, enqueue, send_to, send_best_effort, wire_tunnel_frame, forward_data,
  forward_close,
}
use choosh.Relayd.Sockets.Preservation.{try_send-eq_some}
use choosh.Relayd.Tunnels.{notify}

-- Every socket is still there, with its device.
abbrev pub Keeps : Server → Server → Type 0
Keeps s s' =
    (i : SocketId) (socket : Socket)
    → get_elem? s.sockets i ≡ some socket
    → (socket' : Socket) × (get_elem? s'.sockets i ≡ some socket')
      × (socket'.device_id ≡ socket.device_id)

pub Keeps-refl : (s : Server) → Keeps s s
Keeps-refl s i socket h = (socket, h, refl)

pub Keeps-trans : (s t u : Server) → Keeps s t → Keeps t u → Keeps s u
Keeps-trans s t u f g i socket h =
    let (k, at, device) = f i socket h in
    let (k', at', device') = g i k at in (k', at', device' ∙ device)

pub update-Keeps :
    (s : Server) (j : SocketId) (f : Socket → Socket)
    → ((k : Socket) → (f k).device_id ≡ k.device_id)
    → Keeps s (record s { sockets = update_at j f s.sockets })
update-Keeps s j f device i socket h = elim (same-cases j i) [
  | inl own ↦ (
    f socket,
    subst (λ n. get_elem? (update_at j f s.sockets) n ≡ some (f socket)) own
        (get_elem?-update_at_self j f s.sockets socket
          (subst (λ n. get_elem? s.sockets n ≡ some socket) (sym own) h)),
    device socket,
  )
  | inr other ↦ (socket, get_elem?-update_at_ne j i f s.sockets other ∙ h, refl)
]

-- What a send leaves: the registry and the sockets' devices.
abbrev pub Sends : Server → Server → Type 0
Sends s s' = (s'.registry ≡ s.registry) × Keeps s s'

Sends-refl : (s : Server) → Sends s s
Sends-refl s = (refl, Keeps-refl s)

Sends-trans : (s t u : Server) → Sends s t → Sends t u → Sends s u
Sends-trans s t u (r, f) (r', g) = (r' ∙ r, Keeps-trans s t u f g)

pub send_to-Sends :
    (s s' : Server) (d : DeviceId) (wire : Bytes) → send_to s d wire ≡ some s' → Sends s s'
unfolding send_to
send_to-Sends s s' d wire h = elim (Option-cases (get s.registry.connections d)) [
  | inl e ↦ absurd (ground arith)
  | inr (i, e) ↦
      let (socket, at, fits, result) = try_send-eq_some s s' i wire (ground arith) in
      subst (Sends s) result (refl, update-Keeps s i (enqueue wire) (λ k. refl))
]

pub send_best_effort-Sends :
    (s : Server) (d : DeviceId) (wire : Bytes) → Sends s (send_best_effort s d wire)
unfolding send_best_effort
send_best_effort-Sends s d wire = elim (Option-cases (send_to s d wire)) [
  | inl e ↦ rw (e, send_best_effort) (Sends-refl s)
  | inr (s', e) ↦ rw (e, send_best_effort) (send_to-Sends s s' d wire e)
]

pub forward_close-Sends :
    (s : Server) (d : DeviceId) (id : TunnelId) → Sends s (forward_close s d id)
unfolding forward_close
forward_close-Sends s d id = elim (Option-cases (wire_tunnel_frame id [])) [
  | inl e ↦ rw (e, forward_close) (Sends-refl s)
  | inr (wire, e) ↦ rw (e, forward_close) (send_best_effort-Sends s d wire)
]

pub forward_data-Sends :
    (s s' : Server) (d : DeviceId) (id : TunnelId) (payload : Bytes)
    → forward_data s d id payload ≡ some s'
    → Sends s s'
unfolding forward_data
forward_data-Sends s s' d id payload h = elim (Option-cases (wire_tunnel_frame id payload)) [
  | inl e ↦ absurd (ground arith)
  | inr (wire, e) ↦ send_to-Sends s s' d wire (ground arith)
]

pub notify-Sends : (s : Server) (items : List (TunnelId × DeviceId)) → Sends s (notify s items)
notify-Sends s [] = Sends-refl s
notify-Sends s (item ∷ items) =
    Sends-trans s (forward_close s item.1 item.0) (notify s (item ∷ items))
      (forward_close-Sends s item.1 item.0) (notify-Sends (forward_close s item.1 item.0) items)
