-- ===== src/Relayd/Acts/OfSteps.antt =====
-- Every step of the relay is made of elementary acts.
use choosh.Prelude.{
  ℕ, ◌+◌, ◌≤◌, ◌≡◌, refl, Option-cases, sym, ap, inl, inr, Bool, true, false, not, ltb, ◌==◌,
  length, if_elim, [], ◌∷◌, none, some, arith, Bool-cases, String, Bytes, Outcome-cases, done, get,
  get_elem?, insert, modify, remove, string_eq, bytes_eq,
}
use choosh.Protocol.Relay.{
  DeviceId, IdentityClass, devhost, same_class, Enrolment, frame_class_control, frame_class_tunnel,
  tunnel_id_bytes, max_tunnel_frame_bytes,
}
use choosh.Relayd.Access.{
  Tokens, Authenticated, decode_public_key, host_key, consume, consume_token, new_device,
  enroll_keys, handle_enroll, authenticate_phone,
}
use choosh.Relayd.Acts.{
  token_minted, token_consumed, device_added, sessions_changed, presence_changed, disconnected,
  killed, accepted, moved, opened, started, delivered, Acts, none_yet, one-Act, Acts-trans,
}
use choosh.Relayd.Acts.Handlers.{dispatch-Acts}
use choosh.Relayd.Acts.Sending.{
  handle_tunnel_frame-Acts, close_tunnels_for_device-Acts, reap_idle_tunnels-Acts,
}
use choosh.Relayd.Ca.{Crypto}
use choosh.Relayd.Dispatch.{dispatch}
use choosh.Relayd.Listings.{Env}
use choosh.Relayd.Serve.{Served, with_touch, answer, handle_control_frame, serve_class, serve_frame}
use choosh.Relayd.Sockets.{
  marked_online, switch_removed, tunnels_closed, closed, Socket, Server, routes, set_phase,
  kill_connection, mark_online, mark_offline, announce, add_channel, add_kill_switch,
  registry_touch,
}
use choosh.Relayd.Sockets.Serving.{get-kill_connection, kill_connection-device}
use choosh.Relayd.State.{EnrollmentToken, SocketId, enrollment_token_validity_seconds}
use choosh.Relayd.Steps.{
  Setting, as_authenticated, with_registry, with_sessions, Fresh, IsFresh,
  dev_mint_enrollment_token, Step, device_accepted, session_minted, mint_session, phone_accepted,
  phone_refused, announced, channel_added, registered, frame_served, item_taken, left, switched_off,
  tunnels_ended, gone_offline, enrolled, minted, reaped,
}
use choosh.Relayd.Tunnels.{remove_channel, remove_kill_switch, end_tunnels, go_offline}
use choosh.Relayd.Wire.{decode_control, encode_control}

add_kill_switch-Acts :
    (s : Server) (i : SocketId) (socket : Socket)
    → get_elem? s.sockets i ≡ some socket
    → Acts s (add_kill_switch s i socket.device_id)
unfolding add_kill_switch
add_kill_switch-Acts s i socket at =
    let d = socket.device_id in
    let (k, at', device) = kill_connection-device s d i socket at in
    Acts-trans (one-Act (killed s d))
      (one-Act (started (kill_connection s d) i d k at' device (get-kill_connection s d)))

module _ (g : Setting) (env : Env) where
  handle_control_frame-Acts :
      (allowed : Bool) (s : Server) (who : Authenticated) (frame : Bytes)
      → Fresh env s
      → Acts s (handle_control_frame g.requests g.responses env allowed s who frame).server
  unfolding handle_control_frame
  handle_control_frame-Acts allowed s who frame fresh =
      elim (Outcome-cases (decode_control g.requests frame)) [
        | inr (_, e) ↦ rw (handle_control_frame, e) none_yet
        | inl (request, e) ↦ elim (Bool-cases allowed) [
          | inr slow ↦ rw (handle_control_frame, e, slow) none_yet
          | inl quick ↦
              let acted = dispatch-Acts env s who request fresh in
              elim (Outcome-cases (encode_control g.responses (dispatch env s who request).1)) [
                | inl (_, e') ↦ rw (handle_control_frame, e, quick, answer, e') acted
                | inr (_, e') ↦ rw (handle_control_frame, e, quick, answer, e') acted
              ]
        ]
      ]

  serve_class-Acts :
      (allowed : Bool) (s : Server) (who : Authenticated) (class : ℕ) (frame : Bytes)
      → Fresh env s
      → Acts s (serve_class g.requests g.responses env allowed s who class frame).server
  unfolding serve_class
  serve_class-Acts allowed s who class frame fresh =
      if_elim {A = Served} (λ r. Acts s r.server) (class == frame_class_control)
        (handle_control_frame-Acts allowed s who frame fresh)
        (if_elim {A = Served} (λ r. Acts s r.server) (not (class == frame_class_tunnel)) none_yet
          (if_elim {A = Served} (λ r. Acts s r.server)
            (ltb (1 + tunnel_id_bytes + max_tunnel_frame_bytes) (length frame)) none_yet
            (handle_tunnel_frame-Acts env.now s who.device_id frame)))

  serve_frame-Acts :
      (allowed : Bool) (s : Server) (who : Authenticated) (frame : Bytes)
      → Fresh env s
      → Acts s (serve_frame g.requests g.responses env allowed s who frame).server
  unfolding serve_frame with_touch registry_touch
  serve_frame-Acts allowed s who [] fresh =
      one-Act (presence_changed s (with_touch env s who).registry.online_devices)
  serve_frame-Acts allowed s who (class ∷ body) fresh =
      Acts-trans (one-Act (presence_changed s (with_touch env s who).registry.online_devices))
        (serve_class-Acts allowed (with_touch env s who) who class (class ∷ body) fresh)

pub consume_token-eq_done :
    (now : ℕ) (all tokens : Tokens) (token : String) (c : IdentityClass)
    → consume_token now all token c ≡ done tokens
    → (entry : EnrollmentToken) × (get all token ≡ some entry)
      × (entry.consumed ≡ false)
      × (now ≤ entry.expires_at_unix)
      × (same_class entry.identity_class c ≡ true)
      × (modify token consume all ≡ tokens)
unfolding consume_token
consume_token-eq_done now all tokens token c h = elim (Option-cases (get all token)) [
  | inl e ↦ absurd (ground arith)
  | inr (entry, e) ↦ elim (Bool-cases entry.consumed) [
    | inl used ↦ absurd (ground arith)
    | inr unused ↦ elim (Bool-cases (ltb entry.expires_at_unix now)) [
      | inl late ↦ absurd (ground arith)
      | inr fresh ↦ elim (Bool-cases (same_class entry.identity_class c)) [
        | inr other ↦ absurd (ground arith)
        | inl mine ↦ (entry, e, unused, ground arith, mine, ground arith)
      ]
    ]
  ]
]

module _ (c : Crypto) (ca_key : Bytes) (now : ℕ) (device_id : DeviceId) where
  enroll_keys-Acts :
      (s : Server) (r : String) (e : Enrolment)
      → get s.registry.devices device_id ≡ none
      → Acts s (with_registry s (enroll_keys c ca_key now device_id s.registry r e).0)
  unfolding enroll_keys
  enroll_keys-Acts s r e new = elim (Outcome-cases (decode_public_key c e.public_key)) [
    | inr (_, h) ↦ rw (enroll_keys, h) none_yet
    | inl (key, h) ↦ elim (Outcome-cases (host_key c e.identity_class e.host_ssh_public_key)) [
      | inr (_, h') ↦ rw (enroll_keys, h, h') none_yet
      | inl (host, h') ↦
          rw (enroll_keys, h, h')
            (one-Act (device_added s device_id (new_device c device_id e key host) new))
    ]
  ]

  handle_enroll-Acts :
      (s : Server) (r : String) (e : Enrolment)
      → get s.registry.devices device_id ≡ none
      → Acts s (with_registry s (handle_enroll c ca_key now device_id s.registry r e).0)
  unfolding handle_enroll
  handle_enroll-Acts s r e new =
      elim (Outcome-cases (consume_token now s.registry.tokens e.token e.identity_class)) [
        | inr (_, h) ↦ rw (handle_enroll, h) none_yet
        | inl (tokens, h) ↦
            let (_, _, _, _, _, spent) =
              consume_token-eq_done now s.registry.tokens tokens e.token e.identity_class h in
            let after : Server =
              with_registry s
                (record s.registry { tokens = modify e.token consume s.registry.tokens }) in
            rw (handle_enroll, h, sym spent)
              (Acts-trans (one-Act (token_consumed s e.token)) (enroll_keys-Acts after r e new))
      ]

-- A step is a sequence of acts.
pub Step-Acts : (g : Setting) {s t : Server} (st : Step g s t) → IsFresh st → Acts s t
unfolding dev_mint_enrollment_token mint_session announce mark_online add_channel remove_channel
    remove_kill_switch end_tunnels go_offline mark_offline
Step-Acts g (device_accepted s now nonce auth who h) _ =
    one-Act (accepted s who.device_id who.identity_class)
Step-Acts g (session_minted s now credential device_id) _ =
    one-Act (sessions_changed s (mint_session now credential device_id s).registry.phone_sessions)
Step-Acts g (phone_accepted s now credential sessions who h) _ =
    Acts-trans (one-Act (sessions_changed s sessions))
      (one-Act (accepted (with_sessions s sessions) who.device_id who.identity_class))
Step-Acts g (phone_refused s now credential) _ =
    one-Act (sessions_changed s (authenticate_phone now s.registry.phone_sessions credential).0)
Step-Acts g (announced s now i socket at h) _ =
    Acts-trans (one-Act (moved s i marked_online socket at (ap routes h) refl)) (
      one-Act (
        presence_changed (set_phase s i marked_online)
          (insert socket.device_id now s.registry.online_devices)))
Step-Acts g (channel_added s i socket at _) _ = one-Act (opened s i socket.device_id socket at refl)
Step-Acts g (registered s i socket at _) _ = add_kill_switch-Acts s i socket at
Step-Acts g (frame_served s env allowed i socket frame at _) fresh =
    serve_frame-Acts g env allowed s (as_authenticated socket) frame fresh
Step-Acts g (item_taken s i) _ = one-Act (delivered s i)
Step-Acts g (left s i socket at _) _ = one-Act (disconnected s i socket.device_id socket at refl)
Step-Acts g (switched_off s i socket at h) _ =
    Acts-trans (one-Act (moved s i switch_removed socket at (ap routes h) refl))
      (one-Act (killed (set_phase s i switch_removed) socket.device_id))
Step-Acts g (tunnels_ended s i socket at h) _ =
    Acts-trans (one-Act (moved s i tunnels_closed socket at (ap routes h) refl))
      (close_tunnels_for_device-Acts (set_phase s i tunnels_closed) socket.device_id)
Step-Acts g (gone_offline s i socket at h) _ =
    Acts-trans (one-Act (moved s i closed socket at (ap routes h) refl)) (
      one-Act (
        presence_changed (set_phase s i closed)
          (remove socket.device_id s.registry.online_devices)))
Step-Acts g (enrolled s now device_id r e) new =
    handle_enroll-Acts g.crypto g.ca_key now device_id s r e new
Step-Acts g (minted s env) fresh = one-Act (
    token_minted s env.generate_token
      (record {
        identity_class = devhost;
        expires_at_unix = env.now + enrollment_token_validity_seconds;
        consumed = false;
      })
      fresh.0)
Step-Acts g (reaped s now) _ = reap_idle_tunnels-Acts now s
