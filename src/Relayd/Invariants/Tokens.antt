-- ===== src/Relayd/Invariants/Tokens.antt =====
-- The enrollment tokens of rust/choosh-relayd along the steps of the relay: each is good for one enrolment.
use choosh.Prelude.{
  ℕ, ◌≤◌, ◌≡◌, refl, sym, ap, ◌∙◌, subst, inl, inr, true, false, Option, none, some, arith,
  Option-cases, String, Bytes, done, failed, same-cases, Map, get, insert, modify, get-modify_self,
  get-modify_ne, get-insert_ne, string_eq, bytes_eq,
}
use choosh.Protocol.Relay.{DeviceId, IdentityClass, same_class, Enrolment, error}
use choosh.Relayd.Access.{Tokens, consume, consume_token, handle_enroll}
use choosh.Relayd.Acts.{
  Act, token_minted, token_consumed, device_added, device_revoked, sessions_changed,
  presence_changed, fcm_changed, fcm_dispatched, tunnel_opened, tunnel_touched, tunnels_retained,
  disconnected, killed, sent, accepted, moved, opened, started, delivered, Acts, none_yet, then_act,
}
use choosh.Relayd.Acts.OfSteps.{Step-Acts, consume_token-eq_done}
use choosh.Relayd.Ca.{Crypto}
use choosh.Relayd.Sockets.{Server, kill_connection, accept, deliver}
use choosh.Relayd.State.{EnrollmentToken, Registry}
use choosh.Relayd.Steps.{Setting, with_registry, Reach, here, next, AllFresh}
use choosh.Relayd.Tunnels.Preservation.{send_to-Sends}

-- The entry is one that has been consumed.
abbrev pub IsSpent : Option EnrollmentToken → Type 0
IsSpent entry = (token : EnrollmentToken) × (entry ≡ some token) × (token.consumed ≡ true)

tokens-kill_connection :
    (s : Server) (d : DeviceId) → (kill_connection s d).registry.tokens ≡ s.registry.tokens
unfolding kill_connection
tokens-kill_connection s d = elim (Option-cases (get s.registry.kill_switches d)) [
  | inl e ↦ rw (kill_connection, e) refl
  | inr (i, e) ↦ rw (kill_connection, e) refl
]

consume-IsSpent :
    (m : Map String EnrollmentToken) (used token : String)
    → IsSpent (get m token)
    → IsSpent (get (modify used consume m) token)
consume-IsSpent m used token (entry, at, spent) = elim (same-cases token used) [
  | inl own ↦ (
    consume entry,
    ap (get (modify used consume m)) own
        ∙ get-modify_self used consume m entry (sym (ap (get m) own) ∙ at),
    refl,
  )
  | inr other ↦ (entry, get-modify_ne used token consume m other ∙ at, spent)
]

insert-IsSpent :
    (m : Map String EnrollmentToken) (fresh token : String) (new : EnrollmentToken)
    → get m fresh ≡ none
    → IsSpent (get m token)
    → IsSpent (get (insert fresh new m) token)
insert-IsSpent m fresh token new free (entry, at, spent) = elim (same-cases token fresh) [
  | inl own ↦
      let both : none ≡ some entry = sym free ∙ sym (ap (get m) own) ∙ at in absurd (ground arith)
  | inr other ↦ (entry, get-insert_ne fresh token new m other ∙ at, spent)
]

Act-IsSpent :
    {s t : Server} (token : String)
    → Act s t
    → IsSpent (get s.registry.tokens token)
    → IsSpent (get t.registry.tokens token)
unfolding accept deliver
Act-IsSpent token (token_minted s fresh new free) h =
    insert-IsSpent s.registry.tokens fresh token new free h
Act-IsSpent token (token_consumed s used) h = consume-IsSpent s.registry.tokens used token h
Act-IsSpent token (device_added s _ _ _) h = h
Act-IsSpent token (device_revoked s _) h = h
Act-IsSpent token (sessions_changed s _) h = h
Act-IsSpent token (presence_changed s _) h = h
Act-IsSpent token (fcm_changed s _) h = h
Act-IsSpent token (fcm_dispatched s _) h = h
Act-IsSpent token (tunnel_opened s _ _ _ _ _) h = h
Act-IsSpent token (tunnel_touched _ s _) h = h
Act-IsSpent token (tunnels_retained s _) h = h
Act-IsSpent token (disconnected s _ _ _ _ _) h = h
Act-IsSpent token (moved s _ _ _ _ _ _) h = h
Act-IsSpent token (opened s _ _ _ _ _) h = h
Act-IsSpent token (killed s d) h =
    subst (λ m. IsSpent (get m token)) (sym (tokens-kill_connection s d)) h
Act-IsSpent token (sent s s' d wire e) h =
    subst (λ r. IsSpent (get r.tokens token)) (sym (send_to-Sends s s' d wire e).0) h
Act-IsSpent token (accepted s _ _) h = h
Act-IsSpent token (started s _ _ _ _ _ _) h = h
Act-IsSpent token (delivered s _) h = h

Acts-IsSpent :
    {s t : Server} (token : String)
    → Acts s t
    → IsSpent (get s.registry.tokens token)
    → IsSpent (get t.registry.tokens token)
Acts-IsSpent token none_yet h = h
Acts-IsSpent token (then_act a b) h = Act-IsSpent token b (Acts-IsSpent token a h)

Reach-IsSpent :
    {g : Setting} {s t : Server} (token : String) (r : Reach g s t)
    → AllFresh r
    → IsSpent (get s.registry.tokens token)
    → IsSpent (get t.registry.tokens token)
Reach-IsSpent token here _ h = h
Reach-IsSpent token (next r st) (new, fresh) h =
    Acts-IsSpent token (Step-Acts _ st new) (Reach-IsSpent token r fresh h)

-- A token is taken only if the registry has it, it has not been consumed, it is not past its end and it is of the
-- class that enrols. After any further steps of the relay in which a random token, tunnel id or device id is new
-- to the registry, it is refused as consumed, for any class and at any time.
pub consume_token-once :
    {g : Setting} (s t : Server) (now later : ℕ) (token : String) (c c' : IdentityClass)
    (tokens : Tokens)
    → consume_token now s.registry.tokens token c ≡ done tokens
    → (r : Reach g (with_registry s (record s.registry { tokens = tokens })) t) → AllFresh r
    → ((entry : EnrollmentToken) × (get s.registry.tokens token ≡ some entry)
        × (entry.consumed ≡ false)
        × (now ≤ entry.expires_at_unix)
        × (same_class entry.identity_class c ≡ true))
      × (consume_token later t.registry.tokens token c' ≡ failed "token_consumed")
unfolding consume_token
consume_token-once s t now later token c c' tokens taken r fresh =
    let (entry, at, unused, intime, mine, spent) =
      consume_token-eq_done now s.registry.tokens tokens token c taken in
    let after : IsSpent (get tokens token) =
      subst (λ m. IsSpent (get m token)) spent
        (consume entry, get-modify_self token consume s.registry.tokens entry at, refl) in
    let (entry', at', used) = Reach-IsSpent token r fresh after in
    ((entry, at, unused, intime, mine), ground arith)

-- An enrolment with a consumed token is answered with an error and changes nothing.
pub handle_enroll-consumed :
    (c : Crypto) (ca_key : Bytes) (now : ℕ) (device_id : DeviceId) (r : Registry)
    (request_id : String) (e : Enrolment)
    → IsSpent (get r.tokens e.token)
    → handle_enroll c ca_key now device_id r request_id e ≡ (
      r,
      error request_id "token_consumed"
          "enrollment token is invalid, expired, consumed, or wrong class",
    )
unfolding handle_enroll consume_token
handle_enroll-consumed c ca_key now device_id r request_id e (entry, at, used) = ground arith
