-- ===== src/Relayd/Access.antt =====
-- rust/choosh-relayd/src/ws.rs: who may come in. Certificates and signatures of devices, sessions of phones,
-- and enrolment with a token. The device id and the time are arguments.
pub mod Authentication
use choosh.Prelude.{
  ℕ, ◌+◌, Bool, true, false, not, ◌&&◌, ◌||◌, List, [], ◌∷◌, Option, none, some, ltb, ◌==◌,
  if◌then◌else◌, length, String, Bytes, Outcome, done, failed, Map, get, insert, remove, modify,
  same, string_eq, bytes_eq,
}
use choosh.Protocol.Relay.{
  DeviceId, IdentityClass, phone, laptop_proxy, devhost, same_class, DeviceAuth, Enrolment,
  ControlResponse, enroll_ok, error,
}
use choosh.Relayd.Ca.{Crypto, issue, verify}
use choosh.Relayd.State.{
  EnrolledDevice, EnrollmentToken, PhoneSession, Registry, session_credential_validity_seconds,
}

pub record Authenticated : Type 0 where
  pub device_id : DeviceId
  pub identity_class : IdentityClass

abbrev pub missing : {A : Type 0} → String → Option A → Outcome String A
missing message none = failed message
missing message (some a) = done a

infixl 20 ◌and_then◌
abbrev pub ◌and_then◌ :
    {A B : Type 0} → Outcome String A → (A → Outcome String B) → Outcome String B
(done a) and_then f = f a
(failed e) and_then f = failed e

module _ (c : Crypto) where
  abbrev pub verify_certificate : Bytes → Bytes → ℕ → Outcome String (DeviceId × Bytes)
  verify_certificate ca_key certificate now =
      elim (verify c (c.verifying_key ca_key) certificate now) [
        | done bound ↦ done bound
        | failed _ ↦ failed "certificate invalid or expired"
      ]

  -- The signature over the nonce, under the key of the certificate.
  unfoldable pub check_signature : Bytes → Bytes → Bytes → Outcome String Bool
  check_signature public_key nonce signature_b64 =
      if not (length public_key == 32) || not (c.is_key public_key)
      then failed "malformed public key"
      else (elim (c.base64_decode signature_b64) [
        | none ↦ failed "malformed signature"
        | some signature ↦
            if not (length signature == 64)
            then failed "malformed signature"
            else if not (c.verify_signature public_key nonce signature)
            then failed "signature does not verify"
            else done true
      ])

  -- The device's record against its certificate.
  abbrev pub check_device : EnrolledDevice → Bytes → Outcome String EnrolledDevice
  check_device entry cert_public_key =
      if entry.revoked
      then failed "device revoked"
      else if not (same entry.public_key cert_public_key)
      then failed "certificate public key does not match enrollment record"
      else done entry

  unfoldable pub authenticate_device :
      Bytes → ℕ → Registry → Bytes → DeviceAuth → Outcome String Authenticated
  unfolding check_signature
  authenticate_device ca_key now r nonce device_auth =
      verify_certificate ca_key device_auth.certificate now and_then λ bound.
      (if not (same bound.0 device_auth.device_id)
        then failed "certificate does not match presented device_id"
        else missing "unknown device" (get r.devices device_auth.device_id))
      and_then λ entry. check_device entry bound.1 and_then λ entry'.
          check_signature bound.1 nonce device_auth.signature and_then λ _.
          done (record { device_id = bound.0; identity_class = entry'.identity_class })

abbrev pub Sessions : Type 0
Sessions = Map String PhoneSession

-- A session that is past its end is forgotten; another is renewed.
unfoldable pub authenticate_phone : ℕ → Sessions → String → Sessions × Outcome String Authenticated
authenticate_phone now sessions credential = elim (get sessions credential) [
  | none ↦ (sessions, failed "unknown or revoked session credential")
  | some session ↦
      if ltb session.expires_at_unix now
      then (remove credential sessions, failed "session credential expired")
      else (
        modify credential
            (λ session. record session {
              expires_at_unix = now + session_credential_validity_seconds;
            })
            sessions,
        done (record { device_id = session.device_id; identity_class = phone }),
      )
]

abbrev pub Tokens : Type 0
Tokens = Map String EnrollmentToken

abbrev pub consume : EnrollmentToken → EnrollmentToken
consume entry = record entry { consumed = true }

unfoldable pub consume_token : ℕ → Tokens → String → IdentityClass → Outcome String Tokens
consume_token now tokens token requested_class = elim (get tokens token) [
  | none ↦ failed "token_unknown"
  | some entry ↦
      if entry.consumed
      then failed "token_consumed"
      else if ltb entry.expires_at_unix now
      then failed "token_expired"
      else if not (same_class entry.identity_class requested_class)
      then failed "token_wrong_class"
      else done (modify token consume tokens)
]

abbrev pub value_or {ℓ} : {A : Type ℓ} → A → Option A → A
value_or a none = a
value_or a (some b) = b

-- An error's code and its message.
abbrev pub Refusal : Type 0
Refusal = String × String

module _ (c : Crypto) where
  -- The host key of a devhost; that of another class is ignored.
  unfoldable pub host_key : IdentityClass → Option Bytes → Outcome Refusal (Option Bytes)
  host_key devhost none = failed (
    "missing_host_ssh_public_key",
    "devhost enrollment MUST include the loopback SSH server's host public key",
  )
  host_key devhost (some encoded) =
      let malformed : Refusal = (
        "invalid_host_ssh_public_key",
        "host_ssh_public_key is not a valid base64-encoded 32-byte Ed25519 public key",
      ) in
      elim (c.base64_decode encoded) [
        | none ↦ failed malformed
        | some bytes ↦ if length bytes == 32 then done (some bytes) else failed malformed
      ]
  host_key _ _ = done none

  abbrev pub decode_public_key : Bytes → Outcome Refusal Bytes
  decode_public_key encoded = elim (c.base64_decode encoded) [
    | none ↦ failed ("invalid_public_key", "public_key is not valid base64")
    | some bytes ↦ done bytes
  ]

  abbrev pub new_device : DeviceId → Enrolment → Bytes → Option Bytes → EnrolledDevice
  new_device device_id e public_key_bytes host_key_bytes = record {
    public_key = public_key_bytes;
    identity_class = e.identity_class;
    alias = value_or device_id e.alias;
    platform = e.platform;
    account_label = e.account_label;
    revoked = false;
    host_ssh_public_key = host_key_bytes;
  }

  -- The part of the handler behind the token: the two keys, the certificate and the new record.
  unfoldable pub enroll_keys :
      Bytes → ℕ → DeviceId → Registry → String → Enrolment → Registry × ControlResponse
  enroll_keys ca_key now device_id r request_id e = elim (decode_public_key e.public_key) [
    | failed refusal ↦ (r, error request_id refusal.0 refusal.1)
    | done key ↦ elim (host_key e.identity_class e.host_ssh_public_key) [
      | failed refusal ↦ (r, error request_id refusal.0 refusal.1)
      | done host ↦ (
        record r { devices = insert device_id (new_device device_id e key host) r.devices },
        enroll_ok request_id device_id (issue c ca_key device_id key now),
      )
    ]
  ]

  -- `device_id` is the fresh one, `dev-` and a UUID.
  unfoldable pub handle_enroll :
      Bytes → ℕ → DeviceId → Registry → String → Enrolment → Registry × ControlResponse
  unfolding enroll_keys host_key consume_token
  handle_enroll ca_key now device_id r request_id e =
      elim (consume_token now r.tokens e.token e.identity_class) [
        | failed code ↦ (
          r,
          error request_id code "enrollment token is invalid, expired, consumed, or wrong class",
        )
        | done tokens ↦ enroll_keys ca_key now device_id (record r { tokens = tokens }) request_id e
      ]
