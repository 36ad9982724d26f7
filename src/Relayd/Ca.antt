-- ===== src/Relayd/Ca.antt =====
-- rust/choosh-relayd/src/ca.rs: the certificates of the enrollment authority. The crates base64, serde_json and
-- ed25519_dalek are parameters; text is the list of its bytes; reading and writing the key file is not modelled.
pub mod Certificates
mod Tests
use choosh.Prelude.{
  ℕ, ◌+◌, ◌*◌, ◌≡◌, Bool, true, false, not, Option, none, some, ltb, ◌==◌, if◌then◌else◌, length,
  Bytes, Outcome, done, failed,
}

abbrev pub certificate_validity_seconds : ℕ
certificate_validity_seconds = 365 * 24 * 60 * 60

pub record CertificateBody : Type 0 where
  pub device_id : Bytes
  pub public_key : Bytes
  pub issued_at_unix : ℕ
  pub not_after_unix : ℕ

pub record SignedCertificate : Type 0 where
  pub body : CertificateBody
  pub ca_signature : Bytes

pub data CertificateError : Type 0 where
  malformed bad_signature expired : CertificateError

-- What the source takes of the crates: base64 in the standard alphabet, the JSON of the two types, and Ed25519
-- with keys and signatures as bytes. `is_key` tells the bytes that `VerifyingKey::from_bytes` accepts.
pub record Crypto : Type 0 where
  pub base64_encode : Bytes → Bytes
  pub base64_decode : Bytes → Option Bytes
  pub body_to_json : CertificateBody → Bytes
  pub signed_to_json : SignedCertificate → Bytes
  pub signed_from_json : Bytes → Option SignedCertificate
  pub verifying_key : Bytes → Bytes
  pub sign : Bytes → Bytes → Bytes
  pub verify_signature : Bytes → Bytes → Bytes → Bool
  pub is_key : Bytes → Bool

-- What the crates promise: what is written is read back, a signature has 64 bytes and verifies under its key.
pub record CryptoLaws (c : Crypto) : Type 0 where
  pub base64 : (bytes : Bytes) → c.base64_decode (c.base64_encode bytes) ≡ some bytes
  pub json : (s : SignedCertificate) → c.signed_from_json (c.signed_to_json s) ≡ some s
  pub signature_size : (key message : Bytes) → length (c.sign key message) ≡ 64
  pub signature :
      (key message : Bytes)
      → c.verify_signature (c.verifying_key key) message (c.sign key message) ≡ true

module _ (c : Crypto) where
  unfoldable pub issue : Bytes → Bytes → Bytes → ℕ → Bytes
  issue ca_key device_id public_key_bytes issued_at_unix =
      let body : CertificateBody = record {
        device_id = device_id;
        public_key = c.base64_encode public_key_bytes;
        issued_at_unix = issued_at_unix;
        not_after_unix = issued_at_unix + certificate_validity_seconds;
      } in
      let signature = c.sign ca_key (c.body_to_json body) in
      c.base64_encode
        (c.signed_to_json (record { body = body; ca_signature = c.base64_encode signature }))

  -- The checks on the signature and the date, and the decoding of the key.
  unfoldable pub verify_signed :
      Bytes → SignedCertificate → Bytes → ℕ → Outcome CertificateError (Bytes × Bytes)
  verify_signed ca_verifying_key signed signature_bytes now_unix =
      if not (length signature_bytes == 64)
      then failed malformed
      else if not (c.verify_signature ca_verifying_key (c.body_to_json signed.body) signature_bytes)
      then failed bad_signature
      else if ltb signed.body.not_after_unix now_unix
      then failed expired
      else (elim (c.base64_decode signed.body.public_key) [
        | none ↦ failed malformed
        | some public_key ↦ done (signed.body.device_id, public_key)
      ])

  unfoldable pub verify : Bytes → Bytes → ℕ → Outcome CertificateError (Bytes × Bytes)
  unfolding verify_signed
  verify ca_verifying_key certificate_b64 now_unix = elim (c.base64_decode certificate_b64) [
    | none ↦ failed malformed
    | some signed_bytes ↦ elim (c.signed_from_json signed_bytes) [
      | none ↦ failed malformed
      | some signed ↦ elim (c.base64_decode signed.ca_signature) [
        | none ↦ failed malformed
        | some signature_bytes ↦ verify_signed ca_verifying_key signed signature_bytes now_unix
      ]
    ]
  ]
