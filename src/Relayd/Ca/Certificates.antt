-- ===== src/Relayd/Ca/Certificates.antt =====
-- What a certificate of rust/choosh-relayd/src/ca.rs proves.
use choosh.Prelude.{
  ℕ, ◌+◌, ◌≤◌, ◌≡◌, true, some, inl, inr, ltb, if◌then◌else◌, length, arith, Bytes, done, failed,
  Option-cases, ==_iff,
}
use choosh.Relayd.Ca.{
  certificate_validity_seconds, CertificateBody, SignedCertificate, expired, Crypto, CryptoLaws,
  issue, verify_signed, verify,
}

-- A certificate that was issued is verified under the same authority's key as the device and the key that it
-- was issued for, up to a year after its issue, and is refused as expired from then on.
pub verify-issue :
    (c : Crypto)
    → CryptoLaws c
    → (ca_key : Bytes) (device_id : Bytes) (key : Bytes) (issued_at now : ℕ)
    → verify c (c.verifying_key ca_key) (issue c ca_key device_id key issued_at) now ≡ (
        if ltb (issued_at + certificate_validity_seconds) now
        then failed expired
        else done (device_id, key))
unfolding verify verify_signed issue
verify-issue c laws ca_key device_id key issued_at now =
    let body : CertificateBody = record {
      device_id = device_id;
      public_key = c.base64_encode key;
      issued_at_unix = issued_at;
      not_after_unix = issued_at + certificate_validity_seconds;
    } in
    let signature = c.sign ca_key (c.body_to_json body) in
    let signed : SignedCertificate = record {
      body = body;
      ca_signature = c.base64_encode signature;
    } in
    ground (
      arith,
      laws.base64 (c.signed_to_json signed),
      laws.json signed,
      laws.base64 signature,
      laws.signature_size ca_key (c.body_to_json body),
      laws.signature ca_key (c.body_to_json body),
      laws.base64 key,
    )

verify_signed_sound :
    (c : Crypto) (ca_verifying_key : Bytes) (now : ℕ) (device_id key : Bytes)
    (signed : SignedCertificate) (signature : Bytes)
    → verify_signed c ca_verifying_key signed signature now ≡ done (device_id, key)
    → (length signature ≡ 64)
      × (c.verify_signature ca_verifying_key (c.body_to_json signed.body) signature ≡ true)
      × (now ≤ signed.body.not_after_unix)
      × (signed.body.device_id ≡ device_id)
      × (c.base64_decode signed.body.public_key ≡ some key)
unfolding verify_signed
verify_signed_sound c ca_verifying_key now device_id key signed signature h =
    elim (Option-cases (c.base64_decode signed.body.public_key)) [
      | inl e ↦ absurd (ground (arith, ==_iff (length signature) 64))
      | inr (k, e) ↦ ground (arith, ==_iff (length signature) 64)
    ]

-- Whatever is verified as a certificate carries a signature of 64 bytes over its body that verifies under the authority's key, is not
-- past the last second of the body, and gives the device and the key that stand in the body.
pub verify_sound :
    (c : Crypto) (ca_verifying_key : Bytes) (certificate : Bytes) (now : ℕ) (device_id : Bytes)
    (key : Bytes)
    → verify c ca_verifying_key certificate now ≡ done (device_id, key)
    → (body : CertificateBody) × (signature : Bytes) × (length signature ≡ 64)
      × (c.verify_signature ca_verifying_key (c.body_to_json body) signature ≡ true)
      × (now ≤ body.not_after_unix)
      × (body.device_id ≡ device_id)
      × (c.base64_decode body.public_key ≡ some key)
unfolding verify
verify_sound c ca_verifying_key certificate now device_id key h =
    elim (Option-cases (c.base64_decode certificate)) [
      | inl e ↦ absurd (ground arith)
      | inr (signed_bytes, e) ↦ elim (Option-cases (c.signed_from_json signed_bytes)) [
        | inl e' ↦ absurd (ground arith)
        | inr (signed, e') ↦ elim (Option-cases (c.base64_decode signed.ca_signature)) [
          | inl e'' ↦ absurd (ground arith)
          | inr (signature, e'') ↦
              let (size, valid, fresh, device, read) =
                verify_signed_sound c ca_verifying_key now device_id key signed signature
                  (ground arith) in
              (signed.body, signature, size, valid, fresh, device, read)
        ]
      ]
    ]
