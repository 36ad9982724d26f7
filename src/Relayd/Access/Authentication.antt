-- ===== src/Relayd/Access/Authentication.antt =====
-- Whom rust/choosh-relayd/src/ws.rs lets in as a device.
use choosh.Prelude.{
  ℕ, ◌≡◌, sym, ap, ◌∙◌, subst, inl, inr, Bool, true, false, some, arith, Option-cases, Bool-cases,
  Bytes, Outcome-cases, done, same, eq_of_same, get, bytes_eq,
}
use choosh.Protocol.Relay.{DeviceId, DeviceAuth}
use choosh.Relayd.Access.{Authenticated, check_device, check_signature, authenticate_device}
use choosh.Relayd.Ca.{Crypto, verify}
use choosh.Relayd.State.{EnrolledDevice, Registry}

module _ (c : Crypto) (ca_key : Bytes) (now : ℕ) (nonce : Bytes) where
  check_device-eq_done :
      (entry entry' : EnrolledDevice) (key : Bytes)
      → check_device c entry key ≡ done entry'
      → (entry ≡ entry') × (entry.revoked ≡ false) × (entry.public_key ≡ key)
  check_device-eq_done entry entry' key h = elim (Bool-cases entry.revoked) [
    | inl gone ↦ absurd (ground arith)
    | inr live ↦ elim (Bool-cases (same entry.public_key key)) [
      | inl mine ↦ (ground arith, live, eq_of_same entry.public_key key mine)
      | inr other ↦ absurd (ground arith)
    ]
  ]

  check_signature-eq_done :
      (key signature_b64 : Bytes) (b : Bool)
      → check_signature c key nonce signature_b64 ≡ done b
      → (signature : Bytes) × (c.base64_decode signature_b64 ≡ some signature)
        × (c.verify_signature key nonce signature ≡ true)
  unfolding check_signature
  check_signature-eq_done key signature_b64 b h =
      elim (Option-cases (c.base64_decode signature_b64)) [
        | inl e ↦ absurd (ground arith)
        | inr (signature, e) ↦ (signature, e, ground arith)
      ]

  -- What is known of a client that was let in.
  abbrev pub Admitted : Registry → DeviceAuth → Authenticated → Type 0
  Admitted r auth who =
      (device : EnrolledDevice) × (signature : Bytes) × (verify c (c.verifying_key ca_key)
          auth.certificate now
        ≡ done (who.device_id, device.public_key))
      × (who.device_id ≡ auth.device_id)
      × (get r.devices who.device_id ≡ some device)
      × (device.revoked ≡ false)
      × (c.base64_decode auth.signature ≡ some signature)
      × (c.verify_signature device.public_key nonce signature ≡ true)
      × (who.identity_class ≡ device.identity_class)

  admitted :
      (r : Registry) (auth : DeviceAuth) (who : Authenticated) (id : DeviceId) (key : Bytes)
      (entry entry' : EnrolledDevice) (b : Bool)
      → verify c (c.verifying_key ca_key) auth.certificate now ≡ done (id, key)
      → id ≡ auth.device_id
      → get r.devices auth.device_id ≡ some entry
      → (entry ≡ entry') × (entry.revoked ≡ false) × (entry.public_key ≡ key)
      → check_signature c key nonce auth.signature ≡ done b
      → record { device_id = id; identity_class = entry'.identity_class } ≡ who
      → Admitted r auth who
  admitted r auth who id key entry entry' b e mine f (unchanged, live, own_key) l result =
      let (signature, read, valid) = check_signature-eq_done key auth.signature b l in
      subst (Admitted r auth) result (
        entry,
        signature,
        subst (λ k. verify c (c.verifying_key ca_key) auth.certificate now ≡ done (id, k))
            (sym own_key) e,
        mine,
        ap (get r.devices) mine ∙ f,
        live,
        read,
        subst (λ k. c.verify_signature k nonce signature ≡ true) (sym own_key) valid,
        ap (λ d. d.identity_class) (sym unchanged),
      )

  -- A client is authenticated as a device only if its certificate is valid and names the device it claims to be, the
  -- device is enrolled with the key of the certificate and is not revoked, and the client's signature of the
  -- nonce of this connection verifies under that key; it gets the class of the enrolment.
  pub authenticate_device_sound :
      (r : Registry) (auth : DeviceAuth) (who : Authenticated)
      → authenticate_device c ca_key now r nonce auth ≡ done who
      → Admitted r auth who
  unfolding authenticate_device
  authenticate_device_sound r auth who h =
      elim (Outcome-cases (verify c (c.verifying_key ca_key) auth.certificate now)) [
        | inr (_, e) ↦ absurd (ground arith)
        | inl ((id, key), e) ↦ elim (Bool-cases (same id auth.device_id)) [
          | inr other ↦ absurd (ground arith)
          | inl mine ↦ elim (Option-cases (get r.devices auth.device_id)) [
            | inl f ↦ absurd (ground arith)
            | inr (entry, f) ↦ elim (Outcome-cases (check_device c entry key)) [
              | inr (_, k) ↦ absurd (ground arith)
              | inl (entry', k) ↦
                  elim (Outcome-cases (check_signature c key nonce auth.signature)) [
                    | inr (_, l) ↦ absurd (ground arith)
                    | inl (b, l) ↦
                        admitted r auth who id key entry entry' b e
                          (eq_of_same id auth.device_id mine) f
                          (check_device-eq_done entry entry' key k) l (ground arith)
                  ]
            ]
          ]
        ]
      ]
