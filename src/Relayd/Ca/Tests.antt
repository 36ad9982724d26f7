-- ===== src/Relayd/Ca/Tests.antt =====
-- Witnesses for the certificates, with the toy crates.
use choosh.Prelude.{
  ◌+◌, ◌≤◌, ◌≡◌, refl, true, [], ◌∷◌, some, Bytes, done, failed, length, if◌then◌else◌, ltb,
}
use choosh.Relayd.Ca.{
  CertificateBody, expired, certificate_validity_seconds, issue, verify, verify_signed,
}
use choosh.Relayd.Toy.{toy, toy_laws}
use choosh.Relayd.Ca.Certificates.{verify-issue, verify_sound}

verify-issue_example : verify toy (1 ∷ []) (issue toy (1 ∷ []) (100 ∷ []) (7 ∷ []) 50) 60 ≡ (
    if ltb (50 + certificate_validity_seconds) 60 then failed expired else done (100 ∷ [], 7 ∷ []))
verify-issue_example = verify-issue toy toy_laws (1 ∷ []) (100 ∷ []) (7 ∷ []) 50 60

accepted :
    verify toy (1 ∷ []) (issue toy (1 ∷ []) (100 ∷ []) (7 ∷ []) 50) 60 ≡ done (100 ∷ [], 7 ∷ [])
unfolding verify verify_signed issue
accepted = refl

verify_sound_example :
    (body : CertificateBody) × (signature : Bytes) × (length signature ≡ 64)
    × (toy.verify_signature (1 ∷ []) (toy.body_to_json body) signature ≡ true)
    × (60 ≤ body.not_after_unix)
    × (body.device_id ≡ (100 ∷ []))
    × (toy.base64_decode body.public_key ≡ some (7 ∷ []))
verify_sound_example =
    verify_sound toy (1 ∷ []) (issue toy (1 ∷ []) (100 ∷ []) (7 ∷ []) 50) 60 (100 ∷ []) (7 ∷ [])
      accepted
