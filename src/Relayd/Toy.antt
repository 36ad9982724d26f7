-- ===== src/Relayd/Toy.antt =====
-- Toy crates for the tests of rust/choosh-relayd: base64 is the identity, a certificate's JSON has its fields behind
-- their lengths, and a signature is 64 zeros.
use choosh.Prelude.{
  ℕ, ◌≡◌, refl, true, [], ◌∷◌, ◌++◌, Option, none, some, Bytes, replicate, length, take, drop,
}
use choosh.Relayd.Ca.{SignedCertificate, Crypto, CryptoLaws}

-- A list behind its length.
abbrev pub prefixed : Bytes → Bytes → Bytes
prefixed xs ys = length xs ∷ (xs ++ ys)

abbrev pub toy_rest : ℕ → ℕ → Bytes → Bytes → Option SignedCertificate
toy_rest issued_at not_after device_id [] = none
toy_rest issued_at not_after device_id (size ∷ rest) = some (record {
  body = record {
    device_id = device_id;
    public_key = take size rest;
    issued_at_unix = issued_at;
    not_after_unix = not_after;
  };
  ca_signature = drop size rest;
})

abbrev pub toy_from_json : Bytes → Option SignedCertificate
toy_from_json (issued_at ∷ not_after ∷ size ∷ rest) =
    toy_rest issued_at not_after (take size rest) (drop size rest)
toy_from_json _ = none

abbrev pub toy : Crypto
toy = record {
  base64_encode = λ bytes. bytes;
  base64_decode = λ bytes. some bytes;
  body_to_json = λ b. b.device_id ++ b.public_key;
  signed_to_json = λ s.
      s.body.issued_at_unix
      ∷ s.body.not_after_unix
      ∷ prefixed s.body.device_id (prefixed s.body.public_key s.ca_signature);
  signed_from_json = toy_from_json;
  verifying_key = λ key. key;
  sign = λ key message. replicate 64 0;
  verify_signature = λ key message signature. true;
  is_key = λ key. true;
}

take-append : (xs ys : Bytes) → take (length xs) (xs ++ ys) ≡ xs
take-append [] ys = refl
take-append (x ∷ xs) ys = rw (take-append xs ys) refl

drop-append : (xs ys : Bytes) → drop (length xs) (xs ++ ys) ≡ ys
drop-append [] ys = refl
drop-append (x ∷ xs) ys = drop-append xs ys

toy_json : (s : SignedCertificate) → toy.signed_from_json (toy.signed_to_json s) ≡ some s
toy_json s =
    let rest = prefixed s.body.public_key s.ca_signature in
    rw
      (
        drop-append s.body.device_id rest,
        take-append s.body.device_id rest,
        drop-append s.body.public_key s.ca_signature,
        take-append s.body.public_key s.ca_signature,
      )
      refl

pub toy_laws : CryptoLaws toy
toy_laws = record {
  base64 = λ bytes. refl;
  json = toy_json;
  signature_size = λ key message. refl;
  signature = λ key message. refl;
}
