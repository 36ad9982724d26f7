-- ===== src/Protocol/Offload/RoundTrip.antt =====
-- The frames of rust/choosh-protocol/src/offload.rs, written and read back.
use choosh.Prelude.{ℕ, ◌-◌, ◌*◌, ◌<◌, ◌≡◌, refl, ◌∷◌, Option, none, some, length, Bytes, arith}
use choosh.Protocol.Framing.{to_be_bytes}
use choosh.Protocol.Framing.RoundTrip.{from-to_be_bytes}
use choosh.Protocol.Offload.{
  OffloadRequest, OffloadError, ℤ, pos, negsuc, OffloadFrame, request, stdout, stderr, exit, error,
  ok, Json, two_31, to_be_bytes_signed, from_be_bytes_signed, encode_request_frame,
  encode_error_frame, encode_stdout_frame, encode_stderr_frame, encode_exit_frame, decode_frame,
  tagged,
}

-- What serde_json promises: it reads what it wrote.
pub record Faithful (j : Json) : Type 0 where
  pub requests :
      (r : OffloadRequest) (bs : Bytes)
      → j.request_to_json r ≡ some bs
      → j.request_from_json bs ≡ some r
  pub errors :
      (e : OffloadError) (bs : Bytes) → j.error_to_json e ≡ some bs → j.error_from_json bs ≡ some e

-- The encoder of each kind of frame.
unfoldable pub encode : Json → OffloadFrame → Option Bytes
unfolding encode_request_frame encode_error_frame encode_stdout_frame encode_stderr_frame
    encode_exit_frame
encode j (request r) = encode_request_frame j r
encode j (stdout bs) = some (encode_stdout_frame bs)
encode j (stderr bs) = some (encode_stderr_frame bs)
encode j (exit code) = some (encode_exit_frame code)
encode j (error e) = encode_error_frame j e

-- An exit code fits an `i32`; the other frames have no bound.
unfoldable pub Fits : OffloadFrame → Type 0
Fits (exit (pos n)) = n < two_31
Fits (exit (negsuc n)) = n < two_31
Fits _ = Unit {0}

signed_round_trip : (c : ℤ) → Fits (exit c) → from_be_bytes_signed (to_be_bytes_signed c) ≡ c
unfolding Fits from_be_bytes_signed to_be_bytes_signed
signed_round_trip (pos n) h = ground (arith, from-to_be_bytes n)
signed_round_trip (negsuc n) h = ground (arith, from-to_be_bytes (2 * two_31 - 1 - n))

signed-length : (c : ℤ) → length (to_be_bytes_signed c) ≡ 4
unfolding to_be_bytes_signed to_be_bytes
signed-length (pos n) = refl
signed-length (negsuc n) = refl

tagged-eq_some :
    (kind : ℕ) (o : Option Bytes) (bs : Bytes)
    → tagged kind o ≡ some bs
    → (x : Bytes) × (o ≡ some x) × (bs ≡ kind ∷ x)
tagged-eq_some kind none bs e = absurd (ground arith)
tagged-eq_some kind (some x) bs e = (x, refl, cc)

-- `decode_frame` reads back each frame that its encoder wrote, an exit code if it fits 32 bits, where the JSON
-- library reads what it wrote.
pub decode_frame-encode :
    (j : Json) (f : OffloadFrame) (bs : Bytes)
    → Faithful j
    → Fits f
    → encode j f ≡ some bs
    → decode_frame j bs ≡ ok f
unfolding encode decode_frame
decode_frame-encode j (request r) bs k h e =
    let (x, ox, eb) = tagged-eq_some 0x01 (j.request_to_json r) bs e in
    let read = k.requests r x ox in ground arith
decode_frame-encode j (stdout x) bs k h e = ground arith
decode_frame-encode j (stderr x) bs k h e = ground arith
decode_frame-encode j (exit c) bs k h e = ground (arith, signed_round_trip c h, signed-length c)
decode_frame-encode j (error x) bs k h e =
    let (y, oy, eb) = tagged-eq_some 0x05 (j.error_to_json x) bs e in
    let read = k.errors x y oy in ground arith
