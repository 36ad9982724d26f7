-- ===== src/Protocol/Offload.antt =====
-- rust/choosh-protocol/src/offload.rs: the frames of a task that runs on another host. The crate serde_json is
-- a parameter.
pub mod RoundTrip
mod Tests
use choosh.Prelude.{
  ℕ, zero, suc, ◌+◌, ◌-◌, ◌*◌, Bool, true, false, List, [], ◌∷◌, Option, none, some, ltb, ◌==◌,
  if◌then◌else◌, length, Bytes,
}
use choosh.Protocol.Framing.{to_be_bytes, from_be_bytes}

pub record OffloadRequest : Type 0 where
  pub workspace_name : Bytes
  pub commit_id : Bytes
  pub argv : List Bytes

pub record OffloadError : Type 0 where
  pub code : Bytes
  pub message : Bytes

-- Integers; an `i32` is one from `- 2 ^ 31` to `2 ^ 31 - 1`, and `negsuc n` is `- n - 1`.
pub data ℤ : Type 0 where
  pos negsuc : ℕ → ℤ

pub data OffloadFrame : Type 0 where
  request : OffloadRequest → OffloadFrame
  stdout stderr : Bytes → OffloadFrame
  exit : ℤ → OffloadFrame
  error : OffloadError → OffloadFrame

pub data OffloadFrameError : Type 0 where
  empty json : OffloadFrameError
  unknown_kind bad_exit_length : ℕ → OffloadFrameError

pub data Decoded : Type 0 where
  ok : OffloadFrame → Decoded
  err : OffloadFrameError → Decoded

-- serde_json: `to_writer` and `from_slice` for the two types; `none` is an error.
pub record Json : Type 0 where
  pub request_to_json : OffloadRequest → Option Bytes
  pub request_from_json : Bytes → Option OffloadRequest
  pub error_to_json : OffloadError → Option Bytes
  pub error_from_json : Bytes → Option OffloadError

abbrev pub two_31 : ℕ
two_31 = 2147483648

-- `i32::to_be_bytes`, in two's complement.
unfoldable pub to_be_bytes_signed : ℤ → Bytes
unfolding to_be_bytes
to_be_bytes_signed (pos n) = to_be_bytes n
to_be_bytes_signed (negsuc n) = to_be_bytes (2 * two_31 - 1 - n)

-- `i32::from_be_bytes`
unfoldable pub from_be_bytes_signed : Bytes → ℤ
unfolding from_be_bytes
from_be_bytes_signed bs =
    let n = from_be_bytes bs in if ltb n two_31 then pos n else negsuc (2 * two_31 - 1 - n)

abbrev pub tagged : ℕ → Option Bytes → Option Bytes
tagged kind none = none
tagged kind (some bs) = some (kind ∷ bs)

unfoldable pub encode_request_frame : Json → OffloadRequest → Option Bytes
encode_request_frame j r = tagged 0x01 (j.request_to_json r)

unfoldable pub encode_error_frame : Json → OffloadError → Option Bytes
encode_error_frame j e = tagged 0x05 (j.error_to_json e)

unfoldable pub encode_stdout_frame : Bytes → Bytes
encode_stdout_frame bytes = 0x02 ∷ bytes

unfoldable pub encode_stderr_frame : Bytes → Bytes
encode_stderr_frame bytes = 0x03 ∷ bytes

unfoldable pub encode_exit_frame : ℤ → Bytes
unfolding to_be_bytes_signed
encode_exit_frame code = 0x04 ∷ to_be_bytes_signed code

abbrev request_or_error : Option OffloadRequest → Decoded
request_or_error none = err json
request_or_error (some r) = ok (request r)

abbrev error_or_error : Option OffloadError → Decoded
error_or_error none = err json
error_or_error (some e) = ok (error e)

unfoldable pub decode_exit : Bytes → Decoded
unfolding from_be_bytes_signed
decode_exit rest =
    if length rest == 4
    then ok (exit (from_be_bytes_signed rest))
    else err (bad_exit_length (length rest))

unfoldable pub decode_frame : Json → Bytes → Decoded
unfolding decode_exit
decode_frame j [] = err empty
decode_frame j (kind ∷ rest) =
    if kind == 0x01
    then request_or_error (j.request_from_json rest)
    else if kind == 0x02
    then ok (stdout rest)
    else if kind == 0x03
    then ok (stderr rest)
    else if kind == 0x04
    then decode_exit rest
    else if kind == 0x05
    then error_or_error (j.error_from_json rest)
    else err (unknown_kind kind)
