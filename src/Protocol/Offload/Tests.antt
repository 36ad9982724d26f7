-- ===== src/Protocol/Offload/Tests.antt =====
-- Runs of rust/choosh-protocol/src/offload.rs on the inputs of its unit tests, and a witness.
use choosh.Prelude.{◌≡◌, refl, [], ◌∷◌, Option, some, none, Bytes, arith}
use choosh.Protocol.Offload.{
  OffloadRequest, OffloadError, negsuc, request, exit, ok, err, unknown_kind, bad_exit_length, Json,
  decode_frame,
}
use choosh.Protocol.Offload.RoundTrip.{Faithful, Fits, encode, decode_frame-encode}

-- A library that writes only requests for a commit, and messages without a code.
abbrev tiny : Json
tiny = record {
  request_to_json = commit_only;
  request_from_json = λ bs. some (record { workspace_name = []; commit_id = bs; argv = [] });
  error_to_json = message_only;
  error_from_json = λ bs. some (record { code = []; message = bs });
}
  where
    commit_only : OffloadRequest → Option Bytes
    commit_only r = elim r.workspace_name [
      | [] ↦ elim r.argv [ [] ↦ some r.commit_id | _ ∷ _ ↦ none ]
      | _ ∷ _ ↦ none
    ]

    message_only : OffloadError → Option Bytes
    message_only e = elim e.code [ [] ↦ some e.message | _ ∷ _ ↦ none ]

tiny-Faithful : Faithful tiny
tiny-Faithful = record { requests = λ r bs h. ground arith; errors = λ e bs h. ground arith }

minus_two : decode_frame tiny (0x04 ∷ 255 ∷ 255 ∷ 255 ∷ 254 ∷ []) ≡ ok (exit (negsuc 1))
unfolding decode_frame
minus_two = refl

short_exit : decode_frame tiny (0x04 ∷ 0 ∷ []) ≡ err (bad_exit_length 1)
unfolding decode_frame
short_exit = refl

no_kind : decode_frame tiny (0x7f ∷ []) ≡ err (unknown_kind 0x7f)
unfolding decode_frame
no_kind = refl

decode_frame-encode_example :
    decode_frame tiny (0x01 ∷ b'a' ∷ b'b' ∷ [])
    ≡ ok (request (record { workspace_name = []; commit_id = b'a' ∷ b'b' ∷ []; argv = [] }))
unfolding Fits encode
decode_frame-encode_example =
    decode_frame-encode tiny
      (request (record { workspace_name = []; commit_id = b'a' ∷ b'b' ∷ []; argv = [] }))
      (0x01 ∷ b'a' ∷ b'b' ∷ []) tiny-Faithful tt refl
