-- ===== src/Protocol/AgentEvent/Syntax.antt =====
-- rust/choosh-protocol/src/agent_event.rs: the checks of ids, times and paths, byte by byte.
use choosh.Prelude.{
  ℕ, suc, Bool, true, false, not, ◌&&◌, ◌||◌, List, [], ◌∷◌, Option, none, some, ltb, leb, ◌==◌,
  if◌then◌else◌, length, get_elem?, take, drop, Bytes, same_bytes, string_eq, bytes_eq,
}

abbrev pub max_path_bytes : ℕ
max_path_bytes = 4096

abbrev pub max_timestamp_bytes : ℕ
max_timestamp_bytes = 64

abbrev pub is_ascii_control : ℕ → Bool
is_ascii_control b = ltb b 32 || b == 127

abbrev pub is_ascii_digit : ℕ → Bool
is_ascii_digit b = leb 48 b && leb b 57

abbrev pub any_byte : (ℕ → Bool) → Bytes → Bool
any_byte p [] = false
any_byte p (b ∷ bs) = p b || any_byte p bs

-- `enumerate().all(..)` from a given index.
abbrev pub all_from : ℕ → (ℕ → ℕ → Bool) → Bytes → Bool
all_from i p [] = true
all_from i p (b ∷ bs) = p i b && all_from (suc i) p bs

abbrev pub all_digits : Bytes → Bool
all_digits = all_from 0 (λ _ b. is_ascii_digit b)

abbrev pub byte_at : Bytes → ℕ → ℕ → Bool
byte_at bs i c = elim (get_elem? bs i) [ none ↦ false | some b ↦ b == c ]

abbrev pub strip_prefix : Bytes → Bytes → Option Bytes
strip_prefix [] value = some value
strip_prefix (p ∷ ps) [] = none
strip_prefix (p ∷ ps) (b ∷ bs) = let rest = strip_prefix ps bs in if p == b then rest else none

unfoldable pub is_uuid : Bytes → Bool
is_uuid value =
    length value == 36
    && all_from 0
        (λ index byte.
          if index == 8 || index == 13 || index == 18 || index == 23
          then byte == 45
          else is_ascii_digit byte || leb 97 byte && leb byte 102)
        value

unfoldable pub is_prefixed_uuid : Bytes → Bytes → Bool
unfolding is_uuid
is_prefixed_uuid value prefix = elim (strip_prefix prefix value) [
  | none ↦ false
  | some rest ↦ is_uuid rest
]

-- `position` of the first byte of a time zone.
abbrev pub zone_start : Bytes → Option ℕ
zone_start [] = none
zone_start (b ∷ bs) =
    let rest = zone_start bs in
    if b == 90 || b == 43 || b == 45
    then some 0
    else (elim rest [ none ↦ none | some n ↦ some (suc n) ])

abbrev pub is_fraction : Bytes → Bool
is_fraction [] = true
is_fraction (b ∷ bs) = b == 46 && not (length bs == 0) && all_digits bs

abbrev pub is_zone : Bytes → Bool
is_zone zone =
    same_bytes zone (90 ∷ [])
    || (length zone == 6
        && (byte_at zone 0 43 || byte_at zone 0 45)
        && all_digits (take 2 (drop 1 zone))
        && byte_at zone 3 58
        && all_digits (drop 4 zone))

abbrev pub is_date_time : Bytes → Bool
is_date_time bytes =
    all_from 0
      (λ index byte.
        index == 4
        || index == 7
        || index == 10
        || index == 13
        || index == 16
        || is_ascii_digit byte)
      (take 19 bytes)
    && byte_at bytes 4 45
    && byte_at bytes 7 45
    && byte_at bytes 10 84
    && byte_at bytes 13 58
    && byte_at bytes 16 58

unfoldable pub validate_timestamp : Bytes → Bool
validate_timestamp bytes =
    if ltb (length bytes) 20
      || ltb max_timestamp_bytes (length bytes)
      || any_byte is_ascii_control bytes
    then false
    else if not (is_date_time bytes)
    then false
    else (elim (zone_start (drop 19 bytes)) [
      | none ↦ false
      | some n ↦ is_fraction (take n (drop 19 bytes)) && is_zone (drop n (drop 19 bytes))
    ])

abbrev pub is_separator : ℕ → Bool
is_separator b = b == 47 || b == 92

abbrev pub push_front : ℕ → List Bytes → List Bytes
push_front b [] = (b ∷ []) ∷ []
push_front b (part ∷ parts) = (b ∷ part) ∷ parts

-- `split(['/', '\\'])`
abbrev pub path_parts : Bytes → List Bytes
path_parts [] = [] ∷ []
path_parts (b ∷ bs) =
    let rest = path_parts bs in if is_separator b then [] ∷ rest else push_front b rest

abbrev pub is_bad_part : Bytes → Bool
is_bad_part part = same_bytes part [] || same_bytes part (46 ∷ []) || same_bytes part (46 ∷ 46 ∷ [])

abbrev pub any_bad : List Bytes → Bool
any_bad [] = false
any_bad (part ∷ parts) = is_bad_part part || any_bad parts

-- Whether a path passes.
unfoldable pub validate_candidate_path : Bytes → Bool
validate_candidate_path path = not (
    length path == 0
    || ltb max_path_bytes (length path)
    || byte_at path 0 47
    || byte_at path 0 92
    || any_byte (λ b. b == 0 || is_ascii_control b) path
    || any_bad (path_parts path)
    || (leb 2 (length path) && byte_at path 1 58))
