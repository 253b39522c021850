-- ===== src/TraceId.antt =====
-- internal/util/traceid.go: trace ids as bytes and as hex texts. The texts of errors are left out.
pub mod RoundTrip
use traceql_syntax.Base.{
  ℕ, zero, suc, ◌+◌, ◌-◌, ◌*◌, ◌/◌, ◌%◌, Bool, true, false, ◌&&◌, ◌||◌, List, [], ◌∷◌, ◌++◌, all,
  length, Option, none, some, Text, list_eq, Result, ok, err, ◌>>=◌, ltb, leb, ◌==◌, if◌then◌else◌,
}

pub data IdErr : Type 0 where
  invalid_character id_too_large : IdErr

-- encoding/hex: the digits of a byte, and the value of a digit.
unfoldable pub hex_digit : ℕ → ℕ
hex_digit n = if ltb n 10 then 48 + n else 87 + n

unfoldable pub hex_encode : List ℕ → Text
unfolding hex_digit
hex_encode [] = []
hex_encode (b ∷ bs) = hex_digit (b / 16) ∷ hex_digit (b % 16) ∷ hex_encode bs

unfoldable pub is_hex : ℕ → Bool
is_hex c = (leb 97 c && leb c 102) || ((leb 65 c && leb c 70) || (leb 48 c && leb c 57))

unfoldable pub digit_value : ℕ → ℕ
digit_value c = if leb 97 c then c - 87 else if leb 65 c then c - 55 else c - 48

-- hex.DecodeString on digits, of an even number.
unfoldable pub hex_decode : Text → List ℕ
unfolding digit_value
hex_decode [] = []
hex_decode (c ∷ []) = []
hex_decode (c ∷ d ∷ cs) = (digit_value c * 16 + digit_value d) ∷ hex_decode cs

-- strings.TrimLeft(id, "0")
unfoldable pub trim_zeros_left : Text → Text
trim_zeros_left [] = []
trim_zeros_left (c ∷ cs) = let rest = trim_zeros_left cs in if c == 48 then rest else c ∷ cs

unfoldable pub trace_id_to_hex_string : List ℕ → Text
unfolding hex_encode trim_zeros_left
trace_id_to_hex_string id = trim_zeros_left (hex_encode id)

unfoldable pub repeat : ℕ → ℕ → List ℕ
repeat zero c = []
repeat (suc n) c = c ∷ repeat n c

unfoldable pub pad_trace_id_string : Text → Text
unfolding repeat
pad_trace_id_string id = if leb 32 (length id) then id else repeat (32 - length id) 48 ++ id

unfoldable pub drop : ℕ → List ℕ → List ℕ
drop zero bs = bs
drop (suc n) [] = []
drop (suc n) (b ∷ bs) = drop n bs

unfoldable pub pad_trace_id_to_16_bytes : List ℕ → List ℕ
unfolding repeat drop
pad_trace_id_to_16_bytes id =
    if ltb 16 (length id)
    then drop (length id - 16) id
    else if length id == 16
    then id
    else repeat (16 - length id) 0 ++ id

-- A digit in front of an odd number of them.
unfoldable pub even_digits : Text → Text
even_digits id = if length id % 2 == 1 then 48 ∷ id else id

-- The size of the bytes that were decoded.
unfoldable pub check_size : Bool → List ℕ → Result IdErr (List ℕ)
unfolding repeat
check_size true bs = if ltb 8 (length bs) then err id_too_large else ok bs
check_size false bs =
    if ltb 16 (length bs)
    then err id_too_large
    else ok (if ltb (length bs) 16 then repeat (16 - length bs) 0 ++ bs else bs)

unfoldable pub hex_string_to_id : Text → Bool → Result IdErr (List ℕ)
unfolding all is_hex hex_decode even_digits check_size
hex_string_to_id id is_span =
    if all is_hex id
    then check_size is_span (hex_decode (even_digits id))
    else err invalid_character

unfoldable pub hex_string_to_trace_id : Text → Result IdErr (List ℕ)
unfolding hex_string_to_id
hex_string_to_trace_id id = hex_string_to_id id false

unfoldable pub hex_string_to_span_id : Text → Result IdErr (List ℕ)
unfolding hex_string_to_id trim_zeros_left
hex_string_to_span_id id = hex_string_to_id (trim_zeros_left id) true

unfoldable pub equal_hex_string_trace_ids : Text → Text → Result IdErr Bool
unfolding hex_string_to_trace_id list_eq
equal_hex_string_trace_ids a b =
    hex_string_to_trace_id a >>= λ aa. hex_string_to_trace_id b >>= λ bb. ok (list_eq aa bb)
