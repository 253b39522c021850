-- ===== src/TraceId/RoundTrip.antt =====
-- Printing a trace id and parsing it again.
use traceql_syntax.Base.{
  ℕ, zero, suc, ◌+◌, ◌-◌, ◌*◌, ◌/◌, ◌%◌, ◌≤◌, ◌<◌, true, false, List, [], ◌∷◌, ◌++◌, all, All,
  length, Text, list_eq_refl, ok, ltb, ◌==◌, ◌≡◌, refl, sym, ap, ap₂, ◌∙◌, arith, Bool-cases, inl,
  inr,
}
use native.Mathlib.Nat.{div-add-mod, mod-lt}
use traceql_syntax.TraceId.{
  hex_digit, hex_encode, is_hex, digit_value, hex_decode, trim_zeros_left, trace_id_to_hex_string,
  repeat, even_digits, check_size, hex_string_to_id, hex_string_to_trace_id,
  pad_trace_id_to_16_bytes, equal_hex_string_trace_ids,
}

AreBytes : List ℕ → Type 0
AreBytes bs = All (λ b. b < 256) bs

digit_lem :
    (n : ℕ)
    → n < 16
    → (digit_value (hex_digit n) ≡ n)
      × (is_hex (hex_digit n) ≡ true)
      × ((hex_digit n == 48) ≡ (n == 0))
unfolding hex_digit digit_value is_hex
digit_lem n h = ground arith

nibbles : (b : ℕ) → b < 256 → (b / 16 < 16) × (b % 16 < 16) × (b / 16 * 16 + b % 16 ≡ b)
nibbles b h = let r : b % 16 < 16 = mod-lt b (omega arith) in omega (arith, div-add-mod b 16, r)

decode-encode : (bs : List ℕ) → AreBytes bs → hex_decode (hex_encode bs) ≡ bs
unfolding hex_decode hex_encode AreBytes
decode-encode [] h = refl
decode-encode (b ∷ bs) h =
    let (high, low, whole) = nibbles b h.0 in
    ap₂ (λ x xs. x ∷ xs) (rw ((digit_lem (b / 16) high).0, (digit_lem (b % 16) low).0) whole)
      (decode-encode bs h.1)

encode-hex : (bs : List ℕ) → AreBytes bs → all is_hex (hex_encode bs) ≡ true
unfolding all hex_encode AreBytes
encode-hex [] h = refl
encode-hex (b ∷ bs) h =
    let (high, low, _) = nibbles b h.0 in
    rw ((digit_lem (b / 16) high).1, (digit_lem (b % 16) low).1, encode-hex bs h.1) refl

length-encode : (bs : List ℕ) → length (hex_encode bs) ≡ 2 * length bs
unfolding hex_encode
length-encode [] = refl
length-encode (b ∷ bs) = omega (arith, length-encode bs)

-- The bytes with zeros in front, up to 16.
pad : List ℕ → List ℕ
unfolding repeat
pad bs = repeat (16 - length bs) 0 ++ bs

repeat-next : (n c : ℕ) (xs : List ℕ) → repeat n c ++ (c ∷ xs) ≡ repeat (suc n) c ++ xs
unfolding repeat
repeat-next zero c xs = refl
repeat-next (suc n) c xs = ap (λ ys. c ∷ ys) (repeat-next n c xs)

pad-zero : (bs : List ℕ) → suc (length bs) ≤ 16 → pad (0 ∷ bs) ≡ pad bs
unfolding pad
pad-zero bs h =
    let e : suc (16 - suc (length bs)) ≡ 16 - length bs = omega arith in
    repeat-next (16 - suc (length bs)) 0 bs ∙ ap (λ n. repeat n 0 ++ bs) e

check_size-pad : (bs : List ℕ) → length bs ≤ 16 → check_size false bs ≡ ok (pad bs)
unfolding check_size pad repeat
check_size-pad bs h =
    let small : ltb 16 (length bs) ≡ false = ground arith in
    elim (Bool-cases (ltb (length bs) 16)) [
      | inl less ↦ rw (small, less) refl
      | inr full ↦ let e : 16 - length bs ≡ 0 = ground (arith, full) in rw (small, full, e) refl
    ]

parse_lem :
    (t : Text) (bs : List ℕ)
    → all is_hex t ≡ true
    → hex_decode (even_digits t) ≡ bs
    → length bs ≤ 16
    → hex_string_to_trace_id t ≡ ok (pad bs)
unfolding hex_string_to_trace_id hex_string_to_id
parse_lem t bs valid decoded small = rw (valid, decoded) (check_size-pad bs small)

-- The first byte is not 0, and its first digit is or is not.
first_byte :
    (b : ℕ) (bs : List ℕ)
    → AreBytes (b ∷ bs)
    → (b == 0) ≡ false
    → (all is_hex (trace_id_to_hex_string (b ∷ bs)) ≡ true)
      × (hex_decode (even_digits (trace_id_to_hex_string (b ∷ bs))) ≡ b ∷ bs)
unfolding AreBytes trace_id_to_hex_string trim_zeros_left hex_encode even_digits hex_decode all
first_byte b bs h positive =
    let (high, low, whole) = nibbles b h.0 in
    let (high_value, high_hex, high_zero) = digit_lem (b / 16) high in
    let (low_value, low_hex, low_zero) = digit_lem (b % 16) low in
    let valid = encode-hex bs h.1 in
    let decoded = decode-encode bs h.1 in
    elim (Bool-cases (b / 16 == 0)) [
      | inl short ↦
          let e : (hex_digit (b / 16) == 48) ≡ true = high_zero ∙ short in
          let f : (hex_digit (b % 16) == 48) ≡ false =
            low_zero ∙ ground (arith, whole, short, positive) in
          let odd : (suc (length (hex_encode bs)) % 2 == 1) ≡ true =
            ground (arith, length-encode bs) in
          let v : b % 16 ≡ b = ground (arith, whole, short) in
          rw (e, f)
            (
              rw (low_hex, valid) refl,
              rw odd (ap₂ (λ x xs. x ∷ xs) (rw low_value (omega (arith, v))) decoded),
            )
      | inr long ↦
          let e : (hex_digit (b / 16) == 48) ≡ false = high_zero ∙ long in
          let even : (suc (suc (length (hex_encode bs))) % 2 == 1) ≡ false =
            ground (arith, length-encode bs) in
          rw e (
            rw (high_hex, low_hex, valid) refl,
            rw even (ap₂ (λ x xs. x ∷ xs) (rw (high_value, low_value) whole) decoded),
          )
    ]

print-parse :
    (bs : List ℕ)
    → AreBytes bs
    → length bs ≤ 16
    → hex_string_to_trace_id (trace_id_to_hex_string bs) ≡ ok (pad bs)
unfolding AreBytes trace_id_to_hex_string trim_zeros_left hex_encode all hex_decode even_digits
print-parse [] h small = parse_lem [] [] refl refl small
print-parse (b ∷ bs) h small = elim (Bool-cases (b == 0)) [
  | inl none' ↦
      let zero_byte : b ≡ 0 = ground (arith, none') in
      rw zero_byte (print-parse bs h.1 (omega arith) ∙ ap (λ x. ok x) (sym (pad-zero bs small)))
  | inr some' ↦
      let (valid, decoded) = first_byte b bs h some' in
      parse_lem (trace_id_to_hex_string (b ∷ bs)) (b ∷ bs) valid decoded small
]

pad-16 : (bs : List ℕ) → length bs ≡ 16 → pad bs ≡ bs
unfolding pad repeat
pad-16 bs h = ap (λ n. repeat n 0 ++ bs) (zero_left (length bs) h)
  where
    zero_left : (n : ℕ) → n ≡ 16 → 16 - n ≡ 0
    zero_left n e = omega arith

pad_lem : (bs : List ℕ) → length bs ≤ 16 → pad_trace_id_to_16_bytes bs ≡ pad bs
unfolding pad_trace_id_to_16_bytes pad
pad_lem bs h =
    let small : ltb 16 (length bs) ≡ false = ground arith in
    elim (Bool-cases (length bs == 16)) [
      | inl full ↦ rw (small, full) (sym (pad-16 bs (ground (arith, full))))
      | inr less ↦ rw (small, less) refl
    ]

repeat-AreBytes : (n : ℕ) (bs : List ℕ) → AreBytes bs → AreBytes (repeat n 0 ++ bs)
unfolding AreBytes repeat
repeat-AreBytes zero bs h = h
repeat-AreBytes (suc n) bs h = (omega arith, repeat-AreBytes n bs h)

length-repeat : (n : ℕ) (bs : List ℕ) → length (repeat n 0 ++ bs) ≡ n + length bs
unfolding repeat
length-repeat zero bs = omega arith
length-repeat (suc n) bs = omega (arith, length-repeat n bs)

length-pad : (bs : List ℕ) → length bs ≤ 16 → length (pad bs) ≡ 16
unfolding pad
length-pad bs h = omega (arith, length-repeat (16 - length bs) bs)

-- For at most 16 bytes: the hex text of a trace id, printed without leading zeros, is parsed to the
-- id padded to 16 bytes, and so compares equal to the text of the padded id.
pub hex_string_to_trace_id-to_hex_string :
    (bs : List ℕ)
    → All (λ b. b < 256) bs
    → length bs ≤ 16
    → (hex_string_to_trace_id (trace_id_to_hex_string bs) ≡ ok (pad_trace_id_to_16_bytes bs))
      × (equal_hex_string_trace_ids
            (trace_id_to_hex_string bs)
            (trace_id_to_hex_string (pad_trace_id_to_16_bytes bs))
          ≡ ok true)
unfolding AreBytes pad equal_hex_string_trace_ids
hex_string_to_trace_id-to_hex_string bs h small =
    let padded = pad_lem bs small in
    let first = print-parse bs h small in
    let full = length-pad bs small in
    let second : hex_string_to_trace_id (trace_id_to_hex_string (pad bs)) ≡ ok (pad bs) =
      print-parse (pad bs) (repeat-AreBytes (16 - length bs) bs h) (omega (arith, full))
      ∙ ap (λ x. ok x) (pad-16 (pad bs) full) in
    (first ∙ ap (λ x. ok x) (sym padded), rw (padded, first, second, list_eq_refl (pad bs)) refl)
