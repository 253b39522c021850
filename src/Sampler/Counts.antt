-- ===== src/Sampler/Counts.antt =====
-- The probabilistic sampler takes the first of every `lim` entries.
use traceql_syntax.Base.{
  ℕ, zero, suc, ◌+◌, ◌-◌, ◌*◌, ◌/◌, ◌%◌, ◌≤◌, ◌<◌, false, Option, none, some, ◌==◌, leb, add64,
  rem64, neg64, sign_bit, word_mod, ◌≡◌, refl, ap, sym, ◌∙◌, arith, Bool-cases, inl, inr, ◌⊎◌,
}
use native.Mathlib.Nat.{
  div-add-mod, mod-lt, mod-eq_of_lt, div-le_self, div-eq_of_lt-le, mod_self, div-eq_of_lt,
}
use traceql_syntax.Sampler.{ProbabilisticSampler, new_probabilistic_sampler, count_entry, sample}

-- The state after n entries.
unfoldable pub calls : ℕ → ProbabilisticSampler → Option ProbabilisticSampler
unfolding sample
calls zero s = some s
calls (suc n) s = elim (calls n s) [
  | none ↦ none
  | some s' ↦ elim (sample s') [ none ↦ none | some (s'', b) ↦ some s'' ]
]

-- The state that n entries lead to.
after : ℕ → ℕ → ProbabilisticSampler
unfolding neg64
after lim zero = record { curr = neg64 1; lim = lim; sampled = 0; skipped = 0 }
after lim (suc n) = record {
  curr = n % lim;
  lim = lim;
  sampled = n / lim + 1;
  skipped = n - n / lim;
}

-- The next entry begins a new round, or stands in the same one.
NextEntry : ℕ → ℕ → Type 0
NextEntry n lim =
    ((n % lim + 1 ≡ lim) × (suc n / lim ≡ n / lim + 1) × (suc n % lim ≡ 0))
    ⊎ ((n % lim + 1 < lim) × (suc n / lim ≡ n / lim) × (suc n % lim ≡ n % lim + 1))

next_entry : (n lim : ℕ) → 0 < lim → NextEntry n lim
unfolding NextEntry
next_entry n lim positive =
    let whole = div-add-mod n lim in
    let small = mod-lt n positive in
    let whole' = div-add-mod (suc n) lim in
    elim (Bool-cases (n % lim + 1 == lim)) [
      | inl last ↦
          let full : n % lim + 1 ≡ lim = ground (arith, last) in
          let q : suc n / lim ≡ n / lim + 1 =
            div-eq_of_lt-le lim (omega (arith, whole, full)) (omega (arith, whole, full)) in
          let r : lim * (n / lim + 1) + suc n % lim ≡ suc n =
            ap (λ x. lim * x + suc n % lim) (sym q) ∙ whole' in
          inl (full, q, omega (arith, whole, full, r))
      | inr inner ↦
          let less : n % lim + 1 < lim = ground (arith, inner, small) in
          let q : suc n / lim ≡ n / lim =
            div-eq_of_lt-le lim (omega (arith, whole, less)) (omega (arith, whole, less)) in
          let r : lim * (n / lim) + suc n % lim ≡ suc n =
            ap (λ x. lim * x + suc n % lim) (sym q) ∙ whole' in
          inr (less, q, omega (arith, whole, r))
    ]

sample_at :
    (s : ProbabilisticSampler) (c : ℕ)
    → (s.lim == 0) ≡ false
    → rem64 (add64 s.curr 1) s.lim ≡ c
    → sample s ≡ some (count_entry (record s { curr = c }) (c == 0), c == 0)
unfolding sample
sample_at s c h e = rw (h, e) refl

-- The position of the next entry, as an int.
position : (r lim : ℕ) → r < lim → lim < sign_bit → rem64 (add64 r 1) lim ≡ (r + 1) % lim
unfolding rem64 add64
position r lim h small =
    let add : (r + 1) % word_mod ≡ r + 1 = mod-eq_of_lt {m = word_mod} (omega (arith, h)) in
    let low : leb sign_bit (r + 1) ≡ false = ground (arith, h) in
    let low' : leb sign_bit lim ≡ false = ground arith in rw (add, low, low') refl

wrapped : (lim r : ℕ) → r + 1 ≡ lim → 0 < lim → (r + 1) % lim ≡ 0
wrapped lim r e positive = ap (λ x. x % lim) e ∙ mod_self lim

sample-after :
    (n lim : ℕ)
    → 0 < lim
    → lim < sign_bit
    → n < sign_bit
    → sample (after lim n) ≡ some (after lim (suc n), n % lim == 0)
unfolding after NextEntry count_entry add64 rem64
sample-after zero lim positive small few =
    let m : 0 % lim ≡ 0 = mod-eq_of_lt positive in
    let d : 0 / lim ≡ 0 = div-eq_of_lt positive in
    let low' : leb sign_bit lim ≡ false = ground arith in
    let zero_test : (lim == 0) ≡ false = ground arith in
    sample_at (after lim 0) 0 zero_test (rw (low', m) refl) ∙ rw (m, d) refl
sample-after (suc n) lim positive small few =
    let bound : n / lim ≤ n = div-le_self n lim in
    let in_range : n % lim < lim = mod-lt n positive in
    let zero_test : (lim == 0) ≡ false = ground arith in
    let at : rem64 (add64 (n % lim) 1) lim ≡ (n % lim + 1) % lim =
      position (n % lim) lim in_range small in
    elim (next_entry n lim positive) [
      | inl (full, q, r) ↦
          let s : (n / lim + 1 + 1) % word_mod ≡ n / lim + 1 + 1 =
            mod-eq_of_lt {m = word_mod} (omega (arith, bound)) in
          let k : suc n - (n / lim + 1) ≡ n - n / lim = omega arith in
          sample_at (after lim (suc n)) 0 zero_test (at ∙ wrapped lim (n % lim) full positive)
          ∙ rw (q, r, s, k) refl
      | inr (less, q, r) ↦
          let s : (n - n / lim + 1) % word_mod ≡ suc n - n / lim =
            mod-eq_of_lt {m = word_mod} (omega (arith, bound)) ∙ omega (arith, bound) in
          let new : (n % lim + 1 == 0) ≡ false = ground arith in
          sample_at (after lim (suc n)) (n % lim + 1) zero_test (at ∙ mod-eq_of_lt less)
          ∙ rw (q, r, new, s) refl
    ]

calls-after :
    (n lim : ℕ)
    → 0 < lim
    → lim < sign_bit
    → n < sign_bit
    → calls n (new_probabilistic_sampler lim) ≡ some (after lim n)
unfolding calls new_probabilistic_sampler after
calls-after zero lim positive small few = refl
calls-after (suc n) lim positive small few =
    rw
      (
        calls-after n lim positive small (omega arith),
        sample-after n lim positive small (omega arith),
      )
      refl

-- For a limit above 0, and both the limit and the number of entries below 2 ^ 63: after n entries
-- the sampler takes the next one exactly if n is a multiple of the limit; it has then taken one of
-- each `lim` entries begun, and counted the others as skipped.
pub sample_lem :
    (n lim : ℕ)
    → 0 < lim
    → lim < sign_bit
    → n < sign_bit
    → (s s' : ProbabilisticSampler) × (calls n (new_probabilistic_sampler lim) ≡ some s)
      × (sample s ≡ some (s', n % lim == 0))
      × (s'.sampled ≡ n / lim + 1)
      × (s'.sampled + s'.skipped ≡ n + 1)
unfolding after
sample_lem n lim positive small few = (
  after lim n,
  after lim (suc n),
  calls-after n lim positive small few,
  sample-after n lim positive small few,
  refl,
  omega (arith, div-le_self n lim),
)
