-- ===== src/Sampler/Adaptive.antt =====
-- The adaptive sampler over any sequence of its calls.
use traceql_syntax.Base.{
  ℕ, suc, ◌+◌, ◌%◌, Bool, true, false, ◌||◌, List, [], ◌∷◌, ◌==◌, add64, rem64, slt64, word_mod,
  ◌≡◌, refl, sym, ◌∙◌, arith, Bool-cases, absurd_test, inl, inr,
}
use traceql_syntax.Runtime.{Runtime}
use traceql_syntax.Sampler.{
  AdaptiveSampler, new_adaptive_sampler, rate_for, recompute, expect, measure, count_adaptive,
  sample_adaptive,
}

pub data Call : Type 0 where
  call_sample call_measured : Call
  call_expect : ℕ → Call

-- How many entries, matches and expected entries a sequence of calls has.
abbrev pub entries : List Call → ℕ
entries [] = 0
entries (call_sample ∷ cs) = suc (entries cs)
entries (_ ∷ cs) = entries cs

abbrev pub matches : List Call → ℕ
matches [] = 0
matches (call_measured ∷ cs) = suc (matches cs)
matches (_ ∷ cs) = matches cs

abbrev pub announced : List Call → ℕ
announced [] = 0
announced (call_expect n ∷ cs) = n + announced cs
announced (_ ∷ cs) = announced cs

-- What the counters come to.
pub record HasCounted (s : AdaptiveSampler) (n m e : ℕ) : Type 0 where
  pub entries : (s.sampled + s.skipped) % word_mod ≡ n % word_mod
  pub matches : s.measured ≡ m % word_mod
  pub announced : s.expected ≡ e % word_mod
  pub limit : slt64 10 s.lim ≡ false
  pub all : m ≡ 0 → s.skipped ≡ 0

module _ (rt : Runtime) (ceil_ten : ℕ → ℕ) where
  unfoldable pub apply_call : Call → AdaptiveSampler → AdaptiveSampler
  unfolding sample_adaptive measure expect
  apply_call call_sample s = (sample_adaptive s).0
  apply_call call_measured s = measure rt ceil_ten s
  apply_call (call_expect n) s = expect rt ceil_ten n s

  -- From the first call to the last.
  unfoldable pub apply_calls : List Call → AdaptiveSampler → AdaptiveSampler
  unfolding apply_call
  apply_calls [] s = s
  apply_calls (c ∷ cs) s = apply_calls cs (apply_call c s)

  rate_for-bound : (p : ℕ) → slt64 10 (rate_for ceil_ten p) ≡ false
  unfolding rate_for
  rate_for-bound p = elim (Bool-cases (slt64 10 (ceil_ten p))) [
    | inl over ↦ rw over refl
    | inr under ↦ rw under under
  ]

  recompute-HasCounted :
      (s : AdaptiveSampler) (n m e : ℕ)
      → HasCounted s n m e
      → HasCounted (recompute rt ceil_ten s) n m e
  unfolding recompute
  recompute-HasCounted s n m e h = elim (Bool-cases (s.sampled == 0)) [
    | inl none' ↦ rw none' h
    | inr some' ↦ rw some' (record {
      entries = h.entries;
      matches = h.matches;
      announced = h.announced;
      limit = rate_for-bound _;
      all = h.all;
    })
  ]

  count-HasCounted :
      (s : AdaptiveSampler) (b : Bool) (n m e : ℕ)
      → (m ≡ 0 → b ≡ true)
      → HasCounted s n m e
      → HasCounted (count_adaptive s b) (suc n) m e
  unfolding count_adaptive add64
  count-HasCounted s true n m e k h =
      let before = h.entries in
      record {
        entries = omega (arith, before);
        matches = h.matches;
        announced = h.announced;
        limit = h.limit;
        all = h.all;
      }
  count-HasCounted s false n m e k h =
      let before = h.entries in
      record {
        entries = omega (arith, before);
        matches = h.matches;
        announced = h.announced;
        limit = h.limit;
        all = λ z. absurd_test (sym (k z));
      }

  sample-HasCounted :
      (s : AdaptiveSampler) (n m e : ℕ)
      → HasCounted s n m e
      → HasCounted (sample_adaptive s).0 (suc n) m e
  unfolding sample_adaptive
  sample-HasCounted s n m e h = elim (Bool-cases (s.lim == 0 || s.measured == 0)) [
    | inl all ↦ rw all (count-HasCounted s true n m e (λ z. refl) h)
    | inr some' ↦
        let c = rem64 (add64 s.curr 1) s.lim in
        let found = h.matches in
        let no_match : m ≡ 0 → (s.lim == 0 || s.measured == 0) ≡ true =
          λ z. ground (arith, found, z) in
        rw some' (
          count-HasCounted (record s { curr = c }) (c == 0) n m e
            (λ z. absurd_test (sym (no_match z) ∙ some'))
            (record {
              entries = h.entries;
              matches = h.matches;
              announced = h.announced;
              limit = h.limit;
              all = h.all;
            }))
  ]

  measure-HasCounted :
      (s : AdaptiveSampler) (n m e : ℕ)
      → HasCounted s n m e
      → HasCounted (measure rt ceil_ten s) n (suc m) e
  unfolding measure add64
  measure-HasCounted s n m e h =
      let found = h.matches in
      recompute-HasCounted (record s { measured = (s.measured + 1) % word_mod }) n (suc m) e
        (record {
          entries = h.entries;
          matches = omega (arith, found);
          announced = h.announced;
          limit = h.limit;
          all = λ z. absurd (omega (arith, z));
        })

  expect-HasCounted :
      (c : ℕ) (s : AdaptiveSampler) (n m e : ℕ)
      → HasCounted s n m e
      → HasCounted (expect rt ceil_ten c s) n m (c + e)
  unfolding expect add64
  expect-HasCounted c s n m e h =
      let found = h.announced in
      recompute-HasCounted _ n m (c + e) (record {
        entries = h.entries;
        matches = h.matches;
        announced = omega (arith, found);
        limit = h.limit;
        all = h.all;
      })

  recount :
      (s : AdaptiveSampler) {n n' m m' e e' : ℕ}
      → n ≡ n'
      → m ≡ m'
      → e ≡ e'
      → HasCounted s n m e
      → HasCounted s n' m' e'
  recount s p q r h = rw (sym p, sym q, sym r) h

  calls-HasCounted :
      (cs : List Call) (s : AdaptiveSampler) (n m e : ℕ)
      → HasCounted s n m e
      → HasCounted (apply_calls cs s) (entries cs + n) (matches cs + m) (announced cs + e)
  unfolding apply_calls
  calls-HasCounted [] s n m e h = recount s (omega arith) (omega arith) (omega arith) h
  calls-HasCounted (call_sample ∷ cs) s n m e h =
      recount _ (omega arith) refl refl
        (calls-HasCounted cs (sample_adaptive s).0 (suc n) m e (sample-HasCounted s n m e h))
  calls-HasCounted (call_measured ∷ cs) s n m e h =
      recount _ refl (omega arith) refl
        (calls-HasCounted cs (measure rt ceil_ten s) n (suc m) e (measure-HasCounted s n m e h))
  calls-HasCounted (call_expect c ∷ cs) s n m e h =
      recount _ refl refl (omega arith)
        (calls-HasCounted cs (expect rt ceil_ten c s) n m (c + e) (expect-HasCounted c s n m e h))

-- After any sequence of calls of a new sampler: the entries taken and skipped are together those it
-- was asked about, the matches and the expected entries those it was told of, all up to 2 ^ 64; the
-- limit is 10 at most; and where no match was reported, no entry was skipped.
pub apply_calls-HasCounted :
    (rt : Runtime) (ceil_ten : ℕ → ℕ) (cs : List Call)
    → HasCounted
        (apply_calls rt ceil_ten cs new_adaptive_sampler)
        (entries cs)
        (matches cs)
        (announced cs)
unfolding new_adaptive_sampler
apply_calls-HasCounted rt ceil_ten cs =
    recount rt ceil_ten _ (omega arith) (omega arith) (omega arith) (
      calls-HasCounted rt ceil_ten cs new_adaptive_sampler 0 0 0 (record {
        entries = refl;
        matches = refl;
        announced = refl;
        limit = refl;
        all = λ z. refl;
      }))
