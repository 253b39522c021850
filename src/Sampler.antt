-- ===== src/Sampler.antt =====
-- traceql/sampler.go: which entries a query looks at. Counters are uint64, and positions ints that
-- start at -1. The loggers are left out.
pub mod Counts
pub mod Adaptive
use traceql_syntax.Base.{
  ℕ, suc, Bool, true, false, not, ◌||◌, List, [], ◌∷◌, Option, none, some, ◌==◌, add64, sub64,
  rem64, slt64, neg64, if◌then◌else◌,
}
use traceql_syntax.Runtime.{Runtime}

pub record ProbabilisticSampler : Type 0 where
  pub curr : ℕ
  pub lim : ℕ
  pub sampled : ℕ
  pub skipped : ℕ

-- The limit is int(1 / sample); the ratio itself is not read again.
unfoldable pub new_probabilistic_sampler : ℕ → ProbabilisticSampler
unfolding neg64
new_probabilistic_sampler lim = record { curr = neg64 1; lim = lim; sampled = 0; skipped = 0 }

-- The counters after an entry.
unfoldable pub count_entry : ProbabilisticSampler → Bool → ProbabilisticSampler
unfolding add64
count_entry s true = record s { sampled = add64 s.sampled 1 }
count_entry s false = record s { skipped = add64 s.skipped 1 }

-- `none` is the panic of a remainder by 0.
unfoldable pub sample : ProbabilisticSampler → Option (ProbabilisticSampler × Bool)
unfolding count_entry add64 rem64
sample s =
    if s.lim == 0
    then none
    else (let curr = rem64 (add64 s.curr 1) s.lim in
        some (count_entry (record s { curr = curr }) (curr == 0), curr == 0))

module _ (rt : Runtime) where
  unfoldable pub final_scaling_factor : ℕ → ℕ → ℕ → ℕ
  unfolding add64
  final_scaling_factor one sampled skipped =
      if sampled == 0
      then one
      else rt.f_div (rt.of_uint (add64 sampled skipped)) (rt.of_uint sampled)

pub record AdaptiveSampler : Type 0 where
  pub expected : ℕ
  pub measured : ℕ
  pub skipped : ℕ
  pub sampled : ℕ
  pub lost : ℕ
  pub curr : ℕ
  pub lim : ℕ

unfoldable pub new_adaptive_sampler : AdaptiveSampler
unfolding neg64
new_adaptive_sampler = record {
  expected = 0;
  measured = 0;
  skipped = 0;
  sampled = 0;
  lost = 0;
  curr = neg64 1;
  lim = 0;
}

-- `ceil_ten` is int(math.Ceil(proportion * 10)).
unfoldable pub rate_for : (ℕ → ℕ) → ℕ → ℕ
rate_for ceil_ten proportion = let l = ceil_ten proportion in if slt64 10 l then 10 else l

module _ (rt : Runtime) (ceil_ten : ℕ → ℕ) where
  unfoldable pub recompute : AdaptiveSampler → AdaptiveSampler
  unfolding rate_for add64
  recompute s = if s.sampled == 0 then s else record s {
    lim =
        rate_for ceil_ten (rt.f_div (rt.of_uint s.measured) (rt.of_uint (add64 s.sampled s.lost)));
  }

  unfoldable pub expect : ℕ → AdaptiveSampler → AdaptiveSampler
  unfolding recompute sub64 add64
  expect count s = recompute (record s {
    lost = sub64 (sub64 s.expected s.sampled) s.skipped;
    expected = add64 s.expected count;
  })

  unfoldable pub measure : AdaptiveSampler → AdaptiveSampler
  unfolding recompute add64
  measure s = recompute (record s { measured = add64 s.measured 1 })

-- The counters after an entry.
unfoldable pub count_adaptive : AdaptiveSampler → Bool → AdaptiveSampler
unfolding add64
count_adaptive s true = record s { sampled = add64 s.sampled 1 }
count_adaptive s false = record s { skipped = add64 s.skipped 1 }

-- Everything is sampled until the rate is known, and then one of `lim` entries.
unfoldable pub sample_adaptive : AdaptiveSampler → AdaptiveSampler × Bool
unfolding count_adaptive add64 rem64
sample_adaptive s =
    if s.lim == 0 || s.measured == 0
    then (count_adaptive s true, true)
    else (let curr = rem64 (add64 s.curr 1) s.lim in
        (count_adaptive (record s { curr = curr }) (curr == 0), curr == 0))
