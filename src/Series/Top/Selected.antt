-- ===== src/Series/Top/Selected.antt =====
-- topk and bottomk keep, at each time, the greatest or the least values of the series.
use traceql_syntax.Base.{
  ℕ, zero, suc, ◌+◌, ◌<◌, Bool, true, List, [], some, leb, ◌==◌, if◌then◌else◌, ◌≡◌, refl, sym, ◌∙◌,
  arith, Bool-cases, inl, inr,
}
use mathlib.Core.Path.{subst}
use traceql_syntax.Runtime.{Runtime, IsFloatOrder}
use traceql_syntax.Series.{SeriesMapKey, SeriesSet, find}
use traceql_syntax.Series.Maps.{HasUniqueKeys}
use traceql_syntax.Series.Queue.{IsWeakOrder}
use traceql_syntax.Series.Greatest.{IsGreatest, IsGreatest-All, offer_all-IsGreatest}
use traceql_syntax.Series.Top.{
  SeriesValue, value_of, points, process_times, process_top_k, process_bottom_k,
  data_point_less_than, data_point_greater_than,
}
use traceql_syntax.Series.Top.Ranked.{
  IsNumber, greater-eq-less, less-IsWeakOrder, greater-IsWeakOrder,
}
use traceql_syntax.Series.Top.Kept.{
  cell, is_kept, HasValue, HasLength, points-IsNumber, points-HasValue,
}
use traceql_syntax.Series.Top.Recorded.{record_points-cell}

-- At each time below the length, the result has just the values of some of the series, those that
-- are the greatest, and NaN elsewhere.
abbrev pub Selects :
    Runtime → (SeriesValue → SeriesValue → Bool) → SeriesSet → ℕ → ℕ → SeriesSet → Type 0
Selects rt less input len limit r =
    (i : ℕ)
    → i < len
    → (kept : List SeriesValue) × IsGreatest less limit (points rt i input) kept
      × ((k : SeriesMapKey)
          → cell rt.nan k i r ≡ (if is_kept k kept then cell rt.nan k i input else rt.nan))

module _ (rt : Runtime) (less greater : SeriesValue → SeriesValue → Bool)
    (o : IsWeakOrder (IsNumber rt) less) (same : (p s : SeriesValue) → greater p s ≡ less s p)
    (input : SeriesSet) (unique : HasUniqueKeys input) (len limit : ℕ) (positive : 0 < limit) where
  abbrev SelectedAt : SeriesSet → ℕ → Type 0
  SelectedAt r j =
      (kept : List SeriesValue) × IsGreatest less limit (points rt j input) kept
      × ((k : SeriesMapKey)
          → cell rt.nan k j r ≡ (if is_kept k kept then cell rt.nan k j input else rt.nan))

  -- From a time on, values are selected; those before are as they were.
  process_times-Selects :
      (n i : ℕ) (result : SeriesSet)
      → i + n ≡ len
      → HasLength len result
      → ((k : SeriesMapKey) (j : ℕ) → leb i j ≡ true → j < len → cell rt.nan k j result ≡ rt.nan)
      → (r : SeriesSet) × (process_times rt less greater input len limit i n result ≡ some r)
        × ((k : SeriesMapKey) (j : ℕ) → j < i → cell rt.nan k j r ≡ cell rt.nan k j result)
        × ((j : ℕ) → leb i j ≡ true → j < len → SelectedAt r j)
  unfolding process_times
  process_times-Selects zero i result e size fresh =
      (result, refl, λ k j h. refl, λ j h l. absurd (ground arith))
  process_times-Selects (suc n) i result e size fresh =
      let (kept, offered, greatest) =
        offer_all-IsGreatest less greater limit (points rt i input) o (λ p s g h. same p s) positive
          (points-IsNumber rt i input) in
      let (result', recorded, size', cells) =
        record_points-cell rt input len i kept result
          (IsGreatest-All (HasValue input i) greatest (points-HasValue rt i input unique)) size
          (omega (arith, e)) in
      let later : (k : SeriesMapKey) (j : ℕ)
          → leb (suc i) j ≡ true
          → j < len
          → cell rt.nan k j result' ≡ rt.nan =
        λ k j h l. cells k j l ∙ ground (arith, fresh k j) in
      let (r, rest, before, after) =
        process_times-Selects n (suc i) result' (omega arith) size' later in
      (
        r,
        rw (offered, recorded, process_times) rest,
        λ k j h. before k j (omega (arith, h)) ∙ (cells k j (omega (arith, h, e)) ∙ ground arith),
        λ j h l. elim (Bool-cases (j == i)) [
          | inr past ↦ after j (ground (arith, h, past)) l
          | inl now ↦
              let e' : i ≡ j = ground (arith, now) in
              subst (SelectedAt r) e' (
                kept,
                greatest,
                λ k.
                    before k i (omega arith)
                    ∙ (cells k i (omega (arith, e)) ∙ ground (arith, fresh k i)),
              )
        ],
      )

  process_all-Selects :
      (r : SeriesSet) × (process_times rt less greater input len limit 0 len [] ≡ some r)
      × Selects rt less input len limit r
  unfolding HasLength cell value_of find
  process_all-Selects =
      let (r, e, _, selected) =
        process_times-Selects len 0 [] (omega arith) (λ k s h. absurd (cc h)) (λ k j h l. refl) in
      (r, e, λ i l. selected i (ground arith) l)

-- For a set of series with each key once, and a limit above 0, where comparisons of floats are an
-- order: topk and bottomk do not panic, and at each time the result of topk has just the values of the
-- greatest of the series that have a number then, and that of bottomk of the least, as many as the
-- limit or all; of values that are equal the keys decide, by the comparison of the code.
pub process_k-Selects :
    (rt : Runtime) (input : SeriesSet) (len limit : ℕ)
    → IsFloatOrder rt
    → HasUniqueKeys input
    → 0 < limit
    → ((r : SeriesSet) × (process_top_k rt input len limit ≡ some r)
        × Selects rt (data_point_less_than rt) input len limit r)
      × ((r : SeriesSet) × (process_bottom_k rt input len limit ≡ some r)
          × Selects rt (data_point_greater_than rt) input len limit r)
unfolding process_top_k process_bottom_k
process_k-Selects rt input len limit o unique positive = (
  process_all-Selects rt (data_point_less_than rt) (data_point_greater_than rt)
      (less-IsWeakOrder rt o) (greater-eq-less rt o) input unique len limit positive,
  process_all-Selects rt (data_point_greater_than rt) (data_point_less_than rt)
      (greater-IsWeakOrder rt o) (λ p s. sym (greater-eq-less rt o s p)) input unique len limit
      positive,
)
