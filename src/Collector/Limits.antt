-- ===== src/Collector/Limits.antt =====
-- The limits of the collector, and what it holds.
use traceql_syntax.Base.{
  ℕ, zero, suc, ◌+◌, ◌%◌, ◌^◌, ◌≤◌, ◌<◌, Bool, true, false, not, ◌&&◌, ◌||◌, List, [], ◌∷◌, Option,
  none, some, Text, list_eq, length, ◌≡◌, refl, sym, arith, ◌⊎◌, inl, inr, Bool-cases, Option-cases,
  ltb, leb, any, if◌then◌else◌,
}
use mathlib.Core.Path.{subst}
use traceql_syntax.Collector.{
  DistinctString, Stop, contains, reached, exceed, hit, add_value, collect_value, collect,
}

-- The length of all strings together.
abbrev pub total : List Text → ℕ
total [] = 0
total (t ∷ ts) = total ts + length t

abbrev pub IsDistinct : List Text → Type 0
IsDistinct [] = Unit
IsDistinct (t ∷ ts) = (contains t ts ≡ false) × IsDistinct ts

-- No string twice, counters that agree with the strings, and limits that are kept.
pub record IsWell (d : DistinctString) : Type 0 where
  pub distinct : IsDistinct d.values
  pub size : d.curr_data_size ≡ total d.values
  pub len : d.current_values_len ≡ length d.values % 2 ^ 32
  pub limit : d.max_values < 2 ^ 32
  pub data_kept : (d.max_data_size ≡ 0) ⊎ (d.curr_data_size < d.max_data_size)
  pub values_kept : (d.max_values ≡ 0) ⊎ (length d.values ≤ d.max_values)

-- No limit is reached by a string of the length.
abbrev Fits : DistinctString → ℕ → Type 0
Fits d n =
    ((d.max_data_size ≡ 0) ⊎ (d.curr_data_size + n < d.max_data_size))
    × ((d.max_values ≡ 0) ⊎ (d.current_values_len < d.max_values))

-- A test for a limit that fails, in front of others that find none.
unreached :
    (limit n : ℕ) (reason : Stop) (others : Option Stop)
    → (if ltb 0 limit && leb limit n then some reason else others) ≡ none
    → ((limit ≡ 0) ⊎ (n < limit)) × (others ≡ none)
unreached limit n reason others h = elim (Bool-cases (ltb 0 limit && leb limit n)) [
  | inl yes' ↦ let e : some reason ≡ none = (rw yes' at h) in cc
  | inr no' ↦ (below limit n no', rw no' at h)
]
  where
    below : (limit n : ℕ) → (ltb 0 limit && leb limit n) ≡ false → (limit ≡ 0) ⊎ (n < limit)
    below zero n h = inl refl
    below (suc limit) n h = inr (ground arith)

reached-none : (d : DistinctString) (n : ℕ) → reached d n ≡ none → Fits d n
unfolding reached
reached-none d n h =
    let (data_fits, h') = unreached d.max_data_size (d.curr_data_size + n) _ _ h in
    let (values_fit, h'') = unreached d.max_values d.current_values_len _ _ h' in
    (data_fits, values_fit)

values_below :
    (limit len n : ℕ)
    → limit < 2 ^ 32
    → len ≡ n % 2 ^ 32
    → (limit ≡ 0) ⊎ (len < limit)
    → (limit ≡ 0) ⊎ (n ≤ limit)
    → (limit ≡ 0) ⊎ (suc n ≤ limit)
values_below limit len n b e (inl z) k = inl z
values_below limit len n b e (inr h) (inl z) = inl z
values_below limit len n b e (inr h) (inr k) = inr (omega arith)

add_value-IsWell :
    (s : Text) (d : DistinctString)
    → Fits d (length s)
    → contains s d.values ≡ false
    → IsWell d
    → IsWell (add_value s d)
unfolding add_value
add_value-IsWell s d f n w = record {
  distinct = (n, w.distinct);
  size = omega (arith, w.size);
  len = omega (arith, w.len);
  limit = w.limit;
  data_kept = f.0;
  values_kept =
      values_below d.max_values d.current_values_len (length d.values) w.limit w.len f.1
        w.values_kept;
}

same_values-IsWell :
    (d : DistinctString) (hits : ℕ) (over : Bool) (reason : Option Stop)
    → IsWell d
    → IsWell (record d { current_cache_hits = hits; lim_exceeded = over; stop_reason = reason })
same_values-IsWell d hits over reason w = record {
  distinct = w.distinct;
  size = w.size;
  len = w.len;
  limit = w.limit;
  data_kept = w.data_kept;
  values_kept = w.values_kept;
}

-- What one call of Collect does, as seen from outside.
abbrev pub Collected : Text → DistinctString → DistinctString × Bool → Type 0
Collected s d (d', added) =
    IsWell d'
    × (added ≡ (not d'.lim_exceeded && not (contains s d.values)))
    × ((t : Text) → contains t d'.values ≡ ((added && list_eq t s) || contains t d.values))

collected :
    (s : Text) (d : DistinctString) {r r' : DistinctString × Bool}
    → r ≡ r'
    → Collected s d r'
    → Collected s d r
collected s d e = subst (Collected s d) (sym e)

collect_value-Collected :
    (s : Text) (d : DistinctString)
    → d.lim_exceeded ≡ false
    → Fits d (length s)
    → IsWell d
    → Collected s d (collect_value s d)
unfolding collect_value hit add_value contains any
collect_value-Collected s d open' f w = elim (Bool-cases (contains s d.values)) [
  | inl old ↦
      let e : collect_value s d ≡ (hit d, false) = rw old refl in
      collected s d e
        (same_values-IsWell d _ d.lim_exceeded d.stop_reason w, rw (open', old) refl, λ t. refl)
  | inr new' ↦
      let e : collect_value s d ≡ (add_value s d, true) = rw new' refl in
      collected s d e (add_value-IsWell s d f new' w, rw (open', new') refl, λ t. refl)
]

-- Collecting into a well-formed collector keeps it so: no string twice, the size and the counter as
-- of the strings, the data below its limit and the strings at most as many as theirs. The string is
-- reported as added exactly if no limit is exceeded after the call and it was not there before, and
-- then it is the only one that comes to the strings.
pub collect-Collected : (s : Text) (d : DistinctString) → IsWell d → Collected s d (collect s d)
unfolding collect exceed
collect-Collected s d w = elim (Bool-cases d.lim_exceeded) [
  | inl over ↦
      let e : collect s d ≡ (d, false) = simp over refl in
      collected s d e (w, rw over refl, λ t. refl)
  | inr open' ↦ elim (Option-cases (reached d (length s))) [
    | inl n ↦
        let e : collect s d ≡ collect_value s d = simp (open', n) refl in
        collected s d e (collect_value-Collected s d open' (reached-none d (length s) n) w)
    | inr (reason, r) ↦
        let e : collect s d ≡ (exceed reason d, false) = simp (open', r) refl in
        collected s d e
          (same_values-IsWell d d.current_cache_hits true (some reason) w, refl, λ t. refl)
  ]
]
