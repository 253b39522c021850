-- ===== src/Collector/Cols.antt =====
-- The collectors of the scopes: what they hold, and how one is found and put back.
use traceql_syntax.Base.{
  ℕ, ◌+◌, ◌≤◌, ◌<◌, ◌^◌, Bool, true, false, List, [], ◌∷◌, Option, none, some, Text, list_eq,
  length, ◌≡◌, refl, arith, ◌⊎◌, inl, inr, Bool-cases, Option-cases, if◌then◌else◌,
}
use mathlib.Core.Path.{subst}
use traceql_syntax.Collector.{
  DistinctString, new_distinct_string, new_distinct_string_with_diff, contains, collect,
  collect_value, reached, exceed, hit, add_value,
}
use traceql_syntax.Collector.Limits.{total, IsWell}
use traceql_syntax.Collector.Scoped.{
  ScopedDistinctString, intrinsic_scope, find_col, put_col, new_for, col_for, size_after,
  any_exceeded,
}

abbrev pub total_of : List (Text × DistinctString) → ℕ
total_of [] = 0
total_of ((s, c) ∷ cs) = total c.values + total_of cs

abbrev pub AllWell : List (Text × DistinctString) → Type 0
AllWell [] = Unit
AllWell ((s, c) ∷ cs) = IsWell c × AllWell cs

-- Each collector is well-formed, their strings have the size that is counted, within its limit, and
-- no collector has exceeded its limits unless the whole has.
pub record IsWellScoped (d : ScopedDistinctString) : Type 0 where
  pub cols : AllWell d.cols
  pub size : d.curr_data_size ≡ total_of d.cols
  pub data_kept : (d.max_data_size ≡ 0) ⊎ (d.curr_data_size ≤ d.max_data_size)
  pub none_over : d.lim_exceeded ≡ false → any_exceeded d.cols ≡ false
  pub new_col : (d.new_col ≡ new_distinct_string) ⊎ (d.new_col ≡ new_distinct_string_with_diff)
  pub limit : d.max_tags_per_scope < 2 ^ 32

-- Whether a scope has the string.
unfoldable pub holds : Text → Text → ScopedDistinctString → Bool
unfolding find_col contains
holds scope val d = elim (find_col scope d.cols) [ none ↦ false | some c ↦ contains val c.values ]

collect_value-total :
    (s : Text) (d : DistinctString)
    → total ((collect_value s d).0).values
      ≡ size_after (collect_value s d).1 (length s) (total d.values)
unfolding collect_value hit add_value size_after
collect_value-total s d = elim (Bool-cases (contains s d.values)) [
  | inl old ↦ rw old refl
  | inr new' ↦ rw new' refl
]

pub collect-total :
    (s : Text) (d : DistinctString)
    → total ((collect s d).0).values ≡ size_after (collect s d).1 (length s) (total d.values)
unfolding collect exceed size_after
collect-total s d = elim (Bool-cases d.lim_exceeded) [
  | inl over ↦ rw over refl
  | inr open' ↦ elim (Option-cases (reached d (length s))) [
    | inl n ↦ rw (open', n) (collect_value-total s d)
    | inr (reason, r) ↦ rw (open', r) refl
  ]
]

new-IsWell :
    (diff : Bool) (b c : ℕ)
    → b < 2 ^ 32
    → IsWell (if diff then new_distinct_string_with_diff 0 b c else new_distinct_string 0 b c)
new-IsWell true b c h = record {
  distinct = tt;
  size = refl;
  len = refl;
  limit = h;
  data_kept = inl refl;
  values_kept = inr (omega arith);
}
new-IsWell false b c h = record {
  distinct = tt;
  size = refl;
  len = refl;
  limit = h;
  data_kept = inl refl;
  values_kept = inr (omega arith);
}

pub find-put :
    (s : Text) (c : DistinctString) (cs : List (Text × DistinctString))
    → list_eq s s ≡ true
    → find_col s (put_col s c cs) ≡ some c
unfolding find_col put_col
find-put s c [] e = rw e refl
find-put s c ((t, b) ∷ cs) e = elim (Bool-cases (list_eq s t)) [
  | inl same ↦ rw (same, same) refl
  | inr other ↦ rw (other, other) (find-put s c cs e)
]

pub put-AllWell :
    (s : Text) (c : DistinctString) (cs : List (Text × DistinctString))
    → IsWell c
    → AllWell cs
    → AllWell (put_col s c cs)
unfolding put_col
put-AllWell s c [] w ws = (w, tt)
put-AllWell s c ((t, b) ∷ cs) w (v, vs) = elim (Bool-cases (list_eq s t)) [
  | inl same ↦ rw same (w, vs)
  | inr other ↦ rw other (v, put-AllWell s c cs w vs)
]

pub put-any_exceeded :
    (s : Text) (c : DistinctString) (cs : List (Text × DistinctString))
    → c.lim_exceeded ≡ false
    → any_exceeded cs ≡ false
    → any_exceeded (put_col s c cs) ≡ false
unfolding put_col any_exceeded
put-any_exceeded s c [] h k = rw h refl
put-any_exceeded s c ((t, b) ∷ cs) h k = elim (Bool-cases b.lim_exceeded) [
  | inl over ↦ let bad : true ≡ false = (rw over at k) in absurd (cc)
  | inr within ↦
      let k' : any_exceeded cs ≡ false = (rw within at k) in
      elim (Bool-cases (list_eq s t)) [
        | inl same ↦ rw (same, h) k'
        | inr other ↦ rw (other, within) (put-any_exceeded s c cs h k')
      ]
]

-- The size of the strings of a scope.
pub old_total : Option DistinctString → ℕ
old_total none = 0
old_total (some c) = total c.values

pub put-total :
    (s : Text) (c : DistinctString) (cs : List (Text × DistinctString))
    → total_of (put_col s c cs) + old_total (find_col s cs) ≡ total c.values + total_of cs
unfolding put_col find_col old_total
put-total s c [] = omega arith
put-total s c ((t, b) ∷ cs) = elim (Bool-cases (list_eq s t)) [
  | inl same ↦ rw same (omega arith)
  | inr other ↦ rw other (omega (arith, put-total s c cs))
]

find-IsWell :
    (s : Text) (c : DistinctString) (cs : List (Text × DistinctString))
    → AllWell cs
    → find_col s cs ≡ some c
    → IsWell c
unfolding find_col
find-IsWell s c [] ws e = absurd (cc)
find-IsWell s c ((t, b) ∷ cs) (w, ws) e = elim (Bool-cases (list_eq s t)) [
  | inl same ↦
      let e' : some b ≡ some c = (rw same at e) in
      subst (λ o. elim o [ none ↦ Unit | some x ↦ IsWell x ]) e' w
  | inr other ↦ find-IsWell s c cs ws (rw other at e)
]

IsFresh : DistinctString → Type 0
IsFresh c = IsWell c × (total c.values ≡ 0)

new_col-IsFresh :
    (d : ScopedDistinctString) (b c : ℕ) → b < 2 ^ 32 → IsWellScoped d → IsFresh (d.new_col 0 b c)
unfolding IsFresh
new_col-IsFresh d b c h w = elim w.new_col [
  | inl e ↦ rw e (new-IsWell false b c h, refl)
  | inr e ↦ rw e (new-IsWell true b c h, refl)
]

new_for-IsFresh :
    (scope : Text) (d : ScopedDistinctString) → IsWellScoped d → IsFresh (new_for scope d)
unfolding new_for
new_for-IsFresh scope d w = elim (Bool-cases (list_eq scope intrinsic_scope)) [
  | inl all ↦ rw all (new_col-IsFresh d 0 0 (omega arith) w)
  | inr some' ↦ rw some' (new_col-IsFresh d d.max_tags_per_scope d.max_cache_hits w.limit w)
]

pub col_for_lem :
    (scope : Text) (d : ScopedDistinctString)
    → IsWellScoped d
    → IsWell (col_for scope d)
      × (total (col_for scope d).values ≡ old_total (find_col scope d.cols))
unfolding col_for old_total IsFresh
col_for_lem scope d w = elim (Option-cases (find_col scope d.cols)) [
  | inl n ↦
      let same : col_for scope d ≡ new_for scope d = rw (n, col_for) refl in
      rw (same, n) (new_for-IsFresh scope d w)
  | inr (c, e) ↦
      let same : col_for scope d ≡ c = rw (e, col_for) refl in
      rw (same, e) (find-IsWell scope c d.cols w.cols e, refl)
]
