-- ===== src/Collector/Scoped.antt =====
-- internal/collector/scoped_distinct_string.go: a collector of distinct strings for each scope. The
-- map of collectors is a list of scopes, each once. Each method holds the lock, so it is one step;
-- results that are maps list the scopes in the order of that list.
use traceql_syntax.Base.{
  ℕ, ◌+◌, Bool, true, false, ◌&&◌, ◌||◌, List, [], ◌∷◌, Option, none, some, Text, codes, list_eq,
  length, ltb, if◌then◌else◌,
}
use traceql_syntax.Collector.{
  DistinctString, Stop, new_distinct_string, new_distinct_string_with_diff, collect, strings, diff,
}

pub record ScopedDistinctString : Type 0 where
  pub cols : List (Text × DistinctString)
  pub new_col : ℕ → ℕ → ℕ → DistinctString
  pub max_data_size : ℕ
  pub curr_data_size : ℕ
  pub lim_exceeded : Bool
  pub max_cache_hits : ℕ
  pub diff_enabled : Bool
  pub max_tags_per_scope : ℕ
  pub stop_reason : Option Stop

abbrev pub intrinsic_scope : Text
intrinsic_scope = codes "intrinsic"

abbrev pub new_scoped_distinct_string : ℕ → ℕ → ℕ → ScopedDistinctString
new_scoped_distinct_string max_data max_tags stale = record {
  cols = [];
  new_col = new_distinct_string;
  max_data_size = max_data;
  curr_data_size = 0;
  lim_exceeded = false;
  max_cache_hits = stale;
  diff_enabled = false;
  max_tags_per_scope = max_tags;
  stop_reason = none;
}

abbrev pub new_scoped_distinct_string_with_diff : ℕ → ℕ → ℕ → ScopedDistinctString
new_scoped_distinct_string_with_diff max_data max_tags stale =
    record (new_scoped_distinct_string max_data max_tags stale) {
      new_col = new_distinct_string_with_diff;
      diff_enabled = true;
    }

unfoldable pub find_col : Text → List (Text × DistinctString) → Option DistinctString
unfolding list_eq
find_col s [] = none
find_col s ((t, c) ∷ cs) = let rest = find_col s cs in if list_eq s t then some c else rest

unfoldable pub put_col :
    Text → DistinctString → List (Text × DistinctString) → List (Text × DistinctString)
unfolding list_eq
put_col s c [] = (s, c) ∷ []
put_col s c ((t, b) ∷ cs) =
    let rest = put_col s c cs in if list_eq s t then (t, c) ∷ cs else (t, b) ∷ rest

-- A new collector for the scope; that of the intrinsic scope has no limits.
unfoldable pub new_for : Text → ScopedDistinctString → DistinctString
unfolding list_eq
new_for scope d =
    if list_eq scope intrinsic_scope
    then d.new_col 0 0 0
    else d.new_col 0 d.max_tags_per_scope d.max_cache_hits

unfoldable pub col_for : Text → ScopedDistinctString → DistinctString
unfolding find_col new_for
col_for scope d = elim (find_col scope d.cols) [ some c ↦ c | none ↦ new_for scope d ]

-- The size, after a string of the length.
unfoldable pub size_after : Bool → ℕ → ℕ → ℕ
size_after added n size = if added then size + n else size

-- The end of Collect, with the new state of the scope's collector.
unfoldable pub after_collect :
    Text → ℕ → DistinctString × Bool → ScopedDistinctString → ScopedDistinctString × Bool
unfolding put_col size_after
after_collect scope n (col, added) d =
    if col.lim_exceeded
    then (
      record d {
        cols = put_col scope col d.cols;
        curr_data_size = size_after added n d.curr_data_size;
        lim_exceeded = true;
        stop_reason = col.stop_reason;
      },
      true,
    )
    else (
      record d {
        cols = put_col scope col d.cols;
        curr_data_size = size_after added n d.curr_data_size;
      },
      false,
    )

-- The new state, and whether a limit is exceeded.
unfoldable pub collect_in_scope : Text → Text → ScopedDistinctString → ScopedDistinctString × Bool
unfolding col_for after_collect collect
collect_in_scope scope val d =
    if d.lim_exceeded
    then (d, true)
    else if ltb 0 d.max_data_size && ltb d.max_data_size (d.curr_data_size + length val)
    then (record d { lim_exceeded = true }, true)
    else after_collect scope (length val) (collect val (col_for scope d)) d

unfoldable pub scoped_strings : List (Text × DistinctString) → List (Text × List Text)
unfolding strings
scoped_strings [] = []
scoped_strings ((s, c) ∷ cs) = (s, strings c) ∷ scoped_strings cs

unfoldable pub any_exceeded : List (Text × DistinctString) → Bool
any_exceeded [] = false
any_exceeded ((s, c) ∷ cs) = c.lim_exceeded || any_exceeded cs

unfoldable pub exceeded : ScopedDistinctString → Bool
unfolding any_exceeded
exceeded d = d.lim_exceeded || any_exceeded d.cols

-- A scope with no new strings is left out.
unfoldable pub add_scope : Text → List Text → List (Text × List Text) → List (Text × List Text)
add_scope s [] rest = rest
add_scope s (t ∷ ts) rest = (s, t ∷ ts) ∷ rest

-- An error ends the loop.
unfoldable pub diff_cols :
    List (Text × DistinctString) → List (Text × DistinctString) × Option (List (Text × List Text))
unfolding diff add_scope
diff_cols [] = ([], some [])
diff_cols ((s, c) ∷ cs) =
    let (cs', rest) = diff_cols cs in
    elim ((diff c).1) [
      | none ↦ ((s, (diff c).0) ∷ cs, none)
      | some ts ↦
          ((s, (diff c).0) ∷ cs', elim rest [ none ↦ none | some r ↦ some (add_scope s ts r) ])
    ]

-- `none` is the error that diffs are not enabled.
unfoldable pub scoped_diff :
    ScopedDistinctString → ScopedDistinctString × Option (List (Text × List Text))
unfolding diff_cols
scoped_diff d =
    if d.diff_enabled
    then (record d { cols = (diff_cols d.cols).0 }, (diff_cols d.cols).1)
    else (d, none)
