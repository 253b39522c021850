-- ===== src/Collector/Scopes.antt =====
-- What a collector with scopes holds, and its limits.
use traceql_syntax.Base.{
  ℕ, zero, suc, ◌+◌, ◌≤◌, ◌<◌, ◌^◌, Bool, true, false, ◌&&◌, Option, Text, length, ◌≡◌, refl, sym,
  ap, ◌∙◌, arith, ◌⊎◌, inl, inr, Bool-cases, ltb,
}
use mathlib.Core.Path.{subst}
use traceql_syntax.Base.{list_eq_refl, absurd_test}
use traceql_syntax.Collector.{Stop, collect}
use traceql_syntax.Collector.Limits.{total, collect-Collected}
use traceql_syntax.Collector.Scoped.{
  ScopedDistinctString, new_scoped_distinct_string, new_scoped_distinct_string_with_diff, find_col,
  put_col, col_for, size_after, after_collect, collect_in_scope, any_exceeded, exceeded,
}
use traceql_syntax.Collector.Cols.{
  total_of, IsWellScoped, holds, collect-total, find-put, put-AllWell, put-any_exceeded, old_total,
  put-total, col_for_lem,
}

-- What one call does, as seen from outside.
abbrev pub CollectedInScope :
    Text → Text → ScopedDistinctString → ScopedDistinctString × Bool → Type 0
CollectedInScope scope val d (d', over) =
    IsWellScoped d' × (exceeded d' ≡ over) × (over ≡ false → holds scope val d' ≡ true)

in_scope :
    (scope val : Text) (d : ScopedDistinctString) {r r' : ScopedDistinctString × Bool}
    → r ≡ r'
    → CollectedInScope scope val d r'
    → CollectedInScope scope val d r
in_scope scope val d e = subst (CollectedInScope scope val d) (sym e)

over-IsWellScoped :
    (d : ScopedDistinctString) → IsWellScoped d → IsWellScoped (record d { lim_exceeded = true })
over-IsWellScoped d w = record {
  cols = w.cols;
  size = w.size;
  data_kept = w.data_kept;
  none_over = λ e. absurd_test e;
  new_col = w.new_col;
  limit = w.limit;
}

size_kept :
    (added : Bool) (n size limit : ℕ)
    → (ltb 0 limit && ltb limit (size + n)) ≡ false
    → (limit ≡ 0) ⊎ (size ≤ limit)
    → (limit ≡ 0) ⊎ (size_after added n size ≤ limit)
unfolding size_after
size_kept true n size zero h k = inl refl
size_kept true n size (suc limit) h k = inr (ground arith)
size_kept false n size limit h k = k

-- The new size is that of the strings.
size_of_cols :
    (added : Bool) (n size before after old rest : ℕ)
    → size ≡ before
    → rest + old ≡ after + before
    → after ≡ size_after added n old
    → size_after added n size ≡ rest
unfolding size_after
size_of_cols true n size before after old rest e f g = omega arith
size_of_cols false n size before after old rest e f g = omega arith

-- The state with the collector of a scope that a string was collected into.
abbrev put_back : Text → Text → ScopedDistinctString → Bool → Option Stop → ScopedDistinctString
put_back scope val d over reason = record d {
  cols = put_col scope (collect val (col_for scope d)).0 d.cols;
  curr_data_size = size_after (collect val (col_for scope d)).1 (length val) d.curr_data_size;
  lim_exceeded = over;
  stop_reason = reason;
}

-- A collector that a string was collected into is put back.
put-IsWellScoped :
    (scope val : Text) (d : ScopedDistinctString) (over : Bool) (reason : Option Stop)
    → (ltb 0 d.max_data_size && ltb d.max_data_size (d.curr_data_size + length val)) ≡ false
    → d.lim_exceeded ≡ false
    → ((collect val (col_for scope d)).0).lim_exceeded ≡ over
    → IsWellScoped d
    → IsWellScoped (put_back scope val d over reason)
put-IsWellScoped scope val d over reason fits within limit w =
    let (col_well, col_total) = col_for_lem scope d w in
    let (well, _, _) = collect-Collected val (col_for scope d) col_well in
    let c = (collect val (col_for scope d)).0 in
    let added = (collect val (col_for scope d)).1 in
    record {
      cols = put-AllWell scope c d.cols well w.cols;
      size =
          size_of_cols added (length val) d.curr_data_size (total_of d.cols) (total c.values)
            (old_total (find_col scope d.cols)) (total_of (put_col scope c d.cols)) w.size
            (put-total scope c d.cols)
            (collect-total val (col_for scope d) ∙ ap (size_after added (length val)) col_total);
      data_kept = size_kept added (length val) d.curr_data_size d.max_data_size fits w.data_kept;
      none_over = λ e. put-any_exceeded scope c d.cols (limit ∙ e) (w.none_over within);
      new_col = w.new_col;
      limit = w.limit;
    }

-- The string is there, if the scope's collector is within its limits.
put-holds :
    (scope val : Text) (d : ScopedDistinctString) (size : ℕ)
    → IsWellScoped d
    → ((collect val (col_for scope d)).0).lim_exceeded ≡ false
    → holds scope val (record d {
      cols = put_col scope (collect val (col_for scope d)).0 d.cols;
      curr_data_size = size;
    })
      ≡ true
unfolding holds
put-holds scope val d size w within =
    let (well, added, there) = collect-Collected val (col_for scope d) (col_for_lem scope d w).0 in
    let here = there val in
    let same = list_eq_refl val in
    rw (find-put scope (collect val (col_for scope d)).0 d.cols (list_eq_refl scope), holds)
      (here ∙ ground (arith, added, within, same))

after_collect-Collected :
    (scope val : Text) (d : ScopedDistinctString)
    → (ltb 0 d.max_data_size && ltb d.max_data_size (d.curr_data_size + length val)) ≡ false
    → d.lim_exceeded ≡ false
    → IsWellScoped d
    → CollectedInScope scope val d
        (after_collect scope (length val) (collect val (col_for scope d)) d)
unfolding after_collect exceeded col_for
after_collect-Collected scope val d fits within w =
    elim (Bool-cases ((collect val (col_for scope d)).0).lim_exceeded) [
      | inl over ↦
          let e : after_collect scope (length val) (collect val (col_for scope d)) d
              ≡ (put_back scope val d true ((collect val (col_for scope d)).0).stop_reason, true) =
            rw (over, after_collect) refl in
          in_scope scope val d e
            (put-IsWellScoped scope val d true _ fits within over w, refl, λ e. absurd_test e)
      | inr open' ↦
          let e : after_collect scope (length val) (collect val (col_for scope d)) d
              ≡ (put_back scope val d d.lim_exceeded d.stop_reason, false) =
            rw (open', after_collect) refl in
          let well =
            put-IsWellScoped scope val d d.lim_exceeded d.stop_reason fits within
              (open' ∙ sym within) w in
          in_scope scope val d e
            (well, rw within (well.none_over within), λ e. put-holds scope val d _ w open')
    ]

-- Collecting a string for a scope into a well-formed collector keeps it so: the collector of each
-- scope is well-formed, the size is that of the strings of all scopes, at most its limit, and no
-- scope has exceeded its limits unless the whole has. The call returns what Exceeded then returns, and
-- if that is false, the string is among those of the scope.
pub collect_in_scope-Collected :
    (scope val : Text) (d : ScopedDistinctString)
    → IsWellScoped d
    → CollectedInScope scope val d (collect_in_scope scope val d)
unfolding collect_in_scope exceeded
collect_in_scope-Collected scope val d w = elim (Bool-cases d.lim_exceeded) [
  | inl over ↦
      in_scope scope val d (rw (over, collect_in_scope) refl) (w, rw over refl, λ e. absurd_test e)
  | inr within ↦
      elim (Bool-cases
        (ltb 0 d.max_data_size && ltb d.max_data_size (d.curr_data_size + length val))) [
          | inl full ↦
              in_scope scope val d (rw (within, full, collect_in_scope) refl)
                (over-IsWellScoped d w, refl, λ e. absurd_test e)
          | inr fits ↦
              in_scope scope val d (rw (within, fits, collect_in_scope) refl)
                (after_collect-Collected scope val d fits within w)
        ]
]

pub new-IsWellScoped :
    (max_data max_tags stale : ℕ)
    → max_tags < 2 ^ 32
    → IsWellScoped (new_scoped_distinct_string max_data max_tags stale)
      × IsWellScoped (new_scoped_distinct_string_with_diff max_data max_tags stale)
unfolding any_exceeded
new-IsWellScoped max_data max_tags stale h = (
  record {
    cols = tt;
    size = refl;
    data_kept = inr (omega arith);
    none_over = λ e. refl;
    new_col = inl refl;
    limit = h;
  },
  record {
    cols = tt;
    size = refl;
    data_kept = inr (omega arith);
    none_over = λ e. refl;
    new_col = inr refl;
    limit = h;
  },
)
