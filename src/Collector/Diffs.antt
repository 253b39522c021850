-- ===== src/Collector/Diffs.antt =====
-- What Diff returns: the strings that were collected since the last call.
use traceql_syntax.Base.{
  Bool, true, false, not, ◌&&◌, ◌||◌, List, [], ◌∷◌, some, Text, list_eq, list_compare, Ordering,
  ◌≡◌, refl, sym, ap, ◌∙◌, ◌⊎◌, inl, inr, Bool-cases, Option-cases, length, any, list_eq_sound,
  absurd_test,
}
use mathlib.Core.Path.{subst}
use traceql_syntax.Collector.{
  DistinctString, contains, reached, exceed, hit, add_value, collect_value, collect, insert, sorted,
  strings, diff,
}

abbrev pub collect_all : List Text → DistinctString → DistinctString
collect_all [] d = d
collect_all (s ∷ ss) d = collect_all ss (collect s d).0

or_swap : (a b c : Bool) → (a || (b || c)) ≡ (b || (a || c))
or_swap true true c = refl
or_swap true false c = refl
or_swap false true c = refl
or_swap false false c = refl

or_true : (a : Bool) → (a || true) ≡ true
or_true true = refl
or_true false = refl

contains-insert :
    (t s : Text) (ts : List Text) → contains t (insert s ts) ≡ (list_eq t s || contains t ts)
unfolding contains any insert
contains-insert t s [] = refl
contains-insert t s (u ∷ us) = go (contains-insert t s us) (list_compare s u)
  where
    go :
        any (list_eq t) (insert s us) ≡ (list_eq t s || any (list_eq t) us)
        → (o : Ordering)
        → any (list_eq t) (elim o [
          | Ordering.gt ↦ u ∷ insert s us
          | Ordering.lt ↦ s ∷ u ∷ us
          | Ordering.eq ↦ s ∷ u ∷ us
        ])
          ≡ (list_eq t s || (list_eq t u || any (list_eq t) us))
    go rest Ordering.gt =
        ap (λ b. list_eq t u || b) rest ∙ or_swap (list_eq t u) (list_eq t s) (any (list_eq t) us)
    go rest Ordering.lt = refl
    go rest Ordering.eq = refl

contains-sorted : (t : Text) (ts : List Text) → contains t (sorted ts) ≡ contains t ts
unfolding contains any sorted
contains-sorted t [] = refl
contains-sorted t (u ∷ us) =
    contains-insert t u (sorted us) ∙ ap (λ b. list_eq t u || b) (contains-sorted t us)

-- The new strings are those that are not among the old ones.
record Since (old : List Text) (d : DistinctString) : Type 0 where
  enabled : d.diff_enabled ≡ true
  kept : (t : Text) → contains t old ≡ true → contains t d.values ≡ true
  news : (t : Text) → contains t d.new ≡ (contains t d.values && not (contains t old))

-- A string that is not among the values is not an old one.
not_old :
    (old : List Text) (s t : Text) (d : DistinctString)
    → contains s d.values ≡ false
    → Since old d
    → list_eq t s ≡ true
    → contains t old ≡ false
not_old old s t d h w e = elim (Bool-cases (contains t old)) [
  | inl m ↦
      let there : contains s d.values ≡ true =
        subst (λ u. contains u d.values ≡ true) (list_eq_sound t s e) (w.kept t m) in
      absurd_test (sym there ∙ h)
  | inr n ↦ n
]

add_value-Since :
    (old : List Text) (s : Text) (d : DistinctString)
    → contains s d.values ≡ false
    → Since old d
    → Since old (add_value s d)
unfolding add_value contains any
add_value-Since old s d h w = record {
  enabled = w.enabled;
  kept = λ t m. rw (w.kept t m) (or_true (list_eq t s));
  news = λ t. rw w.enabled (elim (Bool-cases (list_eq t s)) [
    | inl e ↦ rw (e, not_old old s t d h w e) refl
    | inr e ↦ rw e (w.news t)
  ]);
}

-- A call of Collect adds the string, which was not there, or leaves the strings as they are.
collect_effect :
    (s : Text) (d : DistinctString)
    → ((contains s d.values ≡ false) × ((collect s d).0 ≡ add_value s d))
      ⊎ (((collect s d).0.values ≡ d.values)
          × ((collect s d).0.new ≡ d.new)
          × ((collect s d).0.diff_enabled ≡ d.diff_enabled))
unfolding collect collect_value exceed hit
collect_effect s d = elim (Bool-cases d.lim_exceeded) [
  | inl over ↦ inr (simp over refl, simp over refl, simp over refl)
  | inr open' ↦ elim (Option-cases (reached d (length s))) [
    | inr (reason, r) ↦ inr (simp (open', r) refl, simp (open', r) refl, simp (open', r) refl)
    | inl n ↦ elim (Bool-cases (contains s d.values)) [
      | inl old ↦
          inr (simp (open', n, old) refl, simp (open', n, old) refl, simp (open', n, old) refl)
      | inr new' ↦ inl (new', simp (open', n, new') refl)
    ]
  ]
]

module _ (old : List Text) where
  unchanged-Since :
      (d d' : DistinctString)
      → d'.values ≡ d.values
      → d'.new ≡ d.new
      → d'.diff_enabled ≡ d.diff_enabled
      → Since old d
      → Since old d'
  unchanged-Since d d' v n b w = record {
    enabled = b ∙ w.enabled;
    kept = λ t m. ap (contains t) v ∙ w.kept t m;
    news = λ t.
        ap (contains t) n ∙ w.news t ∙ ap (λ vs. contains t vs && not (contains t old)) (sym v);
  }

  collect-Since : (s : Text) (d : DistinctString) → Since old d → Since old (collect s d).0
  collect-Since s d w = elim (collect_effect s d) [
    | inl (h, e) ↦ subst (Since old) (sym e) (add_value-Since old s d h w)
    | inr (v, n, b) ↦ unchanged-Since d (collect s d).0 v n b w
  ]

  collect_all-Since :
      (ss : List Text) (d : DistinctString) → Since old d → Since old (collect_all ss d)
  collect_all-Since [] d w = w
  collect_all-Since (s ∷ ss) d w = collect_all-Since ss (collect s d).0 (collect-Since s d w)

  diff_of_Since :
      (d : DistinctString)
      → Since old d
      → (out : List Text) × ((diff d).1 ≡ some out)
        × ((t : Text) → contains t out ≡ (contains t (strings d) && not (contains t old)))
  unfolding diff strings
  diff_of_Since d w = (
    sorted d.new,
    rw w.enabled refl,
    λ t.
        contains-sorted t d.new
        ∙ w.news t
        ∙ ap (λ b. b && not (contains t old)) (sym (contains-sorted t d.values)),
  )

and_not : (b : Bool) → false ≡ (b && not b)
and_not true = refl
and_not false = refl

start-Since : (d : DistinctString) → d.diff_enabled ≡ true → Since d.values (diff d).0
unfolding diff contains any
start-Since d h =
    let e : (diff d).0 ≡ record d { new = [] } = simp h refl in
    subst (Since d.values) (sym e)
      (record { enabled = h; kept = λ t m. m; news = λ t. and_not (contains t d.values) })

-- A collector with diffs enabled, on which Diff is called, then Collect with any strings, then Diff
-- again: the last call returns just the strings that the collector holds at its time and did not hold
-- at the time of the first call.
pub diff-collect_all :
    (d : DistinctString) (ss : List Text)
    → d.diff_enabled ≡ true
    → (out : List Text) × ((diff (collect_all ss (diff d).0)).1 ≡ some out)
      × ((t : Text)
          → contains t out
            ≡ (contains t (strings (collect_all ss (diff d).0)) && not (contains t (strings d))))
unfolding strings
diff-collect_all d ss h =
    let d' = collect_all ss (diff d).0 in
    let (out, e, agrees) =
      diff_of_Since d.values d' (collect_all-Since d.values ss (diff d).0 (start-Since d h)) in
    (
      out,
      e,
      λ t. agrees t ∙ ap (λ b. contains t (strings d') && not b) (sym (contains-sorted t d.values)),
    )
