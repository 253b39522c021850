-- ===== src/Grouping/Stored.antt =====
-- The aggregators in their store: what a series is found or created with, and what it becomes.
use mathlib.Core.Path.{subst}
use mathlib.Core.Option.{some-injective, none-ne-some}
use traceql_syntax.Base.{
  ℕ, zero, suc, ◌<◌, true, false, List, [], ◌∷◌, ◌++◌, Option, none, some, length, length-append,
  length-set, get_elem?-set, ==_refl, get_elem?, set, ◌==◌, if◌then◌else◌, ◌≡◌, refl, sym, ap, ◌∙◌,
  arith, absurd_test, Bool-cases, Option-cases, ◌⊎◌, inl, inr,
}
use traceql_syntax.Static.{Static}
use traceql_syntax.Grouping.{
  Config, FastStatic, AggregatorWithValues, GroupingAggregator, fast_eq, find_group,
}
use traceql_syntax.Series.Maps.{key_eq_sound, key_eq_self}

pub fast_eq_sound : (a b : FastStatic) → fast_eq a b ≡ true → a ≡ b
unfolding fast_eq
fast_eq_sound [] [] h = refl
fast_eq_sound [] (b ∷ bs) h = absurd_test (sym h)
fast_eq_sound (a ∷ fs) [] h = absurd_test (sym h)
fast_eq_sound (a ∷ fs) (b ∷ bs) h = ground (arith, key_eq_sound a b, fast_eq_sound fs bs)

pub fast_eq_self : (a : FastStatic) → fast_eq a a ≡ true
unfolding fast_eq
fast_eq_self [] = refl
fast_eq_self (a ∷ fs) = ground (arith, key_eq_self a, fast_eq_self fs)

get_elem?-last :
    {A : Type 0} (xs : List A) (x : A) → get_elem? (xs ++ (x ∷ [])) (length xs) ≡ some x
get_elem?-last [] x = refl
get_elem?-last (y ∷ ys) x = get_elem?-last ys x

get_elem?-before :
    {A : Type 0} (xs ys : List A) (i : ℕ) → i < length xs → get_elem? (xs ++ ys) i ≡ get_elem? xs i
get_elem?-before [] ys i h = absurd (omega (arith, h))
get_elem?-before (x ∷ xs) ys zero h = refl
get_elem?-before (x ∷ xs) ys (suc i) h = get_elem?-before xs ys i (omega arith)

pub get_elem?-within :
    {A : Type 0} (xs : List A) (i : ℕ) → i < length xs → (x : A) × (get_elem? xs i ≡ some x)
get_elem?-within [] i h = absurd (omega (arith, h))
get_elem?-within (x ∷ xs) zero h = (x, refl)
get_elem?-within (x ∷ xs) (suc i) h = get_elem?-within xs i (omega arith)

-- The series of a key: its aggregator and its values.
unfoldable pub state_of :
    {R : Type 0} → FastStatic → GroupingAggregator R → Option (R × List Static)
state_of k g = elim (find_group k g.series) [
  | none ↦ none
  | some s ↦ elim (get_elem? g.store s.agg) [ none ↦ none | some r ↦ some (r, s.vals) ]
]

-- All addresses are in the store, no two series have one in common, and the last series is in the map.
pub record IsShared {R : Type 0} (g : GroupingAggregator R) : Type 0 where
  pub valid :
      (k : FastStatic) (s : AggregatorWithValues)
      → find_group k g.series ≡ some s
      → s.agg < length g.store
  pub apart :
      (j k : FastStatic) (s t : AggregatorWithValues)
      → find_group j g.series ≡ some s
      → find_group k g.series ≡ some t
      → s.agg ≡ t.agg
      → j ≡ k
  pub last :
      (s : AggregatorWithValues)
      → g.last_series ≡ some s
      → find_group g.last_buf.fast g.series ≡ some s

module _ {R : Type 0} where
  pub state_of-some :
      (k : FastStatic) (g : GroupingAggregator R) (s : AggregatorWithValues) (r : R)
      → find_group k g.series ≡ some s
      → get_elem? g.store s.agg ≡ some r
      → state_of k g ≡ some (r, s.vals)
  unfolding state_of
  state_of-some k g s r found at = rw (state_of, found, at) refl

  pub state_of-none :
      (k : FastStatic) (g : GroupingAggregator R)
      → find_group k g.series ≡ none
      → state_of k g ≡ none
  unfolding state_of
  state_of-none k g free = rw (state_of, free) refl

  other_at :
      (f k : FastStatic) (act : R → R) (g : GroupingAggregator R) (s t : AggregatorWithValues)
      (r : R)
      → IsShared g
      → find_group f g.series ≡ some s
      → find_group k g.series ≡ some t
      → fast_eq f k ≡ false
      → get_elem? (set g.store s.agg (act r)) t.agg ≡ get_elem? g.store t.agg
  other_at f k act g s t r h found taken other = elim (Bool-cases (t.agg == s.agg)) [
    | inl same ↦
        let key = h.apart f k s t found taken (ground (arith, same)) in
        absurd_test (sym (fast_eq_self f) ∙ (ap (fast_eq f) key ∙ other))
    | inr apart ↦ get_elem?-set g.store s.agg (act r) t.agg (h.valid f s found) ∙ rw apart refl
  ]

  -- A series is at an address, and its aggregator does something.
  pub acted-state_of :
      (f k : FastStatic) (act : R → R) (g : GroupingAggregator R) (s : AggregatorWithValues) (r : R)
      → IsShared g
      → find_group f g.series ≡ some s
      → get_elem? g.store s.agg ≡ some r
      → state_of k (record g { store = set g.store s.agg (act r) })
        ≡ (if fast_eq f k then some (act r, s.vals) else state_of k g)
  unfolding state_of
  acted-state_of f k act g s r h found at = elim (Bool-cases (fast_eq f k)) [
    | inl same ↦
        let key = fast_eq_sound f k same in
        rw same (
          state_of-some k (record g { store = set g.store s.agg (act r) }) s (act r)
            (subst (λ l. find_group l g.series ≡ some s) key found)
            (get_elem?-set g.store s.agg (act r) s.agg (h.valid f s found)
              ∙ rw (==_refl s.agg) refl))
    | inr other ↦ rw other (elim (Option-cases (find_group k g.series)) [
      | inl free ↦ rw (state_of, free) refl
      | inr (t, taken) ↦ rw (state_of, taken, other_at f k act g s t r h found taken other) refl
    ])
  ]

  pub acted-IsShared :
      (g : GroupingAggregator R) (a : ℕ) (r : R)
      → IsShared g
      → IsShared (record g { store = set g.store a r })
  acted-IsShared g a r h = record {
    valid = λ k s e. let v = h.valid k s e in omega (arith, v, length-set g.store a r);
    apart = h.apart;
    last = h.last;
  }

-- There is no series of the key: a new aggregator is put behind the others.
module _ {S R : Type 0} (c : Config S R) (g : GroupingAggregator R) (h : IsShared g)
    (free : find_group g.buf.fast g.series ≡ none) where
  abbrev pub fresh : AggregatorWithValues
  fresh = record { agg = length g.store; vals = g.buf.vals }

  abbrev pub created : GroupingAggregator R
  created = record g {
    store = g.store ++ (c.inner_agg.create ∷ []);
    series = (g.buf.fast, fresh) ∷ g.series;
  }

  find-created :
      (k : FastStatic) (s : AggregatorWithValues)
      → find_group k created.series ≡ some s
      → ((g.buf.fast ≡ k) × (fresh ≡ s)) ⊎ (find_group k g.series ≡ some s)
  unfolding find_group
  find-created k s e = elim (Bool-cases (fast_eq g.buf.fast k)) [
    | inl same ↦ inl (fast_eq_sound g.buf.fast k same, some-injective fresh s (rw same at e))
    | inr other ↦ inr (rw other at e)
  ]

  created-last :
      (s : AggregatorWithValues)
      → g.last_series ≡ some s
      → find_group g.last_buf.fast created.series ≡ some s
  unfolding find_group
  created-last s e = elim (Bool-cases (fast_eq g.buf.fast g.last_buf.fast)) [
    | inl same ↦
        let key = fast_eq_sound g.buf.fast g.last_buf.fast same in
        absurd (none-ne-some s (sym free ∙ (ap (λ l. find_group l g.series) key ∙ h.last s e)))
    | inr other ↦ rw other (h.last s e)
  ]

  created-apart :
      (j k : FastStatic) (s t : AggregatorWithValues)
      → find_group j created.series ≡ some s
      → find_group k created.series ≡ some t
      → s.agg ≡ t.agg
      → j ≡ k
  created-apart j k s t e f same = elim (find-created j s e) [
    | inl (key, new) ↦
        let new_at : length g.store ≡ s.agg = ap (λ u. u.agg) new in
        elim (find-created k t f) [
          | inl (key', new') ↦ sym key ∙ key'
          | inr old ↦ let v = h.valid k t old in absurd (omega (arith, v, new_at, same))
        ]
    | inr old ↦ elim (find-created k t f) [
      | inl (key', new') ↦
          let new_at : length g.store ≡ t.agg = ap (λ u. u.agg) new' in
          let v = h.valid j s old in absurd (omega (arith, v, new_at, same))
      | inr old' ↦ h.apart j k s t old old' same
    ]
  ]

  pub created-IsShared : IsShared created
  created-IsShared = record {
    valid = λ k s e. elim (find-created k s e) [
      | inl (key, same) ↦
          let size : length g.store ≡ s.agg = ap (λ t. t.agg) same in
          omega (arith, size, length-append g.store (c.inner_agg.create ∷ []))
      | inr old ↦
          let v = h.valid k s old in
          omega (arith, v, length-append g.store (c.inner_agg.create ∷ []))
    ];
    apart = created-apart;
    last = created-last;
  }

  pub created-state_of :
      (k : FastStatic)
      → state_of k created
        ≡ (if fast_eq g.buf.fast k then some (c.inner_agg.create, g.buf.vals) else state_of k g)
  unfolding state_of find_group
  created-state_of k = elim (Bool-cases (fast_eq g.buf.fast k)) [
    | inl same ↦ rw (state_of, same, get_elem?-last g.store c.inner_agg.create) refl
    | inr other ↦ elim (Option-cases (find_group k g.series)) [
      | inl none_of ↦ rw (state_of, other, none_of) refl
      | inr (t, old) ↦
          rw
            (
              state_of,
              other,
              old,
              get_elem?-before g.store (c.inner_agg.create ∷ []) t.agg (h.valid k t old),
            )
            refl
    ]
  ]
