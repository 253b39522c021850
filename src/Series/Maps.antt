-- ===== src/Series/Maps.antt =====
-- Finding and putting series by their keys.
use traceql_syntax.Base.{
  true, false, [], ◌∷◌, none, some, if◌then◌else◌, ◌≡◌, refl, ap, ◌∙◌, Bool-cases, inl, inr, arith,
  list_eq_refl, list_eq_sound, length,
}
use traceql_syntax.StaticType.Equality.{type_eq_sound, type_eq_self}
use traceql_syntax.Pipeline.Group.{StaticMapKey, key_eq}
use traceql_syntax.Series.{
  SeriesMapLabel, SeriesMapKey, TimeSeries, SeriesSet, max_group_bys, label_eq, series_key_eq, find,
  put,
}

pub key_eq_sound : (a b : StaticMapKey) → key_eq a b ≡ true → a ≡ b
unfolding key_eq
key_eq_sound a b h = ground (arith, type_eq_sound a.typ b.typ, list_eq_sound a.str b.str)

pub key_eq_self : (a : StaticMapKey) → key_eq a a ≡ true
unfolding key_eq
key_eq_self a = ground (arith, type_eq_self a.typ, list_eq_refl a.str)

label_eq_sound : (a b : SeriesMapLabel) → label_eq a b ≡ true → a ≡ b
unfolding label_eq
label_eq_sound a b h = ground (arith, list_eq_sound a.name b.name, key_eq_sound a.value b.value)

label_eq_self : (a : SeriesMapLabel) → label_eq a a ≡ true
unfolding label_eq
label_eq_self a = ground (arith, list_eq_refl a.name, key_eq_self a.value)

pub series_key_eq_sound : (a b : SeriesMapKey) → series_key_eq a b ≡ true → a ≡ b
unfolding series_key_eq
series_key_eq_sound [] [] h = refl
series_key_eq_sound [] (y ∷ ys) h = ground arith
series_key_eq_sound (x ∷ xs) [] h = ground arith
series_key_eq_sound (x ∷ xs) (y ∷ ys) h =
    ground (arith, label_eq_sound x y, series_key_eq_sound xs ys)

pub series_key_eq_self : (a : SeriesMapKey) → series_key_eq a a ≡ true
unfolding series_key_eq
series_key_eq_self [] = refl
series_key_eq_self (x ∷ xs) = ground (arith, label_eq_self x, series_key_eq_self xs)

pub find-put :
    (j k : SeriesMapKey) (s : TimeSeries) (set : SeriesSet)
    → find j (put k s set) ≡ (if series_key_eq j k then some s else find j set)
unfolding find put
find-put j k s [] = refl
find-put j k s ((l, t) ∷ set) = ground (
  arith,
  series_key_eq_sound j k,
  series_key_eq_sound k l,
  series_key_eq_sound j l,
  series_key_eq_self k,
  series_key_eq_self l,
  find-put j k s set,
)

-- A key in each place at most once, as in a map.
abbrev pub HasUniqueKeys : SeriesSet → Type 0
HasUniqueKeys [] = Unit
HasUniqueKeys ((k, s) ∷ rest) = (find k rest ≡ none) × HasUniqueKeys rest

-- Each series of the first set is found in the second.
abbrev pub AllFound : SeriesSet → SeriesSet → Type 0
AllFound [] set = Unit
AllFound ((k, s) ∷ rest) set = (find k set ≡ some s) × AllFound rest set

found_later :
    (j k : SeriesMapKey) (s t : TimeSeries) (set : SeriesSet)
    → find k set ≡ none
    → find j set ≡ some s
    → find j ((k, t) ∷ set) ≡ some s
unfolding find
found_later j k s t set n e = elim (Bool-cases (series_key_eq j k)) [
  | inl same ↦
      let f : find j set ≡ none = ap (λ i. find i set) (series_key_eq_sound j k same) ∙ n in
      absurd (cc (e, f))
  | inr other ↦ rw other e
]

AllFound-later :
    (k : SeriesMapKey) (t : TimeSeries) (rest set : SeriesSet)
    → find k set ≡ none
    → AllFound rest set
    → AllFound rest ((k, t) ∷ set)
AllFound-later k t [] set n h = tt
AllFound-later k t ((j, s) ∷ rest) set n (h, hs) =
    (found_later j k s t set n h, AllFound-later k t rest set n hs)

pub unique-AllFound : (set : SeriesSet) → HasUniqueKeys set → AllFound set set
unfolding find
unique-AllFound [] u = tt
unique-AllFound ((k, s) ∷ rest) (n, u) =
    (rw (series_key_eq_self k) refl, AllFound-later k s rest rest n (unique-AllFound rest u))

-- Sets as the code builds them: each key once, and each an array of the length.
abbrev pub HaveKeys : SeriesSet → Type 0
HaveKeys [] = Unit
HaveKeys ((k, s) ∷ rest) = (length k ≡ max_group_bys) × HaveKeys rest

pub record IsWellSet (set : SeriesSet) : Type 0 where
  pub unique : HasUniqueKeys set
  pub keys : HaveKeys set

put-HasUniqueKeys :
    (k : SeriesMapKey) (s : TimeSeries) (set : SeriesSet)
    → HasUniqueKeys set
    → HasUniqueKeys (put k s set)
unfolding put find
put-HasUniqueKeys k s [] u = (refl, tt)
put-HasUniqueKeys k s ((j, t) ∷ rest) (n, u) = elim (Bool-cases (series_key_eq k j)) [
  | inl same ↦ rw same (n, u)
  | inr other ↦
      let other' : series_key_eq j k ≡ false =
        ground (arith, series_key_eq_sound j k, series_key_eq_self k, other) in
      let n' : find j (put k s rest) ≡ none = find-put j k s rest ∙ rw other' n in
      rw other (n', put-HasUniqueKeys k s rest u)
]

put-HaveKeys :
    (k : SeriesMapKey) (s : TimeSeries) (set : SeriesSet)
    → length k ≡ max_group_bys
    → HaveKeys set
    → HaveKeys (put k s set)
unfolding put
put-HaveKeys k s [] e h = (e, tt)
put-HaveKeys k s ((j, t) ∷ rest) e (h, hs) = elim (Bool-cases (series_key_eq k j)) [
  | inl same ↦ rw same (h, hs)
  | inr other ↦ rw other (h, put-HaveKeys k s rest e hs)
]

pub put-IsWellSet :
    (k : SeriesMapKey) (s : TimeSeries) (set : SeriesSet)
    → length k ≡ max_group_bys
    → IsWellSet set
    → IsWellSet (put k s set)
put-IsWellSet k s set e w = record {
  unique = put-HasUniqueKeys k s set w.unique;
  keys = put-HaveKeys k s set e w.keys;
}
