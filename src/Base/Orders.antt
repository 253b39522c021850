-- ===== src/Base/Orders.antt =====
-- Comparisons that are total orders, and how they are combined: reversed, one after the other, and
-- along lists.
use Prim.Native.Nat.{ℕ, compare, Ordering}
use mathlib.Core.Path.{◌≡◌, refl, sym, ap, ◌∙◌}
use mathlib.Core.List.{List, [], ◌∷◌}
use native.Mathlib.Omega.{arith}
use traceql_syntax.Base.Tests.{list_compare}

abbrev pub flip : Ordering → Ordering
flip Ordering.lt = Ordering.gt
flip Ordering.eq = Ordering.eq
flip Ordering.gt = Ordering.lt

-- The first comparison that tells two things apart.
abbrev pub or_then : Ordering → Ordering → Ordering
or_then Ordering.lt o = Ordering.lt
or_then Ordering.eq o = o
or_then Ordering.gt o = Ordering.gt

pub record IsOrder {ℓ} {A : Type ℓ} (cmp : A → A → Ordering) : Type ℓ where
  pub flips : (a b : A) → cmp b a ≡ flip (cmp a b)
  pub equal : (a b c : A) → cmp a b ≡ Ordering.eq → cmp a c ≡ cmp b c
  pub trans : (a b c : A) → cmp a b ≡ Ordering.lt → cmp b c ≡ Ordering.lt → cmp a c ≡ Ordering.lt

pub compare-IsOrder : IsOrder compare
compare-IsOrder = record {
  flips = λ a b. ground arith;
  equal = λ a b c e. ground arith;
  trans = λ a b c e f. ground arith;
}

module _ {ℓ} {A : Type ℓ} where
  pub flip-IsOrder : {cmp : A → A → Ordering} → IsOrder cmp → IsOrder (λ a b. flip (cmp a b))
  flip-IsOrder {cmp} o = record {
    flips = λ a b. ap flip (o.flips a b);
    equal = λ a b c e. ground (arith, o.equal a b c);
    trans = λ a b c e f. ground (arith, o.trans c b a, o.flips a b, o.flips b c, o.flips a c);
  }

  -- The right side may be exchanged for an equal one.
  pub equal_right :
      {cmp : A → A → Ordering} (o : IsOrder cmp) (a b c : A)
      → cmp b c ≡ Ordering.eq
      → cmp a b ≡ cmp a c
  equal_right o a b c e = ground (arith, o.equal b c a, o.flips a b, o.flips a c)

  pub then-IsOrder :
      {cmp dmp : A → A → Ordering}
      → IsOrder cmp
      → IsOrder dmp
      → IsOrder (λ a b. or_then (cmp a b) (dmp a b))
  then-IsOrder {cmp} {dmp} o p = record {
    flips = λ a b. ground (arith, o.flips a b, p.flips a b);
    equal = λ a b c e. ground (arith, o.equal a b c, p.equal a b c);
    trans = λ a b c e f.
        ground (arith, o.trans a b c, p.trans a b c, o.equal a b c, equal_right o a b c);
  }

  pub along-IsOrder {κ} :
      {B : Type κ} {cmp : B → B → Ordering} (f : A → B)
      → IsOrder cmp
      → IsOrder (λ a b. cmp (f a) (f b))
  along-IsOrder f o = record {
    flips = λ a b. o.flips (f a) (f b);
    equal = λ a b c. o.equal (f a) (f b) (f c);
    trans = λ a b c. o.trans (f a) (f b) (f c);
  }

  -- The lexicographic order of lists.
  unfoldable pub compare_all : (A → A → Ordering) → List A → List A → Ordering
  compare_all cmp [] [] = Ordering.eq
  compare_all cmp [] (y ∷ ys) = Ordering.lt
  compare_all cmp (x ∷ xs) [] = Ordering.gt
  compare_all cmp (x ∷ xs) (y ∷ ys) = or_then (cmp x y) (compare_all cmp xs ys)

  module _ {cmp : A → A → Ordering} (o : IsOrder cmp) where
    all_flips : (xs ys : List A) → compare_all cmp ys xs ≡ flip (compare_all cmp xs ys)
    unfolding compare_all
    all_flips [] [] = refl
    all_flips [] (y ∷ ys) = refl
    all_flips (x ∷ xs) [] = refl
    all_flips (x ∷ xs) (y ∷ ys) = ground (arith, o.flips x y, all_flips xs ys)

    all_equal :
        (xs ys zs : List A)
        → compare_all cmp xs ys ≡ Ordering.eq
        → compare_all cmp xs zs ≡ compare_all cmp ys zs
    unfolding compare_all
    all_equal [] [] zs e = refl
    all_equal [] (y ∷ ys) zs e = ground arith
    all_equal (x ∷ xs) [] zs e = ground arith
    all_equal (x ∷ xs) (y ∷ ys) [] e = refl
    all_equal (x ∷ xs) (y ∷ ys) (z ∷ zs) e = ground (arith, o.equal x y z, all_equal xs ys zs)

    all_trans :
        (xs ys zs : List A)
        → compare_all cmp xs ys ≡ Ordering.lt
        → compare_all cmp ys zs ≡ Ordering.lt
        → compare_all cmp xs zs ≡ Ordering.lt
    unfolding compare_all
    all_trans [] ys [] e f = ground (arith, all_flips [] ys)
    all_trans [] ys (z ∷ zs) e f = refl
    all_trans (x ∷ xs) [] zs e f = ground arith
    all_trans (x ∷ xs) (y ∷ ys) [] e f = ground arith
    all_trans (x ∷ xs) (y ∷ ys) (z ∷ zs) e f =
        ground (arith, o.trans x y z, o.equal x y z, equal_right o x y z, all_trans xs ys zs)

    pub compare_all-IsOrder : IsOrder (compare_all cmp)
    compare_all-IsOrder = record { flips = all_flips; equal = all_equal; trans = all_trans }

pub list_compare-eq-all : (xs ys : List ℕ) → list_compare xs ys ≡ compare_all compare xs ys
unfolding list_compare compare_all
list_compare-eq-all [] [] = refl
list_compare-eq-all [] (y ∷ ys) = refl
list_compare-eq-all (x ∷ xs) [] = refl
list_compare-eq-all (x ∷ xs) (y ∷ ys) = ground (arith, list_compare-eq-all xs ys)

pub list_compare-IsOrder : IsOrder list_compare
list_compare-IsOrder =
    let o = compare_all-IsOrder compare-IsOrder in
    let e = list_compare-eq-all in
    record {
      flips = λ a b. e b a ∙ o.flips a b ∙ ap flip (sym (e a b));
      equal = λ a b c h. e a c ∙ o.equal a b c (sym (e a b) ∙ h) ∙ sym (e b c);
      trans = λ a b c h k. e a c ∙ o.trans a b c (sym (e a b) ∙ h) (sym (e b c) ∙ k);
    }
