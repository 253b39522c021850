-- ===== src/Series/Greatest.antt =====
-- The greatest of a list of elements, as the queue of Series/Queue holds them.
use traceql_syntax.Base.{
  ℕ, zero, suc, ◌+◌, ◌-◌, ◌≤◌, ◌<◌, Bool, false, List, [], ◌∷◌, ◌++◌, some, length, All, min, ◌≡◌,
  refl, sym, ap, ◌∙◌, arith, Bool-cases, inl, inr,
}
use mathlib.Core.Path.{subst}
use mathlib.Core.List.{Permᴰ, append-nil}
use mathlib.Core.List.Permᴰ
use traceql_syntax.Series.Queue.{
  push, push_all, offer_all, drop, IsSorted, IsWeakOrder, offer_all-greatest, All-drop,
  push_all-IsSorted,
}

-- Elements of the list, as many as the limit or all of them, with none among the others that any of
-- them is less than.
pub record IsGreatest {A : Type 0} (less : A → A → Bool) (limit : ℕ) (xs kept : List A)
    : Type 0 where
  pub others : List A
  pub divided : Permᴰ (others ++ kept) xs
  pub size : length kept ≡ min limit (length xs)
  pub greatest : All (λ k. All (λ x. less k x ≡ false) others) kept

module _ {A : Type 0} (less : A → A → Bool) where
  pub push-Permᴰ : (p : A) (xs : List A) → Permᴰ (push less p xs) (p ∷ xs)
  unfolding push
  push-Permᴰ p [] = Permᴰ.refl (p ∷ [])
  push-Permᴰ p (x ∷ xs) = elim (Bool-cases (less x p)) [
    | inl below ↦ rw below (Permᴰ.trans (Permᴰ.cons refl (push-Permᴰ p xs)) (Permᴰ.swap refl refl))
    | inr above ↦ rw above (Permᴰ.refl (p ∷ x ∷ xs))
  ]

  pub push_all-Permᴰ : (ps xs : List A) → Permᴰ (push_all less ps xs) (ps ++ xs)
  unfolding push_all
  push_all-Permᴰ [] xs = Permᴰ.refl xs
  push_all-Permᴰ (p ∷ ps) xs =
      Permᴰ.trans (push_all-Permᴰ ps (push less p xs))
        (Permᴰ.trans (Permᴰ.append_left ps (push-Permᴰ p xs)) (Permᴰ.middle p ps xs))

  pub length-Permᴰ : {xs ys : List A} → Permᴰ xs ys → length xs ≡ length ys
  length-Permᴰ Permᴰ.nil = refl
  length-Permᴰ (Permᴰ.cons e p) = ap suc (length-Permᴰ p)
  length-Permᴰ (Permᴰ.swap e f) = refl
  length-Permᴰ (Permᴰ.trans p q) = length-Permᴰ p ∙ length-Permᴰ q

  less_than_none : (xs : List A) → All (λ k. All (λ x. less k x ≡ false) []) xs
  less_than_none [] = tt
  less_than_none (x ∷ xs) = (tt, less_than_none xs)

  one_more :
      (x : A) (front ks : List A)
      → All (λ k. less k x ≡ false) ks
      → All (λ k. All (λ y. less k y ≡ false) front) ks
      → All (λ k. All (λ y. less k y ≡ false) (x ∷ front)) ks
  one_more x front [] h g = tt
  one_more x front (k ∷ ks) (h, hs) (g, gs) = ((h, g), one_more x front ks hs gs)

  -- What is dropped from the front of a sorted list.
  divide :
      (n : ℕ) (xs : List A)
      → IsSorted less xs
      → n ≤ length xs
      → (front : List A) × (front ++ drop n xs ≡ xs)
        × (length (drop n xs) + n ≡ length xs)
        × All (λ k. All (λ x. less k x ≡ false) front) (drop n xs)
  divide zero xs s h = ([], refl, omega arith, less_than_none xs)
  divide (suc n) [] s h = absurd (omega arith)
  divide (suc n) (x ∷ xs) (t, s) h =
      let (front, e, size, greatest) = divide n xs s (omega arith) in
      (
        x ∷ front,
        ap (λ l. x ∷ l) e,
        omega (arith, size),
        one_more x front (drop n xs) (All-drop (λ y. less y x ≡ false) n xs t) greatest,
      )

  -- The last of the sorted elements are the greatest.
  last-IsGreatest :
      (limit : ℕ) (xs sorted : List A)
      → Permᴰ sorted xs
      → IsSorted less sorted
      → IsGreatest less limit xs (drop (length sorted - limit) sorted)
  last-IsGreatest limit xs sorted p s =
      let (front, e, size, greatest) = divide (length sorted - limit) sorted s (omega arith) in
      record {
        others = front;
        divided = subst (λ l. Permᴰ l xs) (sym e) p;
        size = ground (arith, size, length-Permᴰ p);
        greatest = greatest;
      }

  pub offer_all-IsGreatest :
      {P : A → Type 0} (greater : A → A → Bool) (limit : ℕ) (ps : List A)
      → IsWeakOrder P less
      → ((p s : A) → P p → P s → greater p s ≡ less s p)
      → 0 < limit
      → All P ps
      → (kept : List A) × (offer_all less greater limit ps [] ≡ some kept)
        × IsGreatest less limit ps kept
  offer_all-IsGreatest greater limit ps o same positive hs =
      let sorted = push_all less ps [] in
      let none_yet : 0 - limit ≡ 0 = omega arith in
      (
        drop (length sorted - limit) sorted,
        subst
            (λ n.
              offer_all less greater limit ps (drop n [])
              ≡ some (drop (length sorted - limit) sorted))
            none_yet (offer_all-greatest less o greater same limit ps [] positive hs tt tt),
        last-IsGreatest limit ps sorted
            (subst (λ l. Permᴰ sorted l) (append-nil ps) (push_all-Permᴰ ps []))
            (push_all-IsSorted less o ps [] hs tt tt),
      )

All-Permᴰ : {A : Type 0} (Q : A → Type 0) {xs ys : List A} → Permᴰ xs ys → All Q ys → All Q xs
All-Permᴰ Q Permᴰ.nil h = tt
All-Permᴰ Q (Permᴰ.cons e p) (h, hs) = (subst Q (sym e) h, All-Permᴰ Q p hs)
All-Permᴰ Q (Permᴰ.swap e f) (h, (k, ks)) = (subst Q (sym e) k, (subst Q (sym f) h, ks))
All-Permᴰ Q (Permᴰ.trans p q) hs = All-Permᴰ Q p (All-Permᴰ Q q hs)

All-right : {A : Type 0} (Q : A → Type 0) (xs ys : List A) → All Q (xs ++ ys) → All Q ys
All-right Q [] ys hs = hs
All-right Q (x ∷ xs) ys (h, hs) = All-right Q xs ys hs

pub IsGreatest-All :
    {A : Type 0} {less : A → A → Bool} {limit : ℕ} {xs kept : List A} (Q : A → Type 0)
    → IsGreatest less limit xs kept
    → All Q xs
    → All Q kept
IsGreatest-All {kept} Q g hs = All-right Q g.others kept (All-Permᴰ Q g.divided hs)
