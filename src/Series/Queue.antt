-- ===== src/Series/Queue.antt =====
-- Go's container/heap as the code uses it, on a list with the least element first, and what a queue
-- that holds so many elements at most is left with.
use mathlib.Core.Path.{subst}
use mathlib.Core.Option.{some-injective}
use traceql_syntax.Base.{
  ℕ, zero, suc, ◌+◌, ◌-◌, ◌≤◌, ◌<◌, Bool, true, false, ◌||◌, List, [], ◌∷◌, Option, none, some,
  length, All, ltb, if◌then◌else◌, ◌≡◌, refl, sym, ap, ◌∙◌, arith, Bool-cases, Option-cases, inl,
  inr,
}

module _ {A : Type 0} (less : A → A → Bool) where
  -- heap.Push
  unfoldable pub push : A → List A → List A
  push p [] = p ∷ []
  push p (x ∷ xs) = let rest = push p xs in if less x p then x ∷ rest else p ∷ x ∷ xs

  -- An element goes into a queue that is not full, or replaces the first one if it is greater.
  -- `none` is the panic of an empty queue with the limit 0.
  unfoldable pub offer : (A → A → Bool) → ℕ → A → List A → Option (List A)
  unfolding push
  offer greater limit p h = if ltb (length h) limit then some (push p h) else elim h [
    | [] ↦ none
    | smallest ∷ others ↦
        if greater p smallest then some (push p others) else some (smallest ∷ others)
  ]

  unfoldable pub offer_all : (A → A → Bool) → ℕ → List A → List A → Option (List A)
  unfolding offer
  offer_all greater limit [] h = some h
  offer_all greater limit (p ∷ ps) h = elim (offer greater limit p h) [
    | none ↦ none
    | some h' ↦ offer_all greater limit ps h'
  ]

  -- All elements, in order.
  unfoldable pub push_all : List A → List A → List A
  unfolding push
  push_all [] h = h
  push_all (p ∷ ps) h = push_all ps (push p h)

abbrev pub drop {ℓ} : {A : Type ℓ} → ℕ → List A → List A
drop zero xs = xs
drop (suc n) [] = []
drop (suc n) (x ∷ xs) = drop n xs

pub All-drop : {A : Type 0} (Q : A → Type 0) (k : ℕ) (xs : List A) → All Q xs → All Q (drop k xs)
All-drop Q zero xs h = h
All-drop Q (suc k) [] h = tt
All-drop Q (suc k) (x ∷ xs) (h, hs) = All-drop Q k xs hs

push-All :
    {A : Type 0} (less : A → A → Bool) (Q : A → Type 0) (p : A) (xs : List A)
    → Q p
    → All Q xs
    → All Q (push less p xs)
unfolding push
push-All less Q p [] h k = (h, tt)
push-All less Q p (x ∷ xs) h (k, ks) = elim (Bool-cases (less x p)) [
  | inl below ↦ rw below (k, push-All less Q p xs h ks)
  | inr above ↦ rw above (h, (k, ks))
]

-- A strict weak order on the elements that P holds of.
pub record IsWeakOrder {A : Type 0} (P : A → Type 0) (less : A → A → Bool) : Type 0 where
  pub asym : (a b : A) → P a → P b → less a b ≡ true → less b a ≡ false
  pub between : (a b c : A) → P a → P b → P c → less a c ≡ true → (less a b || less b c) ≡ true

-- No element is less than one before it.
abbrev pub IsSorted : {A : Type 0} → (A → A → Bool) → List A → Type 0
IsSorted less [] = Unit
IsSorted less (x ∷ xs) = All (λ y. less y x ≡ false) xs × IsSorted less xs

module _ {A : Type 0} {P : A → Type 0} (less : A → A → Bool) (o : IsWeakOrder P less) where
  -- What is not less than x, where x is not less than p, is not less than p.
  not_less : (a b c : A) → P a → P b → P c → less a b ≡ false → less b c ≡ false → less a c ≡ false
  not_less a b c h i j e f = elim (Bool-cases (less a c)) [
    | inl bad ↦ let t = o.between a b c h i j bad in ground arith
    | inr fine ↦ fine
  ]

  All-not_less :
      (x p : A) (ys : List A)
      → P x
      → P p
      → All P ys
      → less x p ≡ false
      → All (λ y. less y x ≡ false) ys
      → All (λ y. less y p ≡ false) ys
  All-not_less x p [] h i ks e fs = tt
  All-not_less x p (y ∷ ys) h i (k, ks) e (f, fs) =
      (not_less y x p k h i f e, All-not_less x p ys h i ks e fs)

  pub push-IsSorted :
      (p : A) (xs : List A) → P p → All P xs → IsSorted less xs → IsSorted less (push less p xs)
  unfolding push
  push-IsSorted p [] h k s = (tt, tt)
  push-IsSorted p (x ∷ xs) h (k, ks) (s, ss) = elim (Bool-cases (less x p)) [
    | inl below ↦ rw below (
      push-All less (λ y. less y x ≡ false) p xs (o.asym x p k h below) s,
      push-IsSorted p xs h ks ss,
    )
    | inr above ↦ rw above ((above, All-not_less x p xs k h ks above s), (s, ss))
  ]

  pub length-push : (p : A) (xs : List A) → length (push less p xs) ≡ length xs + 1
  unfolding push
  length-push p [] = omega arith
  length-push p (x ∷ xs) = ground (arith, length-push p xs)

  drop_front :
      (k : ℕ) (s : A) (xs others : List A) → drop k xs ≡ s ∷ others → drop (suc k) xs ≡ others
  drop_front zero s [] others e = absurd (cc)
  drop_front zero s (x ∷ xs) others e = cc
  drop_front (suc k) s [] others e = absurd (cc)
  drop_front (suc k) s (x ∷ xs) others e = drop_front k s xs others e

  -- What is greater than the first of the queue is put after it.
  drop-push_greater :
      (k : ℕ) (p s : A) (xs others : List A)
      → P p
      → All P xs
      → IsSorted less xs
      → drop k xs ≡ s ∷ others
      → less s p ≡ true
      → drop k (push less p xs) ≡ s ∷ push less p others
  unfolding push
  drop-push_greater zero p s [] others h ks t e below = absurd (cc)
  drop-push_greater (suc n) p s [] others h ks t e below = absurd (cc)
  drop-push_greater zero p s (x ∷ xs) others h (k, ks) (t, ts) e below = ground arith
  drop-push_greater (suc n) p s (x ∷ xs) others h (k, ks) (t, ts) e below =
      let front : (less s x ≡ false) × All (λ y. less y x ≡ false) others =
        subst (All (λ y. less y x ≡ false)) e (All-drop (λ y. less y x ≡ false) n xs t) in
      let holds : P s × All P others = subst (All P) e (All-drop P n xs ks) in
      let here : less x p ≡ true = ground (arith, o.between s x p holds.0 k h below, front.0) in
      rw here (drop-push_greater n p s xs others h ks ts e below)

  -- What is not takes a place before it.
  drop-push_other :
      (k : ℕ) (p s : A) (xs others : List A)
      → drop k xs ≡ s ∷ others
      → less s p ≡ false
      → drop (suc k) (push less p xs) ≡ drop k xs
  unfolding push
  drop-push_other zero p s [] others e above = absurd (cc)
  drop-push_other (suc n) p s [] others e above = absurd (cc)
  drop-push_other zero p s (x ∷ xs) others e above = ground arith
  drop-push_other (suc n) p s (x ∷ xs) others e above = elim (Bool-cases (less x p)) [
    | inl below ↦ rw below (drop-push_other n p s xs others e above)
    | inr other ↦ rw other refl
  ]

  length-drop : (k : ℕ) (xs : List A) → length (drop k xs) ≡ length xs - k
  length-drop zero xs = omega arith
  length-drop (suc k) [] = omega arith
  length-drop (suc k) (x ∷ xs) = omega (arith, length-drop k xs)

  offer_room :
      (greater : A → A → Bool) (limit : ℕ) (p : A) (xs : List A)
      → ltb (length xs) limit ≡ true
      → offer less greater limit p xs ≡ some (push less p xs)
  unfolding offer
  offer_room greater limit p xs room = rw room refl

  module _ (greater : A → A → Bool) (same : (p s : A) → P p → P s → greater p s ≡ less s p) where
    offer_full :
        (limit : ℕ) (p : A) (xs r : List A)
        → 0 < limit
        → P p
        → All P xs
        → IsSorted less xs
        → limit ≤ length xs
        → drop (length xs - limit) xs ≡ r
        → offer less greater limit p r ≡ some (drop (suc (length xs - limit)) (push less p xs))
    unfolding offer
    offer_full limit p xs [] some' h ks t full e =
        absurd (omega (arith, length-drop (length xs - limit) xs, ap (length {0}) e))
    offer_full limit p xs (s ∷ others) some' h ks t full e =
        let size : length (s ∷ others) ≡ limit =
          omega (arith, length-drop (length xs - limit) xs, ap (length {0}) e) in
        let no_room : ltb (length (s ∷ others)) limit ≡ false = ground (arith, size) in
        let holds : P s × All P others = subst (All P) e (All-drop P (length xs - limit) xs ks) in
        elim (Bool-cases (less s p)) [
          | inl below ↦
              let more : greater p s ≡ true = same p s h holds.0 ∙ below in
              let k = length xs - limit in
              rw (no_room, more)
                (ap some (
                  sym (
                    drop_front k s (push less p xs) (push less p others)
                      (drop-push_greater k p s xs others h ks t e below))))
          | inr above ↦
              let less' : greater p s ≡ false = same p s h holds.0 ∙ above in
              rw (no_room, less')
                (ap some (sym (drop-push_other (length xs - limit) p s xs others e above ∙ e)))
        ]

    -- A queue of the greatest elements, after one more.
    offer-push :
        (limit : ℕ) (p : A) (xs : List A)
        → 0 < limit
        → P p
        → All P xs
        → IsSorted less xs
        → offer less greater limit p (drop (length xs - limit) xs)
          ≡ some (drop (length (push less p xs) - limit) (push less p xs))
    offer-push limit p xs some' h ks t = elim (Bool-cases (ltb (length xs) limit)) [
      | inl room ↦
          let k : length xs - limit ≡ 0 = ground (arith, room) in
          let k' : length (push less p xs) - limit ≡ 0 = ground (arith, room, length-push p xs) in
          rw (k, k') (offer_room greater limit p xs room)
      | inr full ↦
          let k' : length (push less p xs) - limit ≡ suc (length xs - limit) =
            ground (arith, full, length-push p xs) in
          rw k' (offer_full limit p xs _ some' h ks t (ground (arith, full)) refl)
    ]

    -- The queue holds the greatest of all elements, from the least of them.
    pub offer_all-greatest :
        (limit : ℕ) (ps xs : List A)
        → 0 < limit
        → All P ps
        → All P xs
        → IsSorted less xs
        → offer_all less greater limit ps (drop (length xs - limit) xs)
          ≡ some (drop (length (push_all less ps xs) - limit) (push_all less ps xs))
    unfolding offer_all push_all
    offer_all-greatest limit [] xs some' hs ks t = refl
    offer_all-greatest limit (p ∷ ps) xs some' (h, hs) ks t =
        rw (offer-push limit p xs some' h ks t, offer_all)
          (offer_all-greatest limit ps (push less p xs) some' hs (push-All less P p xs h ks)
            (push-IsSorted p xs h ks t))

  pub push_all-IsSorted :
      (ps xs : List A)
      → All P ps
      → All P xs
      → IsSorted less xs
      → IsSorted less (push_all less ps xs)
  unfolding push_all
  push_all-IsSorted [] xs hs ks t = t
  push_all-IsSorted (p ∷ ps) xs (h, hs) ks t =
      push_all-IsSorted ps (push less p xs) hs (push-All less P p xs h ks)
        (push-IsSorted p xs h ks t)

module _ {A : Type 0} (less greater : A → A → Bool) (limit : ℕ) (Q : A → Type 0) where
  offer-All :
      (p : A) (xs r : List A) → Q p → All Q xs → offer less greater limit p xs ≡ some r → All Q r
  unfolding offer
  offer-All p [] r h ks e = elim (Bool-cases (ltb 0 limit)) [
    | inl room ↦
        let e' : some (p ∷ []) ≡ some r = (rw room at e) in
        subst (All Q) (some-injective (p ∷ []) r e') (h, tt)
    | inr full ↦ let e' : none ≡ some r = (rw full at e) in absurd (cc (e'))
  ]
  offer-All p (x ∷ xs) r h (k, ks) e = elim (Bool-cases (ltb (suc (length xs)) limit)) [
    | inl room ↦
        let e' : some (push less p (x ∷ xs)) ≡ some r = (rw room at e) in
        subst (All Q) (some-injective (push less p (x ∷ xs)) r e')
          (push-All less Q p (x ∷ xs) h (k, ks))
    | inr full ↦ elim (Bool-cases (greater p x)) [
      | inl more ↦
          let e' : some (push less p xs) ≡ some r = (rw (full, more) at e) in
          subst (All Q) (some-injective (push less p xs) r e') (push-All less Q p xs h ks)
      | inr other ↦
          let e' : some (x ∷ xs) ≡ some r = (rw (full, other) at e) in
          subst (All Q) (some-injective (x ∷ xs) r e') (k, ks)
    ]
  ]

  pub offer_all-All :
      (ps xs r : List A)
      → All Q ps
      → All Q xs
      → offer_all less greater limit ps xs ≡ some r
      → All Q r
  unfolding offer_all
  offer_all-All [] xs r hs ks e = subst (All Q) (some-injective xs r e) ks
  offer_all-All (p ∷ ps) xs r (h, hs) ks e = elim (Option-cases (offer less greater limit p xs)) [
    | inl n ↦ let e' : none ≡ some r = (rw (n, offer_all) at e) in absurd (cc (e'))
    | inr (xs', f) ↦ offer_all-All ps xs' r hs (offer-All p xs xs' h ks f) (rw (f, offer_all) at e)
  ]
