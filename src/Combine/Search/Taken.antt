-- ===== src/Combine/Search/Taken.antt =====
-- The first traces of a sorted list, before and after another one is put in, and their ids.
use mathlib.Core.Path.{subst}
use mathlib.Core.Option.{some-injective, none-ne-some}
use mathlib.Core.List.Permᴰ
use mathlib.Core.List.{Permᴰ}
use traceql_syntax.Base.{
  ℕ, zero, suc, ◌≤◌, ◌<◌, Bool, true, false, List, [], ◌∷◌, any, select, some, Text, list_eq,
  list_eq_refl, list_eq_sound, length, get_elem?, take, All, ◌≡◌, refl, sym, ap, ◌∙◌, inl, inr,
  arith, Bool-cases, absurd_test,
}
use traceql_syntax.Combine.Search.{Meta, later, has_id, exists, remove}
use traceql_syntax.Series.Queue.{push, IsSorted}

list_eq-false : (s t : Text) → list_eq s t ≡ false → list_eq t s ≡ false
list_eq-false s t h = elim (Bool-cases (list_eq t s)) [
  | inl same ↦
      absurd_test (sym (list_eq_refl s) ∙ ap (λ u. list_eq s u) (sym (list_eq_sound t s same)) ∙ h)
  | inr other ↦ other
]

module _ {A : Type 0} where
  pub take-all : (n : ℕ) (xs : List A) → length xs ≤ n → take n xs ≡ xs
  take-all zero [] h = refl
  take-all zero (x ∷ xs) h = absurd (omega arith)
  take-all (suc n) [] h = refl
  take-all (suc n) (x ∷ xs) h = ap (λ l. x ∷ l) (take-all n xs (omega arith))

  pub take-take : (n : ℕ) (xs : List A) → take n (take (suc n) xs) ≡ take n xs
  take-take zero xs = refl
  take-take (suc n) [] = refl
  take-take (suc n) (x ∷ xs) = ap (λ l. x ∷ l) (take-take n xs)

  pub get_elem?-take : (n : ℕ) (xs : List A) → get_elem? (take (suc n) xs) n ≡ get_elem? xs n
  get_elem?-take zero [] = refl
  get_elem?-take zero (x ∷ xs) = refl
  get_elem?-take (suc n) [] = refl
  get_elem?-take (suc n) (x ∷ xs) = get_elem?-take n xs

  pub length-take : (n : ℕ) (xs : List A) → n < length xs → length (take (suc n) xs) ≡ suc n
  length-take n [] h = absurd (omega (arith, h))
  length-take zero (x ∷ xs) h = refl
  length-take (suc n) (x ∷ xs) h = ap suc (length-take n xs (omega arith))

  pub get_elem?-some : (n : ℕ) (xs : List A) → n < length xs → (x : A) × (get_elem? xs n ≡ some x)
  get_elem?-some n [] h = absurd (omega (arith, h))
  get_elem?-some zero (x ∷ xs) h = (x, refl)
  get_elem?-some (suc n) (x ∷ xs) h = get_elem?-some n xs (omega arith)

  pub All-take : (Q : A → Type 0) (n : ℕ) (xs : List A) → All Q xs → All Q (take n xs)
  All-take Q zero xs qs = tt
  All-take Q (suc n) [] qs = tt
  All-take Q (suc n) (x ∷ xs) (q, qs) = (q, All-take Q n xs qs)

  pub take-IsSorted :
      (less : A → A → Bool) (n : ℕ) (xs : List A) → IsSorted less xs → IsSorted less (take n xs)
  take-IsSorted less zero xs s = tt
  take-IsSorted less (suc n) [] s = tt
  take-IsSorted less (suc n) (x ∷ xs) (t, s) =
      (All-take (λ y. less y x ≡ false) n xs t, take-IsSorted less n xs s)

  pub All-at :
      (Q : A → Type 0) (xs : List A) (h : ℕ) (y : A) → All Q xs → get_elem? xs h ≡ some y → Q y
  All-at Q [] h y qs e = absurd (none-ne-some y e)
  All-at Q (x ∷ xs) zero y (q, qs) e = subst Q (some-injective x y e) q
  All-at Q (x ∷ xs) (suc h) y (q, qs) e = All-at Q xs h y qs e

  select-swap :
      (f : A → Bool) (a b : A) (l : List A) → Permᴰ (select f (a ∷ b ∷ l)) (select f (b ∷ a ∷ l))
  unfolding select
  select-swap f a b l = elim (Bool-cases (f a)) [
    | inl p ↦ elim (Bool-cases (f b)) [
      | inl q ↦ rw p (rw q (Permᴰ.swap refl refl))
      | inr q ↦ rw p (rw q (Permᴰ.refl (a ∷ select f l)))
    ]
    | inr p ↦ rw p (Permᴰ.refl (select f (b ∷ l)))
  ]

  pub select-Permᴰ :
      (f : A → Bool) {xs ys : List A} → Permᴰ xs ys → Permᴰ (select f xs) (select f ys)
  unfolding select
  select-Permᴰ f Permᴰ.nil = Permᴰ.nil
  select-Permᴰ f (Permᴰ.cons {a} {b} {l₁} {l₂} e p) =
      subst (λ c. Permᴰ (select f (a ∷ l₁)) (select f (c ∷ l₂))) e
        (elim (Bool-cases (f a)) [
          | inl kept ↦ rw kept (Permᴰ.cons refl (select-Permᴰ f p))
          | inr left ↦ rw left (select-Permᴰ f p)
        ])
  select-Permᴰ f (Permᴰ.swap {a} {b} {a'} {b'} {l} e h) =
      subst (λ c. Permᴰ (select f (a ∷ b ∷ l)) (select f (a' ∷ c ∷ l))) e
        (subst (λ c. Permᴰ (select f (a ∷ b ∷ l)) (select f (c ∷ a ∷ l))) h (select-swap f a b l))
  select-Permᴰ f (Permᴰ.trans p q) = Permᴰ.trans (select-Permᴰ f p) (select-Permᴰ f q)

  pub any-Permᴰ : (f : A → Bool) {xs ys : List A} → Permᴰ xs ys → any f xs ≡ any f ys
  unfolding any
  any-Permᴰ f Permᴰ.nil = refl
  any-Permᴰ f (Permᴰ.cons e p) = rw e (rw (any-Permᴰ f p) refl)
  any-Permᴰ f (Permᴰ.swap {a} {b} {a'} {b'} {l} e h) = rw e (rw h (ground arith))
  any-Permᴰ f (Permᴰ.trans p q) = any-Permᴰ f p ∙ any-Permᴰ f q

  pub any-take : (f : A → Bool) (n : ℕ) (xs : List A) → any f xs ≡ false → any f (take n xs) ≡ false
  unfolding any
  any-take f zero xs h = refl
  any-take f (suc n) [] h = refl
  any-take f (suc n) (x ∷ xs) h = ground (arith, any-take f n xs)

module _ {V Sp : Type 0} where
  -- No two traces have the same id.
  abbrev pub HasDistinctIds : List (Meta V Sp) → Type 0
  HasDistinctIds [] = Unit
  HasDistinctIds (m ∷ ms) = (exists m.trace_id ms ≡ false) × HasDistinctIds ms

  -- A trace that is older than the one at the end of the first.
  pub take-push-older :
      (n : ℕ) (xs : List (Meta V Sp)) (meta o : Meta V Sp)
      → IsSorted later xs
      → get_elem? xs n ≡ some o
      → later o meta ≡ true
      → take (suc n) (push later meta xs) ≡ take (suc n) xs
  unfolding push later
  take-push-older n [] meta o s e h = absurd (none-ne-some o e)
  take-push-older zero (x ∷ xs) meta o s e h =
      rw (subst (λ y. later y meta ≡ true) (sym (some-injective x o e)) h) refl
  take-push-older (suc n) (x ∷ xs) meta o (t, s) e h =
      let front : later x meta ≡ true =
        (let f = All-at (λ y. later y x ≡ false) xs n o t e in ground arith) in
      rw front (ap (λ l. x ∷ l) (take-push-older n xs meta o s e h))

  -- One that is not takes its place.
  pub take-push-newer :
      (n : ℕ) (xs : List (Meta V Sp)) (meta o : Meta V Sp)
      → get_elem? xs n ≡ some o
      → later o meta ≡ false
      → take (suc n) (push later meta xs) ≡ push later meta (take n xs)
  unfolding push
  take-push-newer n [] meta o e h = absurd (none-ne-some o e)
  take-push-newer zero (x ∷ xs) meta o e h =
      rw (subst (λ y. later y meta ≡ false) (sym (some-injective x o e)) h) refl
  take-push-newer (suc n) (x ∷ xs) meta o e h = elim (Bool-cases (later x meta)) [
    | inl after ↦ rw after (ap (λ l. x ∷ l) (take-push-newer n xs meta o e h))
    | inr before ↦ rw before refl
  ]

  pub exists-push :
      (id : Text) (meta : Meta V Sp) (xs : List (Meta V Sp))
      → exists id xs ≡ false
      → has_id id meta ≡ false
      → exists id (push later meta xs) ≡ false
  unfolding exists push any
  exists-push id meta [] h k = rw k refl
  exists-push id meta (x ∷ xs) h k = elim (Bool-cases (later x meta)) [
    | inl after ↦ rw after (ground (arith, exists-push id meta xs))
    | inr before ↦ rw before (ground arith)
  ]

  -- The traces whose ids are not that of a trace are other ones.
  pub exists-All :
      (m : Meta V Sp) (ms : List (Meta V Sp))
      → exists m.trace_id ms ≡ false
      → All (λ k. has_id k.trace_id m ≡ false) ms
  unfolding exists any has_id
  exists-All m [] h = tt
  exists-All m (k ∷ ms) h =
      (list_eq-false k.trace_id m.trace_id (ground arith), exists-All m ms (ground arith))

  pub push-HasDistinctIds :
      (meta : Meta V Sp) (xs : List (Meta V Sp))
      → HasDistinctIds xs
      → exists meta.trace_id xs ≡ false
      → HasDistinctIds (push later meta xs)
  unfolding push exists any has_id
  push-HasDistinctIds meta [] d h = (refl, tt)
  push-HasDistinctIds meta (x ∷ xs) (d, ds) h = elim (Bool-cases (later x meta)) [
    | inl after ↦ rw after (
      exists-push x.trace_id meta xs d (list_eq-false x.trace_id meta.trace_id (ground arith)),
      push-HasDistinctIds meta xs ds (ground arith),
    )
    | inr before ↦ rw before (h, (d, ds))
  ]

  -- The last of the first traces is removed by its id.
  pub remove-take :
      (n : ℕ) (xs : List (Meta V Sp)) (o : Meta V Sp)
      → HasDistinctIds xs
      → get_elem? xs n ≡ some o
      → remove o.trace_id (take (suc n) xs) ≡ take n xs
  unfolding remove select has_id
  remove-take n [] o d e = absurd (none-ne-some o e)
  remove-take zero (x ∷ xs) o d e =
      rw
        (ap (λ y. list_eq x.trace_id y.trace_id) (sym (some-injective x o e))
          ∙ list_eq_refl x.trace_id)
        refl
  remove-take (suc n) (x ∷ xs) o (d, ds) e =
      rw (All-at (λ k. has_id k.trace_id x ≡ false) xs n o (exists-All x xs d) e)
        (ap (λ l. x ∷ l) (remove-take n xs o ds e))
