-- ===== src/Pipeline/Unique.antt =====
-- The union of two sides of a spanset operation.
use traceql_syntax.Base.{
  Bool, true, false, ◌||◌, List, [], ◌∷◌, ◌++◌, any, All, any-append, ltb, ◌≡◌, ◌↔◌, refl, sym, ap,
  ◌∙◌, Bool-cases, inl, inr, arith, absurd_test,
}
use traceql_syntax.Pipeline.Spanset.{Spanset, all_spans, count_spans, unseen, unique_spans}

module _ {S : Type 0} (same : S → S → Bool) where
  -- No span is there twice.
  abbrev pub IsUnique : List S → Type 0
  IsUnique [] = Unit
  IsUnique (s ∷ ss) = (any (same s) ss ≡ false) × IsUnique ss

  -- Equality of spans says whether they are equal.
  abbrev pub Decides : Type 0
  Decides = (s t : S) → (same s t ≡ true) ↔ (s ≡ t)

  module _ (decides : Decides) where
    any_same : (s t : S) (xs : List S) → same s t ≡ true → any (same s) xs ≡ any (same t) xs
    any_same s t xs h = ap (λ u. any (same u) xs) ((decides s t).0 h)

    any-unseen :
        (s : S) (seen xs : List S)
        → (any (same s) seen || any (same s) (unseen same seen xs))
          ≡ (any (same s) seen || any (same s) xs)
    unfolding unseen any
    any-unseen s seen [] = refl
    any-unseen s seen (x ∷ xs) = elim (Bool-cases (any (same x) seen)) [
      | inl old ↦ rw old (elim (Bool-cases (same s x)) [
        | inl e ↦
            let f : any (same s) seen ≡ true = any_same s x seen e ∙ old in ground (arith, e, f)
        | inr e ↦ ground (arith, e, any-unseen s seen xs)
      ])
      | inr new ↦ rw new (ground (arith, any-unseen s seen xs))
    ]

    -- What is left of the larger side has no span twice, and none of the smaller side.
    unseen-subset :
        (s : S) (seen xs : List S)
        → any (same s) xs ≡ false
        → any (same s) (unseen same seen xs) ≡ false
    unfolding unseen any
    unseen-subset s seen [] h = refl
    unseen-subset s seen (x ∷ xs) h =
        let ih : any (same s) xs ≡ false → any (same s) (unseen same seen xs) ≡ false =
          unseen-subset s seen xs in
        elim (Bool-cases (any (same x) seen)) [
          | inl old ↦ rw old (ih (ground (arith, h)))
          | inr new ↦ rw new (ground (arith, h, ih (ground (arith, h))))
        ]

    unseen-fresh :
        (s : S) (seen xs : List S)
        → any (same s) seen ≡ true
        → any (same s) (unseen same seen xs) ≡ false
    unfolding unseen any
    unseen-fresh s seen [] h = refl
    unseen-fresh s seen (x ∷ xs) h = elim (Bool-cases (any (same x) seen)) [
      | inl old ↦ rw old (unseen-fresh s seen xs h)
      | inr new ↦ rw new (elim (Bool-cases (same s x)) [
        | inl e ↦ absurd_test (sym h ∙ (any_same s x seen e ∙ new))
        | inr e ↦ ground (arith, e, unseen-fresh s seen xs h)
      ])
    ]

    unseen-IsUnique : (seen xs : List S) → IsUnique xs → IsUnique (unseen same seen xs)
    unfolding unseen
    unseen-IsUnique seen [] h = tt
    unseen-IsUnique seen (x ∷ xs) h = elim (Bool-cases (any (same x) seen)) [
      | inl old ↦ rw old (unseen-IsUnique seen xs h.1)
      | inr new ↦ rw new (unseen-subset x seen xs h.0, unseen-IsUnique seen xs h.1)
    ]

    members : (P : S → Type 0) (xs : List S) → ((s : S) → any (same s) xs ≡ true → P s) → All P xs
    unfolding any
    members P [] h = tt
    members P (x ∷ xs) h =
        let self : same x x ≡ true = (decides x x).1 refl in
        (h x (ground (arith, self)), members P xs (λ s k. h s (ground (arith, k))))

    append-IsUnique :
        (xs ys : List S)
        → IsUnique xs
        → IsUnique ys
        → All (λ s. any (same s) ys ≡ false) xs
        → IsUnique (xs ++ ys)
    append-IsUnique [] ys h k apart = k
    append-IsUnique (x ∷ xs) ys h k apart = (
      any-append (same x) xs ys ∙ ground (arith, h.0, apart.0),
      append-IsUnique xs ys h.1 k apart.1,
    )

    union-IsUnique :
        (xs ys : List S) → IsUnique xs → IsUnique ys → IsUnique (xs ++ unseen same xs ys)
    union-IsUnique xs ys h k =
        append-IsUnique xs (unseen same xs ys) h (unseen-IsUnique xs ys k) (
          members (λ s. any (same s) (unseen same xs ys) ≡ false) xs
            (λ s e. unseen-fresh s xs ys e))

    union_lem :
        (xs ys : List S) (s : S)
        → any (same s) (xs ++ unseen same xs ys) ≡ (any (same s) xs || any (same s) ys)
    union_lem xs ys s = any-append (same s) xs (unseen same xs ys) ∙ any-unseen s xs ys

-- Where the equality of spans says whether they are equal: a span is among the unique spans of two
-- sides exactly if it is among the spans of either; and where no side has a span twice, they have
-- no span twice.
pub unique_spans-Union :
    {S : Type 0} (same : S → S → Bool)
    → Decides same
    → (ss1 ss2 : List (Spanset S))
    → ((s : S)
        → any (same s) (unique_spans same ss1 ss2)
          ≡ (any (same s) (all_spans ss1) || any (same s) (all_spans ss2)))
      × (IsUnique same (all_spans ss1)
          → IsUnique same (all_spans ss2)
          → IsUnique same (unique_spans same ss1 ss2))
unfolding unique_spans
unique_spans-Union same decides ss1 ss2 =
    elim (Bool-cases (ltb (count_spans ss1) (count_spans ss2))) [
      | inl fewer ↦ rw fewer (
        union_lem same decides (all_spans ss1) (all_spans ss2),
        union-IsUnique same decides (all_spans ss1) (all_spans ss2),
      )
      | inr more ↦ rw more (
        λ s. union_lem same decides (all_spans ss2) (all_spans ss1) s ∙ ground arith,
        λ h k. union-IsUnique same decides (all_spans ss2) (all_spans ss1) k h,
      )
    ]
