-- ===== src/Combine/Search/Position.antt =====
-- The position that the binary search finds in a slice with the latest trace first.
use traceql_syntax.Base.{
  ℕ, zero, suc, ◌+◌, ◌/◌, ◌≤◌, ◌<◌, true, false, List, [], ◌∷◌, some, length, get_elem?, leb,
  if◌then◌else◌, ◌≡◌, refl, ap, ◌⊎◌, inl, inr, arith, Bool-cases,
}
use traceql_syntax.Combine.Search.{Meta, later, search, insert_at}
use traceql_syntax.Combine.Search.Taken.{All-at}
use traceql_syntax.Series.Queue.{push, IsSorted}

module _ {V Sp : Type 0} where
  -- The number of traces at the front that started later.
  pub position : List (Meta V Sp) → Meta V Sp → ℕ
  unfolding later
  position [] meta = 0
  position (m ∷ ms) meta = let n = position ms meta in if later m meta then suc n else 0

  pub position-length : (ms : List (Meta V Sp)) (meta : Meta V Sp) → position ms meta ≤ length ms
  unfolding position
  position-length [] meta = omega arith
  position-length (m ∷ ms) meta = ground (arith, position-length ms meta)

  pub insert_at-position :
      (ms : List (Meta V Sp)) (meta : Meta V Sp)
      → insert_at (position ms meta) meta ms ≡ push later meta ms
  unfolding insert_at position push
  insert_at-position [] meta = refl
  insert_at-position (m ∷ ms) meta = elim (Bool-cases (later m meta)) [
    | inl after ↦ rw after (ap (λ l. m ∷ l) (insert_at-position ms meta))
    | inr before ↦ rw before refl
  ]

  -- What did not start later than a trace, with one behind it.
  behind : (m n meta : Meta V Sp) → later n m ≡ false → later m meta ≡ false → later n meta ≡ false
  unfolding later
  behind m n meta h k = ground arith

  -- A trace before the position started later, and no other did.
  abbrev Compared : List (Meta V Sp) → Meta V Sp → ℕ → Meta V Sp → Type 0
  Compared ms meta h y =
      ((later y meta ≡ true) × (h < position ms meta))
      ⊎ ((later y meta ≡ false) × (position ms meta ≤ h))

  compared :
      (ms : List (Meta V Sp)) (meta : Meta V Sp) (h : ℕ)
      → IsSorted later ms
      → h < length ms
      → (y : Meta V Sp) × (get_elem? ms h ≡ some y) × Compared ms meta h y
  unfolding position
  compared [] meta h s l = absurd (omega (arith, l))
  compared (m ∷ ms) meta zero s l = (
    m,
    refl,
    elim (Bool-cases (later m meta)) [
      | inl after ↦ inl (after, rw after (omega arith))
      | inr before ↦ inr (before, rw before (omega arith))
    ],
  )
  compared (m ∷ ms) meta (suc h) (t, s) l =
      let (y, e, c) = compared ms meta h s (omega arith) in
      (
        y,
        e,
        elim (Bool-cases (later m meta)) [
          | inl after ↦ elim c [
            | inl (p, q) ↦ inl (p, rw after (omega (arith, q)))
            | inr (p, q) ↦ inr (p, rw after (omega (arith, q)))
          ]
          | inr before ↦ inr (
            behind m y meta (All-at (λ n. later n m ≡ false) ms h y t e) before,
            rw before (omega arith),
          )
        ],
      )

  -- The search between two positions finds the one between them.
  pub search-position :
      (fuel : ℕ) (ms : List (Meta V Sp)) (meta : Meta V Sp) (i j : ℕ)
      → IsSorted later ms
      → i ≤ position ms meta
      → position ms meta ≤ j
      → j ≤ length ms
      → j ≤ i + fuel
      → search fuel ms meta i j ≡ some (position ms meta)
  unfolding search
  search-position zero ms meta i j s a b c d = ap some (omega arith)
  search-position (suc fuel) ms meta i j s a b c d = elim (Bool-cases (leb j i)) [
    | inl done ↦ rw done (ap some (ground arith))
    | inr more ↦
        let (y, e, side) = compared ms meta ((i + j) / 2) s (ground arith) in
        rw more (
          rw e (elim side [
            | inl (p, q) ↦ rw p (
                search-position fuel ms meta ((i + j) / 2 + 1) j s (ground arith) b c
                  (ground arith))
            | inr (p, q) ↦
                rw p
                  (search-position fuel ms meta i ((i + j) / 2) s a q (ground arith) (ground arith))
          ]))
  ]
