-- ===== src/Combine/Search/Added.antt =====
-- A new trace in the combiner of the most recent.
use mathlib.Core.Path.{subst}
use mathlib.Core.List.Permᴰ
use mathlib.Core.List.{Permᴰ}
use traceql_syntax.Base.{
  ℕ, suc, ◌-◌, ◌≤◌, ◌<◌, Bool, true, false, ◌&&◌, List, [], ◌∷◌, some, Text, length, get_elem?,
  take, All, ltb, leb, ◌==◌, ◌≡◌, refl, sym, ap, ◌∙◌, inl, inr, arith, Bool-cases,
}
use traceql_syntax.Combine.Search.{
  Meta, MostRecentCombiner, exists, remove, oldest_timestamp_nanos, later, insert_new,
  remove_oldest, add_metadata,
}
use traceql_syntax.Combine.Search.Position.{position-length, insert_at-position, search-position}
use traceql_syntax.Combine.Search.Taken.{
  take-all, take-take, get_elem?-take, length-take, get_elem?-some, take-IsSorted, select-Permᴰ,
  any-Permᴰ, any-take, HasDistinctIds, take-push-older, take-push-newer, remove-take,
}
use traceql_syntax.Series.Queue.{push, IsSorted, IsWeakOrder, length-push}
use traceql_syntax.Series.Greatest.{push-Permᴰ, length-Permᴰ}

-- The traces of the combiner are the first of the sorted list, in the map as in the slice.
pub record Holds {V Sp : Type 0} (limit : ℕ) (xs : List (Meta V Sp)) (c : MostRecentCombiner V Sp)
    : Type 0 where
  pub limit_of : c.keep_most_recent ≡ limit
  pub sorted : c.trs_sorted ≡ take limit xs
  pub same : Permᴰ c.trs c.trs_sorted

module _ {V Sp : Type 0} where
  insert_new_lem :
      (meta : Meta V Sp) (c : MostRecentCombiner V Sp)
      → IsSorted later c.trs_sorted
      → insert_new meta c
        ≡ some (record c { trs = meta ∷ c.trs; trs_sorted = push later meta c.trs_sorted }, true)
  unfolding insert_new
  insert_new_lem meta c s =
      let found =
        search-position (length c.trs_sorted) c.trs_sorted meta 0 (length c.trs_sorted) s
          (omega arith) (position-length c.trs_sorted meta) (omega arith) (omega arith) in
      rw (insert_new, found) (rw (insert_at-position c.trs_sorted meta) refl)

  pub later-IsWeakOrder : IsWeakOrder {A = Meta V Sp} (λ m. Unit) later
  unfolding later
  later-IsWeakOrder = record {
    asym = λ a b p q h. ground arith;
    between = λ a b c p q r h. ground arith;
  }

  pub All-traces : (ms : List (Meta V Sp)) → All {0, 0} (λ m. Unit) ms
  All-traces [] = tt
  All-traces (m ∷ ms) = (tt, All-traces ms)

  oldest_lem :
      (n : ℕ) (ms : List (Meta V Sp)) (o : Meta V Sp)
      → length ms ≡ suc n
      → get_elem? ms n ≡ some o
      → oldest_timestamp_nanos ms ≡ o.start_time_unix_nano
  unfolding oldest_timestamp_nanos
  oldest_lem n ms o size e =
      let at_end : length ms - 1 ≡ n = omega (arith, size) in
      rw (oldest_timestamp_nanos, at_end, e) refl

  remove_oldest_lem :
      (n : ℕ) (c : MostRecentCombiner V Sp) (o : Meta V Sp)
      → length c.trs ≡ suc n
      → length c.trs_sorted ≡ suc n
      → get_elem? c.trs_sorted n ≡ some o
      → remove_oldest c
        ≡ some (record c { trs = remove o.trace_id c.trs; trs_sorted = take n c.trs_sorted })
  unfolding remove_oldest
  remove_oldest_lem n c o size size_sorted e =
      let at_end : length c.trs - 1 ≡ n = omega (arith, size) in
      let at_end_sorted : length c.trs_sorted - 1 ≡ n = omega (arith, size_sorted) in
      rw (remove_oldest, at_end, e, at_end_sorted) refl

  push-same :
      (meta : Meta V Sp) {trs sorted : List (Meta V Sp)}
      → Permᴰ trs sorted
      → Permᴰ (meta ∷ trs) (push later meta sorted)
  push-same meta {sorted} p =
      Permᴰ.trans (Permᴰ.cons refl p) (Permᴰ.symm (push-Permᴰ later meta sorted))

  remove-Permᴰ :
      (id : Text) {trs sorted : List (Meta V Sp)}
      → Permᴰ trs sorted
      → Permᴰ (remove id trs) (remove id sorted)
  unfolding remove
  remove-Permᴰ id p = select-Permᴰ _ p

  exists-Holds :
      (id : Text) (limit : ℕ) (xs : List (Meta V Sp)) (c : MostRecentCombiner V Sp)
      → Holds limit xs c
      → exists id xs ≡ false
      → exists id c.trs ≡ false
  unfolding exists
  exists-Holds id limit xs c h fresh =
      any-Permᴰ _ h.same ∙ (rw h.sorted (any-take _ limit xs fresh))

module _ {V Sp : Type 0} (print : V → Text) (n : ℕ) (xs : List (Meta V Sp)) (meta : Meta V Sp)
    (c : MostRecentCombiner V Sp) (h : Holds (suc n) xs c) (s : IsSorted later xs)
    (d : HasDistinctIds xs) (fresh : exists meta.trace_id xs ≡ false) where
  abbrev pub Added : Type 0
  Added =
      (c' : MostRecentCombiner V Sp) × (b : Bool) × (add_metadata print meta c ≡ some (c', b))
      × Holds (suc n) (push later meta xs) c'

  IsSorted-IsSorted : IsSorted later c.trs_sorted
  IsSorted-IsSorted = subst (IsSorted later) (sym h.sorted) (take-IsSorted later (suc n) xs s)

  new_trace : exists meta.trace_id c.trs ≡ false
  new_trace = exists-Holds meta.trace_id (suc n) xs c h fresh

  -- There is room for another trace.
  added-room : length xs ≤ n → Added
  unfolding add_metadata
  added-room room =
      let all : take (suc n) xs ≡ xs = take-all (suc n) xs (omega (arith, room)) in
      let size : length c.trs ≡ length xs =
        length-Permᴰ later h.same ∙ ap length (h.sorted ∙ all) in
      let test : (length c.trs == c.keep_most_recent && ltb 0 c.keep_most_recent) ≡ false =
        ground (arith, size, h.limit_of) in
      (
        record c { trs = meta ∷ c.trs; trs_sorted = push later meta c.trs_sorted },
        true,
        rw (add_metadata, new_trace, test) (insert_new_lem meta c IsSorted-IsSorted),
        record {
          limit_of = h.limit_of;
          sorted =
              ap (push later meta) (h.sorted ∙ all)
              ∙ sym (
                  take-all (suc n) (push later meta xs)
                    (ground (arith, length-push later later-IsWeakOrder meta xs)));
          same = push-same meta h.same;
        },
      )

  -- The oldest trace makes room, if there is a newer one.
  added-full : n < length xs → Added
  unfolding later add_metadata
  added-full full =
      let (o, at) = get_elem?-some n xs full in
      let size_sorted : length c.trs_sorted ≡ suc n = ap length h.sorted ∙ length-take n xs full in
      let size : length c.trs ≡ suc n = length-Permᴰ later h.same ∙ size_sorted in
      let last : get_elem? c.trs_sorted n ≡ some o = rw h.sorted (get_elem?-take n xs ∙ at) in
      let test : (length c.trs == c.keep_most_recent && ltb 0 c.keep_most_recent) ≡ true =
        ground (arith, size, h.limit_of) in
      let oldest : ltb meta.start_time_unix_nano (oldest_timestamp_nanos c.trs_sorted)
          ≡ later o meta =
        ap (ltb meta.start_time_unix_nano) (oldest_lem n c.trs_sorted o size_sorted last) in
      let removed = remove_oldest_lem n c o size size_sorted last in
      let front : take n c.trs_sorted ≡ take n xs = ap (take n) h.sorted ∙ take-take n xs in
      elim (Bool-cases (later o meta)) [
        | inl older ↦ (
          c,
          false,
          rw (add_metadata, new_trace, test, oldest, older) refl,
          record {
            limit_of = h.limit_of;
            sorted = h.sorted ∙ sym (take-push-older n xs meta o s at older);
            same = h.same;
          },
        )
        | inr newer ↦ (
          record c {
            trs = meta ∷ remove o.trace_id c.trs;
            trs_sorted = push later meta (take n c.trs_sorted);
          },
          true,
          rw (add_metadata, new_trace, test, oldest, newer, removed)
              (insert_new_lem meta
                (record c { trs = remove o.trace_id c.trs; trs_sorted = take n c.trs_sorted })
                (take-IsSorted later n c.trs_sorted IsSorted-IsSorted)),
          record {
            limit_of = h.limit_of;
            sorted = ap (push later meta) front ∙ sym (take-push-newer n xs meta o at newer);
            same = push-same meta (
                subst (λ l. Permᴰ (remove o.trace_id c.trs) l)
                  (rw h.sorted (remove-take n xs o d at) ∙ sym front)
                  (remove-Permᴰ o.trace_id h.same));
          },
        )
      ]

  pub added : Added
  added = elim (Bool-cases (leb (length xs) n)) [
    | inl room ↦ added-room (ground (arith, room))
    | inr full ↦ added-full (ground (arith, full))
  ]
