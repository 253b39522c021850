-- ===== src/Combine/Search/Recent.antt =====
-- The traces that the combiner of the most recent is left with.
use mathlib.Core.Path.{subst}
use mathlib.Core.List.{Permᴰ, append-nil}
use traceql_syntax.Base.{
  ℕ, zero, suc, ◌<◌, false, List, [], ◌∷◌, Option, none, some, Text, take, All, ◌≡◌, refl, arith,
  any,
}
use traceql_syntax.Combine.Search.{
  Meta, MostRecentCombiner, new_most_recent_combiner, has_id, exists, later, add_metadata,
}
use traceql_syntax.Combine.Search.Added.{Holds, added, later-IsWeakOrder, All-traces}
use traceql_syntax.Combine.Search.Taken.{
  HasDistinctIds, exists-push, exists-All, push-HasDistinctIds,
}
use traceql_syntax.Series.Queue.{push, push_all, IsSorted, push-IsSorted, push_all-IsSorted}
use traceql_syntax.Series.Greatest.{push_all-Permᴰ}

-- Traces given to the combiner one after the other.
abbrev pub add_all :
    {V Sp : Type 0}
    → (V → Text)
    → List (Meta V Sp)
    → MostRecentCombiner V Sp
    → Option (MostRecentCombiner V Sp)
add_all print [] c = some c
add_all print (m ∷ ms) c = elim (add_metadata print m c) [
  | none ↦ none
  | some (c', b) ↦ add_all print ms c'
]

-- The slice of the combiner is the front of the traces in order, the latest first and as many as
-- the limit at most, and its map has the same traces.
pub record KeepsMostRecent {V Sp : Type 0} (limit : ℕ) (metas : List (Meta V Sp))
    (c : MostRecentCombiner V Sp) : Type 0 where
  pub in_order : List (Meta V Sp)
  pub all_of : Permᴰ in_order metas
  pub latest_first : IsSorted later in_order
  pub slice : c.trs_sorted ≡ take limit in_order
  pub same : Permᴰ c.trs c.trs_sorted

module _ {V Sp : Type 0} (print : V → Text) (n : ℕ) where
  fresh-push :
      (meta : Meta V Sp) (xs ms : List (Meta V Sp))
      → All (λ k. exists k.trace_id xs ≡ false) ms
      → All (λ k. has_id k.trace_id meta ≡ false) ms
      → All (λ k. exists k.trace_id (push later meta xs) ≡ false) ms
  fresh-push meta xs [] hs ks = tt
  fresh-push meta xs (m ∷ ms) (h, hs) (k, ks) =
      (exists-push m.trace_id meta xs h k, fresh-push meta xs ms hs ks)

  add_all-Holds :
      (ms xs : List (Meta V Sp)) (c : MostRecentCombiner V Sp)
      → Holds (suc n) xs c
      → IsSorted later xs
      → HasDistinctIds xs
      → HasDistinctIds ms
      → All (λ k. exists k.trace_id xs ≡ false) ms
      → (c' : MostRecentCombiner V Sp) × (add_all print ms c ≡ some c')
        × Holds (suc n) (push_all later ms xs) c'
  unfolding push_all
  add_all-Holds [] xs c h s d ds fs = (c, refl, h)
  add_all-Holds (m ∷ ms) xs c h s d (e, ds) (f, fs) =
      let (c', b, ran, h') = added print n xs m c h s d f in
      let (r, ran_all, all) =
        add_all-Holds ms (push later m xs) c' h'
          (push-IsSorted later later-IsWeakOrder m xs tt (All-traces xs) s)
          (push-HasDistinctIds m xs d f) ds (fresh-push m xs ms fs (exists-All m ms e)) in
      (r, rw (add_all, ran) ran_all, all)

none_before :
    {V Sp : Type 0} (ms : List (Meta V Sp))
    → All (λ k. exists {V = V} {Sp = Sp} k.trace_id [] ≡ false) ms
unfolding exists any
none_before [] = tt
none_before (m ∷ ms) = (refl, none_before ms)

-- For a limit above 0, traces with different ids are added to a new combiner without a panic. Its
-- slice is then the front of the traces in order, the latest first and as many as the limit at most,
-- and its map has the same traces.
pub add_all-KeepsMostRecent :
    {V Sp : Type 0} (print : V → Text) (limit : ℕ) (metas : List (Meta V Sp))
    → 0 < limit
    → HasDistinctIds metas
    → (c : MostRecentCombiner V Sp) × (add_all print metas (new_most_recent_combiner limit)
        ≡ some c)
      × KeepsMostRecent limit metas c
unfolding new_most_recent_combiner
add_all-KeepsMostRecent print zero metas positive d = absurd (omega (arith, positive))
add_all-KeepsMostRecent print (suc n) metas positive d =
    let start : Holds (suc n) [] (new_most_recent_combiner (suc n)) = record {
      limit_of = refl;
      sorted = refl;
      same = Permᴰ.nil;
    } in
    let (c, ran, h) =
      add_all-Holds print n metas [] (new_most_recent_combiner (suc n)) start tt tt d
        (none_before metas) in
    (
      c,
      ran,
      record {
        in_order = push_all later metas [];
        all_of =
            subst (λ l. Permᴰ (push_all later metas []) l) (append-nil metas)
              (push_all-Permᴰ later metas []);
        latest_first = push_all-IsSorted later later-IsWeakOrder metas [] (All-traces metas) tt tt;
        slice = h.sorted;
        same = h.same;
      },
    )
