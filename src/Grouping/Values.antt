-- ===== src/Grouping/Values.antt =====
-- The values that a span is grouped by, and the buffer that they are written to.
use mathlib.Core.Path.{subst}
use mathlib.Core.List.{append-nil, append_assoc}
use traceql_syntax.Base.{
  ℕ, zero, suc, ◌+◌, Bool, true, false, List, [], ◌∷◌, ◌++◌, map, Option, none, some, length,
  length-append, ◌≡◌, refl, sym, ap, ◌∙◌, arith, Option-cases, ◌⊎◌, inl, inr,
}
use traceql_syntax.Static.{Static}
use traceql_syntax.Attribute.{Attribute}
use traceql_syntax.Pipeline.Group.{map_key}
use traceql_syntax.Grouping.{
  Config, agg_num, arrays, FastStaticWithValues, lookup, write_lookups, get_grouping_values,
}
use traceql_syntax.Grouping.Buffer.{length-map, write_buf_lem, back, full, IsAt}

abbrev pub values_of :
    {S : Type 0} → (S → Attribute → Option Static) → List (List Attribute) → S → List Static
values_of attribute_for lookups span = map (λ ls. lookup attribute_for ls span) lookups

module _ {S : Type 0} (attribute_for : S → Attribute → Option Static) (sum64 : List ℕ → ℕ) where
  write_lookups_lem :
      (lookups : List (List Attribute)) (span : S) (front : List Static) (n m i : ℕ)
      (buf : FastStaticWithValues)
      → IsAt sum64 front m buf
      → m ≡ length lookups + n
      → i ≡ length front
      → (buf' : FastStaticWithValues) × (write_lookups attribute_for sum64 i lookups span buf
          ≡ some buf')
        × IsAt sum64 (front ++ values_of attribute_for lookups span) n buf'
  unfolding write_lookups
  write_lookups_lem [] span front n m i buf at h e =
      let all : m ≡ n = omega (arith, h) in
      (
        buf,
        refl,
        subst (λ k. IsAt sum64 (front ++ []) k buf) all
            (subst (λ l. IsAt sum64 l m buf) (sym (append-nil front)) at),
      )
  write_lookups_lem (ls ∷ lookups) span front n m i buf at h e =
      let v = lookup attribute_for ls span in
      let (mid, wrote, at') =
        write_buf_lem sum64 front (length lookups + n) i v buf
          (subst (λ k. IsAt sum64 front k buf) (omega (arith, h)) at) e in
      let (buf', wrote_all, at'') =
        write_lookups_lem lookups span (front ++ (v ∷ [])) n (length lookups + n) (i + 1) mid at'
          refl (omega (arith, e, length-append front (v ∷ []))) in
      (
        buf',
        rw (write_lookups, wrote) wrote_all,
        subst (λ l. IsAt sum64 l n buf')
            (append_assoc front (v ∷ []) (values_of attribute_for lookups span)) at'',
      )

  size-values :
      (lookups : List (List Attribute)) (span : S)
      → length (values_of attribute_for lookups span) ≡ length lookups
  size-values lookups span = length-map (λ ls. lookup attribute_for ls span) lookups

module _ (sum64 : List ℕ → ℕ) where
  pub arrays-IsAt : (n : ℕ) → IsAt sum64 [] n (arrays n)
  unfolding arrays
  arrays-IsAt zero = record {
    more_fast = [];
    more_vals = [];
    fast_at = refl;
    vals_at = refl;
    fast_left = refl;
    vals_left = refl;
  }
  arrays-IsAt (suc n) =
      let rest = arrays-IsAt n in
      record {
        more_fast = (arrays (suc n)).fast;
        more_vals = (arrays (suc n)).vals;
        fast_at = refl;
        vals_at = refl;
        fast_left = ap suc (ap length rest.fast_at ∙ rest.fast_left);
        vals_left = ap suc (ap length rest.vals_at ∙ rest.vals_left);
      }

-- The values that a span is grouped by, unless it is dropped.
abbrev pub grouped :
    {S R : Type 0} → (S → Attribute → Option Static) → Config S R → S → Option (List Static)
grouped attribute_for c span = elim c.by_func [
  | none ↦ some (values_of attribute_for c.by_lookups span)
  | some by_func ↦ elim (by_func span) [
    | none ↦ none
    | some v ↦ some (values_of attribute_for c.by_lookups span ++ (v ∷ []))
  ]
]

module _ {S R : Type 0} (attribute_for : S → Attribute → Option Static) (sum64 : List ℕ → ℕ) where
  abbrev pub Written : Config S R → S → FastStaticWithValues → Bool → Type 0
  Written c span buf kept =
      ((kept ≡ true)
        × (grouped attribute_for c span ≡ some buf.vals)
        × (buf.fast ≡ map (map_key sum64) buf.vals))
      ⊎ ((kept ≡ false) × (grouped attribute_for c span ≡ none))

  pub get_grouping_values_lem :
      (c : Config S R) (span : S) (buf : FastStaticWithValues)
      → IsAt sum64 [] (agg_num c) buf
      → (buf' : FastStaticWithValues) × (kept : Bool) × (get_grouping_values attribute_for sum64 c
            span buf
          ≡ some (buf', kept))
        × IsAt sum64 [] (agg_num c) buf'
        × Written c span buf' kept
  unfolding get_grouping_values
  get_grouping_values_lem c span buf at =
      let values = values_of attribute_for c.by_lookups span in
      let size = size-values attribute_for sum64 c.by_lookups span in
      elim (Option-cases c.by_func) [
        | inl static_only ↦
            let all : agg_num c ≡ length c.by_lookups + 0 = rw static_only refl in
            let (buf', wrote, at') =
              write_lookups_lem attribute_for sum64 c.by_lookups span [] 0 (agg_num c) 0 buf at all
                refl in
            let (vals_full, fast_full) = full sum64 values buf' at' in
            (
              buf',
              true,
              rw (get_grouping_values, wrote, static_only) refl,
              back sum64 values 0 (agg_num c) buf' at' (omega (arith, all, size)),
              inl (
                refl,
                rw static_only (ap some (sym vals_full)),
                fast_full ∙ ap (map (map_key sum64)) (sym vals_full),
              ),
            )
        | inr (f, dynamic) ↦
            let all : agg_num c ≡ length c.by_lookups + 1 = rw dynamic refl in
            let (mid, wrote, at_mid) =
              write_lookups_lem attribute_for sum64 c.by_lookups span [] 1 (agg_num c) 0 buf at all
                refl in
            elim (Option-cases (f span)) [
              | inl dropped ↦ (
                mid,
                false,
                rw (get_grouping_values, wrote, dynamic, dropped) refl,
                back sum64 values 1 (agg_num c) mid at_mid (omega (arith, all, size)),
                inr (refl, rw (dynamic, dropped) refl),
              )
              | inr (v, found) ↦
                  let (buf', wrote_last, at') =
                    write_buf_lem sum64 values 0 (length c.by_lookups) v mid at_mid (sym size) in
                  let (vals_full, fast_full) = full sum64 (values ++ (v ∷ [])) buf' at' in
                  (
                    buf',
                    true,
                    rw (get_grouping_values, wrote, dynamic, found, wrote_last) refl,
                    back sum64 (values ++ (v ∷ [])) 0 (agg_num c) buf' at'
                        (omega (arith, all, size, length-append values (v ∷ []))),
                    inl (
                      refl,
                      rw (dynamic, found) (ap some (sym vals_full)),
                      fast_full ∙ ap (map (map_key sum64)) (sym vals_full),
                    ),
                  )
            ]
      ]
