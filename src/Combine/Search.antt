-- ===== src/Combine/Search.antt =====
-- traceql/combine.go: the combiner that keeps any traces, and the one that keeps the most recent.
pub mod Added
pub mod Position
pub mod Taken
pub mod Recent
use traceql_syntax.Base.{
  ℕ, zero, suc, ◌+◌, ◌-◌, ◌/◌, ◌^◌, Bool, true, false, not, ◌&&◌, ◌||◌, List, [], ◌∷◌, any, select,
  Option, none, some, Text, list_eq, length, get_elem?, take, ltb, leb, ◌==◌, mul64, if◌then◌else◌,
}
use traceql_syntax.Combine.{TraceSearchMetadata, combine_search_results}

abbrev pub timestamp_never : ℕ
timestamp_never = 2 ^ 32 - 1

abbrev pub Meta : Type 0 → Type 0 → Type 0
Meta V Sp = TraceSearchMetadata V Sp

module _ (V Sp : Type 0) where
  pub record AnyCombiner : Type 0 where
    pub trs : List (Meta V Sp)
    pub limit : ℕ

  pub record MostRecentCombiner : Type 0 where
    pub trs : List (Meta V Sp)
    pub trs_sorted : List (Meta V Sp)
    pub keep_most_recent : ℕ

module _ {V Sp : Type 0} where
  unfoldable pub has_id : Text → Meta V Sp → Bool
  unfolding list_eq
  has_id id m = list_eq m.trace_id id

  -- Whether a trace with the id is in the map.
  unfoldable pub exists : Text → List (Meta V Sp) → Bool
  unfolding any has_id
  exists id ms = any (has_id id) ms

  -- delete(c.trs, id)
  unfoldable pub remove : Text → List (Meta V Sp) → List (Meta V Sp)
  unfolding has_id select
  remove id ms = select (λ m. not (has_id id m)) ms

  unfoldable pub any_is_complete : AnyCombiner V Sp → Bool
  any_is_complete c = leb c.limit (length c.trs) && ltb 0 c.limit

  unfoldable pub new_most_recent_combiner : ℕ → MostRecentCombiner V Sp
  new_most_recent_combiner limit = record { trs = []; trs_sorted = []; keep_most_recent = limit }

  unfoldable pub oldest_timestamp_nanos : List (Meta V Sp) → ℕ
  oldest_timestamp_nanos ms = elim (get_elem? ms (length ms - 1)) [
    | none ↦ 0
    | some m ↦ m.start_time_unix_nano
  ]

  -- Whether the first trace started later.
  unfoldable pub later : Meta V Sp → Meta V Sp → Bool
  later a b = ltb b.start_time_unix_nano a.start_time_unix_nano

  -- slices.BinarySearchFunc between two positions, with fuel for their distance: the first position
  -- of a trace that did not start later. `none` is an index out of range.
  unfoldable pub search : ℕ → List (Meta V Sp) → Meta V Sp → ℕ → ℕ → Option ℕ
  unfolding later
  search zero ms meta i j = some i
  search (suc fuel) ms meta i j =
      let h = (i + j) / 2 in
      let lower = search fuel ms meta i h in
      let upper = search fuel ms meta (h + 1) j in
      if leb j i
      then some i
      else elim (get_elem? ms h) [ none ↦ none | some m ↦ if later m meta then upper else lower ]

  -- slices.Insert
  unfoldable pub insert_at : ℕ → Meta V Sp → List (Meta V Sp) → List (Meta V Sp)
  insert_at zero meta ms = meta ∷ ms
  insert_at (suc i) meta [] = meta ∷ []
  insert_at (suc i) meta (m ∷ ms) = m ∷ insert_at i meta ms

  -- The end of AddMetadata.
  unfoldable pub insert_new :
      Meta V Sp → MostRecentCombiner V Sp → Option (MostRecentCombiner V Sp × Bool)
  unfolding search insert_at
  insert_new meta c =
      elim (search (length c.trs_sorted) c.trs_sorted meta 0 (length c.trs_sorted)) [
        | none ↦ none
        | some i ↦
            some (record c { trs = meta ∷ c.trs; trs_sorted = insert_at i meta c.trs_sorted }, true)
      ]

  -- The trace at the end is removed; `none` is the panic of an index out of range.
  unfoldable pub remove_oldest : MostRecentCombiner V Sp → Option (MostRecentCombiner V Sp)
  unfolding remove
  remove_oldest c = elim (get_elem? c.trs_sorted (length c.trs - 1)) [
    | none ↦ none
    | some oldest ↦ some (record c {
      trs = remove oldest.trace_id c.trs;
      trs_sorted = take (length c.trs_sorted - 1) c.trs_sorted;
    })
  ]

  unfoldable pub is_complete_for : ℕ → MostRecentCombiner V Sp → Bool
  unfolding oldest_timestamp_nanos mul64
  is_complete_for ts c =
      if ts == timestamp_never
      then false
      else if ltb (length c.trs) c.keep_most_recent
      then false
      else ltb (mul64 ts 1000000000) (oldest_timestamp_nanos c.trs_sorted)

  unfoldable pub metadata_after : ℕ → MostRecentCombiner V Sp → List (Meta V Sp)
  unfolding select mul64
  metadata_after seconds c =
      select (λ m. ltb (mul64 seconds 1000000000) m.start_time_unix_nano) c.trs_sorted

module _ {V Sp : Type 0} (print : V → Text) where
  -- The trace with the same id is combined with the one that comes in.
  unfoldable pub combine_in : Meta V Sp → List (Meta V Sp) → List (Meta V Sp)
  unfolding combine_search_results has_id
  combine_in meta [] = []
  combine_in meta (m ∷ ms) =
      let rest = combine_in meta ms in
      if has_id meta.trace_id m then combine_search_results print m meta ∷ ms else m ∷ rest

  unfoldable pub any_add_metadata : Meta V Sp → AnyCombiner V Sp → AnyCombiner V Sp × Bool
  unfolding exists combine_in any_is_complete
  any_add_metadata meta c =
      if exists meta.trace_id c.trs
      then (record c { trs = combine_in meta c.trs }, true)
      else if any_is_complete c
      then (c, false)
      else (record c { trs = meta ∷ c.trs }, true)

  unfoldable pub any_add_spanset : Text → Meta V Sp → AnyCombiner V Sp → AnyCombiner V Sp
  unfolding exists any_is_complete any_add_metadata
  any_add_spanset id meta c =
      if exists id c.trs
      then (any_add_metadata meta c).0
      else if any_is_complete c
      then c
      else (any_add_metadata meta c).0

  unfoldable pub add_metadata :
      Meta V Sp → MostRecentCombiner V Sp → Option (MostRecentCombiner V Sp × Bool)
  unfolding exists combine_in oldest_timestamp_nanos remove_oldest insert_new
  add_metadata meta c =
      if exists meta.trace_id c.trs
      then some (
        record c { trs = combine_in meta c.trs; trs_sorted = combine_in meta c.trs_sorted },
        true,
      )
      else if length c.trs == c.keep_most_recent && ltb 0 c.keep_most_recent
      then (if ltb meta.start_time_unix_nano (oldest_timestamp_nanos c.trs_sorted)
          then some (c, false)
          else elim (remove_oldest c) [ none ↦ none | some c' ↦ insert_new meta c' ])
      else insert_new meta c

  -- The spanset has the id and the start time.
  unfoldable pub recent_add_spanset :
      Text → ℕ → Meta V Sp → MostRecentCombiner V Sp → Option (MostRecentCombiner V Sp)
  unfolding add_metadata exists oldest_timestamp_nanos
  recent_add_spanset id start meta c =
      let added : Option (MostRecentCombiner V Sp) = elim (add_metadata meta c) [
        | none ↦ none
        | some (d, b) ↦ some d
      ] in
      if c.keep_most_recent == 0 || ltb (length c.trs) c.keep_most_recent
      then added
      else if exists id c.trs
      then added
      else if leb (oldest_timestamp_nanos c.trs_sorted) start
      then added
      else some c
