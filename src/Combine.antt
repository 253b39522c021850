-- ===== src/Combine.antt =====
-- traceql/combine.go: the combiners of search results. A map of traces is a list of them by their ids,
-- and the sorted slice of the most recent holds the same traces, so a trace that is combined changes
-- in both. A protobuf value and a span are parameters; lengths are those of data in memory. What
-- asTraceSearchMetadata makes of a spanset is given with the id and the start of the spanset.
pub mod Search
use traceql_syntax.Base.{
  ℕ, zero, suc, ◌+◌, ◌-◌, ◌*◌, ◌/◌, ◌==◌, max, Bool, true, false, not, ◌&&◌, ◌||◌, List, [], ◌∷◌,
  ◌++◌, any, select, Option, none, some, Text, codes, list_eq, length, get_elem?, ltb, leb,
  if◌then◌else◌,
}

pub record ServiceStats : Type 0 where
  pub span_count : ℕ
  pub error_count : ℕ

module _ (V Sp : Type 0) where
  pub record SpanSet : Type 0 where
    pub matched : ℕ
    pub attributes : List (Text × V)
    pub spans : List Sp

  pub record TraceSearchMetadata : Type 0 where
    pub trace_id : Text
    pub root_service_name : Text
    pub root_trace_name : Text
    pub start_time_unix_nano : ℕ
    pub duration_ms : ℕ
    pub service_stats : List (Text × ServiceStats)
    pub span_sets : List SpanSet
    pub span_set : Option SpanSet

-- The text, or the other one if it is empty.
unfoldable pub or_other : Text → Text → Text
or_other [] other = other
or_other (c ∷ s) other = c ∷ s

-- The larger counts of a service in both, or those that come in.
unfoldable pub merge_stats :
    Text → ServiceStats → List (Text × ServiceStats) → List (Text × ServiceStats)
unfolding list_eq
merge_stats service incoming [] = (service, incoming) ∷ []
merge_stats service incoming ((t, s) ∷ rest) =
    let later = merge_stats service incoming rest in
    if list_eq t service
    then (
      t,
      record {
        span_count = max s.span_count incoming.span_count;
        error_count = max s.error_count incoming.error_count;
      },
    )
      ∷ rest
    else (t, s) ∷ later

unfoldable pub merge_all_stats :
    List (Text × ServiceStats) → List (Text × ServiceStats) → List (Text × ServiceStats)
unfolding merge_stats
merge_all_stats [] existing = existing
merge_all_stats ((t, s) ∷ rest) existing = merge_all_stats rest (merge_stats t s existing)

-- Whether the text begins with "by".
unfoldable pub has_prefix_by : Text → Bool
has_prefix_by [] = false
has_prefix_by (c ∷ []) = false
has_prefix_by (c ∷ d ∷ s) = c == 98 && d == 121

module _ {V : Type 0} (print : V → Text) where
  unfoldable pub spanset_id : List (Text × V) → Text
  unfolding has_prefix_by
  spanset_id [] = []
  spanset_id ((k, v) ∷ rest) =
      let later = spanset_id rest in if has_prefix_by k then k ++ (print v ++ later) else later

module _ {V Sp : Type 0} where
  unfoldable pub combine_spansets : SpanSet V Sp → SpanSet V Sp → SpanSet V Sp
  combine_spansets existing incoming =
      if leb incoming.matched existing.matched then existing else record existing {
        matched = incoming.matched;
        attributes = incoming.attributes;
        spans = incoming.spans;
      }

  unfoldable pub first_spanset : List (SpanSet V Sp) → Option (SpanSet V Sp) → Option (SpanSet V Sp)
  first_spanset [] old = old
  first_spanset (ss ∷ rest) old = some ss

module _ {V Sp : Type 0} (print : V → Text) where
  abbrev id_of : SpanSet V Sp → Text
  id_of ss = spanset_id print ss.attributes

  -- The last of the spansets with the id is the one in the map.
  unfoldable pub combine_last : Text → SpanSet V Sp → List (SpanSet V Sp) → List (SpanSet V Sp)
  unfolding spanset_id combine_spansets list_eq any
  combine_last id incoming [] = []
  combine_last id incoming (ss ∷ rest) =
      let later = combine_last id incoming rest in
      if any (λ s. list_eq (id_of s) id) rest
      then ss ∷ later
      else if list_eq (id_of ss) id
      then combine_spansets ss incoming ∷ rest
      else ss ∷ rest

  -- The loop over the spansets that come in, with those of the map and those that were added.
  unfoldable pub merge_spansets :
      List (SpanSet V Sp) → List (SpanSet V Sp) → List (SpanSet V Sp) → List (SpanSet V Sp)
  unfolding combine_last spanset_id list_eq any
  merge_spansets [] existing added = existing ++ added
  merge_spansets (ss ∷ rest) existing added =
      if any (λ s. list_eq (id_of s) (id_of ss)) existing
      then merge_spansets rest (combine_last (id_of ss) ss existing) added
      else merge_spansets rest existing (added ++ (ss ∷ []))

  unfoldable pub combine_search_results :
      TraceSearchMetadata V Sp → TraceSearchMetadata V Sp → TraceSearchMetadata V Sp
  unfolding or_other merge_all_stats merge_spansets first_spanset
  combine_search_results existing incoming =
      let sets = merge_spansets incoming.span_sets existing.span_sets [] in
      record {
        trace_id = or_other existing.trace_id incoming.trace_id;
        root_service_name = or_other existing.root_service_name incoming.root_service_name;
        root_trace_name = or_other existing.root_trace_name incoming.root_trace_name;
        start_time_unix_nano =
            if ltb incoming.start_time_unix_nano existing.start_time_unix_nano
              || existing.start_time_unix_nano == 0
            then incoming.start_time_unix_nano
            else existing.start_time_unix_nano;
        duration_ms =
            if ltb existing.duration_ms incoming.duration_ms || existing.duration_ms == 0
            then incoming.duration_ms
            else existing.duration_ms;
        service_stats = merge_all_stats incoming.service_stats existing.service_stats;
        span_sets = sets;
        span_set = first_spanset sets existing.span_set;
      }
