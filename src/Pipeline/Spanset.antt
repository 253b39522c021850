-- ===== src/Pipeline/Spanset.antt =====
-- traceql/storage.go and traceql/ast_execute.go: spansets, and the helpers that evaluation has for
-- them. The spans are of any type, with the methods of the interface Span as parameters.
use traceql_syntax.Base.{
  ℕ, Bool, List, [], ◌∷◌, ◌++◌, any, length, Text, ltb, Result, ok, err, if◌then◌else◌,
}
use traceql_syntax.Static.{Static, static_nil}
use traceql_syntax.Execute.Values.{Err}
use traceql_syntax.Operator.{Operator}

-- What evaluation copies and does not read. The service stats and the release function are left out.
pub record TraceInfo : Type 0 where
  pub trace_id : Text
  pub root_span_name : Text
  pub root_service_name : Text
  pub start_time_unix_nanos : ℕ
  pub duration_nanos : ℕ

abbrev pub no_trace : TraceInfo
no_trace = record {
  trace_id = [];
  root_span_name = [];
  root_service_name = [];
  start_time_unix_nanos = 0;
  duration_nanos = 0;
}

-- A spanset attribute is a name and a value.
pub record Spanset (S : Type 0) : Type 0 where
  pub scalar : Static
  pub spans : List S
  pub trace : TraceInfo
  pub attributes : List (Text × Static)

-- Of the interface Span: equality of its values, and the relations, whose last argument is the
-- buffer. A relation is asked of the first span on the right.
pub record SpanMethods (S : Type 0) : Type 0 where
  pub same : S → S → Bool
  pub sibling_of : S → List S → List S → Bool → Bool → List S → List S
  pub descendant_of : S → List S → List S → Bool → Bool → Bool → List S → List S
  pub child_of : S → List S → List S → Bool → Bool → Bool → List S → List S

-- The errors of an evaluation; `nil_expression` is the panic of an aggregate other than count()
-- without a field expression.
pub data EvaluateErr : Type 0 where
  failed : Err → EvaluateErr
  spanset_operation_multiple scalar_filter_not_supported nil_expression : EvaluateErr
  spanset_operation_not_supported scalar_filter_failed : Operator → EvaluateErr

module _ {S : Type 0} where
  unfoldable pub add_attribute : Text → Static → Spanset S → Spanset S
  add_attribute key value ss = record ss { attributes = ss.attributes ++ ((key, value) ∷ []) }

  -- The spans of all spansets.
  unfoldable pub all_spans : List (Spanset S) → List S
  all_spans [] = []
  all_spans (ss ∷ sss) = ss.spans ++ all_spans sss

  -- The lengths that uniqueSpans adds up.
  unfoldable pub count_spans : List (Spanset S) → ℕ
  unfolding all_spans
  count_spans sss = length (all_spans sss)

  unfoldable pub unseen : (S → S → Bool) → List S → List S → List S
  unfolding any
  unseen same seen [] = []
  unseen same seen (s ∷ ss) =
      let rest = unseen same seen ss in if any (same s) seen then rest else s ∷ rest

  -- The spans of the smaller side, then those of the larger side that are not among them.
  unfoldable pub unique_spans : (S → S → Bool) → List (Spanset S) → List (Spanset S) → List S
  unfolding count_spans all_spans unseen
  unique_spans same ss1 ss2 =
      if ltb (count_spans ss1) (count_spans ss2)
      then all_spans ss1 ++ unseen same (all_spans ss1) (all_spans ss2)
      else all_spans ss2 ++ unseen same (all_spans ss2) (all_spans ss1)

  unfoldable pub add_spanset : Spanset S → List S → List (Spanset S) → List (Spanset S)
  add_spanset input [] output = output
  add_spanset input (s ∷ ss) output = output ++ (record input { spans = s ∷ ss } ∷ [])

  -- Only one spanset is taken on each side, and none on the left counts as one without spans.
  unfoldable pub join_spansets :
      List (Spanset S)
      → List (Spanset S)
      → (S → List S → List S → List S)
      → Result EvaluateErr (List S)
  join_spansets lhs [] eval = ok []
  join_spansets lhs (r ∷ r' ∷ rs) eval = err spanset_operation_multiple
  join_spansets (l ∷ l' ∷ ls) (r ∷ []) eval = err spanset_operation_multiple
  join_spansets [] (r ∷ []) eval = elim r.spans [ [] ↦ ok [] | s ∷ ss ↦ ok (eval s [] (s ∷ ss)) ]
  join_spansets (l ∷ []) (r ∷ []) eval = elim r.spans [
    | [] ↦ ok []
    | s ∷ ss ↦ ok (eval s l.spans (s ∷ ss))
  ]

  -- The only spanset that coalesce() leaves.
  unfoldable pub evaluate_coalesce : List (Spanset S) → List (Spanset S)
  unfolding all_spans
  evaluate_coalesce sss =
      record { scalar = static_nil; spans = all_spans sss; trace = no_trace; attributes = [] } ∷ []
