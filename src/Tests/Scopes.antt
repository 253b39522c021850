-- ===== src/Tests/Scopes.antt =====
-- The theorem on the collector with scopes at a concrete input, and runs of it.
use traceql_syntax.Base.{true, false, [], List, ◌∷◌, some, codes, ◌≡◌, refl, arith}
use traceql_syntax.Collector.Scoped.{
  new_scoped_distinct_string_with_diff, collect_in_scope, scoped_diff, intrinsic_scope,
}
use traceql_syntax.Collector.Scopes.{CollectedInScope, collect_in_scope-Collected, new-IsWellScoped}
use traceql_syntax.Collector.{new_collector}
use traceql_syntax.Collector.Distinct.{new_distinct_value}
use traceql_syntax.Collector.Agrees.{
  Call, collecting, diffing, exceeded, differs, answers, string_step, value_step, new-Agrees,
}

collect_in_scope-Collected_example :
    CollectedInScope
      (codes "span")
      (codes "foo")
      (new_scoped_distinct_string_with_diff 10 2 0)
      (collect_in_scope (codes "span") (codes "foo") (new_scoped_distinct_string_with_diff 10 2 0))
collect_in_scope-Collected_example =
    collect_in_scope-Collected (codes "span") (codes "foo")
      (new_scoped_distinct_string_with_diff 10 2 0) (new-IsWellScoped 10 2 0 (omega arith)).1

diff_of_scopes :
    (scoped_diff
      (collect_in_scope intrinsic_scope
        (codes "name")
        (collect_in_scope
          (codes "span")
          (codes "foo")
          (new_scoped_distinct_string_with_diff 10 2 0)).0).0).1
    ≡ some ((codes "span", codes "foo" ∷ []) ∷ (intrinsic_scope, codes "name" ∷ []) ∷ [])
unfolding scoped_diff collect_in_scope
diff_of_scopes = refl

too_much :
    (collect_in_scope (codes "span") (codes "foo") (new_scoped_distinct_string_with_diff 2 0 0)).1
    ≡ true
unfolding collect_in_scope
too_much = refl

abbrev some_calls : List Call
some_calls =
    collecting (codes "b")
    ∷ collecting (codes "b")
    ∷ collecting (codes "a")
    ∷ diffing
    ∷ collecting (codes "c")
    ∷ collecting (codes "c")
    ∷ collecting (codes "c")
    ∷ diffing
    ∷ []

-- After one hit of a string that is there, the next call is refused, and so are all later ones.
answers-some :
    answers string_step some_calls (new_collector true 0 0 1)
    ≡ exceeded false
      ∷ exceeded false
      ∷ exceeded true
      ∷ differs (some (codes "b" ∷ []))
      ∷ exceeded true
      ∷ exceeded true
      ∷ exceeded true
      ∷ differs (some [])
      ∷ []
unfolding answers string_step
answers-some = refl

new-Agrees_example :
    answers value_step some_calls (new_distinct_value true 10 2 2)
    ≡ answers string_step some_calls (new_collector true 10 2 2)
new-Agrees_example = new-Agrees true 10 2 2 some_calls
