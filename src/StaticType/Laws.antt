-- ===== src/StaticType/Laws.antt =====
-- The unrolled matching of types satisfies the equations of the source's mutual recursion.
use traceql_syntax.Base.{◌||◌, ◌≡◌, refl}
use traceql_syntax.StaticType.{
  StaticType, type_nil, matches_directly, match_element, is_matching_operand,
  is_matching_array_element,
}

matching_operand_unroll :
    (t o : StaticType)
    → is_matching_operand t o ≡ (matches_directly t o || is_matching_array_element t o)
unfolding is_matching_operand is_matching_array_element matches_directly
matching_operand_unroll type_nil type_nil = refl
matching_operand_unroll _ type_nil = refl
matching_operand_unroll _ _ = refl

matching_element_unroll :
    (t o : StaticType) → is_matching_array_element t o ≡ match_element is_matching_operand t o
unfolding is_matching_operand is_matching_array_element
matching_element_unroll type_nil type_nil = refl
matching_element_unroll _ type_nil = refl
matching_element_unroll _ _ = refl

pub matching_operand_comm : (t o : StaticType) → is_matching_operand t o ≡ is_matching_operand o t
unfolding is_matching_operand
matching_operand_comm type_nil type_nil = refl
matching_operand_comm _ type_nil = refl
matching_operand_comm _ _ = refl

-- For any two types, the unrolled functions satisfy the two equations by which the source's
-- isMatchingOperand and isMatchingArrayElement call one another, and isMatchingOperand is symmetric.
matching_recursion :
    (t o : StaticType)
    → (is_matching_operand t o ≡ (matches_directly t o || is_matching_array_element t o))
      × (is_matching_array_element t o ≡ match_element is_matching_operand t o)
      × (is_matching_operand t o ≡ is_matching_operand o t)
matching_recursion t o =
    (matching_operand_unroll t o, matching_element_unroll t o, matching_operand_comm t o)
