-- ===== src/Operator/Texts.antt =====
-- traceql/enum_operators.go: the texts of operators.
use traceql_syntax.Base.{ℕ, Text, codes, ◌++◌}
use traceql_syntax.Operator.{
  Operator, code, op_add, op_sub, op_div, op_mod, op_mult, op_equal, op_not_equal, op_regex,
  op_not_regex, op_greater, op_greater_equal, op_less, op_less_equal, op_power, op_and, op_or,
  op_not, op_spanset_child, op_spanset_parent, op_spanset_descendant, op_spanset_ancestor,
  op_spanset_and, op_spanset_union, op_spanset_sibling, op_spanset_not_child, op_spanset_not_parent,
  op_spanset_not_sibling, op_spanset_not_ancestor, op_spanset_not_descendant,
  op_spanset_union_child, op_spanset_union_parent, op_spanset_union_sibling,
  op_spanset_union_ancestor, op_spanset_union_descendant, op_in, op_not_in, op_regex_match_any,
  op_regex_match_none,
}

-- The text of an operator. `decimal` stands for the format verb of the fallback.
unfoldable pub to_string : (ℕ → Text) → Operator → Text
unfolding code
to_string decimal op_add = codes "+"
to_string decimal op_sub = codes "-"
to_string decimal op_div = codes "/"
to_string decimal op_mod = codes "%"
to_string decimal op_mult = codes "*"
to_string decimal op_equal = codes "="
to_string decimal op_not_equal = codes "!="
to_string decimal op_regex = codes "=~"
to_string decimal op_not_regex = codes "!~"
to_string decimal op_greater = codes ">"
to_string decimal op_greater_equal = codes ">="
to_string decimal op_less = codes "<"
to_string decimal op_less_equal = codes "<="
to_string decimal op_power = codes "^"
to_string decimal op_and = codes "&&"
to_string decimal op_or = codes "||"
to_string decimal op_not = codes "!"
to_string decimal op_spanset_child = codes ">"
to_string decimal op_spanset_parent = codes "<"
to_string decimal op_spanset_descendant = codes ">>"
to_string decimal op_spanset_ancestor = codes "<<"
to_string decimal op_spanset_and = codes "&&"
to_string decimal op_spanset_union = codes "||"
to_string decimal op_spanset_sibling = codes "~"
to_string decimal op_spanset_not_child = codes "!>"
to_string decimal op_spanset_not_parent = codes "!<"
to_string decimal op_spanset_not_sibling = codes "!~"
to_string decimal op_spanset_not_ancestor = codes "!<<"
to_string decimal op_spanset_not_descendant = codes "!>>"
to_string decimal op_spanset_union_child = codes "&>"
to_string decimal op_spanset_union_parent = codes "&<"
to_string decimal op_spanset_union_sibling = codes "&~"
to_string decimal op_spanset_union_ancestor = codes "&<<"
to_string decimal op_spanset_union_descendant = codes "&>>"
to_string decimal op_in = codes "IN"
to_string decimal op_not_in = codes "NOT IN"
to_string decimal op_regex_match_any = codes "MATCH ANY"
to_string decimal op_regex_match_none = codes "MATCH NONE"
to_string decimal op = codes "operator(" ++ (decimal (code op) ++ codes ")")
