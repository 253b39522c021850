-- ===== src/Pipeline/Group.antt =====
-- traceql/ast_execute.go, GroupOperation.evaluate, with the map keys of values (traceql/ast.go,
-- Static.MapKey). The map of groups is a list in the order of the first spans; the order in which Go
-- goes through a map is a parameter, as is the hash of github.com/cespare/xxhash.
use traceql_syntax.Base.{
  ℕ, ◌/◌, ◌%◌, ◌^◌, Bool, true, false, ◌&&◌, List, [], ◌∷◌, ◌++◌, map, Text, list_eq, ◌==◌, Result,
  ok, ◌>>=◌, if◌then◌else◌,
}
use traceql_syntax.StaticType.{StaticType, type_eq}
use traceql_syntax.Static.{
  Static, static_nil, static_int, static_float, static_duration, static_status, static_kind,
  static_string, static_bool, static_int_array, static_float_array, static_string_array,
  static_boolean_array, type_of,
}
use traceql_syntax.Pipeline.Spanset.{Spanset, EvaluateErr, no_trace, add_attribute}

pub record StaticMapKey : Type 0 where
  pub typ : StaticType
  pub code : ℕ
  pub str : Text

-- Equality of keys, as the map has it.
unfoldable pub key_eq : StaticMapKey → StaticMapKey → Bool
unfolding type_eq list_eq
key_eq a b = type_eq a.typ b.typ && (a.code == b.code && list_eq a.str b.str)

-- The bytes of a word in memory, the least first.
bytes_of_word : ℕ → List ℕ
bytes_of_word n = map (λ i. n / 256 ^ i % 256) (0 ∷ 1 ∷ 2 ∷ 3 ∷ 4 ∷ 5 ∷ 6 ∷ 7 ∷ [])

bytes_of_words : List ℕ → List ℕ
unfolding bytes_of_word
bytes_of_words [] = []
bytes_of_words (n ∷ ns) = bytes_of_word n ++ bytes_of_words ns

abbrev bytes_of_bool : Bool → ℕ
bytes_of_bool true = 1
bytes_of_bool false = 0

abbrev seed_bytes : List ℕ
seed_bytes = 204 ∷ 38 ∷ 247 ∷ 160 ∷ 15 ∷ 37 ∷ 67 ∷ 77 ∷ []

bytes_of_texts : List Text → List ℕ
bytes_of_texts [] = []
bytes_of_texts (t ∷ ts) = t ++ (255 ∷ bytes_of_texts ts)

-- The hash of what is written, and nothing for an empty array.
unfoldable code_of : (List ℕ → ℕ) → List ℕ → List ℕ → ℕ
code_of sum64 seed [] = 0
code_of sum64 seed (b ∷ bs) = sum64 (seed ++ (b ∷ bs))

abbrev scalar_code : Static → ℕ
scalar_code (static_int n) = n
scalar_code (static_float f) = f
scalar_code (static_duration d) = d
scalar_code (static_status s) = s
scalar_code (static_kind k) = k
scalar_code (static_bool b) = bytes_of_bool b
scalar_code s = 0

abbrev key : StaticType → ℕ → Text → StaticMapKey
key t c s = record { typ = t; code = c; str = s }

unfoldable pub map_key : (List ℕ → ℕ) → Static → StaticMapKey
unfolding type_of code_of bytes_of_words bytes_of_texts
map_key sum64 (static_string s) = key (type_of (static_string s)) 0 s
map_key sum64 (static_int_array xs) =
    key (type_of (static_int_array xs)) (code_of sum64 [] (bytes_of_words xs)) []
map_key sum64 (static_float_array xs) =
    key (type_of (static_float_array xs)) (code_of sum64 [] (bytes_of_words xs)) []
map_key sum64 (static_boolean_array xs) =
    key (type_of (static_boolean_array xs)) (code_of sum64 [] (map bytes_of_bool xs)) []
map_key sum64 (static_string_array xs) =
    key (type_of (static_string_array xs)) (code_of sum64 seed_bytes (bytes_of_texts xs)) []
map_key sum64 s = key (type_of s) (scalar_code s) []

abbrev pub Groups : Type 0 → Type 0
Groups S = List (StaticMapKey × Spanset S)

module _ {S : Type 0} where
  -- A group that a span begins: the attributes of its spanset and the value.
  unfoldable pub new_group : Text → Spanset S → Static → S → Spanset S
  unfolding add_attribute
  new_group name spanset value s =
      record (add_attribute name value (record {
        scalar = static_nil;
        spans = [];
        trace = no_trace;
        attributes = spanset.attributes;
      })) { spans = s ∷ [] }

  unfoldable pub add_to_group : StaticMapKey → Spanset S → S → Groups S → Groups S
  unfolding key_eq
  add_to_group k fresh s [] = (k, fresh) ∷ []
  add_to_group k fresh s ((k', g) ∷ gs) =
      let rest = add_to_group k fresh s gs in
      if key_eq k' k then (k', record g { spans = g.spans ++ (s ∷ []) }) ∷ gs else (k', g) ∷ rest

  -- The loop over the spans of a spanset.
  unfoldable pub group_spans :
      (List ℕ → ℕ)
      → Text
      → (S → Result EvaluateErr Static)
      → Spanset S
      → List S
      → Groups S
      → Result EvaluateErr (Groups S)
  unfolding add_to_group map_key new_group
  group_spans sum64 name run spanset [] groups = ok groups
  group_spans sum64 name run spanset (s ∷ ss) groups = run s >>= λ v.
      group_spans sum64 name run spanset ss
        (add_to_group (map_key sum64 v) (new_group name spanset v s) s groups)

  abbrev pub groups_of : Groups S → List (Spanset S)
  groups_of [] = []
  groups_of ((k, g) ∷ gs) = g ∷ groups_of gs

  -- The groups of each spanset, in the order that the map gives them.
  unfoldable pub evaluate_group :
      (List ℕ → ℕ)
      → (List (Spanset S) → List (Spanset S))
      → Text
      → (S → Result EvaluateErr Static)
      → List (Spanset S)
      → Result EvaluateErr (List (Spanset S))
  unfolding group_spans
  evaluate_group sum64 order name run [] = ok []
  evaluate_group sum64 order name run (ss ∷ sss) =
      group_spans sum64 name run ss ss.spans [] >>= λ groups.
      evaluate_group sum64 order name run sss >>= λ rest. ok (order (groups_of groups) ++ rest)
