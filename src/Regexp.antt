-- ===== src/Regexp.antt =====
-- internal/regexp/regexp.go: a compiled list of patterns with the memo of its answers.
pub mod Memo
use traceql_syntax.Base.{
  ℕ, Bool, true, false, ◌&&◌, List, [], ◌∷◌, Option, none, some, Text, list_eq, length, ltb, any,
  all, if◌then◌else◌,
}
use traceql_syntax.Runtime.{Runtime}
use traceql_syntax.Static.{bool_eq}

-- The map from texts to answers, the latest entry first; `none` where nothing is memoized.
pub record Regexp : Type 0 where
  pub matchers : List Text
  pub matches : Option (List (Text × Bool))
  pub should_match : Bool

abbrev pub max_memoize : ℕ
max_memoize = 1000

-- NewRegexp. `should_memoize` looks into the matchers of the library.
unfoldable pub new_regexp : Runtime → (Text → Bool) → List Text → Bool → Option Regexp
unfolding any all
new_regexp rt should_memoize regexps should_match =
    if all rt.fast_compiles regexps
    then some (record {
      matchers = regexps;
      matches = if any should_memoize regexps then some [] else none;
      should_match = should_match;
    })
    else none

-- The loop of MatchString over the matchers.
unfoldable pub matched : Runtime → Regexp → Text → Bool
unfolding any bool_eq
matched rt r s = any (λ m. bool_eq (rt.regex_match m s) r.should_match) r.matchers

unfoldable pub recall : Text → List (Text × Bool) → Option Bool
unfolding list_eq
recall s [] = none
recall s ((t, b) ∷ rest) = if list_eq s t then some b else recall s rest

-- A new answer enters the memo while there is room.
unfoldable pub remember : Text → Bool → List (Text × Bool) → List (Text × Bool)
remember s b memo = if ltb (length memo) max_memoize then (s, b) ∷ memo else memo

unfoldable pub match_memo : Runtime → Regexp → Text → List (Text × Bool) → Regexp × Bool
unfolding matched recall remember
match_memo rt r s memo = elim (recall s memo) [
  | some b ↦ (r, b)
  | none ↦ (record r { matches = some (remember s (matched rt r s) memo) }, matched rt r s)
]

unfoldable pub match_with : Runtime → Regexp → Text → Option (List (Text × Bool)) → Regexp × Bool
unfolding match_memo matched
match_with rt r s none = (r, matched rt r s)
match_with rt r s (some memo) = match_memo rt r s memo

unfoldable pub match_string : Runtime → Regexp → Text → Regexp × Bool
unfolding match_with
match_string rt r s = match_with rt r s r.matches

unfoldable pub clear_memo : Option (List (Text × Bool)) → Option (List (Text × Bool))
clear_memo none = none
clear_memo (some memo) = some []

unfoldable pub reset : Regexp → Regexp
unfolding clear_memo
reset r = record r { matches = clear_memo r.matches }
