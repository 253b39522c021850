-- ===== src/Regexp/Memo.antt =====
-- The memo of a regular expression never changes an answer.
use traceql_syntax.Base.{
  Bool, true, false, List, [], ◌∷◌, Option, none, some, Text, any, all, list_eq, list_eq_sound,
  length, arith, ◌≡◌, refl, ◌≤◌, inl, inr, Bool-cases, Option-cases, if◌then◌else◌,
}
use mathlib.Core.Path.{subst}
use traceql_syntax.Runtime.{Runtime}
use traceql_syntax.Regexp.{
  Regexp, max_memoize, matched, recall, remember, match_memo, match_with, clear_memo, match_string,
  reset, new_regexp,
}

-- Every memoized answer is the matchers' own.
abbrev pub Recalls : Runtime → Regexp → List (Text × Bool) → Type 0
Recalls rt r [] = Unit
Recalls rt r ((s, b) ∷ rest) = (b ≡ matched rt r s) × Recalls rt r rest

abbrev pub MemoOk : Runtime → Regexp → Option (List (Text × Bool)) → Type 0
MemoOk rt r none = Unit
MemoOk rt r (some memo) = Recalls rt r memo × (length memo ≤ max_memoize)

-- A memo that holds right answers only, and not too many.
abbrev pub IsSound : Runtime → Regexp → Type 0
IsSound rt r = MemoOk rt r r.matches

recall_right :
    (rt : Runtime) (r : Regexp) (s : Text) (memo : List (Text × Bool)) {b : Bool}
    → Recalls rt r memo
    → recall s memo ≡ some b
    → b ≡ matched rt r s
unfolding recall
recall_right rt r s [] h e = ground arith
recall_right rt r s ((t, c) ∷ rest) h e = elim (Bool-cases (list_eq s t)) [
  | inl same ↦ ground (arith, list_eq_sound s t same)
  | inr other ↦ recall_right rt r s rest h.1 (ground arith)
]

matched_keeps :
    (rt : Runtime) (r : Regexp) (m : Option (List (Text × Bool))) (s : Text)
    → matched rt (record r { matches = m }) s ≡ matched rt r s
unfolding matched
matched_keeps rt r m s = refl

Recalls-keeps :
    (rt : Runtime) (r : Regexp) (m : Option (List (Text × Bool))) (memo : List (Text × Bool))
    → Recalls rt r memo
    → Recalls rt (record r { matches = m }) memo
unfolding matched
Recalls-keeps rt r m [] h = tt
Recalls-keeps rt r m ((s, b) ∷ rest) h = (h.0, Recalls-keeps rt r m rest h.1)

remember_keeps :
    (rt : Runtime) (r : Regexp) (s : Text) (memo : List (Text × Bool))
    → Recalls rt r memo
    → length memo ≤ max_memoize
    → Recalls rt r (remember s (matched rt r s) memo)
      × (length (remember s (matched rt r s) memo) ≤ max_memoize)
unfolding remember
remember_keeps rt r s memo h b = ground arith

match_memo-IsSound :
    (rt : Runtime) (r : Regexp) (s : Text) (memo : List (Text × Bool))
    → r.matches ≡ some memo
    → MemoOk rt r (some memo)
    → ((match_memo rt r s memo).1 ≡ matched rt r s) × IsSound rt (match_memo rt r s memo).0
unfolding match_memo
match_memo-IsSound rt r s memo e h = elim (Option-cases (recall s memo)) [
  | inl new ↦
      rw (new, match_memo)
        (
          refl,
          (
            Recalls-keeps rt r (some (remember s (matched rt r s) memo)) _
                (remember_keeps rt r s memo h.0 h.1).0,
            (remember_keeps rt r s memo h.0 h.1).1,
          ),
        )
  | inr (b, old) ↦ rw (old, match_memo) (recall_right rt r s memo h.0 old, rw e h)
]

match_with-IsSound :
    (rt : Runtime) (r : Regexp) (s : Text) (m : Option (List (Text × Bool)))
    → r.matches ≡ m
    → IsSound rt r
    → ((match_with rt r s m).1 ≡ matched rt r s) × IsSound rt (match_with rt r s m).0
unfolding match_with
match_with-IsSound rt r s none e h = (refl, h)
match_with-IsSound rt r s (some memo) e h = match_memo-IsSound rt r s memo e (rw e at h)

-- If the memo of a regular expression is sound, that is, holds right answers and at most 1000 of
-- them, then MatchString answers as the matchers do, whether or not it finds the text in the memo,
-- and leaves the memo sound.
pub match_string-IsSound :
    (rt : Runtime) (r : Regexp) (s : Text)
    → IsSound rt r
    → ((match_string rt r s).1 ≡ matched rt r s) × IsSound rt (match_string rt r s).0
unfolding match_string
match_string-IsSound rt r s h = match_with-IsSound rt r s r.matches refl h

abbrev fresh : (Text → Bool) → List Text → Bool → Regexp
fresh memoize regexps should_match = record {
  matchers = regexps;
  matches = if any memoize regexps then some [] else none;
  should_match = should_match;
}

fresh-MemoOk :
    (rt : Runtime) (r : Regexp) (memoize : Bool)
    → MemoOk rt r (if memoize then some [] else none)
      × MemoOk rt (reset r) (clear_memo (if memoize then some [] else none))
unfolding clear_memo
fresh-MemoOk rt r true = ((tt, omega arith), (tt, omega arith))
fresh-MemoOk rt r false = (tt, tt)

-- A regular expression that NewRegexp returns, and the same after Reset, has a sound memo.
pub new_regexp-IsSound :
    (rt : Runtime) (should_memoize : Text → Bool) (regexps : List Text) (should_match : Bool)
    → (r : Regexp) → new_regexp rt should_memoize regexps should_match ≡ some r
    → IsSound rt r × IsSound rt (reset r)
unfolding new_regexp reset
new_regexp-IsSound rt memoize regexps should_match r h =
    elim (Bool-cases (all rt.fast_compiles regexps)) [
      | inl good ↦
          let e : some (fresh memoize regexps should_match) ≡ some r = (rw good at h) in
          let same : fresh memoize regexps should_match ≡ r = cc in
          subst (λ x. IsSound rt x × IsSound rt (reset x)) same
            (fresh-MemoOk rt (fresh memoize regexps should_match) (any memoize regexps))
      | inr bad ↦ let e : none ≡ some r = (rw bad at h) in cc
    ]
