-- ===== src/Pipeline/Requested.antt =====
-- Additions to a request, and which attributes of the spans they ask for.
use traceql_syntax.Base.{
  ℕ, Bool, true, false, ◌&&◌, List, [], ◌∷◌, ◌++◌, any, Text, ◌≡◌, refl, Bool-cases, inl, inr,
  if◌then◌else◌, arith,
}
use mathlib.Core.Path.{subst}
use traceql_syntax.Runtime.{Runtime}
use traceql_syntax.Operator.{Operator, op_none, op_eq}
use traceql_syntax.Static.{static_bool}
use traceql_syntax.Attribute.{Attribute, attribute_eq, new_intrinsic, intrinsic_span_start_time}
use traceql_syntax.Attribute.Equality.{attribute_eq_sound}
use traceql_syntax.Expr.{Expr, static}
use traceql_syntax.Execute.{Span}
use traceql_syntax.Execute.Settled.{value}
use traceql_syntax.Conditions.{
  Condition, Request, fetch, append_condition, extract_conditions, extract_filter_conditions,
  has_match_all,
}
use traceql_syntax.Conditions.Fetched.{Agree, extract_fetches_all}
use traceql_syntax.Pipeline.Extract.{
  FetchRequest, on_first, without_hint, has_attribute_with_op, copy_conditions, to_second_pass,
  in_pass, empty_request,
}

module _ {S : Type 0} (f f' : S → Span) where
  -- All spans answer the same, one way and the other, for the attributes of the conditions.
  abbrev pub AgreeOn : List Condition → Type 0
  AgreeOn cs = (s : S) → Agree (f s) (f' s) cs

  abbrev pub AgreeFor : FetchRequest → Type 0
  AgreeFor req = AgreeOn req.first.conditions × AgreeOn req.second_pass_conditions

  -- An addition keeps what was asked for before, and asks for what the statement needs.
  abbrev pub Asks : Type 0 → (FetchRequest → FetchRequest) → Type 0
  Asks P g = (req : FetchRequest) → AgreeFor (g req) → AgreeFor req × P

  pub Asks-then :
      {P Q : Type 0} (g h : FetchRequest → FetchRequest)
      → Asks P g
      → Asks Q h
      → Asks (P × Q) (λ req. h (g req))
  Asks-then g h p q req a = let (b, y) = q (g req) a in let (c, x) = p req b in (c, (x, y))

  pub Agree-parts :
      (t t' : Span) (cs ds : List Condition) → Agree t t' (cs ++ ds) → Agree t t' cs × Agree t t' ds
  Agree-parts t t' [] ds h = (tt, h)
  Agree-parts t t' (c ∷ cs) ds h = let (a, b) = Agree-parts t t' cs ds h.1 in ((h.0, a), b)

  -- Any condition with the attribute is enough.
  any-Agree :
      (t t' : Span) (a : Attribute) (o : Operator) (cs : List Condition)
      → any (λ c. attribute_eq c.attr a && op_eq c.op o) cs ≡ true
      → Agree t t' cs
      → t a ≡ t' a
  unfolding any
  any-Agree t t' a o [] h g = absurd (cc h)
  any-Agree t t' a o (c ∷ cs) h g = elim (Bool-cases (attribute_eq c.attr a && op_eq c.op o)) [
    | inl here ↦ subst (λ b. t b ≡ t' b) (attribute_eq_sound c.attr a (ground (arith, here))) g.0
    | inr there ↦ any-Agree t t' a o cs (rw there at h) g.1
  ]

  has-Agree :
      (a : Attribute) (o : Operator) (req : FetchRequest)
      → has_attribute_with_op req a o ≡ true
      → AgreeFor req
      → (s : S) → f s a ≡ f' s a
  unfolding has_attribute_with_op
  has-Agree a o req h (first, second) s =
      elim (Bool-cases (any (λ c. attribute_eq c.attr a && op_eq c.op o) req.first.conditions)) [
        | inl here ↦ any-Agree (f s) (f' s) a o req.first.conditions here (first s)
        | inr there ↦
            any-Agree (f s) (f' s) a o req.second_pass_conditions (rw there at h) (second s)
      ]

  pub copy-Asks : (cs : List Condition) → Asks (AgreeOn cs) (copy_conditions cs)
  unfolding copy_conditions
  copy-Asks [] req h = (h, λ s. tt)
  copy-Asks (c ∷ cs) req h =
      let more : FetchRequest = record req {
        second_pass_conditions = req.second_pass_conditions ++ (c ∷ []);
      } in
      let asked : (b : Bool)
          → has_attribute_with_op req c.attr op_none ≡ b
          → AgreeFor (copy_conditions cs (if b then req else more)) =
        λ b e. subst (λ b. AgreeFor (copy_conditions cs (if b then req else more))) e h in
      elim (Bool-cases (has_attribute_with_op req c.attr op_none)) [
        | inl had ↦
            let (before, rest) = copy-Asks cs req (asked true had) in
            (before, λ s. (has-Agree c.attr op_none req had before s, rest s))
        | inr new ↦
            let ((first, second), rest) = copy-Asks cs more (asked false new) in
            let parts : (s : S)
                → Agree (f s) (f' s) req.second_pass_conditions × Agree (f s) (f' s) (c ∷ []) =
              λ s. Agree-parts (f s) (f' s) req.second_pass_conditions (c ∷ []) (second s) in
            ((first, λ s. (parts s).0), λ s. ((parts s).1.0, rest s))
      ]

  pub to_second_pass-Asks : (req2 : FetchRequest) → Asks (AgreeFor req2) (to_second_pass req2)
  unfolding to_second_pass
  to_second_pass-Asks req2 =
      Asks-then (copy_conditions req2.first.conditions)
        (copy_conditions req2.second_pass_conditions) (copy-Asks req2.first.conditions)
        (copy-Asks req2.second_pass_conditions)

  pub in_pass-Asks :
      {P : Type 0} (second : Bool) (g : FetchRequest → FetchRequest)
      → Asks P g
      → Asks P (in_pass second g)
  unfolding in_pass
  in_pass-Asks false g p req h = p req h
  in_pass-Asks true g p req h =
      let (before, made) = to_second_pass-Asks (g empty_request) req h in
      (before, (p empty_request made).1)

  pub first-Asks :
      (P : Type 0) (g : Request → Request)
      → ((req : Request) → AgreeOn (g req).conditions → AgreeOn req.conditions × P)
      → Asks P (on_first g)
  first-Asks P g p req (first, second) =
      let (before, x) = p req.first first in ((before, second), x)

  pub without_hint-Asks :
      (P : Type 0) (g : FetchRequest → FetchRequest)
      → Asks P g
      → Asks P (λ req. without_hint (g req))
  unfolding without_hint
  without_hint-Asks P g p req h = p req h

  pub fetch-Asks :
      (a : Attribute) (req : Request) → AgreeOn (fetch a req).conditions → AgreeOn req.conditions
  unfolding fetch append_condition
  fetch-Asks a req h s = (Agree-parts (f s) (f' s) req.conditions _ (h s)).0

  module _ (rt : Runtime) where
    abbrev pub SameValue : Expr → Type 0
    SameValue e = (s : S) → value rt e (f s) ≡ value rt e (f' s)

    pub extract-Asks : (e : Expr) → Asks (SameValue e) (on_first (extract_conditions e))
    extract-Asks e = first-Asks (SameValue e) (extract_conditions e) (λ req h. (
      λ s. (extract_fetches_all rt e req (f s) (f' s) (h s)).1,
      λ s. (extract_fetches_all rt e req (f s) (f' s) (h s)).0,
    ))

    match_all-Asks :
        (format : ℕ → Text) (b : Bool) (req : Request)
        → AgreeOn
            (if b
              then req
              else fetch (new_intrinsic format intrinsic_span_start_time) req).conditions
        → AgreeOn req.conditions
    match_all-Asks format true req h = h
    match_all-Asks format false req h =
        fetch-Asks (new_intrinsic format intrinsic_span_start_time) req h

    pub filter-Asks :
        (format : ℕ → Text) (e : Expr)
        → Asks (SameValue e) (on_first (extract_filter_conditions format e))
    unfolding extract_filter_conditions value
    filter-Asks format (static (static_bool true)) =
        first-Asks (SameValue (static (static_bool true)))
          (extract_filter_conditions format (static (static_bool true)))
          (λ req h. (match_all-Asks format (has_match_all req.conditions) req h, λ s. refl))
    filter-Asks format e = extract-Asks e
