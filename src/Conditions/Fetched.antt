-- ===== src/Conditions/Fetched.antt =====
-- The conditions of a filter fetch every attribute that its value depends on.
use traceql_syntax.Base.{List, [], ◌∷◌, ◌++◌, All, ◌≡◌, refl, ap₂, ◌>>=◌, ap, Bool-cases, inl, inr}
use traceql_syntax.Runtime.{Runtime}
use traceql_syntax.Operator.{Operator}
use traceql_syntax.Static.{Static}
use traceql_syntax.Attribute.{Attribute}
use traceql_syntax.Expr.{Expr, binary, unary, unary_ref, static, attribute, is_existence}
use traceql_syntax.Regexp.{Regexp}
use traceql_syntax.Optimizer.{BranchOptimizer}
use traceql_syntax.Execute.{Span, unary_value}
use traceql_syntax.Execute.Settled.{value, operation_value}
use traceql_syntax.Conditions.{
  Condition, Request, fetch, only_fetches, compare_attribute, unary_attribute, extract_conditions,
}

-- Two spans answer the same for the attributes of the conditions.
abbrev pub Agree : Span → Span → List Condition → Type 0
Agree span span' cs = All (λ c. span c.attr ≡ span' c.attr) cs

module _ (span span' : Span) where
  Agree-append :
      (cs : List Condition) (c : Condition)
      → Agree span span' (cs ++ (c ∷ []))
      → Agree span span' cs × (span c.attr ≡ span' c.attr)
  Agree-append [] c h = (tt, h.0)
  Agree-append (d ∷ cs) c h = let (rest, last) = Agree-append cs c h.1 in ((h.0, rest), last)

  -- What an addition to a request for the attribute `a` keeps.
  abbrev Fetches : Attribute → (Request → Request) → Type 0
  Fetches a f =
      (req : Request)
      → Agree span span' (f req).conditions
      → Agree span span' req.conditions × (span a ≡ span' a)

  fetch-Fetches : (a : Attribute) → Fetches a (fetch a)
  unfolding fetch
  fetch-Fetches a req h = Agree-append req.conditions _ h

  compare_attribute-Fetches :
      (op : Operator) (a : Attribute) (s : Static) → Fetches a (compare_attribute op a s)
  unfolding compare_attribute
  compare_attribute-Fetches op a s req h = elim (Bool-cases (only_fetches op s)) [
    | inl yes' ↦ fetch-Fetches a req (rw yes' at h)
    | inr no' ↦ Agree-append req.conditions _ (rw no' at h)
  ]

  unary_attribute-Fetches : (op : Operator) (a : Attribute) → Fetches a (unary_attribute op a)
  unfolding unary_attribute
  unary_attribute-Fetches op a req h = elim (Bool-cases (is_existence op)) [
    | inl yes' ↦ Agree-append req.conditions _ (rw yes' at h)
    | inr no' ↦ fetch-Fetches a req (rw no' at h)
  ]

module _ (rt : Runtime) (span span' : Span) where
  abbrev Covers : Expr → (Request → Request) → Type 0
  Covers e f =
      (req : Request)
      → Agree span span' (f req).conditions
      → Agree span span' req.conditions × (value rt e span ≡ value rt e span')

  binary_agrees :
      (op : Operator) (l r : Expr) (c : List Regexp) (b : BranchOptimizer)
      → value rt l span ≡ value rt l span'
      → value rt r span ≡ value rt r span'
      → value rt (binary op l r c b) span ≡ value rt (binary op l r c b) span'
  unfolding value
  binary_agrees op l r c b p q = ap₂ (λ x y. x >>= λ lhs. operation_value rt op lhs y) p q

  extract-Covers : (e : Expr) → Covers e (extract_conditions e)
  unfolding extract_conditions value
  extract-Covers (binary op (attribute a) (static s) c b) req h =
      let (rest, e) = compare_attribute-Fetches span span' op a s req h in (rest, rw e refl)
  extract-Covers (binary op (static s) (attribute a) c b) req h =
      let (rest, e) = compare_attribute-Fetches span span' op a s req h in (rest, rw e refl)
  extract-Covers (binary op (attribute a) (attribute a') c b) req h =
      let (rest, e') = fetch-Fetches span span' a' (fetch a req) h in
      let (rest', e) = fetch-Fetches span span' a req rest in (rest', rw (e, e') refl)
  extract-Covers (binary op (attribute a) r c b) req h =
      let (rest, e') = extract-Covers r (fetch a req) h in
      let (rest', e) = fetch-Fetches span span' a req rest in
      (rest', binary_agrees op (attribute a) r c b (rw e refl) e')
  extract-Covers (binary op (static s) (static s') c b) req h = (h, refl)
  extract-Covers (binary op (static s) r c b) req h =
      let (rest, e) = extract-Covers r req h in (rest, binary_agrees op (static s) r c b refl e)
  extract-Covers (binary op l r c b) req h =
      let (rest, e') = extract-Covers r (extract_conditions l req) h in
      let (rest', e) = extract-Covers l req rest in (rest', binary_agrees op l r c b e e')
  extract-Covers (unary op (attribute a)) req h =
      let (rest, e) = unary_attribute-Fetches span span' op a req h in (rest, rw e refl)
  extract-Covers (unary op e) req h =
      let (rest, e') = extract-Covers e req h in (rest, ap (λ x. x >>= unary_value rt op) e')
  extract-Covers (unary_ref op (attribute a)) req h =
      let (rest, e) = unary_attribute-Fetches span span' op a req h in (rest, rw e refl)
  extract-Covers (unary_ref op e) req h =
      let (rest, e') = extract-Covers e req h in (rest, ap (λ x. x >>= unary_value rt op) e')
  extract-Covers (static s) req h = (h, refl)
  extract-Covers (attribute a) req h =
      let (rest, e) = fetch-Fetches span span' a req h in (rest, rw e refl)

-- Two spans that answer the same for every attribute among the conditions extracted from an
-- expression, added to any request, give the expression the same settled value, errors included; so
-- the request fetches all that the value depends on, and keeps what it asked for before.
pub extract_fetches_all :
    (rt : Runtime) (e : Expr) (req : Request) (span span' : Span)
    → Agree span span' (extract_conditions e req).conditions
    → (value rt e span ≡ value rt e span') × Agree span span' req.conditions
extract_fetches_all rt e req span span' h =
    let (rest, same) = extract-Covers rt span span' e req h in (same, rest)
