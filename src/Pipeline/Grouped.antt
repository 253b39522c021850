-- ===== src/Pipeline/Grouped.antt =====
-- Grouping divides the spans of a spanset by their keys, and coalesce() brings them together again.
use traceql_syntax.Base.{
  ℕ, true, false, List, [], ◌∷◌, ◌++◌, All, Text, list_eq_refl, ◌≡◌, refl, sym, ap, ap₂, ◌∙◌, ok,
  ◌>>=◌, arith, Bool-cases, inl, inr,
}
use mathlib.Core.Path.{subst}
use mathlib.Core.List.{Permᴰ, append_assoc}
use mathlib.Core.List.Permᴰ
use traceql_syntax.StaticType.{type_eq}
use traceql_syntax.Static.{Static, static_nil}
use traceql_syntax.Pipeline.Spanset.{Spanset, no_trace, all_spans, evaluate_coalesce}
use traceql_syntax.Pipeline.Group.{
  StaticMapKey, key_eq, map_key, Groups, new_group, add_to_group, group_spans, groups_of,
  evaluate_group,
}

key_eq_refl : (k : StaticMapKey) → key_eq k k ≡ true
unfolding key_eq type_eq
key_eq_refl k = rw (list_eq_refl k.str) (ground arith)

All-last :
    {A : Type 0} (P : A → Type 0) (xs : List A) (x : A) → All P xs → P x → All P (xs ++ (x ∷ []))
All-last P [] x h p = (p, tt)
All-last P (y ∷ ys) x h p = (h.0, All-last P ys x h.1 p)

module _ {S : Type 0} where
  -- No two groups have one key.
  unfoldable pub AreDistinct : Groups S → Type 0
  AreDistinct [] = Unit
  AreDistinct ((k, g) ∷ gs) = All (λ h. key_eq k h.0 ≡ false) gs × AreDistinct gs

  module _ (sum64 : List ℕ → ℕ) (v : S → Static) where
    -- The spans of each group have its key.
    abbrev pub AreUniform : Groups S → Type 0
    AreUniform gs = All (λ g. All (λ s. key_eq g.0 (map_key sum64 (v s)) ≡ true) g.1.spans) gs

    module _ (name : Text) (spanset : Spanset S) (s : S) where
      abbrev add : Groups S → Groups S
      add gs = add_to_group (map_key sum64 (v s)) (new_group name spanset (v s) s) s gs

      add-Permᴰ :
          (gs : Groups S) → Permᴰ (all_spans (groups_of (add gs))) (s ∷ all_spans (groups_of gs))
      unfolding add_to_group all_spans new_group
      add-Permᴰ [] = Permᴰ.refl (s ∷ [])
      add-Permᴰ ((k, g) ∷ gs) = elim (Bool-cases (key_eq k (map_key sum64 (v s)))) [
        | inl same ↦
            rw (same, append_assoc g.spans (s ∷ []) (all_spans (groups_of gs)))
              (Permᴰ.middle s g.spans (all_spans (groups_of gs)))
        | inr other ↦ rw other (
            Permᴰ.trans (Permᴰ.append_left g.spans (add-Permᴰ gs))
              (Permᴰ.middle s g.spans (all_spans (groups_of gs))))
      ]

      add-AreUniform : (gs : Groups S) → AreUniform gs → AreUniform (add gs)
      unfolding add_to_group new_group
      add-AreUniform [] h = ((key_eq_refl (map_key sum64 (v s)), tt), tt)
      add-AreUniform ((k, g) ∷ gs) h = elim (Bool-cases (key_eq k (map_key sum64 (v s)))) [
        | inl same ↦
            rw same (All-last (λ t. key_eq k (map_key sum64 (v t)) ≡ true) g.spans s h.0 same, h.1)
        | inr other ↦ rw other (h.0, add-AreUniform gs h.1)
      ]

      add-All :
          (Q : StaticMapKey → Type 0) (gs : Groups S)
          → Q (map_key sum64 (v s))
          → All (λ g. Q g.0) gs
          → All (λ g. Q g.0) (add gs)
      unfolding add_to_group
      add-All Q [] q h = (q, tt)
      add-All Q ((k, g) ∷ gs) q h = elim (Bool-cases (key_eq k (map_key sum64 (v s)))) [
        | inl same ↦ rw same h
        | inr other ↦ rw other (h.0, add-All Q gs q h.1)
      ]

      add-AreDistinct : (gs : Groups S) → AreDistinct gs → AreDistinct (add gs)
      unfolding add_to_group AreDistinct
      add-AreDistinct [] h = (tt, tt)
      add-AreDistinct ((k, g) ∷ gs) h = elim (Bool-cases (key_eq k (map_key sum64 (v s)))) [
        | inl same ↦ rw same h
        | inr other ↦
            rw other (add-All (λ k'. key_eq k k' ≡ false) gs other h.0, add-AreDistinct gs h.1)
      ]

    -- What the groups of these spans come to, from groups that there were before.
    abbrev Divides : Groups S → List S → Groups S → Type 0
    Divides acc spans gs =
        AreDistinct gs
        × AreUniform gs
        × Permᴰ (all_spans (groups_of gs)) (all_spans (groups_of acc) ++ spans)

    divide :
        (name : Text) (spanset : Spanset S) (spans : List S) (acc : Groups S)
        → AreDistinct acc
        → AreUniform acc
        → (gs : Groups S) × (group_spans sum64 name (λ s. ok (v s)) spanset spans acc ≡ ok gs)
          × Divides acc spans gs
    unfolding group_spans
    divide name spanset [] acc d u =
        (acc, refl, (d, u, Permᴰ.symm (Permᴰ.append-nil (all_spans (groups_of acc)))))
    divide name spanset (s ∷ ss) acc d u =
        let (gs, e, (d', u', p)) =
          divide name spanset ss (add name spanset s acc) (add-AreDistinct name spanset s acc d)
            (add-AreUniform name spanset s acc u) in
        (
          gs,
          e,
          (
            d',
            u',
            Permᴰ.trans p (
                Permᴰ.trans (Permᴰ.append_right ss (add-Permᴰ name spanset s acc))
                  (Permᴰ.symm (Permᴰ.middle s (all_spans (groups_of acc)) ss))),
          ),
        )

-- Where the expression has a value on every span: the spans of a spanset are divided into groups,
-- just as many times each as they stand there, whose keys differ from one another, and each span's
-- value has the key of its group.
pub group_spans-Divides :
    {S : Type 0} (sum64 : List ℕ → ℕ) (v : S → Static) (name : Text) (spanset : Spanset S)
    → (gs : Groups S) × (group_spans sum64 name (λ s. ok (v s)) spanset spanset.spans [] ≡ ok gs)
      × AreDistinct gs
      × AreUniform sum64 v gs
      × Permᴰ (all_spans (groups_of gs)) spanset.spans
unfolding AreDistinct all_spans
group_spans-Divides sum64 v name spanset =
    let (gs, e, (d, u, p)) = divide sum64 v name spanset spanset.spans [] tt tt in (gs, e, d, u, p)

module _ {S : Type 0} where
  all_spans-append :
      (xs ys : List (Spanset S)) → all_spans (xs ++ ys) ≡ all_spans xs ++ all_spans ys
  unfolding all_spans
  all_spans-append [] ys = refl
  all_spans-append (x ∷ xs) ys =
      ap (λ zs. x.spans ++ zs) (all_spans-append xs ys)
      ∙ sym (append_assoc x.spans (all_spans xs) (all_spans ys))

  exchange : (xs ys zs : List S) → Permᴰ (xs ++ (ys ++ zs)) (ys ++ (xs ++ zs))
  exchange xs ys zs =
      subst (λ l. Permᴰ l (ys ++ (xs ++ zs))) (append_assoc xs ys zs)
        (subst (λ l. Permᴰ (xs ++ ys ++ zs) l) (append_assoc ys xs zs)
          (Permᴰ.append_right zs (Permᴰ.append_comm xs ys)))

  all_spans-Permᴰ : {xs ys : List (Spanset S)} → Permᴰ xs ys → Permᴰ (all_spans xs) (all_spans ys)
  unfolding all_spans
  all_spans-Permᴰ Permᴰ.nil = Permᴰ.nil
  all_spans-Permᴰ (Permᴰ.cons {a = a} {l₁ = l₁} {l₂ = l₂} e p) =
      subst (λ b. Permᴰ (a.spans ++ all_spans l₁) (b.spans ++ all_spans l₂)) e
        (Permᴰ.append_left a.spans (all_spans-Permᴰ p))
  all_spans-Permᴰ (Permᴰ.swap {a = a} {b = b} {l = l} e f) =
      subst (λ xs. Permᴰ (a.spans ++ (b.spans ++ all_spans l)) xs)
        (ap₂ (λ x y. y.spans ++ (x.spans ++ all_spans l)) e f)
        (exchange a.spans b.spans (all_spans l))
  all_spans-Permᴰ (Permᴰ.trans p q) = Permᴰ.trans (all_spans-Permᴰ p) (all_spans-Permᴰ q)

  module _ (sum64 : List ℕ → ℕ) (order : List (Spanset S) → List (Spanset S))
      (ranges : (gs : List (Spanset S)) → Permᴰ (order gs) gs) (v : S → Static) (name : Text) where
    group_all :
        (input : List (Spanset S))
        → (out : List (Spanset S)) × (evaluate_group sum64 order name (λ s. ok (v s)) input
            ≡ ok out)
          × Permᴰ (all_spans out) (all_spans input)
    unfolding evaluate_group all_spans
    group_all [] = ([], refl, Permᴰ.nil)
    group_all (ss ∷ sss) =
        let (gs, e, _, _, p) = group_spans-Divides sum64 v name ss in
        let (out, f, q) = group_all sss in
        let r : Permᴰ (all_spans (order (groups_of gs)) ++ all_spans out)
            (ss.spans ++ all_spans sss) =
          Permᴰ.trans
            (Permᴰ.append_right (all_spans out)
              (Permᴰ.trans (all_spans-Permᴰ (ranges (groups_of gs))) p))
            (Permᴰ.append_left ss.spans q) in
        (
          order (groups_of gs) ++ out,
          rw (e, f) refl,
          rw (all_spans-append (order (groups_of gs)) out) r,
        )

-- In whatever order Go goes through a map, and where the expression has a value on every span:
-- by(...) | coalesce() leaves one spanset, with the spans of the input, each as many times as there.
pub coalesce-group :
    {S : Type 0} (sum64 : List ℕ → ℕ) (order : List (Spanset S) → List (Spanset S))
    → ((gs : List (Spanset S)) → Permᴰ (order gs) gs)
    → (v : S → Static) (name : Text) (input : List (Spanset S))
    → (c : Spanset S) × ((evaluate_group sum64 order name (λ s. ok (v s)) input >>= λ out.
          ok (evaluate_coalesce out))
        ≡ ok (c ∷ []))
      × Permᴰ c.spans (all_spans input)
unfolding evaluate_coalesce
coalesce-group sum64 order ranges v name input =
    let (out, e, p) = group_all sum64 order ranges v name input in
    (
      record { scalar = static_nil; spans = all_spans out; trace = no_trace; attributes = [] },
      rw e refl,
      p,
    )
