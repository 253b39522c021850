-- ===== src/Series/Top/Ranked.antt =====
-- The order of the values of a heap.
use traceql_syntax.Base.{is_lt, true, ◌||◌, ◌≡◌, sym, ◌∙◌, arith}
use traceql_syntax.Base.Orders.{
  IsOrder, compare-IsOrder, flip-IsOrder, then-IsOrder, along-IsOrder, compare_all-IsOrder,
  list_compare-IsOrder,
}
use traceql_syntax.Runtime.{Runtime, IsFloatOrder}
use traceql_syntax.StaticType.{type_code}
use traceql_syntax.Series.{SeriesMapLabel, SeriesMapKey}
use traceql_syntax.Series.Queue.{IsWeakOrder}
use traceql_syntax.Series.Top.{
  SeriesValue, compare_label, compare_series_map_key, data_point_greater_than, data_point_less_than,
}

label-IsOrder : IsOrder compare_label
label-IsOrder =
    then-IsOrder
      (along-IsOrder (λ (a : SeriesMapLabel). a.value.str) (flip-IsOrder list_compare-IsOrder))
      (then-IsOrder
        (along-IsOrder (λ (a : SeriesMapLabel). a.name) (flip-IsOrder list_compare-IsOrder))
        (then-IsOrder
          (along-IsOrder (λ (a : SeriesMapLabel). type_code a.value.typ) compare-IsOrder)
          (along-IsOrder (λ (a : SeriesMapLabel). a.value.code) compare-IsOrder)))

pub key-IsOrder : IsOrder compare_series_map_key
unfolding compare_series_map_key
key-IsOrder = compare_all-IsOrder label-IsOrder

key_between :
    (a b c : SeriesMapKey)
    → is_lt (compare_series_map_key a c) ≡ true
    → (is_lt (compare_series_map_key a b) || is_lt (compare_series_map_key b c)) ≡ true
key_between a b c h =
    ground (arith, key-IsOrder.equal a b c, key-IsOrder.flips a b, key-IsOrder.trans b a c)

-- A value that is no NaN.
abbrev pub IsNumber : Runtime → SeriesValue → Type 0
IsNumber rt p = rt.f_eq p.value p.value ≡ true

module _ (rt : Runtime) (o : IsFloatOrder rt) where
  pub greater-eq-less :
      (p s : SeriesValue) → data_point_greater_than rt p s ≡ data_point_less_than rt s p
  unfolding data_point_greater_than data_point_less_than
  greater-eq-less p s = ground (arith, o.eq_sym p.value s.value, key-IsOrder.flips p.key s.key)

  pub less-IsWeakOrder : IsWeakOrder (IsNumber rt) (data_point_less_than rt)
  unfolding data_point_less_than
  less-IsWeakOrder = record {
    asym = λ a b i j h.
        ground (
          arith,
          o.eq_sym a.value b.value,
          o.lt_asym a.value b.value,
          key-IsOrder.flips a.key b.key,
        );
    between = λ a b c i j k h. ground (
      arith,
      key_between a.key b.key c.key,
      o.total a.value b.value,
      o.eq_sym a.value b.value,
      o.eq_trans b.value a.value c.value,
      o.lt_eq b.value a.value c.value,
      o.eq_lt b.value a.value c.value,
      o.lt_trans b.value a.value c.value,
      o.lt_ne b.value c.value,
    );
  }

  pub greater-IsWeakOrder : IsWeakOrder (IsNumber rt) (data_point_greater_than rt)
  greater-IsWeakOrder = record {
    asym = λ a b i j h.
        greater-eq-less b a ∙ less-IsWeakOrder.asym b a j i (sym (greater-eq-less a b) ∙ h);
    between = λ a b c i j k h.
        let found = less-IsWeakOrder.between c b a k j i (sym (greater-eq-less a c) ∙ h) in
        ground (arith, greater-eq-less a b, greater-eq-less b c);
  }
