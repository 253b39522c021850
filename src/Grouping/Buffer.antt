-- ===== src/Grouping/Buffer.antt =====
-- The buffer that the values of a span are written to.
use mathlib.Core.Path.{Path, subst}
use mathlib.Core.List.{append-nil}
use traceql_syntax.Base.{
  ℕ, suc, ◌+◌, true, List, [], ◌∷◌, ◌++◌, map, some, length, length-append, set, ltb, ◌≡◌, refl,
  sym, ap, ap₂, ◌∙◌, arith,
}
use traceql_syntax.Static.{Static}
use traceql_syntax.Pipeline.Group.{map_key}
use traceql_syntax.Grouping.{FastStatic, FastStaticWithValues, write_buf}

set-at :
    {A : Type 0} (xs ys : List A) (y v : A)
    → set (xs ++ (y ∷ ys)) (length xs) v ≡ (xs ++ (v ∷ [])) ++ ys
set-at [] ys y v = refl
set-at (x ∷ xs) ys y v = ap (λ l. x ∷ l) (set-at xs ys y v)

pub length-map : {A B : Type 0} (f : A → B) (xs : List A) → length (map f xs) ≡ length xs
length-map f [] = refl
length-map f (x ∷ xs) = ap suc (length-map f xs)

map-snoc :
    {A B : Type 0} (f : A → B) (xs : List A) (x : A)
    → map f (xs ++ (x ∷ [])) ≡ map f xs ++ (f x ∷ [])
map-snoc f [] x = refl
map-snoc f (y ∷ ys) x = ap (λ l. f y ∷ l) (map-snoc f ys x)

empty : {A : Type 0} (xs : List A) → length xs ≡ 0 → xs ≡ []
empty [] h = refl
empty (x ∷ xs) h = absurd (omega (arith, h))

-- The buffer has the values with their keys at the front, and so many behind them.
pub record IsAt (sum64 : List ℕ → ℕ) (front : List Static) (n : ℕ) (buf : FastStaticWithValues)
    : Type 0 where
  pub more_fast : FastStatic
  pub more_vals : List Static
  pub fast_at : buf.fast ≡ map (map_key sum64) front ++ more_fast
  pub vals_at : buf.vals ≡ front ++ more_vals
  pub fast_left : length more_fast ≡ n
  pub vals_left : length more_vals ≡ n

module _ (sum64 : List ℕ → ℕ) where
  write_buf-IsAt :
      (front : List Static) (n : ℕ) (v : Static) (fr : FastStatic) (vr : List Static)
      → length fr ≡ suc n
      → length vr ≡ suc n
      → (buf : FastStaticWithValues) × (write_buf sum64
            (length front)
            v
            (record { fast = map (map_key sum64) front ++ fr; vals = front ++ vr })
          ≡ some buf)
        × IsAt sum64 (front ++ (v ∷ [])) n buf
  unfolding write_buf
  write_buf-IsAt front n v [] vr e f = absurd (omega (arith, e))
  write_buf-IsAt front n v (k ∷ fr) [] e f = absurd (omega (arith, f))
  write_buf-IsAt front n v (k ∷ fr) (w ∷ vr) e f =
      let keys = map (map_key sum64) front in
      let size : length keys ≡ length front = length-map (map_key sum64) front in
      let room : ltb (length front) (length (keys ++ (k ∷ fr))) ≡ true =
        ground (arith, length-append keys (k ∷ fr), size) in
      let room_vals : ltb (length front) (length (front ++ (w ∷ vr))) ≡ true =
        ground (arith, length-append front (w ∷ vr)) in
      (
        record {
          fast = set (keys ++ (k ∷ fr)) (length front) (map_key sum64 v);
          vals = set (front ++ (w ∷ vr)) (length front) v;
        },
        rw room (rw room_vals refl),
        record {
          more_fast = fr;
          more_vals = vr;
          fast_at =
              ap (λ i. set (keys ++ (k ∷ fr)) i (map_key sum64 v)) (sym size)
              ∙ (set-at keys fr k (map_key sum64 v)
                  ∙ ap (λ l. l ++ fr) (sym (map-snoc (map_key sum64) front v)));
          vals_at = set-at front vr w v;
          fast_left = omega (arith, e);
          vals_left = omega (arith, f);
        },
      )

  pub write_buf_lem :
      (front : List Static) (n i : ℕ) (v : Static) (buf : FastStaticWithValues)
      → IsAt sum64 front (suc n) buf
      → i ≡ length front
      → (buf' : FastStaticWithValues) × (write_buf sum64 i v buf ≡ some buf')
        × IsAt sum64 (front ++ (v ∷ [])) n buf'
  write_buf_lem front n i v buf at e =
      let (buf', wrote, at') =
        write_buf-IsAt front n v at.more_fast at.more_vals at.fast_left at.vals_left in
      let same : Path FastStaticWithValues buf (record {
        fast = map (map_key sum64) front ++ at.more_fast;
        vals = front ++ at.more_vals;
      }) =
        (λ j. record { fast = at.fast_at j; vals = at.vals_at j }) in
      (buf', rw e (rw same wrote), at')

  whole :
      (front : List Static) (n : ℕ) (buf : FastStaticWithValues)
      → IsAt sum64 front n buf
      → IsAt sum64 [] (length front + n) buf
  whole front n buf at = record {
    more_fast = buf.fast;
    more_vals = buf.vals;
    fast_at = refl;
    vals_at = refl;
    fast_left =
        ap length at.fast_at
        ∙ (length-append (map (map_key sum64) front) at.more_fast
            ∙ ap₂ (λ a b. a + b) (length-map (map_key sum64) front) at.fast_left);
    vals_left =
        ap length at.vals_at
        ∙ (length-append front at.more_vals ∙ ap (λ b. length front + b) at.vals_left);
  }

  pub back :
      (front : List Static) (n m : ℕ) (buf : FastStaticWithValues)
      → IsAt sum64 front n buf
      → length front + n ≡ m
      → IsAt sum64 [] m buf
  back front n m buf at e = subst (λ k. IsAt sum64 [] k buf) e (whole front n buf at)

  pub full :
      (front : List Static) (buf : FastStaticWithValues)
      → IsAt sum64 front 0 buf
      → (buf.vals ≡ front) × (buf.fast ≡ map (map_key sum64) front)
  full front buf at = (
    at.vals_at ∙ (ap (λ l. front ++ l) (empty at.more_vals at.vals_left) ∙ append-nil front),
    at.fast_at
        ∙ (ap (λ l. map (map_key sum64) front ++ l) (empty at.more_fast at.fast_left)
            ∙ append-nil (map (map_key sum64) front)),
  )
