-- ===== src/Prelude/Order.antt =====
-- The order of strings is a strict total order, so that an `std::map` keeps its keys sorted and apart.
use Prim.Native.Nat.{ℕ, Ordering, compare as compare_ℕ}
use Prim.Native.Char.{code}
use Prim.Native.String.compare
use Prim.Native.String.{String, [], ◌∷◌, compare, then}
use mathlib.Core.Path.{◌≡◌}
use mathlib.Core.Bool.{true}
use native.Mathlib.Omega.{arith}
use text.Mathlib.Text.{is_lt}

abbrev pub flip : Ordering → Ordering
flip Ordering.lt = Ordering.gt
flip Ordering.eq = Ordering.eq
flip Ordering.gt = Ordering.lt

flip_ℕ : (m n : ℕ) → compare_ℕ n m ≡ flip (compare_ℕ m n)
flip_ℕ m n = ground arith

then-flip : (a b : Ordering) → then (flip a) (flip b) ≡ flip (then a b)
then-flip a b = ground arith

pub compare-flip : (s t : String) → compare t s ≡ flip (compare s t)
compare-flip [] [] = cc compare.nil-nil
compare-flip [] (d ∷ t) = cc (compare.nil-cons d t, compare.cons-nil d t)
compare-flip (c ∷ s) [] = cc (compare.nil-cons c s, compare.cons-nil c s)
compare-flip (c ∷ s) (d ∷ t) = ground (
  arith,
  flip_ℕ (code c) (code d),
  compare-flip s t,
  then-flip (compare_ℕ (code c) (code d)) (compare s t),
  compare.cons-cons c d s t,
  compare.cons-cons d c t s,
)

pub lt_trans :
    (s t u : String)
    → is_lt (compare s t) ≡ true
    → is_lt (compare t u) ≡ true
    → is_lt (compare s u) ≡ true
lt_trans [] [] u h k = k
lt_trans [] (d ∷ t) [] h k = cc (k, compare.cons-nil d t)
lt_trans [] (d ∷ t) (e ∷ u) h k = cc (compare.nil-cons e u)
lt_trans (c ∷ s) [] u h k = cc (h, compare.cons-nil c s)
lt_trans (c ∷ s) (d ∷ t) [] h k = cc (k, compare.cons-nil d t)
lt_trans (c ∷ s) (d ∷ t) (e ∷ u) h k = ground (
  arith,
  lt_trans s t u,
  compare.cons-cons c d s t,
  compare.cons-cons d e t u,
  compare.cons-cons c e s u,
)
