-- ===== src/Varbyte/Safety.antt =====
-- What `decode_varbyte` and `encode_varbyte` (src/impu_store.cpp) do on any input: bounds, and the
-- input on which the decoder's shift is undefined.
use native.Mathlib.Nat.{pow-suc}
use mathlib.Core.Path.{subst}
use mathlib.Core.List.{append_assoc, append-nil}
use homestead.Prelude.{
  ℕ, zero, suc, ◌+◌, ◌/◌, ◌%◌, ◌^◌, ◌≤◌, ◌<◌, ◌≡◌, ap, ◌∙◌, inl, inr, Bool, true, false, ◌||◌, some,
  List, [], ◌∷◌, ◌++◌, arith, ltb, leb, ◌==◌, Bool-cases, Option-cases,
}
use homestead.Prelude.Lists.{length, drop}
use homestead.Varbyte.{
  int_max, size_byte, encode_loop, encode_varbyte, Decoded, decoded, undefined, shifted, is_empty,
  finish, decode_loop, decode_varbyte,
}

-- A decoded length that is within bounds, and an offset that lies behind the bytes that were read.
abbrev Bounded : ℕ → ℕ → Decoded → Type 0
Bounded low high undefined = Unit {0}
Bounded low high (decoded n o) = (n < int_max) × (low < o) × (o ≤ high)

finish-Bounded :
    (done : Bool) (len low high o : ℕ) → low < o → o ≤ high → Bounded low high (finish done len o)
unfolding finish
finish-Bounded done len low high o h k = ground arith

Bounded-widen :
    (low low' high : ℕ) (d : Decoded) → low ≤ low' → Bounded low' high d → Bounded low high d
Bounded-widen low low' high undefined h b = tt
Bounded-widen low low' high (decoded n o) h b = omega arith

nonempty_length : (xs : List ℕ) → is_empty xs ≡ false → 0 < length xs
nonempty_length [] h = cc
nonempty_length (x ∷ xs) h = omega arith

more_left : (a b : Bool) (xs : List ℕ) → (a || b || is_empty xs) ≡ false → is_empty xs ≡ false
more_left a b xs h = ground arith

decode_loop-Bounded :
    (bytes : List ℕ) (i len offset high : ℕ)
    → offset + length bytes ≤ high
    → offset < high
    → Bounded offset high (decode_loop bytes i len offset)
unfolding decode_loop
decode_loop-Bounded [] i len offset high h k =
    finish-Bounded true len offset high (offset + 1) (omega arith) (omega arith)
decode_loop-Bounded (b ∷ rest) i len offset high h k = elim (Option-cases (shifted (b % 128) i)) [
  | inl e ↦ rw (e, decode_loop) tt
  | inr (bits, e) ↦
      rw (e, decode_loop)
        (elim (Bool-cases (ltb b 128 || leb int_max (len + bits) || is_empty rest)) [
          | inl t ↦ rw t (
              finish-Bounded (ltb b 128) (len + bits) offset high (offset + 1) (omega arith)
                (omega arith))
          | inr t ↦ rw t (
              Bounded-widen offset (offset + 1) high _ (omega arith) (
                decode_loop-Bounded rest (i + 1) (len + bits) (offset + 1) high (omega arith) (
                  omega (
                    arith,
                    nonempty_length rest (more_left (ltb b 128) (leb int_max (len + bits)) rest t),
                  ))))
        ])
]

drop-length : (n : ℕ) (xs : List ℕ) → n ≤ length xs → n + length (drop n xs) ≡ length xs
drop-length zero xs h = omega arith
drop-length (suc n) [] h = absurd (omega arith)
drop-length (suc n) (x ∷ xs) h = omega (arith, drop-length n xs (omega arith))

-- Whatever the bytes, a length that a call inside the string returns is below `INT_MAX`, at least
-- one byte was consumed, and the offset is past the end by at most one.
pub decode_varbyte_bounds :
    (bytes : List ℕ) (offset n o : ℕ)
    → decode_varbyte bytes offset ≡ decoded n o
    → (n < int_max) × (offset < o) × (o ≤ length bytes + 1)
unfolding decode_varbyte
decode_varbyte_bounds bytes offset n o h = elim (Bool-cases (ltb (length bytes) offset)) [
  | inl e ↦ cc (rw e at h)
  | inr e ↦ subst (Bounded offset (length bytes + 1)) (rw e at h) (
      decode_loop-Bounded (drop offset bytes) 0 0 offset (length bytes + 1)
        (omega (arith, drop-length offset bytes (ground arith))) (ground arith))
]

-- The bytes are octets, and no more of them are appended than the fuel allows.
abbrev pub Octets : List ℕ → Type 0
Octets [] = Unit {0}
Octets (b ∷ bytes) = (b < 256) × Octets bytes

size_byte-lt : (n : ℕ) → size_byte n < 256
unfolding size_byte
size_byte-lt n = ground arith

encode_loop_total :
    (f n : ℕ) (before : List ℕ)
    → n < 128 ^ f
    → (bytes : List ℕ) × (encode_loop f n before ≡ some (before ++ bytes))
      × Octets bytes
      × (length bytes ≤ f)
unfolding encode_loop
encode_loop_total zero n before h = ([], ground (arith, append-nil before), tt, omega arith)
encode_loop_total (suc f) n before h = elim (Bool-cases (n == 0)) [
  | inl e ↦ ([], rw e (rw append-nil), tt, omega arith)
  | inr e ↦
      let (bytes, done, octets, short) =
        encode_loop_total f (n / 128) (before ++ size_byte n ∷ []) (omega (arith, pow-suc 128 f)) in
      (
        size_byte n ∷ bytes,
        rw e (done ∙ ap some (append_assoc before (size_byte n ∷ []) bytes)),
        (size_byte-lt n, octets),
        omega (arith, short),
      )
]

-- Every `uint64_t` is encoded: the loop ends within ten rounds, and appends at most ten octets.
pub encode_varbyte_total :
    (n : ℕ) (before : List ℕ)
    → n < 2 ^ 64
    → (bytes : List ℕ) × (encode_varbyte n before ≡ some (before ++ bytes))
      × Octets bytes
      × (length bytes ≤ 10)
unfolding encode_varbyte
encode_varbyte_total n before h = encode_loop_total 10 n before (omega arith)

-- On five bytes that ask for more and carry no high bits, followed by any byte, the decoder shifts
-- an `int` by 35 places.
pub decode_varbyte-undefined :
    (low next : ℕ) (rest : List ℕ)
    → low < 128
    → decode_varbyte ((low + 128) ∷ 128 ∷ 128 ∷ 128 ∷ 128 ∷ next ∷ rest) 0 ≡ undefined
unfolding decode_varbyte decode_loop shifted
decode_varbyte-undefined low next rest h = ground arith
