-- ===== src/Varbyte/RoundTrip.antt =====
-- Decoding what `encode_varbyte` appended (src/impu_store.cpp) gives the size back.
use native.Mathlib.Nat.{pow-suc}
use native.Mathlib.Numerals.{towards_suc}
use mathlib.Core.Path.{ap₂}
use mathlib.Core.List.{append_assoc, append-nil}
use homestead.Prelude.{
  ℕ, zero, suc, ◌+◌, ◌*◌, ◌/◌, ◌%◌, ◌^◌, ◌≤◌, ◌<◌, ◌≡◌, refl, ap, ◌∙◌, inl, inr, true, false, ◌||◌,
  some, List, [], ◌∷◌, ◌++◌, arith, ltb, leb, ◌==◌, if◌then◌else◌, Bool-cases,
}
use homestead.Prelude.Lists.{length, length-append, drop-append}
use homestead.Varbyte.{
  int_max, size_byte, encode_loop, encode_varbyte, decoded, shifted, is_empty, finish, decode_loop,
  decode_varbyte,
}

-- The bytes that the encoder's loop appends.
groups : ℕ → ℕ → List ℕ
groups zero n = []
groups (suc f) n = let rest = groups f (n / 128) in if n == 0 then [] else size_byte n ∷ rest

encode_loop-groups :
    (f n : ℕ) (bytes : List ℕ) → n < 128 ^ f → encode_loop f n bytes ≡ some (bytes ++ groups f n)
unfolding encode_loop groups
encode_loop-groups zero n bytes h = ground (arith, append-nil bytes)
encode_loop-groups (suc f) n bytes h = elim (Bool-cases (n == 0)) [
  | inl e ↦ rw e (rw append-nil)
  | inr e ↦
      rw
        (
          e,
          encode_loop-groups f (n / 128) (bytes ++ size_byte n ∷ []) (omega (arith, pow-suc 128 f)),
        )
        (rw append_assoc)
]

shifted-fits :
    (bits i : ℕ) → i < 5 → bits * 2 ^ (7 * i) < 2 ^ 31 → shifted bits i ≡ some (bits * 2 ^ (7 * i))
unfolding shifted
shifted-fits bits i h k = ground arith

-- The weight of the next group.
next_power : (i p : ℕ) → p ≡ 2 ^ (7 * i) → 128 * p ≡ 2 ^ (7 * (i + 1))
next_power i p e =
    let seven : 7 * (i + 1) ≡ 7 * i + 7 = omega arith in
    rw (seven, e) (simp towards_suc (omega arith))

size_byte_bits : (n : ℕ) → size_byte n % 128 ≡ n % 128
unfolding size_byte
size_byte_bits n = ground arith

size_byte_last : (n : ℕ) → n / 128 ≡ 0 → ltb (size_byte n) 128 ≡ true
unfolding size_byte
size_byte_last n h = ground arith

size_byte_more : (n : ℕ) → 0 < n / 128 → ltb (size_byte n) 128 ≡ false
unfolding size_byte
size_byte_more n h = ground arith

groups-cons : (f n : ℕ) → 0 < n → groups (suc f) n ≡ size_byte n ∷ groups f (n / 128)
unfolding groups
groups-cons f n h = ground arith

-- One round of the decoder, on a byte whose bits fit.
decode_round :
    (b : ℕ) (rest : List ℕ) (i len offset bits : ℕ)
    → shifted (b % 128) i ≡ some bits
    → decode_loop (b ∷ rest) i len offset ≡ (
        if ltb b 128 || leb int_max (len + bits) || is_empty rest
        then finish (ltb b 128) (len + bits) (offset + 1)
        else decode_loop rest (i + 1) (len + bits) (offset + 1))
unfolding decode_loop
decode_round b rest i len offset bits e = rw (e, decode_loop)

split_weight : (n p : ℕ) → n % 128 * p + n / 128 * (128 * p) ≡ n * p
split_weight n p =
    let split : n % 128 + n / 128 * 128 ≡ n = omega arith in
    omega (arith, ap (λ (t : ℕ). t * p) split)

groups_more : (f n : ℕ) (rest : List ℕ) → 0 < f → 0 < n → is_empty (groups f n ++ rest) ≡ false
groups_more zero n rest h k = absurd (omega arith)
groups_more (suc f) n rest h k = rw (groups-cons f n k)

groups_none : (f n : ℕ) → n ≡ 0 → groups f n ≡ []
unfolding groups
groups_none zero n h = refl
groups_none (suc f) n h = ground arith

-- The round on the last byte, and on one that more bytes follow.
round_last :
    (n i len offset bits : ℕ) (rest : List ℕ)
    → shifted (n % 128) i ≡ some bits
    → n / 128 ≡ 0
    → len + bits < int_max
    → decode_loop (size_byte n ∷ rest) i len offset ≡ decoded (len + bits) (offset + 1)
unfolding finish
round_last n i len offset bits rest e h fits =
    rw (decode_round (size_byte n) rest i len offset bits (rw size_byte_bits e))
      (rw (size_byte_last n h) (ground arith))

round_more :
    (n i len offset bits : ℕ) (rest : List ℕ)
    → shifted (n % 128) i ≡ some bits
    → 0 < n / 128
    → len + bits < int_max
    → is_empty rest ≡ false
    → decode_loop (size_byte n ∷ rest) i len offset
      ≡ decode_loop rest (i + 1) (len + bits) (offset + 1)
round_more n i len offset bits rest e h fits more =
    rw (decode_round (size_byte n) rest i len offset bits (rw size_byte_bits e))
      (rw (size_byte_more n h) (rw more (ground arith)))

groups_left : (k n : ℕ) → n < 128 ^ suc k → 0 < n / 128 → 0 < k
groups_left zero n h m = absurd (omega arith)
groups_left (suc k) n h m = omega arith

decode_groups :
    (f k i n p len offset : ℕ) (rest : List ℕ)
    → k ≤ f
    → k + i ≡ 5
    → n < 128 ^ k
    → 0 < n
    → p ≡ 2 ^ (7 * i)
    → len + n * p < int_max
    → decode_loop (groups f n ++ rest) i len offset
      ≡ decoded (len + n * p) (offset + length (groups f n))
decode_groups f zero i n p len offset rest kf ki nk n0 pe fits = absurd (omega arith)
decode_groups zero (suc k) i n p len offset rest kf ki nk n0 pe fits = absurd (omega arith)
decode_groups (suc f) (suc k) i n p len offset rest kf ki nk n0 pe fits =
    rw (groups-cons f n n0) (elim (Bool-cases (n / 128 == 0)) [
      | inl e ↦
          rw
            (round_last n i len offset (n % 128 * p) (groups f (n / 128) ++ rest) bits
              (ground arith) (omega (arith, split_weight n p)))
            (rw (groups_none f (n / 128) (ground arith))
              (ap₂ decoded (omega (arith, split_weight n p, ends (ground arith))) refl))
      | inr e ↦
          rw
            (round_more n i len offset (n % 128 * p) (groups f (n / 128) ++ rest) bits
              (ground arith) (omega (arith, split_weight n p))
              (groups_more f (n / 128) rest (more (ground arith)) (ground arith)))
            (decode_groups f k (i + 1) (n / 128) (128 * p) (len + n % 128 * p) (offset + 1) rest
                (omega arith) (omega arith) (omega (arith, pow-suc 128 k)) (ground arith)
                (next_power i p pe) (omega (arith, split_weight n p))
              ∙ ap₂ decoded (omega (arith, split_weight n p)) (omega arith))
    ])
  where
    bits : shifted (n % 128) i ≡ some (n % 128 * p)
    bits =
        rw pe (shifted-fits (n % 128) i (omega arith) (rw (← pe) (omega (arith, split_weight n p))))

    ends : n / 128 ≡ 0 → n / 128 * (128 * p) ≡ 0
    ends z = rw z (omega arith)

    more : 0 < n / 128 → 0 < f
    more h = omega (arith, groups_left k n nk h)

-- A size from 1 up to `INT_MAX - 1` has an encoding that is the same wherever it is appended. With
-- any bytes before it and any after it, it is read back, and the offset then stands behind it.
pub decode-encode :
    (n : ℕ)
    → 0 < n
    → n < int_max
    → (bytes : List ℕ) × ((before : List ℕ) → encode_varbyte n before ≡ some (before ++ bytes))
      × ((before after : List ℕ)
          → decode_varbyte (before ++ (bytes ++ after)) (length before)
            ≡ decoded n (length before + length bytes))
unfolding encode_varbyte decode_varbyte
decode-encode n h k = (groups 10 n, (λ before. encode_loop-groups 10 n before (omega arith)), found)
  where
    there :
        (before after : List ℕ)
        → ltb (length (before ++ (groups 10 n ++ after))) (length before) ≡ false
    there before after = ground (arith, length-append before (groups 10 n ++ after))

    found :
        (before after : List ℕ)
        → decode_varbyte (before ++ (groups 10 n ++ after)) (length before)
          ≡ decoded n (length before + length (groups 10 n))
    found before after =
        rw (there before after, drop-append)
          (decode_groups 10 5 0 n 1 0 (length before) after (omega arith) refl (omega arith) h refl
              (omega arith)
            ∙ ap₂ decoded (omega arith) refl)
