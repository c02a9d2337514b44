-- ===== src/Varbyte.antt =====
-- The variable-length sizes of the IMPU records: `encode_varbyte` and `decode_varbyte` of
-- src/impu_store.cpp. A byte is a number below 256; `bits | 0x80` is `+ 128` for a 7-bit value.
pub mod RoundTrip
pub mod Safety
mod Examples
use homestead.Prelude.{
  ℕ, zero, suc, ◌+◌, ◌-◌, ◌*◌, ◌/◌, ◌%◌, ◌^◌, Bool, true, false, not, ◌||◌, Option, none, some,
  List, [], ◌∷◌, ◌++◌, ltb, leb, ◌==◌, if◌then◌else◌,
}
use homestead.Prelude.Lists.{length, drop}

abbrev pub int_max : ℕ
int_max = 2 ^ 31 - 1

-- `size_byte`, with the top bit set where more bits follow.
unfoldable pub size_byte : ℕ → ℕ
size_byte n = if n / 128 == 0 then n % 128 else n % 128 + 128

-- `while (uncomp_size != 0)`, on fuel.
unfoldable pub encode_loop : ℕ → ℕ → List ℕ → Option (List ℕ)
encode_loop zero n bytes = if n == 0 then some bytes else none
encode_loop (suc f) n bytes =
    let rest = encode_loop f (n / 128) (bytes ++ size_byte n ∷ []) in
    if n == 0 then some bytes else rest

-- A `uint64_t` has at most ten groups of seven bits.
unfoldable pub encode_varbyte : ℕ → List ℕ → Option (List ℕ)
unfolding encode_loop size_byte
encode_varbyte n bytes = encode_loop 10 n bytes

-- What a decoder call does: return a length and move the offset, or run into undefined behaviour.
pub data Decoded : Type 0 where
  undefined : Decoded
  decoded : ℕ → ℕ → Decoded

-- `bits << (7*i)` on `int`, converted to `uint64_t`. A shift by 32 or more is undefined, and so is
-- a result that the unsigned type cannot hold; a result with the sign bit set is extended.
unfoldable pub shifted : ℕ → ℕ → Option ℕ
shifted bits i =
    if leb 32 (7 * i)
    then none
    else if leb (2 ^ 32) (bits * 2 ^ (7 * i))
    then none
    else if leb (2 ^ 31) (bits * 2 ^ (7 * i))
    then some (bits * 2 ^ (7 * i) + (2 ^ 64 - 2 ^ 32))
    else some (bits * 2 ^ (7 * i))

abbrev pub is_empty {ℓ} : {A : Type ℓ} → List A → Bool
is_empty [] = true
is_empty (x ∷ xs) = false

-- After the loop: a length that is unfinished or too long is given up as 0.
unfoldable pub finish : Bool → ℕ → ℕ → Decoded
finish done len offset = decoded (if not done || leb int_max len then 0 else len) offset

-- The `do … while` loop, on the bytes from `offset` on. The bits of each round lie above those
-- gathered so far, so `length |= …` is a sum.
unfoldable pub decode_loop : List ℕ → ℕ → ℕ → ℕ → Decoded
unfolding finish shifted
decode_loop [] i len offset = finish true len (offset + 1)
decode_loop (b ∷ rest) i len offset = elim (shifted (b % 128) i) [
  | none ↦ undefined
  | some bits ↦
      let more = decode_loop rest (i + 1) (len + bits) (offset + 1) in
      if ltb b 128 || leb int_max (len + bits) || is_empty rest
      then finish (ltb b 128) (len + bits) (offset + 1)
      else more
]

-- `data[offset]` is the terminator at the end of the string, and undefined past it.
unfoldable pub decode_varbyte : List ℕ → ℕ → Decoded
unfolding decode_loop
decode_varbyte bytes offset =
    if ltb (length bytes) offset then undefined else decode_loop (drop offset bytes) 0 0 offset
