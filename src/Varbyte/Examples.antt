-- ===== src/Varbyte/Examples.antt =====
-- Runs of the size codec, and its theorems at concrete sizes.
use homestead.Prelude.{ℕ, ◌+◌, ◌≡◌, refl, some, List, [], ◌∷◌, ◌++◌, arith}
use homestead.Prelude.Lists.{length}
use homestead.Varbyte.{encode_varbyte, decoded, undefined, decode_varbyte}
use homestead.Varbyte.RoundTrip.{decode-encode}
use homestead.Varbyte.Safety.{decode_varbyte-undefined}

encodes_300 : encode_varbyte 300 (0 ∷ []) ≡ some (0 ∷ 172 ∷ 2 ∷ [])
unfolding encode_varbyte
encodes_300 = refl

gives_up_unfinished : decode_varbyte (0 ∷ 172 ∷ []) 1 ≡ decoded 0 2
unfolding decode_varbyte
gives_up_unfinished = refl

decode-encode_example :
    (bytes : List ℕ) × ((before : List ℕ) → encode_varbyte 300 before ≡ some (before ++ bytes))
    × ((before after : List ℕ)
        → decode_varbyte (before ++ (bytes ++ after)) (length before)
          ≡ decoded 300 (length before + length bytes))
decode-encode_example = decode-encode 300 (omega arith) (omega arith)

reads_300 : decode_varbyte (0 ∷ 172 ∷ 2 ∷ 7 ∷ []) 1 ≡ decoded 300 3
unfolding decode_varbyte
reads_300 = refl

decode_varbyte-undefined_example :
    decode_varbyte ((1 + 128) ∷ 128 ∷ 128 ∷ 128 ∷ 128 ∷ 0 ∷ []) 0 ≡ undefined
decode_varbyte-undefined_example = decode_varbyte-undefined 1 0 [] (omega arith)
