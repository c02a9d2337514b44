-- ===== src/ImpuStore/Mapping.antt =====
-- The IMPI mappings of include/impu_store.h and their stored form, and the failures of `to_data` and
-- of the reads (src/impu_store.cpp).
use native.Mathlib.Nat.{pow-suc, one-le-pow, pow-le-pow_right}
use homestead.Prelude.{
  ℕ, zero, suc, ◌*◌, ◌%◌, ◌^◌, ◌≤◌, ◌<◌, ◌≡◌, refl, ap, ◌∙◌, inl, inr, String, false, ◌||◌, some,
  List, [], ◌∷◌, ◌++◌, arith, ltb, if◌then◌else◌, Option-cases,
}
use homestead.Prelude.Int.{pos}
use homestead.Prelude.Lists.{length, contains, contains-without, contains-append}
use homestead.Varbyte.Safety.{encode_varbyte_total}
use homestead.Store.{Status}
use homestead.ImpuStore.{Impu, ImpiMapping, add_default_impu, has_default_impu, remove_default_impu}
use homestead.ImpuStore.Json.{
  object, find_member, ReadsMembers, Members, write_json_mapping, from_json_mapping,
}
use homestead.ImpuStore.Codec.{
  Libs, parsed, max_buffer_len, write_json, compress_loop, compress_data_v0, to_data,
  to_data_mapping, from_data_mapping, mapping_document,
}
use homestead.ImpuStore.RoundTrip.{IsPrintable}
use text.Mathlib.Text.{◌==◌ as str_eq}

-- Adding an IMPU to a mapping and removing one decide membership for every IMPU: the added one is
-- there, the removed one is gone however often it stood there, and no other changes.
pub mapping_members :
    (m : ImpiMapping) (impu other : String)
    → (has_default_impu (add_default_impu m impu) other
        ≡ (has_default_impu m other || str_eq impu other))
      × (has_default_impu (remove_default_impu m impu) other
          ≡ (if str_eq impu other then false else has_default_impu m other))
unfolding has_default_impu add_default_impu remove_default_impu contains
mapping_members m impu other = (
  ground (arith, contains-append other m.default_impus (impu ∷ [])),
  contains-without impu other m.default_impus,
)

grown : (a p : ℕ) → 1 ≤ p → a ≤ a * p
grown a p h = grind arith

module _ (libs : Libs) where
  mapping_read :
      (m : ImpiMapping) (cas : ℕ)
      → ReadsMembers libs.json
      → from_json_mapping libs.json m.impi (write_json_mapping libs.json m) cas
        ≡ record m { cas = cas }
  unfolding write_json_mapping from_json_mapping find_member
  mapping_read m cas r =
      let ms : Members = write_json_mapping libs.json m in
      rw (
        r.reads_int ms "expiry" m.expiry (pos 0) refl,
        r.reads_array ms "default_impus" m.default_impus refl,
      )

  -- A mapping that is written, if its JSON can be parsed, is read back with the version of the read.
  pub from_data_mapping-to_data_mapping :
      (m : ImpiMapping) (cas : ℕ)
      → ReadsMembers libs.json
      → IsPrintable libs (write_json_mapping libs.json m)
      → from_data_mapping libs m.impi (to_data_mapping libs m) cas ≡ parsed (record m { cas = cas })
  unfolding from_data_mapping to_data_mapping mapping_document
  from_data_mapping-to_data_mapping m cas r p =
      rw (p, mapping_document) (ap parsed (mapping_read m cas r))

  compress_loop_fits :
      (f n k size : ℕ) (text out : List ℕ)
      → k < f
      → size ≡ n * 2 ^ k
      → size ≤ max_buffer_len
      → libs.compress text size ≡ some out
      → (o : List ℕ) × (compress_loop libs f text n ≡ some o)
  unfolding compress_loop
  compress_loop_fits zero n k size text out h e b c = absurd (omega arith)
  compress_loop_fits (suc f) n zero size text out h e b c =
      let same : size ≡ n = omega (arith, e) in
      (out, let now : libs.compress text n ≡ some out = rw (← same) c in rw (now, compress_loop))
  compress_loop_fits (suc f) n (suc k) size text out h e b c =
      let double : size ≡ n * 2 * 2 ^ k = e ∙ rw (pow-suc 2 k) (omega arith) in
      let room : n * 2 ≤ size = rw double (grown (n * 2) (2 ^ k) (one-le-pow k 2 (omega arith))) in
      let small : ltb max_buffer_len (n * 2) ≡ false = ground arith in
      let (o, retried) = compress_loop_fits f (n * 2) k size text out (omega arith) double b c in
      elim (Option-cases (libs.compress text n)) [
        | inr (p, done) ↦ (p, rw (done, compress_loop))
        | inl failed ↦ (o, rw (failed, compress_loop) (rw small retried))
      ]

  -- `to_data` succeeds if the text fits one of the seven buffers, from 2 KB doubling up to 128 KB.
  pub to_data_fits :
      (i : Impu) (before out : List ℕ) (k : ℕ)
      → k ≤ 6
      → libs.compress (libs.print (object (write_json libs i))) (2048 * 2 ^ k) ≡ some out
      → (to_data libs i before).0 ≡ Status.ok
  unfolding to_data compress_data_v0
  to_data_fits i before out k h e =
      let text : List ℕ = libs.print (object (write_json libs i)) in
      let (o, done) =
        compress_loop_fits 8 2048 k (2048 * 2 ^ k) text out (omega arith) refl
          (omega (arith, pow-le-pow_right {n = 2} (omega arith) h)) e in
      let (bytes, encoded, octets, short) =
        encode_varbyte_total (length text % 2 ^ 32) (before ++ 0 ∷ []) (omega arith) in
      rw (done, to_data) (rw (encoded, to_data))
