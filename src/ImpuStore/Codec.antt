-- ===== src/ImpuStore/Codec.antt =====
-- The stored form of the records: `to_data`, `from_data` and `compress_data_v0` of
-- src/impu_store.cpp. LZ4 and rapidjson's text form are parameters.
use homestead.Prelude.{
  ℕ, zero, suc, ◌*◌, ◌%◌, ◌^◌, String, not, ◌||◌, Option, none, some, List, [], ◌∷◌, ◌++◌, ltb,
  ◌==◌, if◌then◌else◌,
}
use homestead.Prelude.Lists.{length, drop}
use homestead.Varbyte.{encode_varbyte, decode_varbyte, Decoded, undefined, decoded}
use homestead.Store.{Status}
use homestead.ImpuStore.{Impu, default, associated, ImpiMapping}
use homestead.ImpuStore.Json.{
  Json, object, Members, find_member, JsonUtils, write_json_default, write_json_associated,
  write_json_mapping, from_json_default, from_json_associated, from_json_mapping,
}

-- `compress` is `LZ4_compress_fast_continue` with the dictionary, into a buffer of the given size;
-- `decompress` is `LZ4_decompress_safe_usingDict`. `print` and `parse` are rapidjson's writer and
-- parser, on bytes; `none` is a failure.
pub record Libs : Type 0 where
  pub json : JsonUtils
  pub compress : List ℕ → ℕ → Option (List ℕ)
  pub decompress : List ℕ → ℕ → Option (List ℕ)
  pub print : Json → List ℕ
  pub parse : List ℕ → Option Json

-- What a parser of stored data does: run into undefined behaviour, throw, return `nullptr`, or
-- return an object.
pub data Parsed {ℓ} (A : Type ℓ) : Type ℓ where
  faulted : Parsed A
  thrown : Parsed A
  invalid : Parsed A
  parsed : A → Parsed A

abbrev pub max_buffer_len : ℕ
max_buffer_len = 131072

module _ (libs : Libs) where
  unfoldable pub write_json : Impu → Members
  unfolding write_json_default write_json_associated
  write_json (default d) = write_json_default libs.json d
  write_json (associated a) = write_json_associated a

  -- Seven buffers are tried, of 2048 bytes up to `MAX_BUFFER_LEN`; the fuel does not run out before
  -- the test on the buffer's length ends the loop.
  unfoldable pub compress_loop : ℕ → List ℕ → ℕ → Option (List ℕ)
  compress_loop zero bytes buffer_length = none
  compress_loop (suc f) bytes buffer_length = elim (libs.compress bytes buffer_length) [
    | some out ↦ some out
    | none ↦
        let retry = compress_loop f bytes (buffer_length * 2) in
        if ltb max_buffer_len (buffer_length * 2) then none else retry
  ]

  unfoldable pub compress_data_v0 : List ℕ → Option (List ℕ)
  unfolding compress_loop
  compress_data_v0 bytes = compress_loop 8 bytes 2048

  -- `data` with the version, the size and the compressed text appended. The size is an `unsigned int`.
  unfoldable pub to_data : Impu → List ℕ → Status × List ℕ
  to_data impu bytes =
      let text = libs.print (object (write_json impu)) in
      elim (compress_data_v0 text) [
        | none ↦ (Status.error, bytes)
        | some out ↦ elim (encode_varbyte (length text % 2 ^ 32) (bytes ++ 0 ∷ [])) [
          | none ↦ (Status.error, bytes)
          | some header ↦ (Status.ok, header ++ out)
        ]
      ]

  unfoldable pub from_document : String → ℕ → Option ℕ → Json → Parsed Impu
  unfolding find_member from_json_default from_json_associated
  from_document impu cas store (object json) = elim (find_member "default_impu" json) [
    | some _ ↦ parsed (from_json_associated libs.json impu json cas store)
    | none ↦ elim (from_json_default libs.json impu json cas store) [
      | some i ↦ parsed i
      | none ↦ thrown
    ]
  ]
  from_document impu cas store _ = invalid

  -- `rc == 0 || rc != length` on the bytes that came out.
  unfoldable pub from_text : String → ℕ → Option ℕ → ℕ → Option (List ℕ) → Parsed Impu
  from_text impu cas store len none = invalid
  from_text impu cas store len (some text) =
      if length text == 0 || not (length text == len)
      then invalid
      else elim (libs.parse text) [ none ↦ invalid | some doc ↦ from_document impu cas store doc ]

  unfoldable pub from_sized : String → ℕ → Option ℕ → List ℕ → Decoded → Parsed Impu
  from_sized impu cas store bytes undefined = faulted
  from_sized impu cas store bytes (decoded len offset) =
      if len == 0
      then invalid
      else from_text impu cas store len (libs.decompress (drop offset bytes) len)

  unfoldable pub from_data : String → List ℕ → ℕ → Option ℕ → Parsed Impu
  from_data impu [] cas store = invalid
  from_data impu (version ∷ rest) cas store =
      if version == 0
      then from_sized impu cas store (version ∷ rest) (decode_varbyte (version ∷ rest) 1)
      else invalid

  -- Mappings are stored as plain JSON text.
  unfoldable pub to_data_mapping : ImpiMapping → List ℕ
  unfolding write_json_mapping
  to_data_mapping m = libs.print (object (write_json_mapping libs.json m))

  unfoldable pub mapping_document : String → ℕ → Option Json → Parsed ImpiMapping
  unfolding from_json_mapping
  mapping_document impi cas (some (object json)) =
      parsed (from_json_mapping libs.json impi json cas)
  mapping_document impi cas _ = invalid

  unfoldable pub from_data_mapping : String → List ℕ → ℕ → Parsed ImpiMapping
  from_data_mapping impi bytes cas = mapping_document impi cas (libs.parse bytes)
