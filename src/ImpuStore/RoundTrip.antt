-- ===== src/ImpuStore/RoundTrip.antt =====
-- What `to_data` writes, `from_data` reads (src/impu_store.cpp).
use mathlib.Core.List.{append_assoc}
use homestead.Prelude.{
  ℕ, zero, suc, ◌+◌, ◌*◌, ◌%◌, ◌^◌, ◌<◌, ◌≡◌, refl, ap, ◌∙◌, inl, inr, String, true, false, Option,
  some, List, [], ◌∷◌, ◌++◌, arith, ltb, ◌==◌, Bool-cases, Option-cases,
}
use homestead.Prelude.Int.{pos}
use homestead.Prelude.Lists.{length, drop, drop-append}
use homestead.Varbyte.{int_max, decode_varbyte, decoded}
use homestead.Varbyte.RoundTrip.{decode-encode}
use homestead.Store.{Status}
use homestead.ImpuStore.{Impu, default, associated, impu_id}
use homestead.ImpuStore.Json.{object, Members, find_member, ReadsMembers, state_bool, state_of_bool}
use homestead.ImpuStore.Codec.{
  Libs, parsed, max_buffer_len, write_json, compress_loop, compress_data_v0, to_data, from_document,
  from_text, from_sized, from_data,
}

-- What comes back: the record, with the version and the store of the read, and with a state that is
-- neither REGISTERED nor UNREGISTERED turned into UNREGISTERED.
unfoldable pub restored : Impu → ℕ → Option ℕ → Impu
restored (default d) cas store = default (record d {
  cas = cas;
  store = store;
  registration_state = state_of_bool (state_bool d.registration_state);
})
restored (associated a) cas store = associated (record a { cas = cas; store = store })

-- The documented behaviour of the libraries: the helpers read the members that are there, and what
-- was compressed decompresses to itself.
pub record RestoresText (libs : Libs) : Type 0 where
  pub reads : ReadsMembers libs.json
  pub decompresses :
      (text out : List ℕ) (n : ℕ)
      → libs.compress text n ≡ some out
      → libs.decompress out (length text) ≡ some text

add_one_comm : (n : ℕ) → 1 + n ≡ suc n
add_one_comm n = omega arith

-- The JSON text of an object parses to the object.
abbrev pub IsPrintable : Libs → Members → Type 0
IsPrintable libs ms = libs.parse (libs.print (object ms)) ≡ some (object ms)

module _ (libs : Libs) (restores : RestoresText libs) where
  document-write_json :
      (i : Impu) (cas : ℕ) (store : Option ℕ)
      → from_document libs (impu_id i) cas store (object (write_json libs i))
        ≡ parsed (restored i cas store)
  unfolding from_document write_json restored find_member
  document-write_json (associated a) cas store =
      let ms : Members = write_json libs (associated a) in
      let r : ReadsMembers libs.json = restores.reads in
      rw (
        r.reads_string ms "default_impu" a.default_impu "" refl,
        r.reads_int ms "expiry" a.expiry (pos 0) refl,
      )
  document-write_json (default d) cas store =
      let ms : Members = write_json libs (default d) in
      let r : ReadsMembers libs.json = restores.reads in
      rw
        (r.reads_bool ms "registration_state" (state_bool d.registration_state) refl, from_document)
        (rw (
          r.reads_int ms "expiry" d.expiry (pos 0) refl,
          r.reads_string ms "service_profile" d.service_profile "" refl,
          r.reads_array ms "assoc_impu" d.associated_impus refl,
          r.reads_array ms "impis" d.impis refl,
          r.reads_array ms "ecfs" d.charging_addresses.ecfs refl,
          r.reads_array ms "ccfs" d.charging_addresses.ccfs refl,
        ))

  compress_loop-some :
      (f : ℕ) (text : List ℕ) (n : ℕ) (out : List ℕ)
      → compress_loop libs f text n ≡ some out
      → libs.decompress out (length text) ≡ some text
  unfolding compress_loop
  compress_loop-some zero text n out h = cc
  compress_loop-some (suc f) text n out h = elim (Option-cases (libs.compress text n)) [
    | inr (o, e) ↦ restores.decompresses text out n (e ∙ rw (e, compress_loop) at h)
    | inl e ↦ elim (Bool-cases (ltb max_buffer_len (n * 2))) [
      | inl big ↦ cc (rw (big, compress_loop) at (rw (e, compress_loop) at h))
      | inr fits ↦
          compress_loop-some f text (n * 2) out
            (rw (fits, compress_loop) at (rw (e, compress_loop) at h))
    ]
  ]

  -- The parts of what `to_data` appends.
  to_data_parts :
      (i : Impu) (before out : List ℕ)
      → let text = libs.print (object (write_json libs i)) in
        compress_data_v0 libs text ≡ some out
        → 0 < length text
        → length text < int_max
        → (header : List ℕ) × (to_data libs i before ≡ (Status.ok, before ++ 0 ∷ (header ++ out)))
          × ((after : List ℕ)
              → decode_varbyte (0 ∷ (header ++ after)) 1
                ≡ decoded (length text) (1 + length header))
  unfolding to_data
  to_data_parts i before out e lo hi =
      let text : List ℕ = libs.print (object (write_json libs i)) in
      let (header, encodes, decodes) = decode-encode (length text) lo hi in
      let word : length text % 2 ^ 32 ≡ length text = omega arith in
      (
        header,
        rw (e, to_data)
            (rw word (
              rw (encodes (before ++ 0 ∷ []), to_data)
                (ap (λ (x : List ℕ). (Status.ok, x)) (simp append_assoc)))),
        λ after. decodes (0 ∷ []) after,
      )

  to_data_compressed :
      (i : Impu) (before : List ℕ)
      → (to_data libs i before).0 ≡ Status.ok
      → (out : List ℕ) × (compress_data_v0 libs (libs.print (object (write_json libs i)))
          ≡ some out)
  unfolding to_data
  to_data_compressed i before h =
      elim (Option-cases (compress_data_v0 libs (libs.print (object (write_json libs i))))) [
        | inr (out, e) ↦ (out, e)
        | inl e ↦ cc (rw (e, to_data) at h)
      ]

  -- The steps of `from_data` on bytes of version 0 that decompress to an object.
  from_data_steps :
      (impu : String) (rest text : List ℕ) (offset : ℕ) (ms : Members) (cas : ℕ) (store : Option ℕ)
      → decode_varbyte (0 ∷ rest) 1 ≡ decoded (length text) offset
      → 0 < length text
      → libs.decompress (drop offset (0 ∷ rest)) (length text) ≡ some text
      → libs.parse text ≡ some (object ms)
      → from_data libs impu (0 ∷ rest) cas store ≡ from_document libs impu cas store (object ms)
  unfolding from_data from_sized from_text
  from_data_steps impu rest text offset ms cas store sized lo unpacked parses =
      let some_text : (length text == 0) ≡ false = ground arith in
      let whole : (length text == length text) ≡ true = ground arith in
      rw (sized, from_data)
        (rw some_text (rw (unpacked, from_text) (rw some_text (rw whole (rw (parses, from_data))))))

  -- Whatever record `to_data` reports OK for, whose JSON has a size that the header can hold, is
  -- read back from the bytes: with the version and the store of the read, and with any state but
  -- REGISTERED read as UNREGISTERED.
  pub from_data-to_data :
      (i : Impu) (cas : ℕ) (store : Option ℕ)
      → IsPrintable libs (write_json libs i)
      → (to_data libs i []).0 ≡ Status.ok
      → 0 < length (libs.print (object (write_json libs i)))
      → length (libs.print (object (write_json libs i))) < int_max
      → from_data libs (impu_id i) (to_data libs i []).1 cas store ≡ parsed (restored i cas store)
  unfolding compress_data_v0
  from_data-to_data i cas store p h lo hi =
      let text : List ℕ = libs.print (object (write_json libs i)) in
      let (out, e) = to_data_compressed i [] h in
      let (header, written, sized) = to_data_parts i [] out e lo hi in
      let behind : drop (1 + length header) (0 ∷ (header ++ out)) ≡ out =
        rw (add_one_comm (length header)) (drop-append header out) in
      rw written (
        from_data_steps (impu_id i) (header ++ out) text (1 + length header) (write_json libs i) cas
          store (sized out) lo (rw behind (compress_loop-some 8 text 2048 out e)) p
        ∙ document-write_json i cas store)
