-- ===== src/Cx/ReadAnswers.antt =====
-- What is read from the answers of the HSS that are built (src/cx.cpp), for a library that keeps its
-- laws.
use homestead.Prelude.{
  ℕ, String, false, ◌≡◌, refl, ap, List, [], ◌∷◌, map, if◌then◌else◌, Bool-cases, inl, inr,
}
use homestead.Prelude.Int.{ℤ, pos, eq_ℤ}
use homestead.HssConnection.{ServerCapabilities, DigestAuthVector, AkaAuthVector}
use homestead.Diameter.{AvpName, same, first, value_of, DiameterLib, DiameterLaws, named, named-map}
use homestead.Cx.{i32_avp, sip_auth_scheme}
use homestead.Cx.Answers.{
  vendor_first, code_first, result_avp, user_authorization_answer, location_info_answer,
  server_capabilities, multimedia_auth_answer, digest_auth_vector,
}
use homestead.Cx.Reads.{name-i32_avp, name-group, reads}

module _ (d : DiameterLib) (laws : DiameterLaws d) where
  named-i32s :
      (n k : AvpName) (ns : List ℤ)
      → named d.name_of n (map (i32_avp d k) ns) ≡ (if same n k then map (i32_avp d k) ns else [])
  named-i32s n k ns = named-map d.name_of n k (i32_avp d k) (name-i32_avp d laws k) ns

  vals-i32s : (k : AvpName) (ns : List ℤ) → map d.val_i32 (map (i32_avp d k) ns) ≡ ns
  vals-i32s k [] = refl
  vals-i32s k (n ∷ ns) = rw (laws.i32_set n (d.avp k)) (ap (λ rest. n ∷ rest) (vals-i32s k ns))

  pub name-result_avp :
      (n : AvpName) (code : ℤ) (experimental : List d.Avp)
      → same n AvpName.result_code ≡ false
      → same n AvpName.experimental_result ≡ false
      → same n (d.name_of (result_avp d code experimental)) ≡ false
  name-result_avp n code experimental h k = elim (Bool-cases (eq_ℤ code (pos 0))) [
    | inl e ↦ rw (e, name-group d laws AvpName.experimental_result experimental) k
    | inr e ↦ rw (e, name-i32_avp d laws AvpName.result_code code) h
  ]

  -- The capabilities of a user's authorization are read as they were built.
  pub server_capabilities-user_authorization_answer :
      (code experimental : ℤ) (vendor : ℕ) (server_name : String) (caps : ServerCapabilities)
      → server_capabilities d
          (user_authorization_answer d code vendor experimental server_name caps)
        ≡ caps
  unfolding user_authorization_answer server_capabilities named
  server_capabilities-user_authorization_answer code experimental vendor server_name caps = simp (
    reads,
    name-result_avp AvpName.server_capabilities code (vendor_first d vendor experimental) refl refl,
    named-i32s,
    vals-i32s,
  )

  -- The capabilities and the wildcard of a location are read as they were built.
  pub read-location_info_answer :
      (code experimental : ℤ) (vendor : ℕ) (server_name : String) (caps : ServerCapabilities)
      (wildcard : String)
      → (let lia = location_info_answer d code vendor experimental server_name caps wildcard in
          (server_capabilities d lia ≡ caps)
          × (value_of d.val_str "" (first (d.in_message.all AvpName.wildcarded_public_identity lia))
              ≡ wildcard)
          × (value_of d.val_str "" (first (d.in_message.all AvpName.server_name lia))
              ≡ server_name))
  unfolding location_info_answer server_capabilities named
  read-location_info_answer code experimental vendor server_name caps wildcard =
      let result = vendor_first d vendor experimental in
      (
        simp (
          reads,
          name-result_avp AvpName.server_capabilities code result refl refl,
          named-i32s,
          vals-i32s,
        ),
        simp (reads, name-result_avp AvpName.wildcarded_public_identity code result refl refl),
        simp (reads, name-result_avp AvpName.server_name code result refl refl),
      )

  -- The scheme and the digest of an authentication are read as they were built.
  pub digest_auth_vector-multimedia_auth_answer :
      (code experimental : ℤ) (vendor : ℕ) (scheme : String) (digest : DigestAuthVector)
      (aka : AkaAuthVector)
      → (let maa = multimedia_auth_answer d code vendor experimental scheme digest aka in
          (sip_auth_scheme d maa ≡ scheme) × (digest_auth_vector d maa ≡ digest))
  unfolding multimedia_auth_answer digest_auth_vector named sip_auth_scheme
  digest_auth_vector-multimedia_auth_answer code experimental vendor scheme digest aka =
      let result = code_first d vendor experimental in
      (
        simp (reads, name-result_avp AvpName.sip_auth_data_item code result refl refl),
        simp
            (reads, name-result_avp AvpName.sip_auth_data_item code result refl refl, laws.str_set),
      )
