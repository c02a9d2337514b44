-- ===== src/Cx/Reads.antt =====
-- What is read from the messages that are built (src/cx.cpp), for a library that keeps its laws.
use homestead.Prelude.{
  ℕ, String, ◌≡◌, refl, sym, ap, ◌∙◌, List, [], ◌∷◌, ◌++◌, map, if◌then◌else◌, arith, Bool-cases,
  inl, inr, eq_iff,
}
use homestead.Prelude.Int.{ℤ}
use homestead.Diameter.{
  AvpName, MessageName, same, Holder, HolderLaws, first, value_of, DiameterLib, DiameterLaws,
  add_all, named, all-add_all, named-append, named-map,
}
use homestead.Cx.{str_avp, i32_avp, u32_avp, group, str_unless_empty}
use text.Mathlib.Text.{◌==◌}
use mathlib.Core.List.{append-nil}
use homestead.Cx.Pushed.{
  identities_avps, registration_termination_request, associated_identities, impus,
  deregistration_reason, response, registration_termination_answer,
}

module _ (d : DiameterLib) (laws : DiameterLaws d) where
  pub name-str_avp : (k : AvpName) (s : String) → d.name_of (str_avp d k s) ≡ k
  name-str_avp k s = laws.name_str s (d.avp k) ∙ laws.name_avp k

  pub name-i32_avp : (k : AvpName) (i : ℤ) → d.name_of (i32_avp d k i) ≡ k
  name-i32_avp k i = laws.name_i32 i (d.avp k) ∙ laws.name_avp k

  pub name-u32_avp : (k : AvpName) (n : ℕ) → d.name_of (u32_avp d k n) ≡ k
  name-u32_avp k n = laws.name_u32 n (d.avp k) ∙ laws.name_avp k

  name-add_all : (avps : List d.Avp) (a : d.Avp) → d.name_of (add_all d.in_avp avps a) ≡ d.name_of a
  unfolding add_all
  name-add_all [] a = refl
  name-add_all (b ∷ avps) a = name-add_all avps (d.in_avp.add b a) ∙ laws.name_add b a

  pub name-group : (k : AvpName) (avps : List d.Avp) → d.name_of (group d k avps) ≡ k
  name-group k avps = name-add_all avps (d.avp k) ∙ laws.name_avp k

  -- The AVPs of a group, and of a message that is built from its command.
  pub all-group :
      (n k : AvpName) (avps : List d.Avp) → d.in_avp.all n (group d k avps) ≡ named d.name_of n avps
  all-group n k avps =
      all-add_all d.name_of d.in_avp laws.avp_laws n avps (d.avp k)
      ∙ ap (λ before. before ++ named d.name_of n avps) (laws.all_avp k n)

  pub all-built :
      (n : AvpName) (c : MessageName) (avps : List d.Avp)
      → d.in_message.all n (add_all d.in_message avps (d.message c)) ≡ named d.name_of n avps
  all-built n c avps =
      all-add_all d.name_of d.in_message laws.message_laws n avps (d.message c)
      ∙ ap (λ before. before ++ named d.name_of n avps) (laws.all_message c n)

  pub named-strs :
      (n k : AvpName) (ss : List String)
      → named d.name_of n (map (str_avp d k) ss) ≡ (if same n k then map (str_avp d k) ss else [])
  named-strs n k ss = named-map d.name_of n k (str_avp d k) (name-str_avp k) ss

  pub vals-strs : (k : AvpName) (ss : List String) → map d.val_str (map (str_avp d k) ss) ≡ ss
  vals-strs k [] = refl
  vals-strs k (s ∷ ss) = rw (laws.str_set s (d.avp k)) (ap (λ rest. s ∷ rest) (vals-strs k ss))

  pub named-str_unless_empty :
      (n k : AvpName) (s : String)
      → named d.name_of n (str_unless_empty d k s)
        ≡ (if same n k then str_unless_empty d k s else [])
  unfolding named
  named-str_unless_empty n k s = elim (Bool-cases (s == "")) [
    | inl e ↦ rw e (ground arith)
    | inr e ↦ rw (e, name-str_avp k s) (ground arith)
  ]

  -- A text that is left out if it is empty is read all the same.
  pub val-str_unless_empty :
      (k : AvpName) (s : String) → value_of d.val_str "" (first (str_unless_empty d k s)) ≡ s
  val-str_unless_empty k s = elim (Bool-cases (s == "")) [
    | inl e ↦ rw e (sym ((eq_iff s "").0 e))
    | inr e ↦ rw e (laws.str_set s (d.avp k))
  ]

  pub ruleset reads = (
    all-built, all-group, named-append, named-strs, vals-strs, name-str_avp, name-i32_avp,
    name-u32_avp, name-group, append-nil, named-str_unless_empty, val-str_unless_empty,
  )

  -- A termination request is read as it was built.
  pub read-registration_termination_request :
      (reason auth : ℤ) (impi : String) (others ids : List String)
      → (let rtr = registration_termination_request d reason impi others ids auth in
          (associated_identities d rtr ≡ others)
          × (impus d rtr ≡ ids)
          × (deregistration_reason d rtr ≡ reason))
  unfolding registration_termination_request associated_identities impus deregistration_reason named
  read-registration_termination_request reason auth impi [] ids =
      (simp reads, simp reads, simp (reads, laws.i32_set))
  read-registration_termination_request reason auth impi (other ∷ others) ids =
      (simp (reads, laws.str_set), simp reads, simp (reads, laws.i32_set))

  response-all :
      (request : d.Message) (result_code : String) (auth : ℤ)
      → d.in_message.all AvpName.associated_identities (response d request result_code auth) ≡ []
  response-all request result_code auth =
      let before = d.set_result_code result_code (d.add_app_id (d.build_response request)) in
      laws.message_laws.all_add (i32_avp d AvpName.auth_session_state auth) before
        AvpName.associated_identities
      ∙ simp (
        name-i32_avp,
        laws.all_app_id,
        laws.all_response,
        append-nil,
        laws.all_set_result result_code (d.add_app_id (d.build_response request))
            AvpName.associated_identities refl,
      )

  -- The private identities of an answer are read as they were built.
  pub associated_identities-registration_termination_answer :
      (rtr : d.Message) (result_code : String) (auth : ℤ) (impis : List String)
      → associated_identities d (registration_termination_answer d rtr result_code auth impis)
        ≡ impis
  unfolding registration_termination_answer associated_identities named add_all
  associated_identities-registration_termination_answer rtr result_code auth [] =
      rw (response-all rtr result_code auth, add_all) refl
  associated_identities-registration_termination_answer rtr result_code auth (impi ∷ impis) =
      let as_added =
        all-add_all d.name_of d.in_message laws.message_laws AvpName.associated_identities
          (identities_avps d (impi ∷ impis)) (response d rtr result_code auth) in
      simp (as_added, response-all rtr result_code auth, reads, laws.str_set)
