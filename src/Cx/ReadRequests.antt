-- ===== src/Cx/ReadRequests.antt =====
-- What an HSS reads from the requests (src/cx.cpp), for a library that keeps its laws.
use homestead.Prelude.{
  ℕ, String, Bool, true, false, not, ◌≡◌, ◌&&◌, ◌||◌, zero, suc, refl, ap, ◌∙◌, Option, none, some,
  List, [], ◌∷◌, ◌++◌, if◌then◌else◌, arith,
}
use homestead.Prelude.Int.{ℤ, pos}
use homestead.HssConnection.{
  MultimediaAuthRequest, UserAuthRequest, LocationInfoRequest, ServerAssignmentRequest,
  ServerAssignmentType,
}
use homestead.Diameter.{
  AvpName, MessageName, same, first, value_of, DiameterLib, DiameterLaws, add_all, named,
  all-add_all,
}
use homestead.Cx.{
  Destination, when, str_avp, i32_avp, u32_avp, begun, str_of, i32_of, u32_of, shared_ifcs,
  assignment_code, include_wildcard_on_sar, authorization_code, user_authorization_request,
  location_info_request, multimedia_auth_request, server_assignment_request, sip_auth_scheme,
  sip_authorization,
}
use homestead.Cx.Reads.{name-str_avp, name-i32_avp, name-u32_avp, name-group, reads}
use text.Mathlib.Text.{◌==◌}

-- A text that is there unless it is empty.
abbrev pub unless_empty : String → Option String
unless_empty s = if s == "" then none else some s

-- The values of Server-Assignment-Type, counted from 0.
abbrev pub assignment_types : List ServerAssignmentType
assignment_types =
    ServerAssignmentType.no_assignment ∷ ServerAssignmentType.registration
    ∷ ServerAssignmentType.re_registration ∷ ServerAssignmentType.unregistered_user
    ∷ ServerAssignmentType.timeout_deregistration ∷ ServerAssignmentType.user_deregistration
    ∷ ServerAssignmentType.timeout_deregistration_store_server_name
    ∷ ServerAssignmentType.user_deregistration_store_server_name
    ∷ ServerAssignmentType.administrative_deregistration
    ∷ ServerAssignmentType.authentication_failure ∷ ServerAssignmentType.authentication_timeout
    ∷ ServerAssignmentType.deregistration_too_much_data ∷ []

-- The type that a number on the wire stands for.
abbrev pub type_at : List ServerAssignmentType → ℕ → Option ServerAssignmentType
type_at [] n = none
type_at (type ∷ rest) zero = some type
type_at (type ∷ rest) (suc n) = type_at rest n

-- The type that a request carries as its number.
abbrev pub type_read : Option ℤ → Option ServerAssignmentType
type_read (some (pos n)) = type_at assignment_types n
type_read _ = none

-- The types that a subscriber's own message leads to, or a failed authentication, bar a wildcard.
abbrev pub bars_wildcard : ServerAssignmentType → Bool
bars_wildcard ServerAssignmentType.registration = true
bars_wildcard ServerAssignmentType.re_registration = true
bars_wildcard ServerAssignmentType.user_deregistration = true
bars_wildcard ServerAssignmentType.user_deregistration_store_server_name = true
bars_wildcard ServerAssignmentType.authentication_failure = true
bars_wildcard ServerAssignmentType.authentication_timeout = true
bars_wildcard _ = false

type_read-assignment_code :
    (type : ServerAssignmentType) → type_read (some (assignment_code type)) ≡ some type
unfolding assignment_code
type_read-assignment_code type = ground arith

bars_wildcard_lem :
    (empty : Bool) (type : ServerAssignmentType)
    → (not empty && include_wildcard_on_sar type) ≡ not (empty || bars_wildcard type)
unfolding include_wildcard_on_sar
bars_wildcard_lem empty type = ground arith

-- A value that is there under a condition.
abbrev pub given {ℓ} : {A : Type ℓ} → Bool → A → Option A
given true a = some a
given false a = none

module _ (d : DiameterLib) (laws : DiameterLaws d) where
  all-begun :
      (n : AvpName) (c : MessageName)
      → d.in_message.all n (begun d c)
        ≡ named d.name_of n (i32_avp d AvpName.auth_session_state (pos 1) ∷ [])
  all-begun n c =
      all-add_all d.name_of d.in_message laws.message_laws n
        (i32_avp d AvpName.auth_session_state (pos 1) ∷ [])
        (d.add_app_id (d.add_new_session_id (d.message c)))
      ∙ simp (laws.all_app_id, laws.all_session, laws.all_message)

  -- All AVPs of a request.
  all-sent :
      (n : AvpName) (avps : List d.Avp) (m : d.Message)
      → d.in_message.all n (add_all d.in_message avps (d.add_origin m))
        ≡ d.in_message.all n m ++ named d.name_of n avps
  all-sent n avps m =
      all-add_all d.name_of d.in_message laws.message_laws n avps (d.add_origin m)
      ∙ ap (λ before. before ++ named d.name_of n avps) (laws.all_origin m n)

  named-when_str :
      (n k : AvpName) (b : Bool) (s : String)
      → named d.name_of n (when b (str_avp d k s))
        ≡ (if same n k then when b (str_avp d k s) else [])
  unfolding named
  named-when_str n k true s = rw (name-str_avp d laws k s) (ground arith)
  named-when_str n k false s = ground arith

  named-when_i32 :
      (n k : AvpName) (b : Bool) (i : ℤ)
      → named d.name_of n (when b (i32_avp d k i))
        ≡ (if same n k then when b (i32_avp d k i) else [])
  unfolding named
  named-when_i32 n k true i = rw (name-i32_avp d laws k i) (ground arith)
  named-when_i32 n k false i = ground arith

  named-when_features :
      (n : AvpName) (b : Bool)
      → named d.name_of n (when b (shared_ifcs d))
        ≡ (if same n AvpName.supported_features then when b (shared_ifcs d) else [])
  unfolding named
  named-when_features n true = rw (name-group d laws) (ground arith)
  named-when_features n false = ground arith

  str-when :
      (k : AvpName) (b : Bool) (s : String)
      → value_of (λ a. some (d.val_str a)) none (first (when b (str_avp d k s))) ≡ given b s
  str-when k true s = ap some (laws.str_set s (d.avp k))
  str-when k false s = refl

  i32-when :
      (k : AvpName) (b : Bool) (i : ℤ)
      → value_of (λ a. some (d.val_i32 a)) none (first (when b (i32_avp d k i))) ≡ given b i
  i32-when k true i = ap some (laws.i32_set i (d.avp k))
  i32-when k false i = refl

  u32-when :
      (k : AvpName) (b : Bool) (n : ℕ)
      → value_of (λ a. some (d.val_u32 a)) none (first (when b (u32_avp d k n))) ≡ given b n
  u32-when k true n = ap some (laws.u32_set n (d.avp k))
  u32-when k false n = refl

  named-when_u32 :
      (n k : AvpName) (b : Bool) (i : ℕ)
      → named d.name_of n (when b (u32_avp d k i))
        ≡ (if same n k then when b (u32_avp d k i) else [])
  unfolding named
  named-when_u32 n k true i = rw (name-u32_avp d laws k i) (ground arith)
  named-when_u32 n k false i = ground arith

  all-added :
      (n : AvpName) (avps : List d.Avp) (c : MessageName)
      → d.in_message.all n (add_all d.in_message avps (begun d c))
        ≡ d.in_message.all n (begun d c) ++ named d.name_of n avps
  all-added n avps c = all-add_all d.name_of d.in_message laws.message_laws n avps (begun d c)

  ruleset sent = (all-sent, all-begun, named-when_str, named-when_i32)

  type_read-server_assignment_request :
      (dest : Destination) (sar : ServerAssignmentRequest)
      → type_read (i32_of d AvpName.server_assignment_type (server_assignment_request d dest sar))
        ≡ some sar.assignment
  unfolding server_assignment_request named
  type_read-server_assignment_request dest sar =
      simp (reads, sent, laws.i32_set, type_read-assignment_code)

  wildcard-server_assignment_request :
      (dest : Destination) (sar : ServerAssignmentRequest)
      → str_of d AvpName.wildcarded_public_identity (server_assignment_request d dest sar)
        ≡ given
            (not (sar.wildcard_impu == "") && include_wildcard_on_sar sar.assignment)
            sar.wildcard_impu
  unfolding server_assignment_request named
  wildcard-server_assignment_request dest sar = simp (reads, sent, named-when_features, str-when)

  -- For a Diameter library that keeps its laws, a request for a server assignment names the public
  -- identity, the server and the realm, and its type by the number that the protocol's table has for it;
  -- it names the private identity and the host unless they are empty, and the wildcard unless it is empty
  -- or the type is that of a (re-)registration, a user's deregistration or a failed authentication.
  pub read-server_assignment_request :
      (dest : Destination) (sar : ServerAssignmentRequest)
      → (let m = server_assignment_request d dest sar in
          (str_of d AvpName.public_identity m ≡ some sar.impu)
          × (str_of d AvpName.server_name m ≡ some sar.server_name)
          × (type_read (i32_of d AvpName.server_assignment_type m) ≡ some sar.assignment)
          × (str_of d AvpName.user_name m ≡ given (not (sar.impi == "")) sar.impi)
          × (str_of d AvpName.wildcarded_public_identity m
              ≡ given
                  (not (sar.wildcard_impu == "" || bars_wildcard sar.assignment))
                  sar.wildcard_impu)
          × (str_of d AvpName.destination_host m
              ≡ given (not (dest.dest_host == "")) dest.dest_host)
          × (str_of d AvpName.destination_realm m ≡ some dest.dest_realm))
  unfolding server_assignment_request named
  read-server_assignment_request dest sar = (
    simp (reads, sent, laws.str_set),
    simp (reads, sent, laws.str_set),
    type_read-server_assignment_request dest sar,
    simp (reads, sent, named-when_features, str-when),
    wildcard-server_assignment_request dest sar
        ∙ ap (λ b. given b sar.wildcard_impu)
            (bars_wildcard_lem (sar.wildcard_impu == "") sar.assignment),
    simp (reads, sent, named-when_features, str-when),
    simp (reads, sent, laws.str_set),
  )

  -- A request for a user's authorization names both identities, the network and the type.
  pub read-user_authorization_request :
      (dest : Destination) (uar : UserAuthRequest)
      → (let m = user_authorization_request d dest uar in
          (str_of d AvpName.user_name m ≡ some uar.impi)
          × (str_of d AvpName.public_identity m ≡ some uar.impu)
          × (str_of d AvpName.visited_network_identifier m ≡ some uar.visited_network)
          × (i32_of d AvpName.user_authorization_type m
              ≡ some (authorization_code uar.authorization_type))
          × (u32_of d AvpName.uar_flags m ≡ given uar.emergency 1))
  unfolding user_authorization_request named
  read-user_authorization_request dest uar = (
    simp (reads, sent, laws.str_set),
    simp (reads, sent, laws.str_set),
    simp (reads, sent, laws.str_set),
    simp (reads, sent, laws.i32_set),
    simp (reads, sent, named-when_u32, u32-when),
  )

  -- A request for a location names the public identity; it says that the call originates, and that
  -- capabilities are asked for, exactly if the task says so.
  pub read-location_info_request :
      (dest : Destination) (lir : LocationInfoRequest)
      → (let m = location_info_request d dest lir in
          (str_of d AvpName.public_identity m ≡ some lir.impu)
          × (i32_of d AvpName.originating_request m ≡ given (lir.originating == "true") (pos 0))
          × (i32_of d AvpName.user_authorization_type m
              ≡ given (lir.authorization_type == "CAPAB") (pos 2)))
  unfolding location_info_request named
  read-location_info_request dest lir =
      (simp (reads, sent, laws.str_set), simp (reads, sent, i32-when), simp (reads, sent, i32-when))

  -- A request for authentication names both identities and the server, and is read with the scheme and
  -- the authorization that it was built with.
  pub read-multimedia_auth_request :
      (dest : Destination) (mar : MultimediaAuthRequest)
      → (let m = multimedia_auth_request d dest mar in
          (str_of d AvpName.user_name m ≡ some mar.impi)
          × (str_of d AvpName.public_identity m ≡ some mar.impu)
          × (str_of d AvpName.server_name m ≡ some mar.server_name)
          × (sip_auth_scheme d m ≡ mar.scheme)
          × (sip_authorization d m ≡ mar.authorization))
  unfolding multimedia_auth_request sip_auth_scheme sip_authorization named
  read-multimedia_auth_request dest mar = (
    simp (reads, sent, all-added, laws.str_set),
    simp (reads, sent, all-added, laws.str_set),
    simp (reads, sent, all-added, laws.str_set),
    simp (reads, sent, all-added, laws.str_set),
    simp (reads, sent, all-added),
  )
