-- ===== src/Diameter.antt =====
-- What src/cx.cpp uses of `Diameter`, which another repository implements: messages and AVPs, as an
-- interface with the laws that it is relied on for. The AVPs are those of `Cx::Dictionary`
-- (include/cx.h, src/cx.cpp) and, first, those of the base protocol.
pub mod Trees
use homestead.Prelude.{
  ℕ, String, Bool, false, ◌≡◌, refl, sym, ap, ◌∙◌, Option, none, some, List, [], ◌∷◌, ◌++◌, map,
  if◌then◌else◌, ◌==◌, arith, Bool-cases, inl, inr,
}
use homestead.Prelude.Int.{ℤ, pos}
use mathlib.Core.List.{append-nil, append_assoc}

pub data AvpName : Type 0 where
  auth_session_state destination_host destination_realm user_name result_code experimental_result
        experimental_result_code digest_ha1 digest_realm digest_qop public_identity
        sip_auth_data_item sip_auth_scheme sip_authorization sip_number_auth_items server_name
        sip_digest_authenticate cx_digest_ha1 cx_digest_realm visited_network_identifier
        server_capabilities mandatory_capability optional_capability server_assignment_type
        user_authorization_type originating_request user_data_already_available user_data
        cx_digest_qop sip_authenticate confidentiality_key integrity_key associated_identities
        deregistration_reason reason_code identity_with_emergency_registration charging_information
        primary_charging_collection_function_name secondary_charging_collection_function_name
        primary_event_charging_function_name secondary_event_charging_function_name
        supported_features vendor_id feature_list_id feature_list wildcarded_public_identity
        uar_flags :
      AvpName

pub data MessageName : Type 0 where
  user_authorization_request user_authorization_answer location_info_request location_info_answer
        multimedia_auth_request multimedia_auth_answer server_assignment_request
        server_assignment_answer registration_termination_request registration_termination_answer
        push_profile_request push_profile_answer :
      MessageName

-- AVPs are told apart by their places in the dictionary.
abbrev place : AvpName → ℕ
place AvpName.auth_session_state = 0
place AvpName.destination_host = 1
place AvpName.destination_realm = 2
place AvpName.user_name = 3
place AvpName.result_code = 4
place AvpName.experimental_result = 5
place AvpName.experimental_result_code = 6
place AvpName.digest_ha1 = 7
place AvpName.digest_realm = 8
place AvpName.digest_qop = 9
place AvpName.public_identity = 10
place AvpName.sip_auth_data_item = 11
place AvpName.sip_auth_scheme = 12
place AvpName.sip_authorization = 13
place AvpName.sip_number_auth_items = 14
place AvpName.server_name = 15
place AvpName.sip_digest_authenticate = 16
place AvpName.cx_digest_ha1 = 17
place AvpName.cx_digest_realm = 18
place AvpName.visited_network_identifier = 19
place AvpName.server_capabilities = 20
place AvpName.mandatory_capability = 21
place AvpName.optional_capability = 22
place AvpName.server_assignment_type = 23
place AvpName.user_authorization_type = 24
place AvpName.originating_request = 25
place AvpName.user_data_already_available = 26
place AvpName.user_data = 27
place AvpName.cx_digest_qop = 28
place AvpName.sip_authenticate = 29
place AvpName.confidentiality_key = 30
place AvpName.integrity_key = 31
place AvpName.associated_identities = 32
place AvpName.deregistration_reason = 33
place AvpName.reason_code = 34
place AvpName.identity_with_emergency_registration = 35
place AvpName.charging_information = 36
place AvpName.primary_charging_collection_function_name = 37
place AvpName.secondary_charging_collection_function_name = 38
place AvpName.primary_event_charging_function_name = 39
place AvpName.secondary_event_charging_function_name = 40
place AvpName.supported_features = 41
place AvpName.vendor_id = 42
place AvpName.feature_list_id = 43
place AvpName.feature_list = 44
place AvpName.wildcarded_public_identity = 45
place AvpName.uar_flags = 46

abbrev pub same : AvpName → AvpName → Bool
same a b = place a == place b

-- What holds AVPs, a message or a grouped AVP: `add`, and the AVPs from `begin(name)` to `end()`.
pub record Holder (Avp H : Type 0) : Type 0 where
  pub add : Avp → H → H
  pub all : AvpName → H → List Avp

-- `get_str_from_avp` and the like: the first AVP of a name.
abbrev pub first {ℓ} : {A : Type ℓ} → List A → Option A
first [] = none
first (a ∷ rest) = some a

abbrev pub value_of {ℓ κ} : {A : Type ℓ} {B : Type κ} → (A → B) → B → Option A → B
value_of f default none = default
value_of f default (some a) = f a

-- Values are read as a text, as bytes, or as a number of 32 bits.
pub record DiameterLib : Type 1 where
  pub Avp : Type 0
  pub Message : Type 0
  pub avp : AvpName → Avp
  pub name_of : Avp → AvpName
  pub message : MessageName → Message
  pub command : Message → MessageName
  pub in_message : Holder Avp Message
  pub in_avp : Holder Avp Avp
  pub set_str : String → Avp → Avp
  pub set_i32 : ℤ → Avp → Avp
  pub set_u32 : ℕ → Avp → Avp
  pub val_str : Avp → String
  pub val_os : Avp → List ℕ
  pub val_i32 : Avp → ℤ
  pub val_u32 : Avp → ℕ
  pub bytes : String → List ℕ
  pub add_new_session_id : Message → Message
  pub add_app_id : Message → Message
  pub add_origin : Message → Message
  pub build_response : Message → Message
  pub set_result_code : String → Message → Message
  pub result_code : Message → ℤ
  pub experimental_result : Message → ℤ × ℕ
  pub impi : Message → String
  pub auth_session_state : Message → ℤ

-- What has been added is found, in order, by its name.
pub record HolderLaws {Avp H : Type 0} (name_of : Avp → AvpName) (h : Holder Avp H) : Type 0 where
  pub all_add :
      (a : Avp) (m : H) (n : AvpName)
      → h.all n (h.add a m) ≡ h.all n m ++ (if same n (name_of a) then a ∷ [] else [])

pub record DiameterLaws (d : DiameterLib) : Type 0 where
  pub message_laws : HolderLaws d.name_of d.in_message
  pub avp_laws : HolderLaws d.name_of d.in_avp
  pub all_message : (c : MessageName) (n : AvpName) → d.in_message.all n (d.message c) ≡ []
  pub all_avp : (k n : AvpName) → d.in_avp.all n (d.avp k) ≡ []
  pub command_message : (c : MessageName) → d.command (d.message c) ≡ c
  pub command_add : (a : d.Avp) (m : d.Message) → d.command (d.in_message.add a m) ≡ d.command m
  pub all_session :
      (m : d.Message) (n : AvpName)
      → d.in_message.all n (d.add_new_session_id m) ≡ d.in_message.all n m
  pub all_app_id :
      (m : d.Message) (n : AvpName) → d.in_message.all n (d.add_app_id m) ≡ d.in_message.all n m
  pub all_origin :
      (m : d.Message) (n : AvpName) → d.in_message.all n (d.add_origin m) ≡ d.in_message.all n m
  pub all_response : (m : d.Message) (n : AvpName) → d.in_message.all n (d.build_response m) ≡ []
  pub all_set_result :
      (s : String) (m : d.Message) (n : AvpName)
      → same n AvpName.result_code ≡ false
      → d.in_message.all n (d.set_result_code s m) ≡ d.in_message.all n m
  pub name_avp : (k : AvpName) → d.name_of (d.avp k) ≡ k
  pub name_str : (s : String) (a : d.Avp) → d.name_of (d.set_str s a) ≡ d.name_of a
  pub name_i32 : (i : ℤ) (a : d.Avp) → d.name_of (d.set_i32 i a) ≡ d.name_of a
  pub name_u32 : (n : ℕ) (a : d.Avp) → d.name_of (d.set_u32 n a) ≡ d.name_of a
  pub name_add : (b a : d.Avp) → d.name_of (d.in_avp.add b a) ≡ d.name_of a
  pub str_set : (s : String) (a : d.Avp) → d.val_str (d.set_str s a) ≡ s
  pub os_set : (s : String) (a : d.Avp) → d.val_os (d.set_str s a) ≡ d.bytes s
  pub i32_set : (i : ℤ) (a : d.Avp) → d.val_i32 (d.set_i32 i a) ≡ i
  pub u32_set : (n : ℕ) (a : d.Avp) → d.val_u32 (d.set_u32 n a) ≡ n
  pub result_code_lem :
      (m : d.Message)
      → d.result_code m
        ≡ value_of d.val_i32 (pos 0) (first (d.in_message.all AvpName.result_code m))
  pub experimental_result_lem :
      (m : d.Message) (e : d.Avp)
      → first (d.in_message.all AvpName.experimental_result m) ≡ some e
      → d.experimental_result m ≡ (
        value_of d.val_i32 (pos 0) (first (d.in_avp.all AvpName.experimental_result_code e)),
        value_of d.val_u32 0 (first (d.in_avp.all AvpName.vendor_id e)),
      )
  pub experimental_result_none :
      (m : d.Message)
      → first (d.in_message.all AvpName.experimental_result m) ≡ none
      → d.experimental_result m ≡ (pos 0, 0)
  pub impi_lem :
      (m : d.Message)
      → d.impi m ≡ value_of d.val_str "" (first (d.in_message.all AvpName.user_name m))

-- A sequence of calls of `add`.
unfoldable pub add_all : {Avp H : Type 0} → Holder Avp H → List Avp → H → H
add_all h [] m = m
add_all h (a ∷ avps) m = add_all h avps (h.add a m)

-- The AVPs of a name among those of a list.
unfoldable pub named : {Avp : Type 0} → (Avp → AvpName) → AvpName → List Avp → List Avp
named name_of n [] = []
named name_of n (a ∷ avps) = (if same n (name_of a) then a ∷ [] else []) ++ named name_of n avps

pub all-add_all :
    {Avp H : Type 0} (name_of : Avp → AvpName) (h : Holder Avp H)
    → HolderLaws name_of h
    → (n : AvpName) (avps : List Avp) (m : H)
    → h.all n (add_all h avps m) ≡ h.all n m ++ named name_of n avps
unfolding add_all named
all-add_all name_of h laws n [] m = sym (append-nil (h.all n m))
all-add_all name_of h laws n (a ∷ avps) m =
    let found = if same n (name_of a) then a ∷ [] else [] in
    all-add_all name_of h laws n avps (h.add a m)
    ∙ ap (λ before. before ++ named name_of n avps) (laws.all_add a m n)
    ∙ append_assoc (h.all n m) found (named name_of n avps)

pub named-append :
    {Avp : Type 0} (name_of : Avp → AvpName) (n : AvpName) (xs ys : List Avp)
    → named name_of n (xs ++ ys) ≡ named name_of n xs ++ named name_of n ys
unfolding named
named-append name_of n [] ys = refl
named-append name_of n (a ∷ xs) ys =
    let found = if same n (name_of a) then a ∷ [] else [] in
    ap (λ rest. found ++ rest) (named-append name_of n xs ys)
    ∙ sym (append_assoc found (named name_of n xs) (named name_of n ys))

-- AVPs of one name, made from the items of a list.
pub named-map {ℓ} :
    {A : Type ℓ} {Avp : Type 0} (name_of : Avp → AvpName) (n k : AvpName) (make : A → Avp)
    → ((x : A) → name_of (make x) ≡ k)
    → (xs : List A) → named name_of n (map make xs) ≡ (if same n k then map make xs else [])
unfolding named
named-map name_of n k make h [] = ground arith
named-map name_of n k make h (x ∷ xs) = elim (Bool-cases (same n k)) [
  | inl e ↦ rw (h x, e) (ap (λ rest. make x ∷ rest) (rw e at (named-map name_of n k make h xs)))
  | inr e ↦ rw (h x, e) (rw e at (named-map name_of n k make h xs))
]
