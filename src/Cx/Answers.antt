-- ===== src/Cx/Answers.antt =====
-- The answers of the HSS (src/cx.cpp): their constructors, which only tests of the source call, and how
-- they are read. `base64_encode` and `Utils::hex` are parameters.
use homestead.Prelude.{ℕ, String, ◌&&◌, Option, none, some, List, [], ◌∷◌, ◌++◌, map, if◌then◌else◌}
use homestead.Prelude.Int.{ℤ, pos, eq_ℤ}
use homestead.ImpuStore.{ChargingAddresses, is_empty_list}
use homestead.HssConnection.{ServerCapabilities, DigestAuthVector, AkaAuthVector, no_capabilities}
use homestead.Diameter.{AvpName, MessageName, first, value_of, DiameterLib, add_all}
use homestead.Cx.{str_avp, i32_avp, u32_avp, group, str_unless_empty}
use mathlib.Core.Option

pub record Encoders : Type 0 where
  pub base64_encode : List ℕ → String
  pub hex : List ℕ → String

-- The elements of a list by their places, as long as there are any.
abbrev pub second {ℓ} : {A : Type ℓ} → List A → Option A
second (a ∷ b ∷ rest) = some b
second _ = none

-- What is added for a value, if there is one.
abbrev pub for_some {ℓ κ} : {A : Type ℓ} {B : Type κ} → (A → B) → Option A → List B
for_some f none = []
for_some f (some a) = f a ∷ []

module _ (d : DiameterLib) where
  -- The two AVPs of an experimental result, in either order.
  abbrev pub vendor_first : ℕ → ℤ → List d.Avp
  vendor_first vendor_id experimental =
      u32_avp d AvpName.vendor_id vendor_id
      ∷ i32_avp d AvpName.experimental_result_code experimental
      ∷ []

  abbrev pub code_first : ℕ → ℤ → List d.Avp
  code_first vendor_id experimental =
      i32_avp d AvpName.experimental_result_code experimental
      ∷ u32_avp d AvpName.vendor_id vendor_id
      ∷ []

  -- The result code, or else the experimental one.
  abbrev pub result_avp : ℤ → List d.Avp → d.Avp
  result_avp code experimental =
      if eq_ℤ code (pos 0)
      then group d AvpName.experimental_result experimental
      else i32_avp d AvpName.result_code code

  abbrev pub capabilities_avp : ServerCapabilities → d.Avp
  capabilities_avp caps = group d AvpName.server_capabilities (
      str_unless_empty d AvpName.server_name caps.server_name
      ++ (map (i32_avp d AvpName.mandatory_capability) caps.mandatory_capabilities
          ++ map (i32_avp d AvpName.optional_capability) caps.optional_capabilities))

  unfoldable pub user_authorization_answer : ℤ → ℕ → ℤ → String → ServerCapabilities → d.Message
  user_authorization_answer code vendor_id experimental server_name caps =
      add_all d.in_message
        (result_avp code (vendor_first vendor_id experimental)
          ∷ (str_unless_empty d AvpName.server_name server_name ++ (capabilities_avp caps ∷ [])))
        (d.message MessageName.user_authorization_answer)

  -- The command of this message is that of a User-Authorization answer, as in the source.
  unfoldable pub location_info_answer : ℤ → ℕ → ℤ → String → ServerCapabilities → String → d.Message
  location_info_answer code vendor_id experimental server_name caps wildcard =
      add_all d.in_message
        (result_avp code (vendor_first vendor_id experimental)
          ∷ (str_unless_empty d AvpName.server_name server_name
              ++ (capabilities_avp caps
                  ∷ str_unless_empty d AvpName.wildcarded_public_identity wildcard)))
        (d.message MessageName.user_authorization_answer)

  unfoldable pub server_capabilities : d.Message → ServerCapabilities
  server_capabilities m =
      value_of read no_capabilities (first (d.in_message.all AvpName.server_capabilities m))
    where
      read : d.Avp → ServerCapabilities
      read a = record {
        mandatory_capabilities = map d.val_i32 (d.in_avp.all AvpName.mandatory_capability a);
        optional_capabilities = map d.val_i32 (d.in_avp.all AvpName.optional_capability a);
        server_name = value_of d.val_str "" (first (d.in_avp.all AvpName.server_name a));
      }

  unfoldable pub multimedia_auth_answer :
      ℤ → ℕ → ℤ → String → DigestAuthVector → AkaAuthVector → d.Message
  multimedia_auth_answer code vendor_id experimental scheme digest aka =
      add_all d.in_message
        (result_avp code (code_first vendor_id experimental)
          ∷ group d AvpName.sip_auth_data_item (
              str_unless_empty d AvpName.sip_auth_scheme scheme
              ++ (group d AvpName.sip_digest_authenticate (
                    str_avp d AvpName.cx_digest_ha1 digest.ha1
                    ∷ str_avp d AvpName.cx_digest_realm digest.realm
                    ∷ str_avp d AvpName.cx_digest_qop digest.qop
                    ∷ [])
                  ∷ str_avp d AvpName.sip_authenticate aka.challenge
                  ∷ str_avp d AvpName.sip_authorization aka.response
                  ∷ str_avp d AvpName.confidentiality_key aka.crypt_key
                  ∷ str_avp d AvpName.integrity_key aka.integrity_key
                  ∷ []))
          ∷ [])
        (d.message MessageName.multimedia_auth_answer)

  -- A part of a digest, by the name of Cx or, where there is none, by that of the base protocol.
  abbrev pub digest_part : AvpName → AvpName → d.Avp → String
  digest_part k base a =
      value_of d.val_str (value_of d.val_str "" (first (d.in_avp.all base a)))
        (first (d.in_avp.all k a))

  abbrev pub empty_digest : DigestAuthVector
  empty_digest = record { ha1 = ""; realm = ""; qop = "" }

  unfoldable pub digest_auth_vector : d.Message → DigestAuthVector
  digest_auth_vector m =
      value_of in_item empty_digest (first (d.in_message.all AvpName.sip_auth_data_item m))
    where
      read : d.Avp → DigestAuthVector
      read a = record {
        ha1 = digest_part AvpName.cx_digest_ha1 AvpName.digest_ha1 a;
        realm = digest_part AvpName.cx_digest_realm AvpName.digest_realm a;
        qop = digest_part AvpName.cx_digest_qop AvpName.digest_qop a;
      }

      in_item : d.Avp → DigestAuthVector
      in_item item =
          value_of read empty_digest (first (d.in_avp.all AvpName.sip_digest_authenticate item))

  -- An encoded part of an item.
  abbrev pub encoded_part : (List ℕ → String) → AvpName → d.Avp → String
  encoded_part encode k item = value_of (λ a. encode (d.val_os a)) "" (first (d.in_avp.all k item))

  abbrev pub empty_aka : AkaAuthVector
  empty_aka = record {
    challenge = "";
    response = "";
    crypt_key = "";
    integrity_key = "";
    version = pos 1;
  }

  unfoldable pub aka_auth_vector : Encoders → d.Message → AkaAuthVector
  aka_auth_vector enc m =
      value_of read empty_aka (first (d.in_message.all AvpName.sip_auth_data_item m))
    where
      read : d.Avp → AkaAuthVector
      read item = record {
        challenge = encoded_part enc.base64_encode AvpName.sip_authenticate item;
        response = encoded_part enc.hex AvpName.sip_authorization item;
        crypt_key = encoded_part enc.hex AvpName.confidentiality_key item;
        integrity_key = encoded_part enc.hex AvpName.integrity_key item;
        version = pos 1;
      }

  unfoldable pub akav2_auth_vector : Encoders → d.Message → AkaAuthVector
  unfolding aka_auth_vector
  akav2_auth_vector enc m = record (aka_auth_vector enc m) { version = pos 2 }

  -- The addresses of a message: at most two of each kind. The second ECF is added if there are two CCFs,
  -- as in the source; `none` is the read of a second ECF that is not there.
  abbrev pub second_ecf : ChargingAddresses → Option (List d.Avp)
  second_ecf addrs = by_ccf (second addrs.ccfs) (second addrs.ecfs)
    where
      by_ccf : Option String → Option String → Option (List d.Avp)
      by_ccf none ecf = some []
      by_ccf (some ccf) none = none
      by_ccf (some ccf) (some ecf) =
          some (str_avp d AvpName.secondary_event_charging_function_name ecf ∷ [])

  unfoldable pub charging_avp : ChargingAddresses → Option d.Avp
  charging_avp addrs = complete (second_ecf addrs)
    where
      complete : Option (List d.Avp) → Option d.Avp
      complete none = none
      complete (some ecf) = some (
          group d AvpName.charging_information (
            for_some (str_avp d AvpName.primary_charging_collection_function_name)
              (first addrs.ccfs)
            ++ (for_some (str_avp d AvpName.secondary_charging_collection_function_name)
                  (second addrs.ccfs)
                ++ (for_some (str_avp d AvpName.primary_event_charging_function_name)
                      (first addrs.ecfs)
                    ++ ecf))))

  -- Nothing is added for no addresses.
  abbrev pub charging_avps : ChargingAddresses → Option (List d.Avp)
  unfolding charging_avp
  charging_avps addrs =
      if is_empty_list addrs.ccfs && is_empty_list addrs.ecfs
      then some []
      else Option.map (λ a. a ∷ []) (charging_avp addrs)

  abbrev pub read_charging : d.Avp → ChargingAddresses
  read_charging a = record {
    ccfs =
        at AvpName.primary_charging_collection_function_name
        ++ at AvpName.secondary_charging_collection_function_name;
    ecfs =
        at AvpName.primary_event_charging_function_name
        ++ at AvpName.secondary_event_charging_function_name;
  }
    where
      at : AvpName → List String
      at k = for_some d.val_str (first (d.in_avp.all k a))

  -- `none` is a message without Charging-Information.
  unfoldable pub charging_addrs : d.Message → Option ChargingAddresses
  charging_addrs m =
      value_of (λ a. some (read_charging a)) none
        (first (d.in_message.all AvpName.charging_information m))

  unfoldable pub server_assignment_answer :
      ℤ → ℕ → ℤ → String → ChargingAddresses → String → Option d.Message
  server_assignment_answer code vendor_id experimental ims_subscription addrs wildcard =
      Option.map built (charging_avps addrs)
    where
      built : List d.Avp → d.Message
      built charging =
          add_all d.in_message
            (result_avp code (code_first vendor_id experimental)
              ∷ str_avp d AvpName.user_data ims_subscription
              ∷ (charging ++ str_unless_empty d AvpName.wildcarded_public_identity wildcard))
            (d.message MessageName.server_assignment_answer)
