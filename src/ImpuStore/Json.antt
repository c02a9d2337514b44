-- ===== src/ImpuStore/Json.antt =====
-- The JSON form of the records: `write_json` and `from_json` of src/impu_store.cpp. A rapidjson
-- document is a tree; the helpers of json_parse_utils.h are a parameter.
use homestead.Prelude.{ℕ, String, ◌≡◌, Bool, true, false, Option, none, some, List, if◌then◌else◌}
use homestead.Prelude.Int.{ℤ, pos}
use homestead.ImpuStore.{
  RegistrationState, DefaultImpu, AssociatedImpu, Impu, default, associated, ImpiMapping,
}
use text.Mathlib.Text.{◌==◌}

mutual
  pub data Json : Type 0 where
    null : Json
    bool : Bool → Json
    int : ℤ → Json
    string : String → Json
    array : Items → Json
    object : Members → Json

  pub data Items : Type 0 where
    nil : Items
    cons : Json → Items → Items

  pub data Members : Type 0 where
    end : Members
    member : String → Json → Members → Members

-- `json[key]`, the first member of that name.
unfoldable pub find_member : String → Members → Option Json
find_member k end = none
find_member k (member j v ms) = if j == k then some v else find_member k ms

-- `write_json_string_array` writes one member, whose value is `array_json`; the other functions read
-- a member of an object. `none` is a thrown `JsonFormatError`, and the "safe" readers take the value
-- that stays if the member is not there.
pub record JsonUtils : Type 0 where
  pub array_json : List String → Json
  pub get_bool_member : Members → String → Option Bool
  pub safe_get_string_member : Members → String → String → String
  pub safe_get_int_64_member : Members → String → ℤ → ℤ
  pub extract_json_string_array : Members → String → List String

-- What the readers do where the member is there and of their type.
pub record ReadsMembers (u : JsonUtils) : Type 0 where
  pub reads_bool :
      (ms : Members) (k : String) (b : Bool)
      → find_member k ms ≡ some (bool b)
      → u.get_bool_member ms k ≡ some b
  pub reads_string :
      (ms : Members) (k s t : String)
      → find_member k ms ≡ some (string s)
      → u.safe_get_string_member ms k t ≡ s
  pub reads_int :
      (ms : Members) (k : String) (n t : ℤ)
      → find_member k ms ≡ some (int n)
      → u.safe_get_int_64_member ms k t ≡ n
  pub reads_array :
      (ms : Members) (k : String) (xs : List String)
      → find_member k ms ≡ some (u.array_json xs)
      → u.extract_json_string_array ms k ≡ xs

-- Any state but REGISTERED is written as false.
abbrev pub state_bool : RegistrationState → Bool
state_bool RegistrationState.registered = true
state_bool _ = false

abbrev pub state_of_bool : Bool → RegistrationState
state_of_bool b = if b then RegistrationState.registered else RegistrationState.unregistered

module _ (u : JsonUtils) where
  unfoldable pub write_json_default : DefaultImpu → Members
  write_json_default d = member "registration_state" (bool (state_bool d.registration_state)) (
      member "service_profile" (string d.service_profile) (
        member "expiry" (int d.expiry) (
          member "assoc_impu" (u.array_json d.associated_impus) (
            member "impis" (u.array_json d.impis) (
              member "ecfs" (u.array_json d.charging_addresses.ecfs)
                (member "ccfs" (u.array_json d.charging_addresses.ccfs) end))))))

  unfoldable pub write_json_mapping : ImpiMapping → Members
  write_json_mapping m =
      member "default_impus" (u.array_json m.default_impus) (member "expiry" (int m.expiry) end)

  -- `none` where the registration state is missing, since that macro throws.
  unfoldable pub from_json_default : String → Members → ℕ → Option ℕ → Option Impu
  from_json_default impu json cas store = elim (u.get_bool_member json "registration_state") [
    | none ↦ none
    | some state ↦ some (
        default (record {
          impu = impu;
          cas = cas;
          expiry = u.safe_get_int_64_member json "expiry" (pos 0);
          store = store;
          registration_state = state_of_bool state;
          charging_addresses = record {
            ccfs = u.extract_json_string_array json "ccfs";
            ecfs = u.extract_json_string_array json "ecfs";
          };
          associated_impus = u.extract_json_string_array json "assoc_impu";
          impis = u.extract_json_string_array json "impis";
          service_profile = u.safe_get_string_member json "service_profile" "";
        }))
  ]

  unfoldable pub from_json_associated : String → Members → ℕ → Option ℕ → Impu
  from_json_associated impu json cas store = associated (record {
    impu = impu;
    cas = cas;
    expiry = u.safe_get_int_64_member json "expiry" (pos 0);
    store = store;
    default_impu = u.safe_get_string_member json "default_impu" "";
  })

  unfoldable pub from_json_mapping : String → Members → ℕ → ImpiMapping
  from_json_mapping impi json cas = record {
    impi = impi;
    cas = cas;
    expiry = u.safe_get_int_64_member json "expiry" (pos 0);
    default_impus = u.extract_json_string_array json "default_impus";
  }

unfoldable pub write_json_associated : AssociatedImpu → Members
write_json_associated a =
    member "default_impu" (string a.default_impu) (member "expiry" (int a.expiry) end)
