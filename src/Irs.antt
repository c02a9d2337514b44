-- ===== src/Irs.antt =====
-- The implicit registration set that the cache hands out: `MemcachedImplicitRegistrationSet` of
-- include/memcached_cache.h and src/memcached_cache.cpp. `Utils::in_vector` and the XML library are
-- parameters; `now` is `time(0)`.
pub mod Elements
mod Examples
use homestead.Prelude.{
  ℕ, String, Bool, true, false, not, ◌≡◌, ◌&&◌, ◌||◌, Option, none, some, List, [], ◌∷◌,
  if◌then◌else◌, ◌==◌,
}
use homestead.Prelude.Int.{ℤ, ◌+ℤ◌, ◌-ℤ◌, to_int32}
use homestead.Prelude.Lists.{contains}
use homestead.Prelude.Dict.{Dict, lookup, insert, emplace, map_values}
use homestead.ImpuStore.{
  RegistrationState, ChargingAddresses, DefaultImpu, Impu, impu_cas, impu_store,
}
use homestead.XmlUtils.{XmlLib, get_public_and_default_ids}
use text.Mathlib.Text.{◌==◌ as str_eq}

-- The enum `State`.
pub data ElementState : Type 0 where
  added unchanged deleted : ElementState

-- `std::map<std::string, State>`
abbrev pub Data : Type 0
Data = Dict ElementState

pub record Irs : Type 0 where
  pub default_impu : String
  pub store : Option ℕ
  pub cas : ℕ
  pub ttl : ℤ
  pub refreshed : Bool
  pub existing : Bool
  pub impis : Data
  pub associated_impus : Data
  pub ims_sub_xml : String
  pub ims_sub_xml_set : Bool
  pub charging_addresses : ChargingAddresses
  pub charging_addresses_set : Bool
  pub registration_state : RegistrationState
  pub registration_state_set : Bool

-- `for (key : keys) data[key] = state`
unfoldable pub insert_all : ElementState → List String → Data → Data
unfolding insert
insert_all state [] d = d
insert_all state (k ∷ ks) d = insert_all state ks (insert k state d)

-- The constructor for a stored record. `_ttl` is an `int32_t`.
unfoldable pub irs_of_impu : DefaultImpu → ℤ → Irs
irs_of_impu d now = record {
  default_impu = d.impu;
  store = d.store;
  cas = d.cas;
  ttl = to_int32 (d.expiry -ℤ now);
  refreshed = false;
  existing = true;
  impis = insert_all ElementState.unchanged d.impis [];
  associated_impus = insert_all ElementState.unchanged d.associated_impus [];
  ims_sub_xml = d.service_profile;
  ims_sub_xml_set = false;
  charging_addresses = d.charging_addresses;
  charging_addresses_set = false;
  registration_state = d.registration_state;
  registration_state_set = false;
}

-- The default constructor. It leaves the time to live and the state as the memory had them.
unfoldable pub new_irs : ℤ → RegistrationState → Irs
new_irs ttl state = record {
  default_impu = "";
  store = none;
  cas = 0;
  ttl = ttl;
  refreshed = true;
  existing = false;
  impis = [];
  associated_impus = [];
  ims_sub_xml = "";
  ims_sub_xml_set = false;
  charging_addresses = record { ccfs = []; ecfs = [] };
  charging_addresses_set = false;
  registration_state = state;
  registration_state_set = false;
}

abbrev pub is_state : ElementState → ElementState → Bool
is_state ElementState.added ElementState.added = true
is_state ElementState.unchanged ElementState.unchanged = true
is_state ElementState.deleted ElementState.deleted = true
is_state _ _ = false

-- `entry.second == UNCHANGED || entry.second == ADDED`
abbrev pub is_live : ElementState → Bool
is_live s = is_state s ElementState.unchanged || is_state s ElementState.added

-- The keys whose state passes a test, in the order of the map.
unfoldable pub keys_where : (ElementState → Bool) → Data → List String
keys_where p [] = []
keys_where p ((k, s) ∷ d) = let rest = keys_where p d in if p s then k ∷ rest else rest

abbrev pub get_elements_in_state : Data → ElementState → List String
get_elements_in_state d state = keys_where (λ s. is_state s state) d

abbrev pub get_associated_impis : Irs → List String
get_associated_impis irs = keys_where is_live irs.impis

abbrev pub get_associated_impus : Irs → List String
get_associated_impus irs = keys_where is_live irs.associated_impus

unfoldable pub has_changed_data : Data → Bool
has_changed_data [] = false
has_changed_data ((k, s) ∷ d) =
    is_state s ElementState.added || is_state s ElementState.deleted || has_changed_data d

unfoldable pub has_changed : Irs → Bool
has_changed irs =
    not irs.existing
    || irs.refreshed
    || irs.ims_sub_xml_set
    || irs.charging_addresses_set
    || irs.registration_state_set
    || has_changed_data irs.associated_impus
    || has_changed_data irs.impis

unfoldable pub set_reg_state : Irs → RegistrationState → Irs
set_reg_state irs state = record irs { registration_state = state; registration_state_set = true }

unfoldable pub set_charging_addresses : Irs → ChargingAddresses → Irs
set_charging_addresses irs addrs = record irs {
  charging_addresses = addrs;
  charging_addresses_set = true;
}

unfoldable pub set_ttl : Irs → ℤ → Irs
set_ttl irs ttl = record irs { ttl = ttl; refreshed = true }

unfoldable pub mark_as_refreshed : Irs → Irs
mark_as_refreshed irs = record irs { refreshed = true }

unfoldable pub add_associated_impi : Irs → String → Irs
add_associated_impi irs impi = record irs { impis = insert impi ElementState.added irs.impis }

unfoldable pub delete_associated_impi : Irs → String → Irs
delete_associated_impi irs impi = record irs { impis = insert impi ElementState.deleted irs.impis }

-- `delete_tracked`
unfoldable pub delete_tracked : Data → Data
unfolding map_values
delete_tracked d = map_values (λ k s. ElementState.deleted) d

unfoldable pub delete_assoc_impus : Irs → Irs
delete_assoc_impus irs = record irs { associated_impus = delete_tracked irs.associated_impus }

unfoldable pub delete_impis : Irs → Irs
delete_impis irs = record irs { impis = delete_tracked irs.impis }

-- `create_impu`: what the IRS stands for as a record. `_ttl + now` is a sum of `int`s.
unfoldable pub create_impu : Irs → ℕ → Option ℕ → ℤ → DefaultImpu
create_impu irs cas store now = record {
  impu = irs.default_impu;
  cas = cas;
  expiry = to_int32 (irs.ttl +ℤ to_int32 now);
  store = store;
  registration_state = irs.registration_state;
  charging_addresses = irs.charging_addresses;
  associated_impus = get_associated_impus irs;
  impis = get_associated_impis irs;
  service_profile = irs.ims_sub_xml;
}

abbrev pub get_impu : Irs → ℤ → DefaultImpu
get_impu irs now = create_impu irs 0 none now

abbrev pub get_impu_from_impu : Irs → Impu → ℤ → DefaultImpu
get_impu_from_impu irs with_cas now = create_impu irs (impu_cas with_cas) (impu_store with_cas) now

abbrev pub same_store : Option ℕ → ℕ → Bool
same_store none s = false
same_store (some t) s = t == s

abbrev pub get_impu_for_store : Irs → ℕ → ℤ → Option DefaultImpu
get_impu_for_store irs store now =
    if same_store irs.store store then some (create_impu irs irs.cas irs.store now) else none
