-- ===== src/ImpuStore.antt =====
-- The records that src/impu_store.cpp keeps in the store (include/impu_store.h,
-- include/charging_addresses.h, include/reg_state.h). A store pointer is `none` for `nullptr` and
-- otherwise the number of the store; times are integers.
pub mod Json
pub mod Codec
pub mod Ops
pub mod RoundTrip
pub mod Mapping
pub mod ReadBack
mod Examples
use homestead.Prelude.{ℕ, String, Bool, true, false, Option, none, some, List, [], ◌∷◌, ◌++◌}
use homestead.Prelude.Int.{ℤ}
use homestead.Prelude.Lists.{contains, without}

pub data RegistrationState : Type 0 where
  registered unregistered not_registered unchanged unknown : RegistrationState

abbrev pub state_is_registered : RegistrationState → Bool
state_is_registered RegistrationState.registered = true
state_is_registered _ = false

pub record ChargingAddresses : Type 0 where
  pub ccfs : List String
  pub ecfs : List String

pub record DefaultImpu : Type 0 where
  pub impu : String
  pub cas : ℕ
  pub expiry : ℤ
  pub store : Option ℕ
  pub registration_state : RegistrationState
  pub charging_addresses : ChargingAddresses
  pub associated_impus : List String
  pub impis : List String
  pub service_profile : String

pub record AssociatedImpu : Type 0 where
  pub impu : String
  pub cas : ℕ
  pub expiry : ℤ
  pub store : Option ℕ
  pub default_impu : String

-- The class `Impu` with its two subclasses.
pub data Impu : Type 0 where
  default : DefaultImpu → Impu
  associated : AssociatedImpu → Impu

abbrev pub is_default_impu : Impu → Bool
is_default_impu (default d) = true
is_default_impu (associated a) = false

abbrev pub impu_id : Impu → String
impu_id (default d) = d.impu
impu_id (associated a) = a.impu

abbrev pub impu_cas : Impu → ℕ
impu_cas (default d) = d.cas
impu_cas (associated a) = a.cas

abbrev pub impu_expiry : Impu → ℤ
impu_expiry (default d) = d.expiry
impu_expiry (associated a) = a.expiry

abbrev pub impu_store : Impu → Option ℕ
impu_store (default d) = d.store
impu_store (associated a) = a.store

unfoldable pub has_associated_impu : DefaultImpu → String → Bool
has_associated_impu d impu = contains impu d.associated_impus

pub record ImpiMapping : Type 0 where
  pub impi : String
  pub cas : ℕ
  pub expiry : ℤ
  pub default_impus : List String

-- The constructor for one default IMPU.
abbrev pub new_mapping : String → String → ℤ → ImpiMapping
new_mapping impi impu expiry = record {
  impi = impi;
  cas = 0;
  expiry = expiry;
  default_impus = impu ∷ [];
}

unfoldable pub add_default_impu : ImpiMapping → String → ImpiMapping
add_default_impu m impu = record m { default_impus = m.default_impus ++ impu ∷ [] }

unfoldable pub has_default_impu : ImpiMapping → String → Bool
has_default_impu m impu = contains impu m.default_impus

unfoldable pub remove_default_impu : ImpiMapping → String → ImpiMapping
remove_default_impu m impu = record m { default_impus = without impu m.default_impus }

abbrev pub is_empty_list : List String → Bool
is_empty_list [] = true
is_empty_list (x ∷ xs) = false

unfoldable pub is_empty : ImpiMapping → Bool
is_empty m = is_empty_list m.default_impus

unfoldable pub set_expiry : ImpiMapping → ℤ → ImpiMapping
set_expiry m expiry = record m { expiry = expiry }
