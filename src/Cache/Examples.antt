-- ===== src/Cache/Examples.antt =====
-- Stores of one or two records, and the theorems about the cache over them.
use homestead.Prelude.{
  ℕ, String, ◌≡◌, ◌≤◌, inl, inr, refl, Option, none, some, [], ◌∷◌, if◌then◌else◌,
}
use homestead.Prelude.Int.{pos}
use homestead.Prelude.Lists.{contains}
use homestead.Store.{Status}
use homestead.ImpuStore.{
  RegistrationState, DefaultImpu, AssociatedImpu, Impu, default, associated, ImpiMapping,
  new_mapping, has_associated_impu,
}
use homestead.Irs.{irs_of_impu}
use homestead.Cache.{ImpuStoreOps, MemcachedCache, get_implicit_registration_set_for_impu}
use homestead.Cache.Lookup.{
  IsServed, Serves, get_implicit_registration_set_for_impu_sound,
  get_implicit_registration_set_for_impu_complete, sub_size, get_ims_subscription_one,
}
use homestead.Cache.RemoteReads.{ReadsOnly}
use homestead.Cache.Subscription.{get_ims_subscription}
use homestead.Cache.Cas.{answer_of}
use text.Mathlib.Text.{◌==◌}

-- A store whose tables never change: every write is accepted and dropped.
abbrev fixed : ℕ → (String → Option Impu) → (String → Option ImpiMapping) → ImpuStoreOps (Unit {0})
fixed this impus mappings = record {
  this = this;
  get_impu =
      λ k w. (elim (impus k) [ none ↦ (Status.not_found, none) | some i ↦ (Status.ok, some i) ], w);
  set_impu_without_cas = λ i w. (Status.ok, w);
  add_impu = λ i w. (Status.ok, w);
  set_impu = λ i w. (Status.ok, w);
  delete_impu = λ i w. (Status.ok, w);
  get_impi_mapping = λ k w. (answer_of (mappings k), w);
  set_impi_mapping = λ m w. (Status.ok, w);
  delete_impi_mapping = λ m w. (Status.ok, w);
}

abbrev alice : DefaultImpu
alice = record {
  impu = "sip:a";
  cas = 4;
  expiry = pos 7300;
  store = some 1;
  registration_state = RegistrationState.registered;
  charging_addresses = record { ccfs = "ccf1" ∷ []; ecfs = [] };
  associated_impus = "sip:a" ∷ "tel:5" ∷ [];
  impis = "a@home" ∷ [];
  service_profile = "sub";
}

abbrev tel : AssociatedImpu
tel = record { impu = "tel:5"; cas = 3; expiry = pos 7300; store = some 1; default_impu = "sip:a" }

abbrev no_impus : String → Option Impu
no_impus k = none

abbrev no_mappings : String → Option ImpiMapping
no_mappings k = none

abbrev records : String → Option Impu
records k =
    if k == "sip:a"
    then some (default alice)
    else if k == "tel:5"
    then some (associated tel)
    else none

abbrev mappings : String → Option ImpiMapping
mappings k = if k == "a@home" then some (new_mapping "a@home" "sip:a" (pos 7300)) else none

-- The local store is empty, and the second remote store has the records.
abbrev cache : MemcachedCache (Unit {0})
cache = record {
  local_store = fixed 0 no_impus no_mappings;
  remote_stores = fixed 1 no_impus no_mappings ∷ fixed 2 records mappings ∷ [];
}

tel_found :
    (get_implicit_registration_set_for_impu cache "tel:5" (pos 100) tt).0
    ≡ (Status.ok, some (irs_of_impu alice (pos 100)))
unfolding get_implicit_registration_set_for_impu has_associated_impu contains
tel_found = refl

get_implicit_registration_set_for_impu_sound_example :
    (d : DefaultImpu) × irs_of_impu alice (pos 100) ≡ irs_of_impu d (pos 100)
    × Serves cache "tel:5" tt d
get_implicit_registration_set_for_impu_sound_example =
    get_implicit_registration_set_for_impu_sound cache "tel:5" (pos 100) tt
      (irs_of_impu alice (pos 100)) tel_found

fixed-ReadsOnly :
    (n : ℕ) (impus : String → Option Impu) (mappings : String → Option ImpiMapping)
    → ReadsOnly (fixed n impus mappings)
fixed-ReadsOnly n impus mappings = record { same_impu = λ k w. refl; same_mapping = λ k w. refl }

-- Both records are found in the second remote store.
tel-IsServed : IsServed cache "tel:5" tt alice
unfolding contains
tel-IsServed = inr (tel, inr (refl, inr (refl, inl refl)), inr (refl, inr (refl, inl refl)), refl)

get_implicit_registration_set_for_impu_complete_example :
    get_implicit_registration_set_for_impu cache "tel:5" (pos 100) tt
    ≡ ((Status.ok, some (irs_of_impu alice (pos 100))), tt)
get_implicit_registration_set_for_impu_complete_example =
    get_implicit_registration_set_for_impu_complete cache "tel:5" (pos 100) tt alice
      (fixed-ReadsOnly 0 no_impus no_mappings)
      (fixed-ReadsOnly 1 no_impus no_mappings, (fixed-ReadsOnly 2 records mappings, tt))
      tel-IsServed

get_ims_subscription_one_example :
    sub_size (get_ims_subscription cache (pos 100) "a@home" tt).0.1 ≤ 1
get_ims_subscription_one_example = get_ims_subscription_one cache (pos 100) "a@home" tt
