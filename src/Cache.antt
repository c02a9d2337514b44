-- ===== src/Cache.antt =====
-- The cache over the local store and the remote ones: `MemcachedCache` of src/memcached_cache.cpp and
-- include/memcached_cache.h, on the interface of the class `ImpuStore`. The stores are views of one
-- world `W`, which every call passes on. Stopwatches and hooks, which only measure, are left out;
-- the parallel remote reads are made in the order in which their results are collected.
pub mod Mappings
pub mod Associated
pub mod Record
pub mod Actions
pub mod Subscription
pub mod RemoteReads
pub mod Lookup
pub mod Cas
pub mod RecordCas
pub mod Progress
pub mod Updates
pub mod Livelock
mod Examples
mod CasExamples
use homestead.Prelude.{
  ℕ, String, Bool, true, false, not, ◌≡◌, refl, false≢true, ◌&&◌, ◌||◌, Option, none, some, List,
  [], ◌∷◌, if◌then◌else◌,
}
use homestead.Prelude.Int.{ℤ}
use homestead.Store.{Status, is_ok}
use homestead.ImpuStore.{
  DefaultImpu, AssociatedImpu, Impu, default, associated, ImpiMapping, has_associated_impu,
}
use homestead.Irs.{Irs, irs_of_impu}

-- What the cache uses of an `ImpuStore`, for reads that return: those that throw or run into undefined
-- behaviour (`Read` of ImpuStore/Ops) unwind the cache's operation and are outside of this interface.
-- `this` is the pointer; the output parameter of a read is set exactly if the status is OK.
pub record ImpuStoreOps (W : Type 0) : Type 0 where
  pub this : ℕ
  pub get_impu : String → W → (Status × Option Impu) × W
  pub set_impu_without_cas : Impu → W → Status × W
  pub add_impu : Impu → W → Status × W
  pub set_impu : Impu → W → Status × W
  pub delete_impu : Impu → W → Status × W
  pub get_impi_mapping : String → W → (Status × Option ImpiMapping) × W
  pub set_impi_mapping : ImpiMapping → W → Status × W
  pub delete_impi_mapping : ImpiMapping → W → Status × W

pub record MemcachedCache (W : Type 0) : Type 0 where
  pub local_store : ImpuStoreOps W
  pub remote_stores : List (ImpuStoreOps W)

abbrev pub is_not_found : Status → Bool
is_not_found Status.not_found = true
is_not_found _ = false

pub is_not_found-is_ok : (s : Status) → is_not_found s ≡ true → is_ok s ≡ false
is_not_found-is_ok Status.ok e = elim (false≢true e) [ ]
is_not_found-is_ok Status.not_found e = refl
is_not_found-is_ok Status.data_contention e = refl
is_not_found-is_ok Status.error e = refl

abbrev pub is_contention : Status → Bool
is_contention Status.data_contention = true
is_contention _ = false

abbrev pub mapped_impus : Option ImpiMapping → List String
mapped_impus none = []
mapped_impus (some m) = m.default_impus

-- Go on with the status and the world, unless the fuel has run out.
abbrev pub then_with {ℓ κ} :
    {W : Type ℓ} {A : Type κ} → Option (Status × W) → (Status → W → Option A) → Option A
then_with none k = none
then_with (some (status, w)) k = k status w

module _ {W : Type 0} where
  -- Every remote store is read; the first that reports OK counts.
  unfoldable pub remote_impus :
      List (ImpuStoreOps W) → String → (Status × Option Impu) × W → (Status × Option Impu) × W
  remote_impus [] impu r = r
  remote_impus (store ∷ stores) impu ((status, found), w) =
      let ((remote_status, remote), w') = store.get_impu impu w in
      remote_impus stores impu (
        if not (is_ok status) && is_ok remote_status
        then ((Status.ok, remote), w')
        else ((status, found), w'))

  unfoldable pub get_impu_for_impu_gr : MemcachedCache W → String → W → (Status × Option Impu) × W
  unfolding remote_impus
  get_impu_for_impu_gr cache impu w =
      let r = cache.local_store.get_impu impu w in
      if is_not_found r.0.0 then remote_impus cache.remote_stores impu r else r

  -- The remote stores are read in turn until one reports OK.
  unfoldable pub remote_mappings :
      List (ImpuStoreOps W) → String → W → (Status × Option ImpiMapping) × W
  remote_mappings [] impi w = ((Status.not_found, none), w)
  remote_mappings (store ∷ stores) impi w =
      let r = store.get_impi_mapping impi w in
      let rest = remote_mappings stores impi r.1 in if is_ok r.0.0 then r else rest

  unfoldable pub get_impi_mapping_gr :
      MemcachedCache W → String → W → (Status × Option ImpiMapping) × W
  unfolding remote_mappings
  get_impi_mapping_gr cache impi w =
      let r = cache.local_store.get_impi_mapping impi w in
      if is_not_found r.0.0 then remote_mappings cache.remote_stores impi r.1 else r

  -- The record that an associated IMPU points to has to list the IMPU.
  unfoldable pub check_target : String → ℤ → (Status × Option Impu) × W → (Status × Option Irs) × W
  unfolding has_associated_impu irs_of_impu
  check_target impu now ((Status.ok, some (default d)), w) =
      if has_associated_impu d impu
      then ((Status.ok, some (irs_of_impu d now)), w)
      else ((Status.not_found, none), w)
  check_target impu now ((Status.ok, _), w) = ((Status.not_found, none), w)
  check_target impu now ((status, _), w) = ((status, none), w)

  unfoldable pub resolve_impu :
      MemcachedCache W → String → ℤ → (Status × Option Impu) × W → (Status × Option Irs) × W
  unfolding get_impu_for_impu_gr check_target irs_of_impu
  resolve_impu cache impu now ((Status.ok, some (default d)), w) =
      ((Status.ok, some (irs_of_impu d now)), w)
  resolve_impu cache impu now ((Status.ok, some (associated a)), w) =
      check_target impu now (get_impu_for_impu_gr cache a.default_impu w)
  resolve_impu cache impu now ((status, _), w) = ((status, none), w)

  unfoldable pub get_implicit_registration_set_for_impu :
      MemcachedCache W → String → ℤ → W → (Status × Option Irs) × W
  unfolding get_impu_for_impu_gr resolve_impu
  get_implicit_registration_set_for_impu cache impu now w =
      resolve_impu cache impu now (get_impu_for_impu_gr cache impu w)

  -- The default IMPUs of an IMPI; the vector stays as it was on failure.
  unfoldable pub get_impus_for_impi : MemcachedCache W → String → W → (Status × List String) × W
  unfolding get_impi_mapping_gr
  get_impus_for_impi cache impi w =
      let ((status, mapping), w') = get_impi_mapping_gr cache impi w in
      ((status, if is_ok status then mapped_impus mapping else []), w')
