-- ===== src/Cache/Associated.antt =====
-- `MemcachedCache::update_irs_associated_impus` (src/memcached_cache.cpp): the associated IMPU records
-- of one store are brought in line with an IRS.
use homestead.Prelude.{ℕ, zero, suc, String, Option, none, some, List, [], ◌∷◌, if◌then◌else◌}
use homestead.Prelude.Int.{ℤ, ◌+ℤ◌}
use homestead.Store.{Status}
use homestead.ImpuStore.{Impu, associated}
use homestead.Irs.{Irs, ElementState, get_elements_in_state}
use homestead.Cache.{ImpuStoreOps, is_contention, then_with}
use text.Mathlib.Text.{◌==◌}

module _ {W : Type 0} (store : ImpuStoreOps W) (default_impu : String) where
  -- The record is deleted if it is an associated one that points to the default IMPU. The status of
  -- the read is not looked at.
  unfoldable pub remove_impu_round : Status → (Status × Option Impu) × W → Status × W
  remove_impu_round status ((_, some (associated a)), w) =
      if a.default_impu == default_impu then store.delete_impu (associated a) w else (status, w)
  remove_impu_round status (_, w) = (status, w)

  unfoldable pub remove_impu : ℕ → String → Status → W → Option (Status × W)
  remove_impu zero impu status w = none
  remove_impu (suc fuel) impu status w =
      let r = remove_impu_round status (store.get_impu impu w) in
      let again = remove_impu fuel impu r.0 r.1 in if is_contention r.0 then again else some r

  unfoldable pub remove_impus : ℕ → List String → Status → W → Option (Status × W)
  remove_impus fuel [] status w = some (status, w)
  remove_impus fuel (impu ∷ impus) status w =
      then_with (remove_impu fuel impu status w) (remove_impus fuel impus)

  abbrev pub associated_record : String → ℤ → Impu
  associated_record impu expiry = associated (record {
    impu = impu;
    cas = 0;
    expiry = expiry;
    store = some store.this;
    default_impu = default_impu;
  })

  -- The writes are blind, and their statuses are dropped.
  unfoldable pub write_impus : ℤ → List String → W → W
  write_impus expiry [] w = w
  write_impus expiry (impu ∷ impus) w =
      write_impus expiry impus (store.set_impu_without_cas (associated_record impu expiry) w).1

module _ {W : Type 0} where
  unfoldable pub update_irs_associated_impus :
      ImpuStoreOps W → ℕ → ℤ → Irs → W → Option (Status × W)
  update_irs_associated_impus store fuel now irs w =
      let impus = get_elements_in_state irs.associated_impus in
      let expiry = now +ℤ irs.ttl in
      then_with (remove_impus store irs.default_impu fuel (impus ElementState.deleted) Status.ok w)
        λ status w'.
          let refreshed =
            if irs.refreshed
            then write_impus store irs.default_impu expiry (impus ElementState.unchanged) w'
            else w' in
          some
            (status, write_impus store irs.default_impu expiry (impus ElementState.added) refreshed)
