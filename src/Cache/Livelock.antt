-- ===== src/Cache/Livelock.antt =====
-- The loops over DATA_CONTENTION of `MemcachedCache::update_irs_impi_mappings`
-- (src/memcached_cache.cpp), when another node changes the mapping in between.
use homestead.Prelude.{ℕ, zero, suc, String, Bool, false, ◌≡◌, refl, Option, none, some}
use homestead.Prelude.Int.{ℤ}
use homestead.ImpuStore.{ImpiMapping, has_default_impu}
use homestead.Store.{Status}
use homestead.Cache.{ImpuStoreOps}
use homestead.Cache.Mappings.{
  remove_mapping, remove_round, remove_from, add_mapping, contended_mapping,
}

-- Whether what was read is a mapping that lists the default IMPU.
abbrev pub answers_with : String → Status × Option ImpiMapping → Bool
answers_with d (Status.ok, some mapping) = has_default_impu mapping d
answers_with d _ = false

module _ {W : Type 0} (store : ImpuStoreOps W) (default_impu : String) where
  remove_round_same :
      (r : (Status × Option ImpiMapping) × W) (status : Status)
      → answers_with default_impu r.0 ≡ false
      → remove_round store default_impu status r ≡ (status, r.1)
  unfolding remove_round remove_from
  remove_round_same ((Status.ok, some m), w) status e = rw e refl
  remove_round_same ((Status.ok, none), w) status e = refl
  remove_round_same ((Status.not_found, x), w) status e = refl
  remove_round_same ((Status.data_contention, x), w) status e = refl
  remove_round_same ((Status.error, x), w) status e = refl

  remove_mapping-lost :
      (impi : String) (w : W)
      → (store.get_impi_mapping impi w).1 ≡ w
      → answers_with default_impu (store.get_impi_mapping impi w).0 ≡ false
      → (fuel : ℕ) → remove_mapping store default_impu fuel impi Status.data_contention w ≡ none
  unfolding remove_mapping
  remove_mapping-lost impi w same e zero = refl
  remove_mapping-lost impi w same e (suc fuel) =
      rw (remove_round_same (store.get_impi_mapping impi w) Status.data_contention e, same)
        (remove_mapping-lost impi w same e fuel)

  -- A deleted IMPI's mapping lists the default IMPU, but the write that takes it out meets
  -- contention, and from then on the store answers with no mapping that lists it, so there is
  -- nothing left to do. Then the loop never ends: no amount of fuel is enough.
  pub remove_mapping_livelock :
      (impi : String) (w w1 w2 : W) (status : Status) (mapping : ImpiMapping)
      → store.get_impi_mapping impi w ≡ ((Status.ok, some mapping), w1)
      → remove_from store default_impu mapping status w1 ≡ (Status.data_contention, w2)
      → (store.get_impi_mapping impi w2).1 ≡ w2
      → answers_with default_impu (store.get_impi_mapping impi w2).0 ≡ false
      → (fuel : ℕ) → remove_mapping store default_impu fuel impi status w ≡ none
  unfolding remove_mapping remove_round
  remove_mapping_livelock impi w w1 w2 status mapping read lost same e zero = refl
  remove_mapping_livelock impi w w1 w2 status mapping read lost same e (suc fuel) =
      rw (read, lost) (remove_mapping-lost impi w2 same e fuel)

  -- The store refuses the mapping for its version, and finds none when it is read again. The loop
  -- for an added IMPI leaves the mapping and its version as they are, and never ends.
  pub add_mapping_livelock :
      (refreshed : Bool) (ttl now : ℤ) (mapping : ImpiMapping) (w : W)
      → store.set_impi_mapping mapping w ≡ (Status.data_contention, w)
      → store.get_impi_mapping mapping.impi w ≡ ((Status.not_found, none), w)
      → (fuel : ℕ) → add_mapping store default_impu fuel refreshed ttl now mapping w ≡ none
  unfolding add_mapping contended_mapping
  add_mapping_livelock refreshed ttl now mapping w refused gone zero = refl
  add_mapping_livelock refreshed ttl now mapping w refused gone (suc fuel) =
      rw (refused, gone) (add_mapping_livelock refreshed ttl now mapping w refused gone fuel)
