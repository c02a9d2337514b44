-- ===== src/Cache/Updates.antt =====
-- `MemcachedCache::update_irs_impi_mappings` as a whole (src/memcached_cache.cpp), for an IRS without
-- deleted IMPIs: all its loops end, and with OK.
use homestead.Prelude.{
  ℕ, suc, String, Bool, ◌≡◌, ◌≤◌, ◌<◌, inl, inr, refl, some, List, [], ◌∷◌, arith, Bool-cases,
}
use homestead.Prelude.Int.{ℤ, ◌+ℤ◌}
use homestead.Irs.{Irs, ElementState, get_elements_in_state}
use homestead.Store.{Status}
use homestead.Cache.{ImpuStoreOps}
use homestead.Cache.Cas.{CasMappings, Keeps, refresh_mapping_total, add_mapping_total}
use homestead.Cache.Mappings.{
  remove_mappings, refresh_mappings, add_mappings, update_irs_impi_mappings,
}

module _ {W : Type 0} (store : ImpuStoreOps W) (laws : CasMappings store)
    (keeps : Keeps store laws) where
  refresh_mappings_total :
      (d : String) (ttl now : ℤ) (fuel : ℕ) (impis : List String) (w : W)
      → laws.rivals w < fuel
      → (w' : W) × refresh_mappings store d fuel ttl now impis Status.ok w ≡ some (Status.ok, w')
        × laws.rivals w' ≤ laws.rivals w
  unfolding refresh_mappings
  refresh_mappings_total d ttl now fuel [] w enough = (w, refl, omega arith)
  refresh_mappings_total d ttl now fuel (impi ∷ impis) w enough =
      let (w1, e, listed, few) = refresh_mapping_total store laws d impi ttl now fuel w enough in
      let (w2, f, fewer) = refresh_mappings_total d ttl now fuel impis w1 (omega arith) in
      (w2, rw e f, omega arith)

  add_mappings_total :
      (d : String) (refreshed : Bool) (ttl now : ℤ) (fuel : ℕ) (impis : List String) (w : W)
      → suc (laws.rivals w) < fuel
      → (w' : W) × add_mappings store d fuel refreshed ttl now impis Status.ok w
          ≡ some (Status.ok, w')
        × laws.rivals w' ≤ laws.rivals w
  unfolding add_mappings
  add_mappings_total d refreshed ttl now fuel [] w enough = (w, refl, omega arith)
  add_mappings_total d refreshed ttl now fuel (impi ∷ impis) w enough =
      let (w1, e, listed, few) =
        add_mapping_total store laws keeps d impi refreshed ttl now (now +ℤ ttl) fuel w enough in
      let (w2, f, fewer) = add_mappings_total d refreshed ttl now fuel impis w1 (omega arith) in
      (w2, rw e f, omega arith)

  -- An IRS without deleted IMPIs: with two more rounds than rivals are left to write, every loop
  -- ends, and the status is OK.
  pub update_irs_impi_mappings_total :
      (fuel : ℕ) (now : ℤ) (irs : Irs) (w : W)
      → get_elements_in_state irs.impis ElementState.deleted ≡ []
      → suc (laws.rivals w) < fuel
      → (w' : W) × update_irs_impi_mappings store fuel now irs w ≡ some (Status.ok, w')
  unfolding update_irs_impi_mappings remove_mappings
  update_irs_impi_mappings_total fuel now irs w none_deleted enough =
      let unchanged = get_elements_in_state irs.impis ElementState.unchanged in
      let added = get_elements_in_state irs.impis ElementState.added in
      let (w1, e, few) =
        refresh_mappings_total irs.default_impu irs.ttl now fuel unchanged w (omega arith) in
      let add =
        λ (w0 : W). add_mappings_total irs.default_impu irs.refreshed irs.ttl now fuel added w0 in
      elim (Bool-cases irs.refreshed) [
        | inl r ↦
            let (w2, f, fewer) = add w1 (omega arith) in (w2, rw (none_deleted, r, e) (rw⁻¹ r f))
        | inr r ↦ let (w2, f, fewer) = add w enough in (w2, rw (none_deleted, r) (rw⁻¹ r f))
      ]
