-- ===== src/Cache/Mappings.antt =====
-- `MemcachedCache::update_irs_impi_mappings` (src/memcached_cache.cpp): the IMPI mappings of one
-- store are brought in line with an IRS. The loops over DATA_CONTENTION take fuel, and `none` is its
-- end; the status of one round is the start of the next.
use homestead.Prelude.{
  ℕ, zero, suc, String, Bool, not, Option, none, some, List, [], ◌∷◌, if◌then◌else◌,
}
use homestead.Prelude.Int.{ℤ, ◌+ℤ◌, to_int32}
use homestead.Store.{Status}
use homestead.ImpuStore.{
  ImpiMapping, new_mapping, has_default_impu, add_default_impu, remove_default_impu, is_empty,
  set_expiry,
}
use homestead.Irs.{Irs, ElementState, get_elements_in_state}
use homestead.Cache.{ImpuStoreOps, is_contention, then_with}

module _ (default_impu : String) where
  -- The mapping that refreshes an UNCHANGED IMPI.
  unfoldable pub refreshed_mapping : String → ℤ → ℤ → Status × Option ImpiMapping → ImpiMapping
  unfolding has_default_impu add_default_impu set_expiry
  refreshed_mapping impi ttl now (Status.ok, some mapping) =
      let m = set_expiry mapping (to_int32 (ttl +ℤ to_int32 now)) in
      if has_default_impu m default_impu then m else add_default_impu m default_impu
  refreshed_mapping impi ttl now _ = new_mapping impi default_impu (to_int32 (ttl +ℤ to_int32 now))

  -- After contention on an ADDED IMPI: the mapping for the next round, and the status.
  unfoldable pub contended_mapping :
      Bool → ℤ → ℤ → ImpiMapping → Status × Option ImpiMapping → Status × ImpiMapping
  unfolding has_default_impu add_default_impu set_expiry
  contended_mapping refreshed ttl now mapping (Status.ok, some found) =
      let m = set_expiry found (to_int32 (ttl +ℤ to_int32 now)) in
      if not (has_default_impu m default_impu)
      then (Status.data_contention, add_default_impu m default_impu)
      else if not refreshed
      then (Status.ok, m)
      else (Status.data_contention, m)
  contended_mapping refreshed ttl now mapping (Status.not_found, _) =
      (Status.data_contention, mapping)
  contended_mapping refreshed ttl now mapping (status, _) = (status, mapping)

module _ {W : Type 0} (store : ImpuStoreOps W) (default_impu : String) where
  -- One round for an IMPI that is DELETED.
  unfoldable pub remove_from : ImpiMapping → Status → W → Status × W
  unfolding has_default_impu remove_default_impu is_empty
  remove_from mapping status w =
      if has_default_impu mapping default_impu
      then (let left = remove_default_impu mapping default_impu in
          if is_empty left then store.delete_impi_mapping left w else store.set_impi_mapping left w)
      else (status, w)

  unfoldable pub remove_round : Status → (Status × Option ImpiMapping) × W → Status × W
  unfolding remove_from
  remove_round status ((Status.ok, some mapping), w) = remove_from mapping status w
  remove_round status (_, w) = (status, w)

  unfoldable pub remove_mapping : ℕ → String → Status → W → Option (Status × W)
  remove_mapping zero impi status w = none
  remove_mapping (suc fuel) impi status w =
      let r = remove_round status (store.get_impi_mapping impi w) in
      let again = remove_mapping fuel impi r.0 r.1 in if is_contention r.0 then again else some r

  unfoldable pub refresh_mapping : ℕ → String → ℤ → ℤ → W → Option (Status × W)
  unfolding refreshed_mapping
  refresh_mapping zero impi ttl now w = none
  refresh_mapping (suc fuel) impi ttl now w =
      let read = store.get_impi_mapping impi w in
      let r = store.set_impi_mapping (refreshed_mapping default_impu impi ttl now read.0) read.1 in
      let again = refresh_mapping fuel impi ttl now r.1 in
      if is_contention r.0 then again else some r

  unfoldable pub add_mapping : ℕ → Bool → ℤ → ℤ → ImpiMapping → W → Option (Status × W)
  unfolding contended_mapping
  add_mapping zero refreshed ttl now mapping w = none
  add_mapping (suc fuel) refreshed ttl now mapping w =
      let (status, w') = store.set_impi_mapping mapping w in
      let read = store.get_impi_mapping mapping.impi w' in
      let next = contended_mapping default_impu refreshed ttl now mapping read.0 in
      let again = add_mapping fuel refreshed ttl now next.1 read.1 in
      if is_contention status
      then if is_contention next.0 then again else some (next.0, read.1)
      else some (status, w')

  unfoldable pub remove_mappings : ℕ → List String → Status → W → Option (Status × W)
  unfolding remove_mapping
  remove_mappings fuel [] status w = some (status, w)
  remove_mappings fuel (impi ∷ impis) status w =
      then_with (remove_mapping fuel impi status w) (remove_mappings fuel impis)

  unfoldable pub refresh_mappings : ℕ → ℤ → ℤ → List String → Status → W → Option (Status × W)
  unfolding refresh_mapping
  refresh_mappings fuel ttl now [] status w = some (status, w)
  refresh_mappings fuel ttl now (impi ∷ impis) status w =
      then_with (refresh_mapping fuel impi ttl now w) (refresh_mappings fuel ttl now impis)

  -- The expiry of a new mapping is a sum of 64-bit numbers.
  unfoldable pub add_mappings : ℕ → Bool → ℤ → ℤ → List String → Status → W → Option (Status × W)
  unfolding add_mapping
  add_mappings fuel refreshed ttl now [] status w = some (status, w)
  add_mappings fuel refreshed ttl now (impi ∷ impis) status w =
      then_with (add_mapping fuel refreshed ttl now (new_mapping impi default_impu (now +ℤ ttl)) w)
        (add_mappings fuel refreshed ttl now impis)

-- The three passes over the IMPIs of an IRS.
module _ {W : Type 0} where
  unfoldable pub update_irs_impi_mappings : ImpuStoreOps W → ℕ → ℤ → Irs → W → Option (Status × W)
  update_irs_impi_mappings store fuel now irs w =
      let impis = get_elements_in_state irs.impis in
      then_with
        (remove_mappings store irs.default_impu fuel (impis ElementState.deleted) Status.ok w)
        λ status w'.
          then_with
            (if irs.refreshed
              then refresh_mappings store irs.default_impu fuel irs.ttl now
                  (impis ElementState.unchanged) status w'
              else some (status, w'))
            λ status' w''.
              add_mappings store irs.default_impu fuel irs.refreshed irs.ttl now
                (impis ElementState.added) status' w''
