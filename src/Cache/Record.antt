-- ===== src/Cache/Record.antt =====
-- The default IMPU record of an IRS in one store (src/memcached_cache.cpp): `create_irs_impu`,
-- `perform_irs_impu_action`, `update_irs_impu` and `delete_irs_impu`. A conflict merges the stored
-- record into the IRS, so the IRS is passed on. The loop over DATA_CONTENTION takes fuel.
use homestead.Prelude.{ℕ, zero, suc, Option, none, some, if◌then◌else◌}
use homestead.Prelude.Int.{ℤ}
use homestead.Store.{Status}
use homestead.ImpuStore.{DefaultImpu, Impu, default, associated, state_is_registered}
use homestead.Irs.{Irs, get_impu, get_impu_from_impu, get_impu_for_store, mark_as_refreshed}
use homestead.Irs.Elements.{VectorUtils, update_from_impu_from_store}
use homestead.Cache.{ImpuStoreOps, is_contention}

abbrev pub ignore_contention : Status → Status
ignore_contention Status.data_contention = Status.ok
ignore_contention s = s

-- The member function that the loop is given.
pub data ImpuAction : Type 0 where
  sets deletes : ImpuAction

module _ {W : Type 0} (store : ImpuStoreOps W) where
  -- A REGISTERED record is written blindly, another only where there is none.
  unfoldable pub create_irs_impu : ℤ → Irs → W → Status × W
  create_irs_impu now irs w =
      if state_is_registered irs.registration_state
      then store.set_impu_without_cas (default (get_impu irs now)) w
      else (let (status, w') = store.add_impu (default (get_impu irs now)) w in
          (ignore_contention status, w'))

  unfoldable pub act : ImpuAction → DefaultImpu → W → Status × W
  act sets d w = store.set_impu (default d) w
  act deletes d w = store.delete_impu (default d) w

  pub record Round : Type 0 where
    pub status : Status
    pub irs : Irs
    pub world : W

  abbrev with_irs : Irs → Status × W → Round
  with_irs irs (status, w) = record { status = status; irs = irs; world = w }

  -- A round that reads the store's record first.
  unfoldable pub reread_round : VectorUtils → ImpuAction → ℤ → Irs → Option Impu × W → Round
  unfolding act update_from_impu_from_store
  reread_round utils deletes now irs (none, w) = with_irs irs (Status.ok, w)
  reread_round utils sets now irs (none, w) = with_irs irs (act sets (get_impu irs now) w)
  reread_round utils action now irs (some (default d), w) =
      let merged = update_from_impu_from_store utils irs d now in
      with_irs merged (act action (get_impu_from_impu merged (default d) now) w)
  reread_round utils action now irs (some (associated a), w) =
      if irs.refreshed
      then with_irs irs (act action (get_impu_from_impu irs (associated a) now) w)
      else with_irs irs (Status.error, w)

  unfoldable pub action_round : VectorUtils → ImpuAction → ℤ → Option DefaultImpu → Irs → W → Round
  action_round utils action now (some d) irs w = with_irs irs (act action d w)
  action_round utils action now none irs w =
      let r = store.get_impu irs.default_impu w in reread_round utils action now irs (r.0.1, r.1)

  -- The first round uses the version that the IRS was read with, if it was read from this store; the
  -- others read the store.
  unfoldable pub action_loop :
      VectorUtils → ℕ → ImpuAction → ℤ → Option DefaultImpu → Irs → W → Option Round
  action_loop utils zero action now impu irs w = none
  action_loop utils (suc fuel) action now impu irs w =
      let r = action_round utils action now impu irs w in
      let again = action_loop utils fuel action now none r.irs r.world in
      if is_contention r.status then again else some r

  unfoldable pub perform_irs_impu_action : VectorUtils → ℕ → ImpuAction → ℤ → Irs → W → Option Round
  perform_irs_impu_action utils fuel action now irs w =
      action_loop utils fuel action now (get_impu_for_store irs store.this now) irs w

  unfoldable pub update_irs_impu : VectorUtils → ℕ → ℤ → Irs → W → Option Round
  update_irs_impu utils fuel now irs w = perform_irs_impu_action utils fuel sets now irs w

  -- Deleting an IRS refreshes it.
  unfoldable pub delete_irs_impu : VectorUtils → ℕ → ℤ → Irs → W → Option Round
  delete_irs_impu utils fuel now irs w =
      perform_irs_impu_action utils fuel deletes now (mark_as_refreshed irs) w
