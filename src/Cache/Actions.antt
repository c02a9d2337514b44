-- ===== src/Cache/Actions.antt =====
-- The operations that write an IRS to every store (src/memcached_cache.cpp): `perform` and the actions
-- on one store. The IRS that one store's action leaves is the one that the next store is given.
use homestead.Prelude.{ℕ, Option, none, some, List, [], ◌∷◌, if◌then◌else◌}
use homestead.Prelude.Int.{ℤ}
use homestead.Store.{Status, is_ok}
use homestead.Irs.{Irs, has_changed, delete_assoc_impus, delete_impis}
use homestead.Irs.Elements.{VectorUtils}
use homestead.Cache.{ImpuStoreOps, MemcachedCache}
use homestead.Cache.Record.{create_irs_impu, update_irs_impu, delete_irs_impu}
use homestead.Cache.Mappings.{update_irs_impi_mappings}
use homestead.Cache.Associated.{update_irs_associated_impus}

-- A step that ended: a status and what was left; `none` is the end of the fuel.
abbrev pub Outcome : Type 0 → Type 0
Outcome S = Option (Status × S)

-- How often the progress callback was called.
pub record Performed (S : Type 0) : Type 0 where
  pub status : Status
  pub progress : ℕ
  pub state : S

module _ {W S : Type 0} (action : ImpuStoreOps W → S → Outcome S) where
  -- The remote stores' statuses are dropped.
  unfoldable pub perform_remotes : List (ImpuStoreOps W) → S → Option S
  perform_remotes [] s = some s
  perform_remotes (store ∷ stores) s = elim (action store s) [
    | none ↦ none
    | some (status, s') ↦ perform_remotes stores s'
  ]

  unfoldable pub perform : MemcachedCache W → S → Option (Performed S)
  perform cache s = elim (action cache.local_store s) [
    | none ↦ none
    | some (status, s') ↦
        if is_ok status
        then elim (perform_remotes cache.remote_stores s') [
          | none ↦ none
          | some s'' ↦ some (record { status = status; progress = 1; state = s'' })
        ]
        else some (record { status = status; progress = 0; state = s' })
  ]

module _ {W : Type 0} (utils : VectorUtils) (fuel : ℕ) (now : ℤ) where
  unfoldable pub write_record : ImpuStoreOps W → Irs × W → Outcome (Irs × W)
  write_record store (irs, w) =
      if irs.existing
      then elim (update_irs_impu store utils fuel now irs w) [
        | none ↦ none
        | some r ↦ some (r.status, (r.irs, r.world))
      ]
      else (let (status, w') = create_irs_impu store now irs w in some (status, (irs, w')))

  -- The statuses of the two updates that follow the record are dropped.
  unfoldable pub update_references : ImpuStoreOps W → Irs × W → Option (Irs × W)
  update_references store (irs, w) = elim (update_irs_associated_impus store fuel now irs w) [
    | none ↦ none
    | some (_, w') ↦ elim (update_irs_impi_mappings store fuel now irs w') [
      | none ↦ none
      | some (_, w'') ↦ some (irs, w'')
    ]
  ]

  unfoldable pub put_irs_action : ImpuStoreOps W → Irs × W → Outcome (Irs × W)
  put_irs_action store s = elim (write_record store s) [
    | none ↦ none
    | some (status, s') ↦
        if is_ok status
        then elim (update_references store s') [ none ↦ none | some s'' ↦ some (status, s'') ]
        else some (status, s')
  ]

  unfoldable pub delete_mappings : ImpuStoreOps W → Irs → Status × W → Outcome (Irs × W)
  delete_mappings store irs (status, w) =
      if is_ok status
      then (let irs' = delete_impis irs in
          elim (update_irs_impi_mappings store fuel now irs' w) [
            | none ↦ none
            | some (status', w') ↦ some (status', (irs', w'))
          ])
      else some (status, (irs, w))

  unfoldable pub delete_references : ImpuStoreOps W → Status × (Irs × W) → Outcome (Irs × W)
  delete_references store (status, (irs, w)) =
      if is_ok status
      then (let irs' = delete_assoc_impus irs in
          elim (update_irs_associated_impus store fuel now irs' w) [
            | none ↦ none
            | some r ↦ delete_mappings store irs' r
          ])
      else some (status, (irs, w))

  unfoldable pub delete_irs_action : ImpuStoreOps W → Irs × W → Outcome (Irs × W)
  delete_irs_action store (irs, w) = elim (delete_irs_impu store utils fuel now irs w) [
    | none ↦ none
    | some r ↦ delete_references store (r.status, (r.irs, r.world))
  ]

  -- An IRS that has not changed is not written, and counts as written.
  unfoldable pub put_implicit_registration_set :
      MemcachedCache W → Irs × W → Option (Performed (Irs × W))
  put_implicit_registration_set cache (irs, w) =
      if has_changed irs
      then perform put_irs_action cache (irs, w)
      else some (record { status = Status.ok; progress = 1; state = (irs, w) })

  unfoldable pub delete_implicit_registration_set :
      MemcachedCache W → Irs × W → Option (Performed (Irs × W))
  delete_implicit_registration_set cache (irs, w) =
      if irs.existing
      then perform delete_irs_action cache (irs, w)
      else some (record { status = Status.ok; progress = 1; state = (irs, w) })

  -- The status is that of the last IRS that exists.
  unfoldable pub delete_irss_loop : ImpuStoreOps W → Status → List Irs × W → Outcome (List Irs × W)
  delete_irss_loop store status ([], w) = some (status, ([], w))
  delete_irss_loop store status ((irs ∷ irss), w) =
      if irs.existing
      then elim (delete_irs_action store (irs, w)) [
        | none ↦ none
        | some (status', (irs', w')) ↦ elim (delete_irss_loop store status' (irss, w')) [
          | none ↦ none
          | some (status'', (irss', w'')) ↦ some (status'', (irs' ∷ irss', w''))
        ]
      ]
      else elim (delete_irss_loop store status (irss, w)) [
        | none ↦ none
        | some (status'', (irss', w'')) ↦ some (status'', (irs ∷ irss', w''))
      ]

  unfoldable pub delete_irss_action : ImpuStoreOps W → List Irs × W → Outcome (List Irs × W)
  delete_irss_action store s = delete_irss_loop store Status.ok s

  unfoldable pub delete_implicit_registration_sets :
      MemcachedCache W → List Irs × W → Option (Performed (List Irs × W))
  delete_implicit_registration_sets cache s = perform delete_irss_action cache s
