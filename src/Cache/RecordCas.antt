-- ===== src/Cache/RecordCas.antt =====
-- The loop over DATA_CONTENTION of `perform_irs_impu_action` (src/memcached_cache.cpp) over a store
-- that keeps versions, which other nodes write to as well.
use homestead.Prelude.{
  ℕ, zero, suc, String, true, false, ◌≡◌, ◌≢◌, ◌≤◌, ◌<◌, ◌⊎◌, inl, inr, refl, ap, sym, ◌∙◌, Option,
  none, some, arith, Bool-cases, Option-cases,
}
use homestead.Prelude.Int.{ℤ}
use homestead.ImpuStore.{Impu, DefaultImpu, AssociatedImpu, default, associated, impu_cas}
use homestead.Irs.{
  Irs, get_impu, get_impu_from_impu, get_impu_for_store, create_impu, mark_as_refreshed,
}
use homestead.Irs.Elements.{VectorUtils, update_from_impu_from_store}
use homestead.Store.{Status}
use homestead.Cache.{ImpuStoreOps, is_contention}
use homestead.Cache.Record.{
  Round, ImpuAction, sets, deletes, act, reread_round, action_round, action_loop,
  perform_irs_impu_action, delete_irs_impu,
}

abbrev pub impu_answer_of : Option Impu → Status × Option Impu
impu_answer_of none = (Status.not_found, none)
impu_answer_of (some impu) = (Status.ok, some impu)

abbrev pub cas_of_impu : Option Impu → ℕ
cas_of_impu none = 0
cas_of_impu (some impu) = impu_cas impu

-- What the loop relies on of a store's records: `view` is the table, `rivals` bounds the writes that
-- other nodes still make. A read answers with the table; an action with the version of the table goes
-- through unless a rival was first, and may be refused with another version.
pub record CasImpus {W : Type 0} (store : ImpuStoreOps W) : Type 0 where
  pub view : W → String → Option Impu
  pub rivals : W → ℕ
  pub read_answer :
      (k : String) (w : W) → (store.get_impu k w).0 ≡ impu_answer_of (view (store.get_impu k w).1 k)
  pub read_rivals : (k : String) (w : W) → rivals (store.get_impu k w).1 ≤ rivals w
  pub act_rivals :
      (action : ImpuAction) (d : DefaultImpu) (w : W) → rivals (act store action d w).1 ≤ rivals w
  pub acted :
      (action : ImpuAction) (d : DefaultImpu) (w : W)
      → (act store action d w).0 ≡ Status.ok
        ⊎ ((act store action d w).0 ≡ Status.data_contention
            × (rivals (act store action d w).1 < rivals w ⊎ cas_of_impu (view w d.impu) ≢ d.cas))

module _ {W : Type 0} (store : ImpuStoreOps W) (laws : CasImpus store) where
  -- A round that ended, or lost to a rival.
  abbrev Rounded : Irs → ℕ → Round store → Type 0
  Rounded irs n r =
      (r.status ≡ Status.ok
        ⊎ (r.status ≡ Status.error × irs.refreshed ≡ false)
        ⊎ (r.status ≡ Status.data_contention × laws.rivals r.world < n))
      × r.irs.refreshed ≡ irs.refreshed
      × laws.rivals r.world ≤ n

  abbrev pub Settled : Irs → Round store → Type 0
  Settled irs r = r.status ≡ Status.ok ⊎ (r.status ≡ Status.error × irs.refreshed ≡ false)

  -- An action with the version of the table.
  acted_fresh :
      (action : ImpuAction) (d : DefaultImpu) (w : W)
      → cas_of_impu (laws.view w d.impu) ≡ d.cas
      → (act store action d w).0 ≡ Status.ok
        ⊎ ((act store action d w).0 ≡ Status.data_contention
            × laws.rivals (act store action d w).1 < laws.rivals w)
  acted_fresh action d w fresh = elim (laws.acted action d w) [
    | inl ok ↦ inl ok
    | inr (lost, inl less) ↦ inr (lost, less)
    | inr (lost, inr stale) ↦ elim (stale fresh) [ ]
  ]

  acting :
      (action : ImpuAction) (d : DefaultImpu) (w : W) (irs irs' : Irs) (n : ℕ)
      → cas_of_impu (laws.view w d.impu) ≡ d.cas
      → irs'.refreshed ≡ irs.refreshed
      → laws.rivals w ≤ n
      → Rounded irs n (record {
        status = (act store action d w).0;
        irs = irs';
        world = (act store action d w).1;
      })
  acting action d w irs irs' n fresh same few = elim (acted_fresh action d w fresh) [
    | inl ok ↦ (inl ok, same, omega (arith, laws.act_rivals action d w))
    | inr (lost, less) ↦ (inr (inr (lost, omega arith)), same, omega arith)
  ]

  reread_associated :
      (utils : VectorUtils) (action : ImpuAction) (now : ℤ) (irs : Irs) (a : AssociatedImpu) (w : W)
      → irs.refreshed ≡ true
      → reread_round store utils action now irs (some (associated a), w) ≡ (
          let r = act store action (get_impu_from_impu irs (associated a) now) w in
          record { status = r.0; irs = irs; world = r.1 })
  unfolding reread_round
  reread_associated utils sets now irs a w r = rw r refl
  reread_associated utils deletes now irs a w r = rw r refl

  rereading :
      (utils : VectorUtils) (action : ImpuAction) (now : ℤ) (irs : Irs) (v : Option Impu) (w : W)
      (n : ℕ)
      → laws.view w irs.default_impu ≡ v
      → laws.rivals w ≤ n
      → Rounded irs n (reread_round store utils action now irs ((impu_answer_of v).1, w))
  unfolding reread_round update_from_impu_from_store create_impu
  rereading utils sets now irs none w n e few =
      acting sets (get_impu irs now) w irs irs n (ap cas_of_impu e) refl few
  rereading utils deletes now irs none w n e few = (inl refl, refl, few)
  rereading utils action now irs (some (default d)) w n e few =
      let merged = update_from_impu_from_store utils irs d now in
      acting action (get_impu_from_impu merged (default d) now) w irs merged n (ap cas_of_impu e)
        refl few
  rereading utils action now irs (some (associated a)) w n e few = elim (Bool-cases irs.refreshed) [
    | inl r ↦ rw (reread_associated utils action now irs a w r) (
        acting action (get_impu_from_impu irs (associated a) now) w irs irs n (ap cas_of_impu e)
          refl few)
    | inr r ↦ rw r (inr (inl (refl, refl)), refl, few)
  ]

  rereading_round :
      (utils : VectorUtils) (action : ImpuAction) (now : ℤ) (irs : Irs) (w : W)
      → Rounded irs (laws.rivals w) (action_round store utils action now none irs w)
  unfolding action_round
  rereading_round utils action now irs w =
      let r = store.get_impu irs.default_impu w in
      rw (laws.read_answer irs.default_impu w) (
        rereading utils action now irs (laws.view r.1 irs.default_impu) r.1 (laws.rivals w) refl
          (laws.read_rivals irs.default_impu w))

  ended_loop :
      (utils : VectorUtils) (fuel : ℕ) (action : ImpuAction) (now : ℤ) (impu : Option DefaultImpu)
      (irs : Irs) (w : W)
      → is_contention (action_round store utils action now impu irs w).status ≡ false
      → Settled irs (action_round store utils action now impu irs w)
      → (r : Round store) × action_loop store utils (suc fuel) action now impu irs w ≡ some r
        × Settled irs r
  unfolding action_loop
  ended_loop utils fuel action now impu irs w ended settled =
      rw ended (action_round store utils action now impu irs w, refl, settled)

  still-Settled :
      (irs irs' : Irs) (r : Round store)
      → irs'.refreshed ≡ irs.refreshed
      → Settled irs' r
      → Settled irs r
  still-Settled irs irs' r same (inl ok) = inl ok
  still-Settled irs irs' r same (inr (failed, e)) = inr (failed, sym same ∙ e)

  reread_loop :
      (utils : VectorUtils) (fuel : ℕ) (action : ImpuAction) (now : ℤ) (irs : Irs) (w : W)
      → laws.rivals w < fuel
      → (r : Round store) × action_loop store utils fuel action now none irs w ≡ some r
        × Settled irs r
  unfolding action_loop
  reread_loop utils zero action now irs w enough = ground arith
  reread_loop utils (suc fuel) action now irs w enough =
      let r = action_round store utils action now none irs w in
      let (how, same, few) = rereading_round utils action now irs w in
      elim how [
        | inl ok ↦ ended_loop utils fuel action now none irs w (ap is_contention ok) (inl ok)
        | inr (inl (failed, not_refreshed)) ↦
            ended_loop utils fuel action now none irs w (ap is_contention failed)
              (inr (failed, not_refreshed))
        | inr (inr (lost, less)) ↦
            let again : is_contention r.status ≡ true = ap is_contention lost in
            let (r', e, settled) = reread_loop utils fuel action now r.irs r.world (omega arith) in
            rw again (r', e, still-Settled irs r.irs r' same settled)
      ]

  -- The first round of an IRS that was read from this store may be stale.
  first_loop :
      (utils : VectorUtils) (fuel : ℕ) (action : ImpuAction) (now : ℤ) (d : DefaultImpu) (irs : Irs)
      (w : W)
      → suc (laws.rivals w) < fuel
      → (r : Round store) × action_loop store utils fuel action now (some d) irs w ≡ some r
        × Settled irs r
  unfolding action_loop action_round
  first_loop utils zero action now d irs w enough = ground arith
  first_loop utils (suc fuel) action now d irs w enough = elim (laws.acted action d w) [
    | inl ok ↦
        rw ok (
          record { status = Status.ok; irs = irs; world = (act store action d w).1 },
          refl,
          inl refl,
        )
    | inr (lost, why) ↦ rw lost (
        reread_loop utils fuel action now irs (act store action d w).1
          (omega (arith, laws.act_rivals action d w)))
  ]

  -- With two more rounds than rivals are left to write, the loop ends. It ends with OK, except that
  -- it ends with ERROR where the IRS is not refreshed and its record is an associated one.
  pub perform_irs_impu_action_total :
      (utils : VectorUtils) (fuel : ℕ) (action : ImpuAction) (now : ℤ) (irs : Irs) (w : W)
      → suc (laws.rivals w) < fuel
      → (r : Round store) × perform_irs_impu_action store utils fuel action now irs w ≡ some r
        × Settled irs r
  unfolding perform_irs_impu_action
  perform_irs_impu_action_total utils fuel action now irs w enough =
      elim (Option-cases (get_impu_for_store irs store.this now)) [
        | inl e ↦ rw e (reread_loop utils fuel action now irs w (omega arith))
        | inr (d, e) ↦ rw e (first_loop utils fuel action now d irs w enough)
      ]

  -- Deleting the record of an IRS ends with OK, given two more rounds than rivals are left to write.
  pub delete_irs_impu_total :
      (utils : VectorUtils) (fuel : ℕ) (now : ℤ) (irs : Irs) (w : W)
      → suc (laws.rivals w) < fuel
      → (r : Round store) × delete_irs_impu store utils fuel now irs w ≡ some r
        × r.status ≡ Status.ok
  unfolding delete_irs_impu mark_as_refreshed
  delete_irs_impu_total utils fuel now irs w enough =
      let (r, e, settled) =
        perform_irs_impu_action_total utils fuel deletes now (mark_as_refreshed irs) w enough in
      (r, e, elim settled [ inl ok ↦ ok | inr (failed, not_refreshed) ↦ ground arith ])
