-- ===== src/Cache/Progress.antt =====
-- The progress callback and the status of the operations that write to every store
-- (src/memcached_cache.cpp).
use homestead.Prelude.{
  ℕ, Bool, true, false, ◌≡◌, refl, Option, none, some, List, if◌then◌else◌, Bool-cases,
  Option-cases, subst, inl, inr,
}
use homestead.Prelude.Int.{ℤ}
use homestead.Irs.{Irs, has_changed}
use homestead.Irs.Elements.{VectorUtils}
use homestead.Store.{Status, is_ok}
use homestead.Cache.{ImpuStoreOps, MemcachedCache}
use homestead.Cache.Actions.{
  Outcome, Performed, perform, perform_remotes, put_irs_action, delete_irs_action,
  delete_irss_action, put_implicit_registration_set, delete_implicit_registration_set,
  delete_implicit_registration_sets,
}
use homestead.Cache.Subscription.{
  ImsSubscription, put_ims_sub_action, put_ims_subscription, put_all,
}

-- The callback was called once if the status is OK, and else not.
abbrev pub Reports : {S : Type 0} → Option (Performed S) → Type 0
Reports none = Unit {0}
Reports (some p) = p.progress ≡ (if is_ok p.status then 1 else 0)

abbrev pub EndsOk : {S : Type 0} → Option (Performed S) → Type 0
EndsOk none = Unit {0}
EndsOk (some p) = p.status ≡ Status.ok

abbrev AllOk : {S : Type 0} → Outcome S → Type 0
AllOk none = Unit {0}
AllOk (some r) = r.0 ≡ Status.ok

Reports-if :
    {S : Type 0} (b : Bool) (x y : Option (Performed S))
    → Reports x
    → Reports y
    → Reports (if b then x else y)
Reports-if true x y h k = h
Reports-if false x y h k = k

module _ {W S : Type 0} (action : ImpuStoreOps W → S → Outcome S) where
  -- `perform` reports as above whatever the action on one store is, and its status is the local one:
  -- whatever the remote stores answer is dropped.
  perform-Reports : (cache : MemcachedCache W) (s : S) → Reports (perform action cache s)
  unfolding perform
  perform-Reports cache s = elim (Option-cases (action cache.local_store s)) [
    | inl e ↦ rw (e, Reports) tt
    | inr (r, e) ↦ elim (Bool-cases (is_ok r.0)) [
      | inr f ↦ rw (e, f, Reports, f) refl
      | inl f ↦ elim (Option-cases (perform_remotes action cache.remote_stores r.1)) [
        | inl g ↦ rw (e, f, g, Reports) tt
        | inr (s'', g) ↦ rw (e, f, g, Reports, f) refl
      ]
    ]
  ]

  perform-EndsOk :
      (cache : MemcachedCache W) (s : S)
      → ((store : ImpuStoreOps W) (t : S) → AllOk (action store t))
      → EndsOk (perform action cache s)
  unfolding perform
  perform-EndsOk cache s h = elim (Option-cases (action cache.local_store s)) [
    | inl e ↦ rw (e, EndsOk) tt
    | inr (r, e) ↦
        let ok : r.0 ≡ Status.ok = subst AllOk e (h cache.local_store s) in
        elim (Option-cases (perform_remotes action cache.remote_stores r.1)) [
          | inl g ↦ rw (e, ok, g, EndsOk) tt
          | inr (s'', g) ↦ rw (e, ok, g, EndsOk) ok
        ]
  ]

module _ {W : Type 0} (utils : VectorUtils) (fuel : ℕ) (now : ℤ) where
  -- Every operation that writes to all stores calls the progress callback exactly once if the status
  -- that it returns is OK, and otherwise not at all.
  pub operations-Report :
      (cache : MemcachedCache W) (irs : Irs) (irss : List Irs) (sub : ImsSubscription) (w : W)
      → Reports (put_implicit_registration_set utils fuel now cache (irs, w))
        × Reports (delete_implicit_registration_set utils fuel now cache (irs, w))
        × Reports (delete_implicit_registration_sets utils fuel now cache (irss, w))
        × Reports (put_ims_subscription utils fuel now cache (sub, w))
  unfolding put_implicit_registration_set delete_implicit_registration_set
      delete_implicit_registration_sets put_ims_subscription
  operations-Report cache irs irss sub w = (
    Reports-if (has_changed irs) _ _
        (perform-Reports (put_irs_action utils fuel now) cache (irs, w)) refl,
    Reports-if irs.existing _ _ (perform-Reports (delete_irs_action utils fuel now) cache (irs, w))
        refl,
    perform-Reports (delete_irss_action utils fuel now) cache (irss, w),
    perform-Reports (put_ims_sub_action utils fuel now) cache (sub, w),
  )

  put_ims_sub_action-ok :
      (store : ImpuStoreOps W) (s : ImsSubscription × W)
      → AllOk (put_ims_sub_action utils fuel now store s)
  unfolding put_ims_sub_action
  put_ims_sub_action-ok store (sub, w) = elim (Option-cases (put_all utils fuel now store sub w)) [
    | inl f ↦ rw (f, AllOk) tt
    | inr (s, f) ↦ rw (f, AllOk) refl
  ]

  -- `put_ims_subscription` never returns anything but OK, whatever the stores answer.
  pub put_ims_subscription-EndsOk :
      (cache : MemcachedCache W) (sub : ImsSubscription) (w : W)
      → EndsOk (put_ims_subscription utils fuel now cache (sub, w))
  unfolding put_ims_subscription
  put_ims_subscription-EndsOk cache sub w =
      perform-EndsOk (put_ims_sub_action utils fuel now) cache (sub, w) (put_ims_sub_action-ok)
