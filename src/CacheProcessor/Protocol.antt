-- ===== src/CacheProcessor/Protocol.antt =====
-- Which callbacks the cache's processor makes (src/hss_cache_processor.cpp).
use homestead.Prelude.{
  ℕ, false, ◌≡◌, ◌⊎◌, Option, none, some, List, [], ◌∷◌, Bool-cases, inl, inr, arith,
}
use homestead.Prelude.Int.{ℤ}
use homestead.Store.{Status, is_ok}
use homestead.Irs.{Irs}
use homestead.Irs.Elements.{VectorUtils}
use homestead.Cache.{MemcachedCache}
use homestead.Cache.Actions.{
  Performed, put_implicit_registration_set, delete_implicit_registration_set,
  delete_implicit_registration_sets,
}
use homestead.Cache.Subscription.{ImsSubscription, put_ims_subscription}
use homestead.Cache.Progress.{Reports, operations-Report}
use homestead.CacheProcessor.{
  Callback, success_cb, progress_cb, failure_cb, write_work, put_irs, delete_irs, delete_irss,
  put_subscription,
}

-- A write that ends calls back progress and then success, or else one failure, with a status that is not
-- OK.
abbrev pub IsProtocol : {S : Type 0} → Option (List (Callback (Unit {0})) × S) → Type 0
IsProtocol none = Unit {0}
IsProtocol (some (calls, s)) =
    (calls ≡ (progress_cb ∷ success_cb tt ∷ []))
    ⊎ ((rc : Status) × ((calls ≡ (failure_cb rc ∷ [])) × (is_ok rc ≡ false)))

write_work-IsProtocol :
    {S : Type 0} (o : Option (Performed S)) → Reports o → IsProtocol (write_work o)
write_work-IsProtocol none h = tt
write_work-IsProtocol (some p) h = elim (Bool-cases (is_ok p.status)) [
  | inl e ↦ inl (ground (arith, h, e))
  | inr e ↦ inr (p.status, (ground (arith, h, e), e))
]

module _ {W : Type 0} (utils : VectorUtils) (fuel : ℕ) (cache : MemcachedCache W) (now : ℤ) where
  -- Each of the four writes, if it ends, calls back progress and then success, or else one failure with a
  -- status that is not OK.
  pub writes-IsProtocol :
      (irs : Irs) (irss : List Irs) (sub : ImsSubscription) (w : W)
      → IsProtocol (put_irs utils fuel cache now irs w)
        × IsProtocol (delete_irs utils fuel cache now irs w)
        × IsProtocol (delete_irss utils fuel cache now irss w)
        × IsProtocol (put_subscription utils fuel cache now sub w)
  unfolding put_irs delete_irs delete_irss put_subscription
  writes-IsProtocol irs irss sub w =
      let reports = operations-Report utils fuel now cache irs irss sub w in
      (
        write_work-IsProtocol (put_implicit_registration_set utils fuel now cache (irs, w))
            reports.0,
        write_work-IsProtocol (delete_implicit_registration_set utils fuel now cache (irs, w))
            reports.1,
        write_work-IsProtocol (delete_implicit_registration_sets utils fuel now cache (irss, w))
            reports.2,
        write_work-IsProtocol (put_ims_subscription utils fuel now cache (sub, w)) reports.3,
      )
