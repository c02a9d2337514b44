-- ===== src/CacheProcessor.antt =====
-- `HssCacheProcessor` (src/hss_cache_processor.cpp): the calls of the cache that run on a pool of threads,
-- by the callbacks that each makes, in order. The pool is left out: a call runs when its turn comes.
pub mod Protocol
mod Examples
use homestead.Prelude.{ℕ, zero, suc, String, Option, none, some, List, [], ◌∷◌, ◌++◌, if◌then◌else◌}
use homestead.Prelude.Int.{ℤ}
use homestead.Store.{Status, is_ok}
use homestead.Irs.{Irs}
use homestead.Irs.Elements.{VectorUtils}
use homestead.Cache.{MemcachedCache, get_implicit_registration_set_for_impu}
use homestead.Cache.Actions.{
  Performed, put_implicit_registration_set, delete_implicit_registration_set,
  delete_implicit_registration_sets,
}
use homestead.Cache.Subscription.{
  ImsSubscription, get_implicit_registration_sets_for_impis,
  get_implicit_registration_sets_for_impus, get_ims_subscription, put_ims_subscription,
}

-- The calls of `success_cb`, `progress_cb` and `failure_cb`.
pub data Callback (A : Type 0) : Type 0 where
  success_cb : A → Callback A
  progress_cb : Callback A
  failure_cb : Status → Callback A

-- The end of every work item.
abbrev pub by_status : {A : Type 0} → Status → A → Callback A
by_status rc result = if is_ok rc then success_cb result else failure_cb rc

abbrev pub progressed : {A : Type 0} → ℕ → List (Callback A)
progressed zero = []
progressed (suc n) = progress_cb ∷ progressed n

-- The work item of a read, from what the cache returns. A work item whose read of a store throws never
-- comes to its callback: the pool's exception handler takes over, which is not modelled.
abbrev pub read_work : {A W : Type 0} → (Status × A) × W → List (Callback A) × W
read_work ((rc, result), w) = (by_status rc result ∷ [], w)

-- That of a write. `none` is a write that does not end.
abbrev pub write_work :
    {S : Type 0} → Option (Performed S) → Option (List (Callback (Unit {0})) × S)
write_work none = none
write_work (some p) = some (progressed p.progress ++ by_status p.status tt ∷ [], p.state)

module _ {W : Type 0} (cache : MemcachedCache W) (now : ℤ) where
  -- A null pointer is `none`.
  unfoldable pub get_irs_for_impu : String → W → List (Callback (Option Irs)) × W
  get_irs_for_impu impu w = read_work (get_implicit_registration_set_for_impu cache impu now w)

  unfoldable pub get_irss_for_impis : List String → W → List (Callback (List Irs)) × W
  get_irss_for_impis impis w =
      read_work (get_implicit_registration_sets_for_impis cache now impis [] w)

  unfoldable pub get_irss_for_impus : List String → W → List (Callback (List Irs)) × W
  get_irss_for_impus impus w =
      read_work (get_implicit_registration_sets_for_impus cache now impus [] w)

  unfoldable pub get_subscription : String → W → List (Callback (Option ImsSubscription)) × W
  get_subscription impi w = read_work (get_ims_subscription cache now impi w)

module _ {W : Type 0} (utils : VectorUtils) (fuel : ℕ) (cache : MemcachedCache W) (now : ℤ) where
  unfoldable pub put_irs : Irs → W → Option (List (Callback (Unit {0})) × (Irs × W))
  put_irs irs w = write_work (put_implicit_registration_set utils fuel now cache (irs, w))

  unfoldable pub delete_irs : Irs → W → Option (List (Callback (Unit {0})) × (Irs × W))
  delete_irs irs w = write_work (delete_implicit_registration_set utils fuel now cache (irs, w))

  unfoldable pub delete_irss : List Irs → W → Option (List (Callback (Unit {0})) × (List Irs × W))
  delete_irss irss w = write_work (delete_implicit_registration_sets utils fuel now cache (irss, w))

  unfoldable pub put_subscription :
      ImsSubscription → W → Option (List (Callback (Unit {0})) × (ImsSubscription × W))
  put_subscription sub w = write_work (put_ims_subscription utils fuel now cache (sub, w))
