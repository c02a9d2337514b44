-- ===== src/PushProfile/Cached.antt =====
-- The cache of src/memcached_cache.cpp calls back as the task of a Push-Profile request relies on.
use homestead.Prelude.{ℕ, ◌≡◌, refl, Option, none, some, [], if◌then◌else◌}
use homestead.Prelude.Int.{ℤ}
use homestead.Store.{Status, is_ok}
use homestead.ImpuStore.{RegistrationState}
use homestead.Irs.{new_irs}
use homestead.Irs.Elements.{VectorUtils}
use homestead.Cache.{MemcachedCache}
use homestead.Cache.Actions.{Performed}
use homestead.Cache.Subscription.{put_ims_subscription}
use homestead.Cache.Progress.{Reports, operations-Report}
use homestead.PushProfile.{ProfilePeers}
use homestead.PushProfile.Answered.{ReportsOnce}

-- The status and the progress of a write; a loop without end is an error without progress.
abbrev pub reported : {S : Type 0} → Option (Performed S) → Status × ℕ
reported none = (Status.error, 0)
reported (some p) = (p.status, p.progress)

reported-Reports :
    {S : Type 0} (o : Option (Performed S))
    → Reports o
    → (reported o).1 ≡ (if is_ok (reported o).0 then 1 else 0)
reported-Reports none h = refl
reported-Reports (some p) h = h

module _ {W : Type 0} (utils : VectorUtils) (fuel : ℕ) (now : ℤ) (cache : MemcachedCache W) where
  -- Other parties whose writes are those of the cache.
  abbrev pub with_cache : W → ProfilePeers → ProfilePeers
  with_cache w peers = record peers {
    put_ims_subscription = λ sub. reported (put_ims_subscription utils fuel now cache (sub, w));
  }

  pub with_cache-ReportsOnce : (w : W) (peers : ProfilePeers) → ReportsOnce (with_cache w peers)
  with_cache-ReportsOnce w peers sub =
      reported-Reports (put_ims_subscription utils fuel now cache (sub, w)) (
        let irs = new_irs now RegistrationState.registered in
        (operations-Report utils fuel now cache irs [] sub w).3)
