-- ===== src/Cache/Subscription.antt =====
-- Reads of several IRSs, and IMS subscriptions: src/base_hss_cache.cpp, include/base_ims_subscription.h
-- and the subscription functions of src/memcached_cache.cpp.
use homestead.Prelude.{ℕ, Option, none, some, List, [], ◌∷◌, ◌++◌, ◌||◌, if◌then◌else◌, String}
use homestead.Prelude.Int.{ℤ}
use homestead.Prelude.Dict.{Dict, lookup, insert, map_values}
use homestead.Store.{Status, is_ok}
use homestead.ImpuStore.{ChargingAddresses}
use homestead.Irs.{Irs, set_charging_addresses}
use homestead.Irs.Elements.{VectorUtils}
use homestead.Cache.{
  ImpuStoreOps, MemcachedCache, is_not_found, get_implicit_registration_set_for_impu,
  get_impus_for_impi,
}
use homestead.Cache.Actions.{Outcome, Performed, perform, put_irs_action}

abbrev pub found_irs : Option Irs → List Irs
found_irs none = []
found_irs (some irs) = irs ∷ []

-- `BaseImsSubscription`: the IRSs by their default IMPUs.
abbrev pub ImsSubscription : Type 0
ImsSubscription = Dict Irs

unfoldable pub ims_subscription : List Irs → ImsSubscription → ImsSubscription
unfolding insert
ims_subscription [] sub = sub
ims_subscription (irs ∷ irss) sub = ims_subscription irss (insert irs.default_impu irs sub)

unfoldable pub set_charging_addrs : ImsSubscription → ChargingAddresses → ImsSubscription
unfolding map_values
set_charging_addrs sub addrs = map_values (λ k irs. set_charging_addresses irs addrs) sub

unfoldable pub get_irs_for_default_impu : ImsSubscription → String → Option Irs
unfolding lookup
get_irs_for_default_impu sub impu = lookup impu sub

abbrev pub subscribed :
    {W : Type 0} → (Status × List Irs) × W → (Status × Option ImsSubscription) × W
subscribed ((status, irss), w) =
    ((status, if is_ok status then some (ims_subscription irss []) else none), w)

module _ {W : Type 0} (cache : MemcachedCache W) (now : ℤ) where
  -- The loop ends at the first IMPU that has an IRS, and at the first error but NOT_FOUND; on an
  -- error the result is cleared.
  unfoldable pub get_implicit_registration_sets_for_impus :
      List String → List Irs → W → (Status × List Irs) × W
  get_implicit_registration_sets_for_impus [] result w = ((Status.ok, result), w)
  get_implicit_registration_sets_for_impus (impu ∷ impus) result w =
      let r = get_implicit_registration_set_for_impu cache impu now w in
      let rest = get_implicit_registration_sets_for_impus impus result r.1 in
      if is_ok r.0.0
      then ((Status.ok, result ++ found_irs r.0.1), r.1)
      else if is_not_found r.0.0
      then rest
      else ((r.0.0, []), r.1)

  unfoldable pub get_implicit_registration_sets_for_impi :
      String → List Irs → W → (Status × List Irs) × W
  get_implicit_registration_sets_for_impi impi result w =
      let r = get_impus_for_impi cache impi w in
      if is_ok r.0.0
      then get_implicit_registration_sets_for_impus r.0.1 result r.1
      else ((r.0.0, result), r.1)

  unfoldable pub get_implicit_registration_sets_for_impis :
      List String → List Irs → W → (Status × List Irs) × W
  get_implicit_registration_sets_for_impis [] result w = ((Status.ok, result), w)
  get_implicit_registration_sets_for_impis (impi ∷ impis) result w =
      let r = get_implicit_registration_sets_for_impi impi [] w in
      let rest =
        get_implicit_registration_sets_for_impis impis
          (if is_ok r.0.0 then result ++ r.0.1 else result) r.1 in
      if is_ok r.0.0 || is_not_found r.0.0 then rest else ((r.0.0, []), r.1)

  unfoldable pub get_ims_subscription : String → W → (Status × Option ImsSubscription) × W
  get_ims_subscription impi w =
      let r = get_impus_for_impi cache impi w in
      if is_ok r.0.0
      then subscribed (get_implicit_registration_sets_for_impus r.0.1 [] r.1)
      else ((r.0.0, none), r.1)

module _ {W : Type 0} (utils : VectorUtils) (fuel : ℕ) (now : ℤ) where
  -- Every IRS of the subscription is written, changed or not; the statuses are dropped.
  unfoldable pub put_all : ImpuStoreOps W → ImsSubscription → W → Option (ImsSubscription × W)
  put_all store [] w = some ([], w)
  put_all store ((k, irs) ∷ sub) w = elim (put_irs_action utils fuel now store (irs, w)) [
    | none ↦ none
    | some (_, (irs', w')) ↦ elim (put_all store sub w') [
      | none ↦ none
      | some (sub', w'') ↦ some ((k, irs') ∷ sub', w'')
    ]
  ]

  unfoldable pub put_ims_sub_action :
      ImpuStoreOps W → ImsSubscription × W → Outcome (ImsSubscription × W)
  put_ims_sub_action store (sub, w) = elim (put_all store sub w) [
    | none ↦ none
    | some s ↦ some (Status.ok, s)
  ]

  unfoldable pub put_ims_subscription :
      MemcachedCache W → ImsSubscription × W → Option (Performed (ImsSubscription × W))
  put_ims_subscription cache s = perform put_ims_sub_action cache s
