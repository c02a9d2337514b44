-- ===== src/PushProfile.antt =====
-- The task that a Push-Profile request of the HSS starts: `PushProfileTask` of
-- src/diameter_handlers.cpp and include/diameter_handlers.h. Logs and counters are left out, with the
-- test for a SIP URI, whose result is only logged. The replies of the cache and of Sprout are
-- `ProfilePeers`, and what the task asks of them and sends is its trace.
pub mod Answered
pub mod Messages
pub mod Cached
mod Examples
use homestead.Prelude.{
  ℕ, zero, suc, String, Bool, true, false, ◌&&◌, Option, none, some, List, [], ◌∷◌, ◌++◌,
  if◌then◌else◌, ◌==◌,
}
use homestead.Prelude.Dict.{insert}
use homestead.Store.{Status, is_ok}
use homestead.ImpuStore.{ChargingAddresses}
use homestead.XmlUtils.{XmlLib, get_default_id}
use homestead.Irs.{Irs}
use homestead.Irs.Elements.{VectorUtils, set_ims_sub_xml}
use homestead.Cache.Subscription.{ImsSubscription, set_charging_addrs, get_irs_for_default_impu}
use homestead.RegistrationTermination.{ResultAvp, http_ok}

-- What the task reads from the request; `none` where an AVP is absent.
pub record PushProfileRequest : Type 0 where
  pub impi : String
  pub user_data : Option String
  pub charging_addrs : Option ChargingAddresses

-- The other parties, by their replies: the cache's lookup (a status, and the subscription of a
-- success), the status code of Sprout's HTTP answer, and how a write to the cache ends, with how often
-- it calls back with progress before.
pub record ProfilePeers : Type 0 where
  pub get_ims_subscription : String → Status × ImsSubscription
  pub sprout : String → String → ℕ
  pub put_ims_subscription : ImsSubscription → Status × ℕ

-- What the task does, in order. `done` is where the task deletes itself.
pub data ProfileAction : Type 0 where
  get_ims_sub : String → ProfileAction
  change_associated_identities : String → String → ProfileAction
  put_ims_sub : ImsSubscription → ProfileAction
  send_ppa : ResultAvp → ProfileAction
  done : ProfileAction

unfoldable pub on_save_ims_sub_progress : List ProfileAction
on_save_ims_sub_progress = send_ppa ResultAvp.req_success ∷ []

unfoldable pub on_save_ims_sub_success : List ProfileAction
on_save_ims_sub_success = done ∷ []

unfoldable pub on_save_ims_sub_failure : Status → List ProfileAction
on_save_ims_sub_failure rc = send_ppa ResultAvp.req_failure ∷ done ∷ []

unfoldable pub on_get_ims_sub_failure : Status → List ProfileAction
on_get_ims_sub_failure rc = send_ppa ResultAvp.req_failure ∷ done ∷ []

-- The callbacks of a write: progress as often as it says, then success or failure.
unfoldable pub on_save : Status → ℕ → List ProfileAction
unfolding on_save_ims_sub_progress on_save_ims_sub_success on_save_ims_sub_failure
on_save status zero =
    if is_ok status then on_save_ims_sub_success else on_save_ims_sub_failure status
on_save status (suc n) = on_save_ims_sub_progress ++ on_save status n

abbrev pub new_addresses : Option ChargingAddresses → ImsSubscription → ImsSubscription
unfolding set_charging_addrs
new_addresses none sub = sub
new_addresses (some addrs) sub = set_charging_addrs sub addrs

-- Whether there is nothing to do: neither a subscription nor addresses.
abbrev pub has_no_data : PushProfileRequest → Bool
has_no_data ppr = is_none ppr.user_data && is_none ppr.charging_addrs
  where
    is_none : {A : Type 0} → Option A → Bool
    is_none none = true
    is_none (some a) = false

module _ (utils : VectorUtils) (xml : XmlLib) (peers : ProfilePeers) where
  -- The end of `on_get_ims_sub_success`: new charging addresses, and the write.
  unfoldable pub save : Option ChargingAddresses → ImsSubscription → List ProfileAction
  unfolding on_save
  save charging_addrs sub =
      let sub' = new_addresses charging_addrs sub in
      let saved = peers.put_ims_subscription sub' in put_ims_sub sub' ∷ on_save saved.0 saved.1

  -- The XML of the request must keep the default identity of one of the IRSs. The IRS is shared
  -- with the subscription, which so has the new XML too.
  unfoldable pub on_get_ims_sub_success : PushProfileRequest → ImsSubscription → List ProfileAction
  unfolding get_default_id get_irs_for_default_impu insert set_ims_sub_xml save
  on_get_ims_sub_success ppr sub = elim ppr.user_data [
    | none ↦ save ppr.charging_addrs sub
    | some text ↦
        let new_default_id = get_default_id xml text "" in
        elim (get_irs_for_default_impu sub new_default_id) [
          | none ↦ send_ppa ResultAvp.req_failure ∷ done ∷ []
          | some irs ↦
              let sub' = insert new_default_id (set_ims_sub_xml utils xml irs text) sub in
              change_associated_identities new_default_id text
              ∷ (if peers.sprout new_default_id text == http_ok
                  then save ppr.charging_addrs sub'
                  else send_ppa ResultAvp.req_failure ∷ done ∷ [])
        ]
  ]

  unfoldable pub run : PushProfileRequest → List ProfileAction
  unfolding on_get_ims_sub_success on_get_ims_sub_failure
  run ppr =
      let reply = peers.get_ims_subscription ppr.impi in
      if has_no_data ppr
      then send_ppa ResultAvp.req_success ∷ done ∷ []
      else get_ims_sub ppr.impi
        ∷ (if is_ok reply.0
            then on_get_ims_sub_success ppr reply.1
            else on_get_ims_sub_failure reply.0)
