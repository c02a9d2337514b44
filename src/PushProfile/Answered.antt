-- ===== src/PushProfile/Answered.antt =====
-- What the task of a Push-Profile request answers and writes (src/diameter_handlers.cpp), whatever the
-- cache and Sprout reply.
use homestead.Prelude.{
  ℕ, zero, suc, String, Bool, true, false, ◌≡◌, refl, ap, ◌∙◌, Option, none, some, List, [], ◌∷◌,
  if◌then◌else◌, ◌==◌, ◌||◌, Bool-cases, Option-cases, inl, inr, arith,
}
use homestead.Prelude.Dict.{insert, lookup, map_values}
use homestead.Store.{Status, is_ok}
use homestead.ImpuStore.{ChargingAddresses}
use homestead.XmlUtils.{XmlLib, get_default_id}
use homestead.Irs.{Irs, set_charging_addresses}
use homestead.Irs.Elements.{VectorUtils, set_ims_sub_xml}
use homestead.Cache.Subscription.{ImsSubscription, get_irs_for_default_impu, set_charging_addrs}
use homestead.RegistrationTermination.{ResultAvp, http_ok}
use homestead.PushProfile.{
  PushProfileRequest, ProfilePeers, ProfileAction, on_save_ims_sub_progress,
  on_save_ims_sub_success, on_save_ims_sub_failure, on_get_ims_sub_failure, on_save, new_addresses,
  has_no_data, save, on_get_ims_sub_success, run,
}

-- The answers that are sent.
abbrev pub ppas : List ProfileAction → List ResultAvp
ppas [] = []
ppas (ProfileAction.send_ppa code ∷ rest) = code ∷ ppas rest
ppas (_ ∷ rest) = ppas rest

-- The subscriptions that are written.
abbrev pub writes : List ProfileAction → List ImsSubscription
writes [] = []
writes (ProfileAction.put_ims_sub sub ∷ rest) = sub ∷ writes rest
writes (_ ∷ rest) = writes rest

-- Every IRS of a subscription with the addresses of a request that has some.
abbrev pub readdressed : Option ChargingAddresses → ImsSubscription → ImsSubscription
readdressed none sub = sub
readdressed (some addrs) [] = []
readdressed (some addrs) ((id, irs) ∷ rest) =
    (id, record irs { charging_addresses = addrs; charging_addresses_set = true })
    ∷ readdressed (some addrs) rest

new_addresses_lem :
    (addrs : Option ChargingAddresses) (sub : ImsSubscription)
    → new_addresses addrs sub ≡ readdressed addrs sub
unfolding set_charging_addrs set_charging_addresses map_values
new_addresses_lem none sub = refl
new_addresses_lem (some addrs) [] = refl
new_addresses_lem (some addrs) ((id, irs) ∷ rest) =
    ap
      (λ more.
        (id, record irs { charging_addresses = addrs; charging_addresses_set = true }) ∷ more)
      (new_addresses_lem (some addrs) rest)

-- What becomes of a subscription that the cache has: nothing if the request has XML whose default
-- identity has no IRS, or which Sprout refuses.
abbrev pub updated :
    VectorUtils
    → XmlLib
    → ProfilePeers
    → PushProfileRequest
    → ImsSubscription
    → Option ImsSubscription
updated utils xml peers ppr sub = with_xml ppr.user_data
  where
    with_irs : String → Option Irs → Option ImsSubscription
    with_irs text none = none
    with_irs text (some irs) =
        let id = get_default_id xml text "" in
        if peers.sprout id text == http_ok
        then some
            (readdressed ppr.charging_addrs (insert id (set_ims_sub_xml utils xml irs text) sub))
        else none

    with_xml : Option String → Option ImsSubscription
    with_xml none = some (readdressed ppr.charging_addrs sub)
    with_xml (some text) = with_irs text (lookup (get_default_id xml text "") sub)

-- Whether a request has neither XML nor addresses.
abbrev pub asks_nothing : PushProfileRequest → Bool
asks_nothing ppr = neither ppr.user_data ppr.charging_addrs
  where
    neither : Option String → Option ChargingAddresses → Bool
    neither none none = true
    neither _ _ = false

has_no_data_lem : (ppr : PushProfileRequest) → has_no_data ppr ≡ asks_nothing ppr
has_no_data_lem ppr = ground arith

-- The subscription to write, if any.
abbrev pub to_write :
    VectorUtils → XmlLib → ProfilePeers → PushProfileRequest → Option ImsSubscription
to_write utils xml peers ppr =
    let reply = peers.get_ims_subscription ppr.impi in
    if asks_nothing ppr
    then none
    else if is_ok reply.0
    then updated utils xml peers ppr reply.1
    else none

abbrev pub written : Option ImsSubscription → List ImsSubscription
written none = []
written (some sub) = sub ∷ []

abbrev pub ppa_for : Bool → ResultAvp
ppa_for ok = if ok then ResultAvp.req_success else ResultAvp.req_failure

-- Whether a write, if there is one, succeeds.
abbrev pub saved : ProfilePeers → Option ImsSubscription → Bool
saved peers none = false
saved peers (some sub) = is_ok (peers.put_ims_subscription sub).0

-- Whether the answer is a success: there is nothing to do, or something is written, with success.
abbrev pub accepted : VectorUtils → XmlLib → ProfilePeers → PushProfileRequest → Bool
accepted utils xml peers ppr = asks_nothing ppr || saved peers (to_write utils xml peers ppr)

-- The cache calls back with progress once before a success, and not before a failure.
abbrev pub ReportsOnce : ProfilePeers → Type 0
ReportsOnce peers =
    (sub : ImsSubscription)
    → (peers.put_ims_subscription sub).1
      ≡ (if is_ok (peers.put_ims_subscription sub).0 then 1 else 0)

ppas-on_save :
    (status : Status) (n : ℕ)
    → n ≡ (if is_ok status then 1 else 0)
    → ppas (on_save status n) ≡ (ppa_for (is_ok status) ∷ [])
unfolding on_save on_save_ims_sub_progress on_save_ims_sub_success on_save_ims_sub_failure
ppas-on_save status n h = elim (Bool-cases (is_ok status)) [
  | inl e ↦ rw (h, e, e) refl
  | inr e ↦ rw (h, e, e) refl
]

writes-on_save : (status : Status) (n : ℕ) → writes (on_save status n) ≡ []
unfolding on_save on_save_ims_sub_progress on_save_ims_sub_success on_save_ims_sub_failure
writes-on_save status zero = ground arith
writes-on_save status (suc n) = writes-on_save status n

module _ (utils : VectorUtils) (xml : XmlLib) (peers : ProfilePeers) where
  writes-save :
      (addrs : Option ChargingAddresses) (sub : ImsSubscription)
      → writes (save utils xml peers addrs sub) ≡ (readdressed addrs sub ∷ [])
  unfolding save
  writes-save addrs sub =
      let sub' = new_addresses addrs sub in
      let reply = peers.put_ims_subscription sub' in
      ap (λ rest. sub' ∷ rest) (writes-on_save reply.0 reply.1)
      ∙ ap (λ last. last ∷ []) (new_addresses_lem addrs sub)

  ppas-save :
      (addrs : Option ChargingAddresses) (sub : ImsSubscription)
      → ReportsOnce peers
      → ppas (save utils xml peers addrs sub)
        ≡ (ppa_for (saved peers (some (readdressed addrs sub))) ∷ [])
  unfolding save
  ppas-save addrs sub h =
      let sub' = readdressed addrs sub in
      let reply = peers.put_ims_subscription sub' in
      rw (new_addresses_lem addrs sub) (ppas-on_save reply.0 reply.1 (h sub'))

  writes-on_get_ims_sub_success :
      (ppr : PushProfileRequest) (sub : ImsSubscription)
      → writes (on_get_ims_sub_success utils xml peers ppr sub)
        ≡ written (updated utils xml peers ppr sub)
  unfolding on_get_ims_sub_success get_irs_for_default_impu
  writes-on_get_ims_sub_success ppr sub = elim (Option-cases ppr.user_data) [
    | inl e ↦ ground (arith, e, writes-save ppr.charging_addrs sub)
    | inr (text, e) ↦
        let id = get_default_id xml text "" in
        elim (Option-cases (lookup id sub)) [
          | inl f ↦ ground (arith, e, f)
          | inr (irs, f) ↦
              let sub' = insert id (set_ims_sub_xml utils xml irs text) sub in
              ground (arith, e, f, writes-save ppr.charging_addrs sub')
        ]
  ]

  ppas-on_get_ims_sub_success :
      (ppr : PushProfileRequest) (sub : ImsSubscription)
      → ReportsOnce peers
      → ppas (on_get_ims_sub_success utils xml peers ppr sub)
        ≡ (ppa_for (saved peers (updated utils xml peers ppr sub)) ∷ [])
  unfolding on_get_ims_sub_success get_irs_for_default_impu
  ppas-on_get_ims_sub_success ppr sub h = elim (Option-cases ppr.user_data) [
    | inl e ↦ ground (arith, e, ppas-save ppr.charging_addrs sub h)
    | inr (text, e) ↦
        let id = get_default_id xml text "" in
        elim (Option-cases (lookup id sub)) [
          | inl f ↦ ground (arith, e, f)
          | inr (irs, f) ↦
              let sub' = insert id (set_ims_sub_xml utils xml irs text) sub in
              ground (arith, e, f, ppas-save ppr.charging_addrs sub' h)
        ]
  ]

  -- The subscription that is written is the cache's, with the XML of the request in the IRS of its
  -- default identity and the addresses of the request in every IRS, where it has them, and nothing is written where the request has neither, the cache fails, the XML has a default
  -- identity that is no IRS's, or Sprout refuses.
  pub writes-run :
      (ppr : PushProfileRequest)
      → writes (run utils xml peers ppr) ≡ written (to_write utils xml peers ppr)
  unfolding run on_get_ims_sub_failure
  writes-run ppr = ground (
    arith,
    has_no_data_lem ppr,
    writes-on_get_ims_sub_success ppr (peers.get_ims_subscription ppr.impi).1,
  )

  -- If the cache calls back with progress once before a success, and never before a failure, the HSS
  -- gets exactly one answer: a success if the request has no data, or if there is something to write
  -- and the write succeeds, and else a failure.
  pub ppas-run :
      (ppr : PushProfileRequest)
      → ReportsOnce peers
      → ppas (run utils xml peers ppr) ≡ (ppa_for (accepted utils xml peers ppr) ∷ [])
  unfolding run on_get_ims_sub_failure
  ppas-run ppr h = ground (
    arith,
    has_no_data_lem ppr,
    ppas-on_get_ims_sub_success ppr (peers.get_ims_subscription ppr.impi).1 h,
  )
