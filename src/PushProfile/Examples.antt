-- ===== src/PushProfile/Examples.antt =====
-- A Push-Profile request with XML and charging addresses, over a cache of one store.
use homestead.Prelude.{ℕ, ◌≡◌, refl, none, some, [], ◌∷◌, if◌then◌else◌}
use homestead.Prelude.Int.{pos}
use homestead.Prelude.Lists.{contains}
use homestead.Store.{Status}
use homestead.ImpuStore.{RegistrationState}
use homestead.XmlUtils.{Node, nil, cons, element, XmlLib}
use homestead.Irs.{Irs, new_irs}
use homestead.Irs.Elements.{VectorUtils}
use homestead.Cache.{ImpuStoreOps, MemcachedCache}
use homestead.PushProfile.{PushProfileRequest, ProfilePeers, run}
use homestead.PushProfile.Answered.{
  ppas, writes, written, to_write, accepted, ppa_for, writes-run, ppas-run,
}
use homestead.PushProfile.Cached.{with_cache, with_cache-ReportsOnce}
use text.Mathlib.Text.{◌==◌}

abbrev subscription : Node
subscription = element "IMSSubscription" "" [] (
    cons
      (element "ServiceProfile" "" [] (
        cons (element "PublicIdentity" "" [] (cons (element "Identity" "sip:alice" [] nil) nil))
          nil))
      nil)

abbrev xml : XmlLib
xml = record {
  parse = λ text. if text == "sub" then some (cons subscription nil) else none;
  ims_subscription = "IMSSubscription";
  service_profile = "ServiceProfile";
  public_identity = "PublicIdentity";
  identity = "Identity";
  barring_indication = "BarringIndication";
  state_unbarred = "0";
  extension = "Extension";
  private_id = "PrivateID";
  parse_extension_identity = λ uri extension. uri;
}

abbrev vectors : VectorUtils
vectors = record { in_vector = contains; in_vector_lem = λ s v. refl }

abbrev alice : Irs
alice = record (new_irs (pos 300) RegistrationState.registered) { default_impu = "sip:alice" }

abbrev store : ImpuStoreOps ℕ
store = record {
  this = 1;
  get_impu = λ k w. ((Status.not_found, none), w);
  set_impu_without_cas = λ i w. (Status.ok, w);
  add_impu = λ i w. (Status.ok, w);
  set_impu = λ i w. (Status.ok, w);
  delete_impu = λ i w. (Status.ok, w);
  get_impi_mapping = λ k w. ((Status.not_found, none), w);
  set_impi_mapping = λ m w. (Status.ok, w);
  delete_impi_mapping = λ m w. (Status.ok, w);
}

abbrev cache : MemcachedCache ℕ
cache = record { local_store = store; remote_stores = [] }

abbrev peers : ProfilePeers
peers = with_cache vectors 4 (pos 100) cache 0 (record {
  get_ims_subscription = λ impi. (Status.ok, ("sip:alice", alice) ∷ []);
  sprout = λ id text. 200;
  put_ims_subscription = λ sub. (Status.error, 0);
})

abbrev request : PushProfileRequest
request = record {
  impi = "alice@home";
  user_data = some "sub";
  charging_addrs = some (record { ccfs = "ccf" ∷ []; ecfs = [] });
}

writes-run_example :
    writes (run vectors xml peers request) ≡ written (to_write vectors xml peers request)
writes-run_example = writes-run vectors xml peers request

ppas-run_example :
    ppas (run vectors xml peers request) ≡ (ppa_for (accepted vectors xml peers request) ∷ [])
ppas-run_example = ppas-run vectors xml peers request (
    with_cache-ReportsOnce vectors 4 (pos 100) cache 0 (record {
      get_ims_subscription = λ impi. (Status.ok, ("sip:alice", alice) ∷ []);
      sprout = λ id text. 200;
      put_ims_subscription = λ sub. (Status.error, 0);
    }))
