-- ===== src/CacheProcessor/Examples.antt =====
-- A cache of one store that has one record, with one registration set.
use homestead.Prelude.{ℕ, refl, none, some, [], ◌∷◌, if◌then◌else◌}
use homestead.Prelude.Int.{pos}
use homestead.Prelude.Lists.{contains}
use homestead.Store.{Status}
use homestead.ImpuStore.{RegistrationState, DefaultImpu, default}
use homestead.Irs.{Irs, new_irs}
use homestead.Irs.Elements.{VectorUtils}
use homestead.Cache.{ImpuStoreOps, MemcachedCache}
use homestead.CacheProcessor.{put_irs, delete_irs, delete_irss, put_subscription}
use homestead.CacheProcessor.Protocol.{IsProtocol, writes-IsProtocol}
use text.Mathlib.Text.{◌==◌}

abbrev stored : DefaultImpu
stored = record {
  impu = "sip:a";
  cas = 4;
  expiry = pos 7300;
  store = some 1;
  registration_state = RegistrationState.registered;
  charging_addresses = record { ccfs = []; ecfs = [] };
  associated_impus = [];
  impis = "a@home" ∷ [];
  service_profile = "sub";
}

abbrev store : ImpuStoreOps ℕ
store = record {
  this = 1;
  get_impu = λ k w.
      if k == "sip:a"
      then ((Status.ok, some (default stored)), w)
      else ((Status.not_found, none), w);
  set_impu_without_cas = λ i w. (Status.ok, w);
  add_impu = λ i w. (Status.error, w);
  set_impu = λ i w. (Status.ok, w);
  delete_impu = λ i w. (Status.ok, w);
  get_impi_mapping = λ k w. ((Status.not_found, none), w);
  set_impi_mapping = λ m w. (Status.ok, w);
  delete_impi_mapping = λ m w. (Status.ok, w);
}

abbrev cache : MemcachedCache ℕ
cache = record { local_store = store; remote_stores = [] }

abbrev vectors : VectorUtils
vectors = record { in_vector = contains; in_vector_lem = λ s v. refl }

abbrev irs : Irs
irs = record (new_irs (pos 300) RegistrationState.registered) { default_impu = "sip:b" }

writes-IsProtocol_example :
    IsProtocol (put_irs vectors 4 cache (pos 100) irs 0)
    × IsProtocol (delete_irs vectors 4 cache (pos 100) irs 0)
    × IsProtocol (delete_irss vectors 4 cache (pos 100) (irs ∷ []) 0)
    × IsProtocol (put_subscription vectors 4 cache (pos 100) (("sip:b", irs) ∷ []) 0)
writes-IsProtocol_example =
    writes-IsProtocol vectors 4 cache (pos 100) irs (irs ∷ []) (("sip:b", irs) ∷ []) 0
