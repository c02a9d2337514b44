-- ===== src/Cache/CasExamples.antt =====
-- Stores that keep versions and of which some writes lose to another node, and the theorems about the
-- loops over DATA_CONTENTION over them.
use homestead.Prelude.{
  ℕ, suc, zero, String, Bool, true, false, ◌&&◌, ◌≡◌, ◌≢◌, ◌≤◌, ◌<◌, ◌⊎◌, inl, inr, refl, ap, sym,
  Option, none, some, List, [], ◌∷◌, if◌then◌else◌, arith, eq_refl, leb, Bool-cases,
}
use homestead.Prelude.Int.{pos}
use homestead.Prelude.Lists.{contains, without}
use homestead.Store.{Status}
use homestead.ImpuStore.{
  RegistrationState, DefaultImpu, Impu, default, associated, ImpiMapping, new_mapping,
  has_default_impu, remove_default_impu, impu_cas,
}
use homestead.Irs.{Irs, irs_of_impu, keys_where, insert_all}
use homestead.Irs.Elements.{VectorUtils}
use homestead.Cache.{ImpuStoreOps, MemcachedCache}
use homestead.Cache.Livelock.{remove_mapping_livelock, add_mapping_livelock}
use homestead.Cache.Mappings.{remove_mapping, add_mapping, update_irs_impi_mappings, remove_from}
use homestead.Cache.Cas.{CasMappings, Keeps, Listed, answer_of, cas_of, add_mapping_total}
use homestead.Cache.Updates.{update_irs_impi_mappings_total}
use homestead.Cache.RecordCas.{CasImpus, Settled, perform_irs_impu_action_total}
use homestead.Cache.Record.{Round, ImpuAction, sets, deletes, act, perform_irs_impu_action}
use homestead.Cache.Progress.{EndsOk, put_ims_subscription-EndsOk}
use homestead.Cache.Subscription.{put_ims_subscription}
use text.Mathlib.Text.{◌==◌}

abbrev vectors : VectorUtils
vectors = record { in_vector = contains; in_vector_lem = λ s v. refl }

abbrev same_cas : ℕ → ℕ → Bool
same_cas a b = leb a b && leb b a

different_cas : (a b : ℕ) → same_cas a b ≡ false → a ≢ b
different_cas a b e = ground arith

-- A table of mappings with versions, of which the next `rivals` writes lose to another node.
record Shelf : Type 0 where
  table : String → Option (ℕ × List String)
  rivals : ℕ

abbrev shelved : String → Option (ℕ × List String) → Option ImpiMapping
shelved k none = none
shelved k (some (cas, impus)) =
    some (record { impi = k; cas = cas; expiry = pos 0; default_impus = impus })

abbrev shelf_view : Shelf → String → Option ImpiMapping
shelf_view w k = shelved k (w.table k)

abbrev put : ImpiMapping → Shelf → Shelf
put m w = record w {
  table = λ k. if k == m.impi then some (suc m.cas, m.default_impus) else w.table k;
}

abbrev shelf_write : ℕ → ImpiMapping → Shelf → Status × Shelf
shelf_write zero m w =
    if same_cas (cas_of (shelf_view w m.impi)) m.cas
    then (Status.ok, put m w)
    else (Status.data_contention, w)
shelf_write (suc n) m w = (Status.data_contention, record w { rivals = n })

abbrev shelf_store : ImpuStoreOps Shelf
shelf_store = record {
  this = 0;
  get_impu = λ k w. ((Status.not_found, none), w);
  set_impu_without_cas = λ i w. (Status.ok, w);
  add_impu = λ i w. (Status.ok, w);
  set_impu = λ i w. (Status.ok, w);
  delete_impu = λ i w. (Status.ok, w);
  get_impi_mapping = λ k w. (answer_of (shelf_view w k), w);
  set_impi_mapping = λ m w. shelf_write w.rivals m w;
  delete_impi_mapping = λ m w. (Status.ok, w);
}

shelf_rivals :
    (n : ℕ) (m : ImpiMapping) (w : Shelf) → w.rivals ≡ n → (shelf_write n m w).1.rivals ≤ n
shelf_rivals zero m w e = ground arith
shelf_rivals (suc n) m w e = omega arith

shelved_impi :
    (k : String) (o : Option (ℕ × List String)) (m : ImpiMapping)
    → shelved k o ≡ some m
    → m.impi ≡ k
shelved_impi k none m e = ground arith
shelved_impi k (some (cas, impus)) m e = sym (ap (λ o. elim o [ none ↦ k | some x ↦ x.impi ]) e)

shelf_wrote :
    (n : ℕ) (m : ImpiMapping) (w : Shelf)
    → w.rivals ≡ n
    → ((shelf_write n m w).0 ≡ Status.ok
        × (v : ImpiMapping) × shelf_view (shelf_write n m w).1 m.impi ≡ some v
        × v.default_impus ≡ m.default_impus)
      ⊎ ((shelf_write n m w).0 ≡ Status.data_contention
          × ((shelf_write n m w).1.rivals < w.rivals ⊎ cas_of (shelf_view w m.impi) ≢ m.cas))
shelf_wrote (suc n) m w e = inr (refl, inl (omega arith))
shelf_wrote zero m w e = elim (Bool-cases (same_cas (cas_of (shelf_view w m.impi)) m.cas)) [
  | inl f ↦ inl (
    rw f refl,
    (record { impi = m.impi; cas = suc m.cas; expiry = pos 0; default_impus = m.default_impus }),
    rw (f, eq_refl m.impi) refl,
    refl,
  )
  | inr f ↦ inr (rw f refl, inr λ p. different_cas (cas_of (shelf_view w m.impi)) m.cas f p)
]

abbrev shelf_laws : CasMappings shelf_store
shelf_laws = record {
  view = shelf_view;
  rivals = λ w. w.rivals;
  view_impi = λ w k m e. shelved_impi k (w.table k) m e;
  read_answer = λ k w. refl;
  read_rivals = λ k w. omega arith;
  write_rivals = λ m w. shelf_rivals w.rivals m w refl;
  write = λ m w. shelf_wrote w.rivals m w refl;
}

shelf_keeps :
    (n : ℕ) (m : ImpiMapping) (w : Shelf)
    → shelf_view (shelf_write n m w).1 m.impi ≡ none
    → shelf_view w m.impi ≡ none
shelf_keeps (suc n) m w e = e
shelf_keeps zero m w e = elim (Bool-cases (same_cas (cas_of (shelf_view w m.impi)) m.cas)) [
  | inl f ↦ ground (arith, eq_refl m.impi)
  | inr f ↦ ground (arith, eq_refl m.impi)
]

shelf-Keeps : Keeps shelf_store shelf_laws
shelf-Keeps = record { read_keeps = λ k w e. e; write_keeps = λ m w e. shelf_keeps w.rivals m w e }

-- The mapping of "a@home" is there already, and two writes lose.
abbrev shelf : Shelf
shelf = record { table = λ k. if k == "a@home" then some (7, "sip:b" ∷ []) else none; rivals = 2 }

add_mapping_total_example :
    (w' : Shelf) × add_mapping shelf_store "sip:a" 4 true
        (pos 300)
        (pos 100)
        (new_mapping "a@home" "sip:a" (pos 400))
        shelf
      ≡ some (Status.ok, w')
    × Listed (shelf_view w' "a@home") "sip:a"
    × w'.rivals ≤ 2
add_mapping_total_example =
    add_mapping_total shelf_store shelf_laws shelf-Keeps "sip:a" "a@home" true (pos 300) (pos 100)
      (pos 400) 4 shelf (omega arith)

abbrev stored : DefaultImpu
stored = record {
  impu = "sip:a";
  cas = 4;
  expiry = pos 7300;
  store = some 5;
  registration_state = RegistrationState.registered;
  charging_addresses = record { ccfs = "ccf1" ∷ []; ecfs = [] };
  associated_impus = "sip:a" ∷ "tel:5" ∷ [];
  impis = "a@home" ∷ [];
  service_profile = "sub";
}

abbrev refreshed_irs : Irs
refreshed_irs = record (irs_of_impu stored (pos 100)) { refreshed = true }

update_irs_impi_mappings_total_example :
    (w' : Shelf) × update_irs_impi_mappings shelf_store 4 (pos 100) refreshed_irs shelf
      ≡ some (Status.ok, w')
update_irs_impi_mappings_total_example =
    update_irs_impi_mappings_total shelf_store shelf_laws shelf-Keeps 4 (pos 100) refreshed_irs
      shelf (unfold irs_of_impu keys_where insert_all in refl) (omega arith)

-- The mapping is listed, and another node removes it before the write.
data Phase : Type 0 where
  listed gone : Phase

abbrev mapping : ImpiMapping
mapping = new_mapping "a@home" "sip:a" (pos 7300)

abbrev read_phase : Phase → (Status × Option ImpiMapping) × Phase
read_phase listed = ((Status.ok, some mapping), listed)
read_phase gone = ((Status.not_found, none), gone)

abbrev racing_store : ImpuStoreOps Phase
racing_store = record {
  this = 0;
  get_impu = λ k w. ((Status.not_found, none), w);
  set_impu_without_cas = λ i w. (Status.ok, w);
  add_impu = λ i w. (Status.ok, w);
  set_impu = λ i w. (Status.ok, w);
  delete_impu = λ i w. (Status.ok, w);
  get_impi_mapping = λ k w. read_phase w;
  set_impi_mapping = λ m w. (Status.data_contention, gone);
  delete_impi_mapping = λ m w. (Status.data_contention, gone);
}

remove_mapping_livelock_example :
    remove_mapping racing_store "sip:a" 1000 "a@home" Status.ok listed ≡ none
unfolding remove_from has_default_impu remove_default_impu contains without
remove_mapping_livelock_example =
    remove_mapping_livelock racing_store "sip:a" "a@home" listed listed gone Status.ok mapping refl
      refl refl refl 1000

add_mapping_livelock_example :
    add_mapping racing_store "sip:a" 1000 true (pos 300) (pos 100) (record mapping { cas = 4 }) gone
    ≡ none
add_mapping_livelock_example =
    add_mapping_livelock racing_store "sip:a" true (pos 300) (pos 100) (record mapping { cas = 4 })
      gone refl refl 1000

-- A table with one record, of which the next actions lose to another node.
record Desk : Type 0 where
  held : Impu
  rivals : ℕ

abbrev desk_act : ℕ → DefaultImpu → Desk → Status × Desk
desk_act (suc n) d w = (Status.data_contention, record w { rivals = n })
desk_act zero d w =
    if same_cas (impu_cas w.held) d.cas then (Status.ok, w) else (Status.data_contention, w)

abbrev desk_impu : ℕ → Impu → Desk → Status × Desk
desk_impu n (default d) w = desk_act n d w
desk_impu n (associated a) w = (Status.error, w)

abbrev desk_store : ImpuStoreOps Desk
desk_store = record {
  this = 5;
  get_impu = λ k w. ((Status.ok, some w.held), w);
  set_impu_without_cas = λ i w. (Status.ok, w);
  add_impu = λ i w. (Status.ok, w);
  set_impu = λ i w. desk_impu w.rivals i w;
  delete_impu = λ i w. desk_impu w.rivals i w;
  get_impi_mapping = λ k w. ((Status.not_found, none), w);
  set_impi_mapping = λ m w. (Status.ok, w);
  delete_impi_mapping = λ m w. (Status.ok, w);
}

desk_rivals : (n : ℕ) (d : DefaultImpu) (w : Desk) → w.rivals ≡ n → (desk_act n d w).1.rivals ≤ n
desk_rivals zero d w e = ground arith
desk_rivals (suc n) d w e = omega arith

desk_acted :
    (n : ℕ) (d : DefaultImpu) (w : Desk)
    → w.rivals ≡ n
    → (desk_act n d w).0 ≡ Status.ok
      ⊎ ((desk_act n d w).0 ≡ Status.data_contention
          × ((desk_act n d w).1.rivals < w.rivals ⊎ impu_cas w.held ≢ d.cas))
desk_acted (suc n) d w e = inr (refl, inl (omega arith))
desk_acted zero d w e = elim (Bool-cases (same_cas (impu_cas w.held) d.cas)) [
  | inl f ↦ inl (rw f refl)
  | inr f ↦ inr (rw f refl, inr (λ p. different_cas (impu_cas w.held) d.cas f p))
]

desk_any :
    (action : ImpuAction) (d : DefaultImpu) (w : Desk)
    → act desk_store action d w ≡ desk_act w.rivals d w
unfolding act
desk_any sets d w = refl
desk_any deletes d w = refl

abbrev desk_laws : CasImpus desk_store
desk_laws = record {
  view = λ w k. some w.held;
  rivals = λ w. w.rivals;
  read_answer = λ k w. refl;
  read_rivals = λ k w. omega arith;
  act_rivals = λ action d w. rw (desk_any action d w) (desk_rivals w.rivals d w refl);
  acted = λ action d w. rw (desk_any action d w) (desk_acted w.rivals d w refl);
}

-- The IRS was read from this store, at a version that has passed since.
abbrev desk : Desk
desk = record { held = default (record stored { cas = 9 }); rivals = 1 }

abbrev desk_cache : MemcachedCache Desk
desk_cache = record { local_store = desk_store; remote_stores = desk_store ∷ [] }

perform_irs_impu_action_total_example :
    (r : Round desk_store) × perform_irs_impu_action desk_store vectors 3 sets
        (pos 100)
        (irs_of_impu stored (pos 100))
        desk
      ≡ some r
    × Settled desk_store desk_laws (irs_of_impu stored (pos 100)) r
perform_irs_impu_action_total_example =
    perform_irs_impu_action_total desk_store desk_laws vectors 3 sets (pos 100)
      (irs_of_impu stored (pos 100)) desk (omega arith)

put_ims_subscription-EndsOk_example :
    EndsOk
      (put_ims_subscription vectors 5 (pos 100) desk_cache (("sip:a", refreshed_irs) ∷ [], desk))
put_ims_subscription-EndsOk_example =
    put_ims_subscription-EndsOk vectors 5 (pos 100) desk_cache (("sip:a", refreshed_irs) ∷ []) desk
