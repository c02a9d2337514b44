-- ===== src/Cache/RemoteReads.antt =====
-- What the cache finds in its local store or in the remote ones (src/memcached_cache.cpp), for stores whose
-- reads change nothing that it can see.
use homestead.Prelude.{
  String, false, ◌≡◌, ◌⊎◌, inl, inr, refl, ap, ◌∙◌, Option, none, some, List, [], ◌∷◌,
  if◌then◌else◌, arith, Bool-cases,
}
use homestead.Store.{Status, is_ok, is_ok-ok}
use homestead.ImpuStore.{Impu, ImpiMapping}
use homestead.Cache.{
  ImpuStoreOps, MemcachedCache, is_not_found, remote_impus, get_impu_for_impu_gr,
  is_not_found-is_ok, remote_mappings, get_impi_mapping_gr,
}

-- A store's reads, as functions of a world that they leave alone.
pub record ReadsOnly {W : Type 0} (store : ImpuStoreOps W) : Type 0 where
  pub same_impu : (k : String) (w : W) → (store.get_impu k w).1 ≡ w
  pub same_mapping : (k : String) (w : W) → (store.get_impi_mapping k w).1 ≡ w

abbrev pub AllReadOnly : {W : Type 0} → List (ImpuStoreOps W) → Type 0
AllReadOnly [] = Unit {0}
AllReadOnly (s ∷ ss) = ReadsOnly s × AllReadOnly ss

-- The first remote answer that is OK, or what there was before.
abbrev pub first_ok {ℓ} :
    {A : Type ℓ} → List (Status × Option A) → Status × Option A → Status × Option A
first_ok [] miss = miss
first_ok ((status, found) ∷ rest) miss =
    if is_ok status then (status, found) else first_ok rest miss

module _ {W : Type 0} where
  abbrev pub impu_answers : List (ImpuStoreOps W) → String → W → List (Status × Option Impu)
  impu_answers [] k w = []
  impu_answers (s ∷ ss) k w = (s.get_impu k w).0 ∷ impu_answers ss k w

  abbrev pub mapping_answers :
      List (ImpuStoreOps W) → String → W → List (Status × Option ImpiMapping)
  mapping_answers [] k w = []
  mapping_answers (s ∷ ss) k w = (s.get_impi_mapping k w).0 ∷ mapping_answers ss k w

  remote_impus_first :
      (stores : List (ImpuStoreOps W)) (k : String) (w : W) (status : Status) (found : Option Impu)
      → AllReadOnly stores
      → remote_impus stores k ((status, found), w) ≡ (
          if is_ok status
          then ((status, found), w)
          else (first_ok (impu_answers stores k w) (status, found), w))
  unfolding remote_impus
  remote_impus_first [] k w status found h = ground arith
  remote_impus_first (s ∷ ss) k w status found h =
      rw (h.0.same_impu k w) (elim (Bool-cases (is_ok status)) [
        | inl e ↦ rw e (remote_impus_first ss k w status found h.1 ∙ rw e)
        | inr e ↦ rw e (elim (Bool-cases (is_ok (s.get_impu k w).0.0)) [
          | inl f ↦
              rw (f, is_ok-ok (s.get_impu k w).0.0 f)
                (remote_impus_first ss k w Status.ok (s.get_impu k w).0.1 h.1)
          | inr f ↦ rw f (remote_impus_first ss k w status found h.1 ∙ rw e)
        ])
      ])

  remote_mappings_first :
      (stores : List (ImpuStoreOps W)) (k : String) (w : W)
      → AllReadOnly stores
      → (remote_mappings stores k w).1 ≡ w
        × (remote_mappings stores k w).0
          ≡ first_ok (mapping_answers stores k w) (Status.not_found, none)
  unfolding remote_mappings
  remote_mappings_first [] k w h = (refl, refl)
  remote_mappings_first (s ∷ ss) k w h = elim (Bool-cases (is_ok (s.get_impi_mapping k w).0.0)) [
    | inl e ↦ rw e (h.0.same_mapping k w, refl)
    | inr e ↦ rw (h.0.same_mapping k w, e) (remote_mappings_first ss k w h.1)
  ]

  -- The local answer stands unless it is NOT_FOUND; then the first remote answer that is OK counts,
  -- and if there is none the answer is NOT_FOUND. The stores' reads change nothing.
  pub get_impu_for_impu_gr_lem :
      (cache : MemcachedCache W) (k : String) (w : W)
      → ReadsOnly cache.local_store
      → AllReadOnly cache.remote_stores
      → get_impu_for_impu_gr cache k w ≡ (
        let answer = (cache.local_store.get_impu k w).0 in
            if is_not_found answer.0
            then first_ok (impu_answers cache.remote_stores k w) answer
            else answer,
        w,
      )
  unfolding get_impu_for_impu_gr
  get_impu_for_impu_gr_lem cache k w h hs =
      let answer = (cache.local_store.get_impu k w).0 in
      let kept = ap (λ x. (answer, x)) (h.same_impu k w) in
      elim (Bool-cases (is_not_found answer.0)) [
        | inl e ↦ rw e (
            ap (remote_impus cache.remote_stores k) kept
            ∙ remote_impus_first cache.remote_stores k w answer.0 answer.1 hs
            ∙ rw (is_not_found-is_ok answer.0 e) refl)
        | inr e ↦ rw e kept
      ]

  -- The same for the mapping of an IMPI, except that a failure to find it has no output.
  pub get_impi_mapping_gr_lem :
      (cache : MemcachedCache W) (k : String) (w : W)
      → ReadsOnly cache.local_store
      → AllReadOnly cache.remote_stores
      → get_impi_mapping_gr cache k w ≡ (
        let answer = (cache.local_store.get_impi_mapping k w).0 in
            if is_not_found answer.0
            then first_ok (mapping_answers cache.remote_stores k w) (Status.not_found, none)
            else answer,
        w,
      )
  unfolding get_impi_mapping_gr
  get_impi_mapping_gr_lem cache k w h hs =
      let answer = (cache.local_store.get_impi_mapping k w).0 in
      let rest = remote_mappings_first cache.remote_stores k w hs in
      elim (Bool-cases (is_not_found answer.0)) [
        | inl e ↦
            rw (e, h.same_mapping k w)
              (ap (λ x. (x, (remote_mappings cache.remote_stores k w).1)) rest.1
                ∙ ap
                    (λ x. (
                      first_ok (mapping_answers cache.remote_stores k w) (Status.not_found, none),
                      x,
                    ))
                    rest.0)
        | inr e ↦ rw e (ap (λ x. (answer, x)) (h.same_mapping k w))
      ]

  -- A store's answer for a record, or the first of a list of stores that answers OK has it.
  abbrev pub FirstHas : List (ImpuStoreOps W) → String → W → Impu → Type 0
  FirstHas [] k w i = ⊥
  FirstHas (s ∷ ss) k w i =
      (s.get_impu k w).0 ≡ (Status.ok, some i)
      ⊎ (is_ok (s.get_impu k w).0.0 ≡ false × FirstHas ss k w i)

  -- The local store has the record, or it has none and the remote stores have it.
  abbrev pub Has : MemcachedCache W → String → W → Impu → Type 0
  Has cache k w i =
      (cache.local_store.get_impu k w).0 ≡ (Status.ok, some i)
      ⊎ ((cache.local_store.get_impu k w).0.0 ≡ Status.not_found
          × FirstHas cache.remote_stores k w i)

  first_ok-FirstHas :
      (stores : List (ImpuStoreOps W)) (k : String) (w : W) (i : Impu) (miss : Status × Option Impu)
      → FirstHas stores k w i
      → first_ok (impu_answers stores k w) miss ≡ (Status.ok, some i)
  first_ok-FirstHas [] k w i miss h = absurd h
  first_ok-FirstHas (s ∷ ss) k w i miss (inl e) = rw e refl
  first_ok-FirstHas (s ∷ ss) k w i miss (inr (e, h)) = rw e (first_ok-FirstHas ss k w i miss h)

  pub get_impu_for_impu_gr-Has :
      (cache : MemcachedCache W) (k : String) (w : W) (i : Impu)
      → ReadsOnly cache.local_store
      → AllReadOnly cache.remote_stores
      → Has cache k w i
      → get_impu_for_impu_gr cache k w ≡ ((Status.ok, some i), w)
  get_impu_for_impu_gr-Has cache k w i h hs (inl e) =
      get_impu_for_impu_gr_lem cache k w h hs ∙ rw e refl
  get_impu_for_impu_gr-Has cache k w i h hs (inr (e, f)) =
      get_impu_for_impu_gr_lem cache k w h hs
      ∙ rw e (ap (λ x. (x, w)) (first_ok-FirstHas cache.remote_stores k w i _ f))
