-- ===== src/Cache/Cas.antt =====
-- The loops over DATA_CONTENTION for unchanged and added IMPIs (src/memcached_cache.cpp) over a store
-- that keeps versions, which other nodes write to as well.
use homestead.Prelude.{
  ℕ, zero, suc, String, Bool, true, ◌≡◌, ◌≢◌, ◌≤◌, ◌<◌, ◌⊎◌, inl, inr, refl, ap, sym, ◌∙◌, Option,
  none, some, [], ◌∷◌, arith, Bool-cases, Option-cases,
}
use homestead.Prelude.Int.{ℤ, ◌+ℤ◌, to_int32}
use homestead.Prelude.Lists.{contains-append, contains_self}
use homestead.ImpuStore.{ImpiMapping, new_mapping, has_default_impu, add_default_impu, set_expiry}
use homestead.Store.{Status}
use homestead.Cache.{ImpuStoreOps}
use homestead.Cache.Mappings.{refreshed_mapping, refresh_mapping, contended_mapping, add_mapping}

abbrev pub answer_of : Option ImpiMapping → Status × Option ImpiMapping
answer_of none = (Status.not_found, none)
answer_of (some mapping) = (Status.ok, some mapping)

-- The version to write with: 0 for a record that must not exist.
abbrev pub cas_of : Option ImpiMapping → ℕ
cas_of none = 0
cas_of (some mapping) = mapping.cas

abbrev pub Listed : Option ImpiMapping → String → Type 0
Listed v d = (m : ImpiMapping) × v ≡ some m × has_default_impu m d ≡ true

-- What the cache relies on of a store's mappings: `view` is the table, `rivals` bounds the writes that
-- other nodes still make. They may write before each call. A read answers with the table; a write
-- with the version of the table goes through unless a rival was first, and one with another version is
-- refused.
pub record CasMappings {W : Type 0} (store : ImpuStoreOps W) : Type 0 where
  pub view : W → String → Option ImpiMapping
  pub rivals : W → ℕ
  pub view_impi : (w : W) (k : String) (m : ImpiMapping) → view w k ≡ some m → m.impi ≡ k
  pub read_answer :
      (k : String) (w : W)
      → (store.get_impi_mapping k w).0 ≡ answer_of (view (store.get_impi_mapping k w).1 k)
  pub read_rivals : (k : String) (w : W) → rivals (store.get_impi_mapping k w).1 ≤ rivals w
  pub write_rivals : (m : ImpiMapping) (w : W) → rivals (store.set_impi_mapping m w).1 ≤ rivals w
  pub write :
      (m : ImpiMapping) (w : W)
      → ((store.set_impi_mapping m w).0 ≡ Status.ok
          × (v : ImpiMapping) × view (store.set_impi_mapping m w).1 m.impi ≡ some v
          × v.default_impus ≡ m.default_impus)
        ⊎ ((store.set_impi_mapping m w).0 ≡ Status.data_contention
            × (rivals (store.set_impi_mapping m w).1 < rivals w ⊎ cas_of (view w m.impi) ≢ m.cas))

-- A mapping that names the IMPI, has the version of the table, and lists the default IMPU.
abbrev Ready : String → String → Option ImpiMapping → ImpiMapping → Type 0
Ready impi d v m = m.impi ≡ impi × m.cas ≡ cas_of v × has_default_impu m d ≡ true

add_default_impu-has :
    (m : ImpiMapping) (d : String) → has_default_impu (add_default_impu m d) d ≡ true
unfolding has_default_impu add_default_impu
add_default_impu-has m d =
    ground (arith, contains-append d m.default_impus (d ∷ []), contains_self d [])

refreshed_mapping-Ready :
    (impi d : String) (ttl now : ℤ) (v : Option ImpiMapping)
    → ((m : ImpiMapping) → v ≡ some m → m.impi ≡ impi)
    → Ready impi d v (refreshed_mapping d impi ttl now (answer_of v))
unfolding refreshed_mapping set_expiry
refreshed_mapping-Ready impi d ttl now none h = (refl, refl, contains_self d [])
refreshed_mapping-Ready impi d ttl now (some m) h =
    let m' = set_expiry m (to_int32 (ttl +ℤ to_int32 now)) in
    elim (Bool-cases (has_default_impu m' d)) [
      | inl e ↦ rw e (h m refl, refl, e)
      | inr e ↦ rw e (h m refl, refl, add_default_impu-has m' d)
    ]

contended_mapping-Ready :
    (impi d : String) (refreshed : Bool) (ttl now : ℤ) (mapping m : ImpiMapping)
    → m.impi ≡ impi
    → ((contended_mapping d refreshed ttl now mapping (answer_of (some m))).0
          ≡ Status.data_contention
        × Ready impi d
            (some m)
            (contended_mapping d refreshed ttl now mapping (answer_of (some m))).1)
      ⊎ ((contended_mapping d refreshed ttl now mapping (answer_of (some m))).0 ≡ Status.ok
          × has_default_impu m d ≡ true)
unfolding contended_mapping set_expiry
contended_mapping-Ready impi d refreshed ttl now mapping m h =
    let m' = set_expiry m (to_int32 (ttl +ℤ to_int32 now)) in
    elim (Bool-cases (has_default_impu m' d)) [
      | inr e ↦ rw e (inl (refl, (h, refl, add_default_impu-has m' d)))
      | inl e ↦ elim (Bool-cases refreshed) [
        | inl f ↦ rw (e, f) (inl (refl, (h, refl, e)))
        | inr f ↦ rw (e, f) (inr (refl, refl))
      ]
    ]

module _ {W : Type 0} (store : ImpuStoreOps W) (laws : CasMappings store) (d : String) where
  written_listed :
      (impi : String) (w : W) (m v : ImpiMapping)
      → m.impi ≡ impi
      → laws.view w m.impi ≡ some v
      → v.default_impus ≡ m.default_impus
      → has_default_impu m d ≡ true
      → Listed (laws.view w impi) d
  unfolding has_default_impu
  written_listed impi w m v same e f has = (v, sym (ap (laws.view w) same) ∙ e, rw f has)

  -- A write of a ready mapping.
  write-Ready :
      (impi : String) (w : W) (m : ImpiMapping)
      → Ready impi d (laws.view w impi) m
      → ((store.set_impi_mapping m w).0 ≡ Status.ok
          × Listed (laws.view (store.set_impi_mapping m w).1 impi) d)
        ⊎ ((store.set_impi_mapping m w).0 ≡ Status.data_contention
            × laws.rivals (store.set_impi_mapping m w).1 < laws.rivals w)
  write-Ready impi w m (same, cas, has) = elim (laws.write m w) [
    | inl (ok, v, e, f) ↦
        inl (ok, written_listed impi (store.set_impi_mapping m w).1 m v same e f has)
    | inr (lost, inl less) ↦ inr (lost, less)
    | inr (lost, inr stale) ↦ elim (stale (ap (λ k. cas_of (laws.view w k)) same ∙ sym cas)) [ ]
  ]

  -- With more fuel than rivals are left to write, refreshing an IMPI ends with OK, and then the
  -- table's mapping of the IMPI lists the default IMPU.
  pub refresh_mapping_total :
      (impi : String) (ttl now : ℤ) (fuel : ℕ) (w : W)
      → laws.rivals w < fuel
      → (w' : W) × refresh_mapping store d fuel impi ttl now w ≡ some (Status.ok, w')
        × Listed (laws.view w' impi) d
        × laws.rivals w' ≤ laws.rivals w
  unfolding refresh_mapping
  refresh_mapping_total impi ttl now zero w h = ground arith
  refresh_mapping_total impi ttl now (suc fuel) w h =
      let read = store.get_impi_mapping impi w in
      let m = refreshed_mapping d impi ttl now read.0 in
      let ready : Ready impi d (laws.view read.1 impi) m = rw (laws.read_answer impi w) (
        refreshed_mapping-Ready impi d ttl now (laws.view read.1 impi)
          (laws.view_impi read.1 impi)) in
      let fewer = laws.read_rivals impi w in
      elim (write-Ready impi read.1 m ready) [
        | inl (ok, listed) ↦ rw ok (
          (store.set_impi_mapping m read.1).1,
          refl,
          listed,
          omega (arith, laws.write_rivals m read.1),
        )
        | inr (lost, less) ↦ rw lost (
            let (w', e, listed, few) =
              refresh_mapping_total impi ttl now fuel (store.set_impi_mapping m read.1).1
                (omega arith) in
            (w', e, listed, omega arith))
      ]

-- No other node removes a mapping while it is contended.
pub record Keeps {W : Type 0} (store : ImpuStoreOps W) (laws : CasMappings store) : Type 0 where
  pub read_keeps :
      (k : String) (w : W)
      → laws.view (store.get_impi_mapping k w).1 k ≡ none
      → laws.view w k ≡ none
  pub write_keeps :
      (m : ImpiMapping) (w : W)
      → laws.view (store.set_impi_mapping m w).1 m.impi ≡ none
      → laws.view w m.impi ≡ none

module _ {W : Type 0} (store : ImpuStoreOps W) (laws : CasMappings store) (keeps : Keeps store laws)
    (d : String) where
  -- A mapping that the loop may hold: its version is 0, or there is a record.
  abbrev Held : String → W → ImpiMapping → Type 0
  Held impi w m =
      m.impi ≡ impi × has_default_impu m d ≡ true × (laws.view w impi ≡ none → m.cas ≡ 0)

  -- What is left after a write that was refused, and the read that follows it.
  after_refusal :
      (impi : String) (refreshed : Bool) (ttl now : ℤ) (mapping : ImpiMapping) (w : W)
      → Held impi w mapping
      → (let read = store.get_impi_mapping mapping.impi (store.set_impi_mapping mapping w).1 in
          let next = contended_mapping d refreshed ttl now mapping read.0 in
          (next.0 ≡ Status.data_contention × Ready impi d (laws.view read.1 impi) next.1)
          ⊎ (next.0 ≡ Status.ok × Listed (laws.view read.1 impi) d))
  unfolding contended_mapping
  after_refusal impi refreshed ttl now mapping w (same, has, held) =
      let read = store.get_impi_mapping mapping.impi (store.set_impi_mapping mapping w).1 in
      let answer =
        laws.read_answer mapping.impi (store.set_impi_mapping mapping w).1
        ∙ ap (λ k. answer_of (laws.view read.1 k)) same in
      elim (Option-cases (laws.view read.1 impi)) [
        | inl e ↦
            let gone =
              sym (ap (laws.view w) same)
              ∙ keeps.write_keeps mapping w (
                  keeps.read_keeps mapping.impi (store.set_impi_mapping mapping w).1
                    (ap (laws.view read.1) same ∙ e)) in
            rw (answer, e) (inl (refl, (same, held gone, has)))
        | inr (m, e) ↦
            rw (answer, e)
              (elim (contended_mapping-Ready impi d refreshed ttl now mapping m
                (laws.view_impi read.1 impi m e)) [
                  | inl r ↦ inl r
                  | inr (r, lists) ↦ inr (r, (m, refl, lists))
                ])
      ]

  -- What a write may do, and the fuel that is then left.
  write-Held :
      (impi : String) (w : W) (m : ImpiMapping) (fuel : ℕ)
      → Held impi w m
      → suc (laws.rivals w) < suc fuel
        ⊎ (Ready impi d (laws.view w impi) m × laws.rivals w < suc fuel)
      → ((store.set_impi_mapping m w).0 ≡ Status.ok
          × Listed (laws.view (store.set_impi_mapping m w).1 impi) d)
        ⊎ ((store.set_impi_mapping m w).0 ≡ Status.data_contention
            × laws.rivals (store.set_impi_mapping m w).1 < fuel)
  write-Held impi w m fuel (same, has, held) (inr (ready, enough)) =
      elim (write-Ready store laws d impi w m ready) [
        | inl r ↦ inl r
        | inr (lost, less) ↦ inr (lost, omega arith)
      ]
  write-Held impi w m fuel (same, has, held) (inl enough) = elim (laws.write m w) [
    | inl (ok, v, e, f) ↦
        inl (ok, written_listed store laws d impi (store.set_impi_mapping m w).1 m v same e f has)
    | inr (lost, why) ↦ inr (lost, omega (arith, laws.write_rivals m w))
  ]

  add_loop :
      (impi : String) (refreshed : Bool) (ttl now : ℤ) (fuel : ℕ) (m : ImpiMapping) (w : W)
      → Held impi w m
      → suc (laws.rivals w) < fuel ⊎ (Ready impi d (laws.view w impi) m × laws.rivals w < fuel)
      → (w' : W) × add_mapping store d fuel refreshed ttl now m w ≡ some (Status.ok, w')
        × Listed (laws.view w' impi) d
        × laws.rivals w' ≤ laws.rivals w
  unfolding add_mapping
  add_loop impi refreshed ttl now zero m w held (inl enough) = ground arith
  add_loop impi refreshed ttl now zero m w held (inr (ready, enough)) = ground arith
  add_loop impi refreshed ttl now (suc fuel) m w held enough =
      let w1 = (store.set_impi_mapping m w).1 in
      let read = store.get_impi_mapping m.impi w1 in
      let next = contended_mapping d refreshed ttl now m read.0 in
      elim (write-Held impi w m fuel held enough) [
        | inl (ok, listed) ↦ rw ok (w1, refl, listed, laws.write_rivals m w)
        | inr (lost, less) ↦ elim (after_refusal impi refreshed ttl now m w held) [
          | inl (again, ready) ↦
              let (same, cas, has) = ready in
              let few = laws.read_rivals m.impi w1 in
              rw (lost, again)
                (let (w', e, listed, fewer) =
                    add_loop impi refreshed ttl now fuel next.1 read.1
                      (same, has, λ e. cas ∙ ap cas_of e) (inr (ready, omega arith)) in
                  (w', e, listed, omega (arith, laws.write_rivals m w)))
          | inr (done, listed) ↦
              rw (lost, done)
                (
                  read.1,
                  refl,
                  listed,
                  omega (arith, laws.write_rivals m w, laws.read_rivals m.impi w1),
                )
        ]
      ]

  -- The same for an added IMPI, with one round more: the first write assumes that there is no
  -- mapping. It needs that no other node removes the mapping in between.
  pub add_mapping_total :
      (impi : String) (refreshed : Bool) (ttl now expiry : ℤ) (fuel : ℕ) (w : W)
      → suc (laws.rivals w) < fuel
      → (w' : W) × add_mapping store d fuel refreshed ttl now (new_mapping impi d expiry) w
          ≡ some (Status.ok, w')
        × Listed (laws.view w' impi) d
        × laws.rivals w' ≤ laws.rivals w
  unfolding has_default_impu
  add_mapping_total impi refreshed ttl now expiry fuel w enough =
      add_loop impi refreshed ttl now fuel (new_mapping impi d expiry) w
        (refl, contains_self d [], λ e. refl) (inl enough)
