-- ===== src/ImpuStore/ReadBack.antt =====
-- Writes of the class `ImpuStore` (src/impu_store.cpp) and the reads that follow them.
use homestead.Prelude.{
  ℕ, ◌<◌, ◌≡◌, ◌≢◌, refl, ◌⊎◌, inl, inr, ap, String, false, Option, none, some, List, [],
}
use homestead.Prelude.Int.{ℤ, pos, leb_ℤ, ◌-ℤ◌, to_int32}
use homestead.Prelude.Lists.{length}
use homestead.Varbyte.{int_max}
use homestead.Store.{Status, Store}
use homestead.ImpuStore.{Impu, impu_id, impu_expiry, ImpiMapping}
use homestead.ImpuStore.Json.{object, ReadsMembers, write_json_mapping}
use homestead.ImpuStore.Codec.{
  Libs, Parsed, faulted, thrown, invalid, parsed, write_json, to_data, from_data,
}
use homestead.ImpuStore.RoundTrip.{restored, RestoresText, IsPrintable, from_data-to_data}
use homestead.ImpuStore.Mapping.{from_data_mapping-to_data_mapping}
use homestead.ImpuStore.Ops.{
  returns, read_parsed, read_found, get_impu, get_impi_mapping, set_impu_without_cas, add_impu,
  set_impu, set_impi_mapping, when_ok,
}

-- A store that holds what a successful write with time to live put there, until the next operation.
pub record HoldsWrites {W : Type 0} (store : Store W) : Type 0 where
  pub held :
      (table key : String) (bytes : List ℕ) (cas : ℕ) (ttl : ℤ) (w w' : W)
      → leb_ℤ ttl (pos 0) ≡ false
      → store.set_data table key bytes cas ttl w ≡ (Status.ok, w')
      → (c : ℕ) × ((store.get_data table key w').0 ≡ (Status.ok, record { bytes = bytes; cas = c }))
  pub held_without_cas :
      (table key : String) (bytes : List ℕ) (ttl : ℤ) (w w' : W)
      → leb_ℤ ttl (pos 0) ≡ false
      → store.set_data_without_cas table key bytes ttl w ≡ (Status.ok, w')
      → (c : ℕ) × ((store.get_data table key w').0 ≡ (Status.ok, record { bytes = bytes; cas = c }))

-- A record that the codec can hold.
pub record IsStorable (libs : Libs) (i : Impu) : Type 0 where
  pub printable : IsPrintable libs (write_json libs i)
  pub positive : 0 < length (libs.print (object (write_json libs i)))
  pub short : length (libs.print (object (write_json libs i))) < int_max

when_ok-eq :
    {W : Type 0} (r : Status × List ℕ) (write : List ℕ → W → Status × W) (w w' : W)
    → when_ok r write w ≡ (Status.ok, w')
    → (r.0 ≡ Status.ok) × (write r.1 w ≡ (Status.ok, w'))
when_ok-eq (Status.ok, bytes) write w w' h = (refl, h)
when_ok-eq (Status.not_found, bytes) write w w' h = absurd (cc h)
when_ok-eq (Status.data_contention, bytes) write w w' h = absurd (cc h)
when_ok-eq (Status.error, bytes) write w w' h = absurd (cc h)

module _ {W : Type 0} (libs : Libs) (store : Store W) where
  -- A read sets its output exactly if it reports OK.
  pub get_impu_output :
      (this : ℕ) (impu : String) (w : W) (s : Status) (o : Option Impu)
      → (get_impu libs store this impu w).0 ≡ returns s o
      → ((s ≡ Status.ok) × ((i : Impu) × (o ≡ some i))) ⊎ ((s ≢ Status.ok) × (o ≡ none))
  unfolding get_impu
  get_impu_output this impu w s o h =
      cases (store.get_data "impu" impu w).0.0
        (from_data libs impu (store.get_data "impu" impu w).0.1.bytes
          (store.get_data "impu" impu w).0.1.cas (some this))
        h
    where
      cases :
          (t : Status) (p : Parsed Impu)
          → read_found t p ≡ returns s o
          → ((s ≡ Status.ok) × ((i : Impu) × (o ≡ some i))) ⊎ ((s ≢ Status.ok) × (o ≡ none))
      cases Status.ok faulted e = absurd (cc e)
      cases Status.ok thrown e = absurd (cc e)
      cases Status.ok invalid e = inr ((λ q. cc (e, q)), cc e)
      cases Status.ok (parsed a) e = inl (cc e, (a, cc e))
      cases Status.not_found p e = inr ((λ q. cc (e, q)), cc e)
      cases Status.data_contention p e = inr ((λ q. cc (e, q)), cc e)
      cases Status.error p e = inr ((λ q. cc (e, q)), cc e)

  module _ (restores : RestoresText libs) (holds : HoldsWrites store) where
    read_back :
        (this c : ℕ) (i : Impu) (w : W)
        → IsStorable libs i
        → (to_data libs i []).0 ≡ Status.ok
        → (store.get_data "impu" (impu_id i) w).0
          ≡ (Status.ok, record { bytes = (to_data libs i []).1; cas = c })
        → (get_impu libs store this (impu_id i) w).0
          ≡ returns Status.ok (some (restored i c (some this)))
    unfolding get_impu
    read_back this c i w st ok e = rw e (
        ap read_parsed
          (from_data-to_data libs restores i c (some this) st.printable ok st.positive st.short))

    -- Whichever of the three writes reports OK for a record that has not expired, a read of the
    -- same IMPU from the same store returns the record, with some version.
    pub get_impu-set_impu :
        (this : ℕ) (i : Impu) (now : ℤ) (w w' : W)
        → IsStorable libs i
        → leb_ℤ (impu_expiry i -ℤ to_int32 now) (pos 0) ≡ false
        → (set_impu libs store i now w ≡ (Status.ok, w'))
          ⊎ (add_impu libs store i now w ≡ (Status.ok, w'))
          ⊎ (set_impu_without_cas libs store i now w ≡ (Status.ok, w'))
        → (c : ℕ) × ((get_impu libs store this (impu_id i) w').0
            ≡ returns Status.ok (some (restored i c (some this))))
    unfolding set_impu add_impu set_impu_without_cas
    get_impu-set_impu this i now w w' st live h = elim h [
      | inl by_cas ↦
          let (ok, wrote) = when_ok-eq (to_data libs i []) _ w w' by_cas in
          let (c, e) = holds.held _ _ _ _ _ w w' live wrote in (c, read_back this c i w' st ok e)
      | inr (inl by_add) ↦
          let (ok, wrote) = when_ok-eq (to_data libs i []) _ w w' by_add in
          let (c, e) = holds.held _ _ _ _ _ w w' live wrote in (c, read_back this c i w' st ok e)
      | inr (inr blind) ↦
          let (ok, wrote) = when_ok-eq (to_data libs i []) _ w w' blind in
          let (c, e) = holds.held_without_cas _ _ _ _ w w' live wrote in
          (c, read_back this c i w' st ok e)
    ]

  -- A mapping that is written with OK, and has not expired, is read back with some version.
  pub get_impi_mapping-set_impi_mapping :
      (m : ImpiMapping) (now : ℤ) (w w' : W)
      → ReadsMembers libs.json
      → HoldsWrites store
      → IsPrintable libs (write_json_mapping libs.json m)
      → leb_ℤ (m.expiry -ℤ to_int32 now) (pos 0) ≡ false
      → set_impi_mapping libs store m now w ≡ (Status.ok, w')
      → (c : ℕ) × ((get_impi_mapping libs store m.impi w').0
          ≡ returns Status.ok (some (record m { cas = c })))
  unfolding set_impi_mapping get_impi_mapping
  get_impi_mapping-set_impi_mapping m now w w' r holds p live h =
      let (c, e) = holds.held _ _ _ _ _ w w' live h in
      (c, rw e (ap read_parsed (from_data_mapping-to_data_mapping libs m c r p)))
