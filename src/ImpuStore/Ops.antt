-- ===== src/ImpuStore/Ops.antt =====
-- The operations of the class `ImpuStore` (src/impu_store.cpp) over a `Store`. `now` is `time(0)`,
-- which each write reads once.
use homestead.Prelude.{ℕ, String, Option, none, some, List, []}
use homestead.Prelude.Int.{ℤ, ◌-ℤ◌, to_int32}
use homestead.Store.{Status, Store}
use homestead.ImpuStore.{Impu, impu_id, impu_cas, impu_expiry, ImpiMapping}
use homestead.ImpuStore.Codec.{
  Libs, Parsed, faulted, thrown, invalid, parsed, to_data, from_data, to_data_mapping,
  from_data_mapping,
}

-- What a read does: run into undefined behaviour, throw, or return a status, with an object if the
-- output parameter was set.
pub data Read {ℓ} (A : Type ℓ) : Type ℓ where
  faults : Read A
  throws : Read A
  returns : Status → Option A → Read A

-- An object that cannot be decoded is an error.
abbrev pub read_parsed {ℓ} : {A : Type ℓ} → Parsed A → Read A
read_parsed faulted = faults
read_parsed thrown = throws
read_parsed invalid = returns Status.error none
read_parsed (parsed a) = returns Status.ok (some a)

abbrev pub read_found {ℓ} : {A : Type ℓ} → Status → Parsed A → Read A
read_found Status.ok p = read_parsed p
read_found s p = returns s none

-- The source's difference is an `int64_t`. It is written as a number, which is the same unless the
-- expiry is within 2 ^ 31 of the type's bounds.
abbrev pub time_to_live : ℤ → ℤ → ℤ
time_to_live expiry now = expiry -ℤ to_int32 now

abbrev pub when_ok {ℓ} : {W : Type ℓ} → Status × List ℕ → (List ℕ → W → Status × W) → W → Status × W
when_ok (Status.ok, bytes) write w = write bytes w
when_ok (s, bytes) write w = (s, w)

module _ {W : Type 0} (libs : Libs) (store : Store W) where
  -- `this` is the number of the store, which the records that it returns carry.
  unfoldable pub get_impu : ℕ → String → W → Read Impu × W
  get_impu this impu w =
      let ((status, found), w') = store.get_data "impu" impu w in
      (read_found status (from_data libs impu found.bytes found.cas (some this)), w')

  unfoldable pub get_impi_mapping : String → W → Read ImpiMapping × W
  get_impi_mapping impi w =
      let ((status, found), w') = store.get_data "impi_mapping" impi w in
      (read_found status (from_data_mapping libs impi found.bytes found.cas), w')

  unfoldable pub set_impu_without_cas : Impu → ℤ → W → Status × W
  set_impu_without_cas impu now = when_ok (to_data libs impu []) λ bytes.
      store.set_data_without_cas "impu" (impu_id impu) bytes (time_to_live (impu_expiry impu) now)

  -- A version of 0 fails if there is data already.
  unfoldable pub add_impu : Impu → ℤ → W → Status × W
  add_impu impu now =
      when_ok (to_data libs impu [])
        λ bytes. store.set_data "impu" (impu_id impu) bytes 0 (time_to_live (impu_expiry impu) now)

  unfoldable pub set_impu : Impu → ℤ → W → Status × W
  set_impu impu now = when_ok (to_data libs impu []) λ bytes.
      store.set_data "impu" (impu_id impu) bytes (impu_cas impu)
        (time_to_live (impu_expiry impu) now)

  unfoldable pub delete_impu : Impu → W → Status × W
  delete_impu impu = store.delete_data "impu" (impu_id impu)

  unfoldable pub set_impi_mapping : ImpiMapping → ℤ → W → Status × W
  set_impi_mapping m now =
      store.set_data "impi_mapping" m.impi (to_data_mapping libs m) m.cas
        (time_to_live m.expiry now)

  unfoldable pub delete_impi_mapping : ImpiMapping → W → Status × W
  delete_impi_mapping m = store.delete_data "impi_mapping" m.impi
