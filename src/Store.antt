-- ===== src/Store.antt =====
-- What src/impu_store.cpp uses of `Store`, which another repository implements: the statuses, and
-- the four operations on a table, as functions that pass the store's state on.
use homestead.Prelude.{ℕ, String, Bool, true, false, List, ◌≡◌, refl, false≢true}
use homestead.Prelude.Int.{ℤ}

-- `Store::Status`
pub data Status : Type 0 where
  ok not_found data_contention error : Status

abbrev pub is_ok : Status → Bool
is_ok Status.ok = true
is_ok _ = false

pub is_ok-ok : (s : Status) → is_ok s ≡ true → s ≡ Status.ok
is_ok-ok Status.ok e = refl
is_ok-ok Status.not_found e = elim (false≢true e) [ ]
is_ok-ok Status.data_contention e = elim (false≢true e) [ ]
is_ok-ok Status.error e = elim (false≢true e) [ ]

-- The value that `get_data` found, with its version.
pub record Found : Type 0 where
  pub bytes : List ℕ
  pub cas : ℕ

-- Tables and keys are strings, a record is a string of bytes. `set_data` takes the expected version
-- and the time to live.
pub record Store (W : Type 0) : Type 0 where
  pub get_data : String → String → W → (Status × Found) × W
  pub set_data : String → String → List ℕ → ℕ → ℤ → W → Status × W
  pub set_data_without_cas : String → String → List ℕ → ℤ → W → Status × W
  pub delete_data : String → String → W → Status × W
