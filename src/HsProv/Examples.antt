-- ===== src/HsProv/Examples.antt =====
-- Rows of one user, in two orders of the columns.
use homestead.Prelude.{String, false, ◌≡◌, ◌&&◌, refl, eq_iff, List, [], ◌∷◌, if◌then◌else◌, arith}
use homestead.HsProv.{CassResult, Column, Cassandra, get_reg_data}
use homestead.HsProv.Rows.{get_reg_data-SameRow}
use text.Mathlib.Text.{◌==◌}

abbrev column : String → String → Column
column name value = record { name = name; value = value }

abbrev client : List Column → List Column → Cassandra
client impi_row impu_row = record {
  ha_get_columns =
      λ family key names. (CassResult.ok, (if family == "impi" then impi_row else impu_row));
}

abbrev digest_row : List Column
digest_row =
    column "digest_ha1" "12ab" ∷ column "digest_realm" "home" ∷ column "public_id_sip:alice" "" ∷ []

abbrev forth : Cassandra
forth = client digest_row (
    column "ims_subscription_xml" "sub"
    ∷ column "primary_ccf" "c1"
    ∷ column "secondary_ccf" "c2"
    ∷ [])

abbrev back : Cassandra
back = client digest_row (
    column "secondary_ccf" "c2"
    ∷ column "primary_ccf" "c1"
    ∷ column "ims_subscription_xml" "sub"
    ∷ [])

-- A name is not two different ones.
apart : (a b n : String) → (a == b) ≡ false → ((a == n) && (b == n)) ≡ false
apart a b n h = ground (arith, eq_iff a n, eq_iff b n, eq_iff a b)

get_reg_data-SameRow_example : get_reg_data forth "sip:alice" ≡ get_reg_data back "sip:alice"
get_reg_data-SameRow_example = get_reg_data-SameRow forth back "sip:alice" refl (λ n. ground (
  arith,
  apart "ims_subscription_xml" "primary_ccf" n refl,
  apart "ims_subscription_xml" "secondary_ccf" n refl,
  apart "primary_ccf" "secondary_ccf" n refl,
))
