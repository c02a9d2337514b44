-- ===== src/HsProv/Columns.antt =====
-- What the rows of the provisioning store give, column by column (src/hsprov_store.cpp).
use homestead.Prelude.{
  ℕ, String, Bool, false, not, ◌≡◌, ◌&&◌, ◌||◌, refl, sym, ap, ◌∙◌, List, [], ◌∷◌, ◌++◌,
  if◌then◌else◌, arith, eq_iff, Bool-cases, inl, inr,
}
use homestead.HssConnection.{DigestAuthVector}
use homestead.HsProv.{
  Column, RegData, reg_data_column, reg_data_columns, AuthRow, auth_column, auth_columns, no_row,
  auth_status, public_id_column, CassResult, Cassandra, auth_names, auth_reply, get_auth_vector,
}
use mathlib.Core.List.{append-nil, append_assoc}
use Prim.Native.String.{◌++◌ as str_append}
use Prim.Native.Char.{code}
use text.Mathlib.TextLemmas.{cons-append}
use text.Mathlib.Text.{◌==◌}

-- The value of a column of a name, if it is not empty.
abbrev pub only : String → Column → List String
only n c = if c.name == n && not (c.value == "") then c.value ∷ [] else []

-- The values of the columns of a name that are not empty, in order, and the last first.
abbrev pub values : String → List Column → List String
values n [] = []
values n (c ∷ cs) = only n c ++ values n cs

abbrev pub values_back : String → List Column → List String
values_back n [] = []
values_back n (c ∷ cs) = values_back n cs ++ only n c

-- The value of the last column of a name, or what there was before.
abbrev pub last_value : String → List Column → String → String
last_value n [] before = before
last_value n (c ∷ cs) before = last_value n cs (if c.name == n then c.value else before)

-- A name is not two different ones.
other_name : (s a b : String) → (a == b) ≡ false → ((s == a) && (s == b)) ≡ false
other_name s a b h = ground (arith, eq_iff s a, eq_iff s b, eq_iff a b)

column_ccfs :
    (c : Column) (r : RegData)
    → (reg_data_column c r).charging_addrs.ccfs
      ≡ only "primary_ccf" c ++ (r.charging_addrs.ccfs ++ only "secondary_ccf" c)
unfolding reg_data_column
column_ccfs c r = ground (
  arith,
  other_name c.name "ims_subscription_xml" "primary_ccf" refl,
  other_name c.name "ims_subscription_xml" "secondary_ccf" refl,
  other_name c.name "primary_ccf" "secondary_ccf" refl,
  append-nil r.charging_addrs.ccfs,
)

column_ecfs :
    (c : Column) (r : RegData)
    → (reg_data_column c r).charging_addrs.ecfs
      ≡ only "primary_ecf" c ++ (r.charging_addrs.ecfs ++ only "secondary_ecf" c)
unfolding reg_data_column
column_ecfs c r = ground (
  arith,
  other_name c.name "ims_subscription_xml" "primary_ecf" refl,
  other_name c.name "ims_subscription_xml" "secondary_ecf" refl,
  other_name c.name "primary_ccf" "primary_ecf" refl,
  other_name c.name "primary_ccf" "secondary_ecf" refl,
  other_name c.name "secondary_ccf" "primary_ecf" refl,
  other_name c.name "secondary_ccf" "secondary_ecf" refl,
  other_name c.name "primary_ecf" "secondary_ecf" refl,
  append-nil r.charging_addrs.ecfs,
)

column_xml :
    (c : Column) (r : RegData)
    → (reg_data_column c r).xml ≡ (if c.name == "ims_subscription_xml" then c.value else r.xml)
unfolding reg_data_column
column_xml c r = ground arith

-- The primary address is before the secondary one, in whatever order the columns come.
pub columns_ccfs :
    (cs : List Column) (r : RegData)
    → (reg_data_columns cs r).charging_addrs.ccfs
      ≡ values_back "primary_ccf" cs ++ (r.charging_addrs.ccfs ++ values "secondary_ccf" cs)
unfolding reg_data_columns
columns_ccfs [] r = sym (append-nil r.charging_addrs.ccfs)
columns_ccfs (c ∷ cs) r =
    columns_ccfs cs (reg_data_column c r) ∙ simp (column_ccfs c r, append_assoc)

pub columns_ecfs :
    (cs : List Column) (r : RegData)
    → (reg_data_columns cs r).charging_addrs.ecfs
      ≡ values_back "primary_ecf" cs ++ (r.charging_addrs.ecfs ++ values "secondary_ecf" cs)
unfolding reg_data_columns
columns_ecfs [] r = sym (append-nil r.charging_addrs.ecfs)
columns_ecfs (c ∷ cs) r =
    columns_ecfs cs (reg_data_column c r) ∙ simp (column_ecfs c r, append_assoc)

pub columns_xml :
    (cs : List Column) (r : RegData)
    → (reg_data_columns cs r).xml ≡ last_value "ims_subscription_xml" cs r.xml
unfolding reg_data_columns
columns_xml [] r = refl
columns_xml (c ∷ cs) r =
    columns_xml cs (reg_data_column c r)
    ∙ ap (last_value "ims_subscription_xml" cs) (column_xml c r)

-- Whether there is a column of a name.
abbrev pub has_column : String → List Column → Bool
has_column n [] = false
has_column n (c ∷ cs) = c.name == n || has_column n cs

first_code : String → ℕ
first_code String.[] = 0
first_code (String.◌∷◌ c s) = code c

-- The column of a public identity is none of the digest.
first_code-public_id_column :
    (public_id : String) → first_code (str_append "public_id_" public_id) ≡ b'p'
unfolding first_code
first_code-public_id_column public_id = ap first_code (cons-append "p" "ublic_id_" public_id)

no_digest_column :
    (name public_id : String)
    → first_code name ≡ b'd'
    → (name == str_append "public_id_" public_id) ≡ false
no_digest_column name public_id h = elim (Bool-cases (name == str_append "public_id_" public_id)) [
  | inr e ↦ e
  | inl e ↦
      let same = ap first_code ((eq_iff name (str_append "public_id_" public_id)).0 e) in
      absurd (omega (arith, h, same, first_code-public_id_column public_id))
]

auth_columns_found :
    (public_id : String) (cs : List Column) (r : AuthRow)
    → (auth_columns (str_append "public_id_" public_id) cs r).public_id_found
      ≡ (r.public_id_found || has_column (str_append "public_id_" public_id) cs)
unfolding auth_columns first_code
auth_columns_found public_id [] r = ground arith
auth_columns_found public_id (c ∷ cs) r =
    let col = str_append "public_id_" public_id in
    ground (
      arith,
      auth_columns_found public_id cs (auth_column col c r),
      other_name c.name "digest_ha1" col (no_digest_column "digest_ha1" public_id refl),
      other_name c.name "digest_realm" col (no_digest_column "digest_realm" public_id refl),
      other_name c.name "digest_qop" col (no_digest_column "digest_qop" public_id refl),
    )

auth_column_vector :
    (col : String) (c : Column) (r : AuthRow)
    → (let av = (auth_column col c r).auth_vector in
        (av.ha1 ≡ (if c.name == "digest_ha1" then c.value else r.auth_vector.ha1))
        × (av.realm ≡ (if c.name == "digest_realm" then c.value else r.auth_vector.realm))
        × (av.qop ≡ (if c.name == "digest_qop" then c.value else r.auth_vector.qop)))
unfolding auth_column
auth_column_vector col c r =
    let a = other_name c.name "digest_ha1" "digest_realm" refl in
    let b = other_name c.name "digest_ha1" "digest_qop" refl in
    let d = other_name c.name "digest_realm" "digest_qop" refl in
    (ground arith, ground (arith, a), ground (arith, b, d))

auth_columns_vector :
    (col : String) (cs : List Column) (r : AuthRow)
    → (let av = (auth_columns col cs r).auth_vector in
        (av.ha1 ≡ last_value "digest_ha1" cs r.auth_vector.ha1)
        × (av.realm ≡ last_value "digest_realm" cs r.auth_vector.realm)
        × (av.qop ≡ last_value "digest_qop" cs r.auth_vector.qop))
unfolding auth_columns
auth_columns_vector col [] r = (refl, refl, refl)
auth_columns_vector col (c ∷ cs) r =
    let step = auth_column_vector col c r in
    let rest = auth_columns_vector col cs (auth_column col c r) in
    (
      rest.0 ∙ ap (last_value "digest_ha1" cs) step.0,
      rest.1 ∙ ap (last_value "digest_realm" cs) step.1,
      rest.2 ∙ ap (last_value "digest_qop" cs) step.2,
    )

-- What a row gives: its vector, if it has an HA1 that is not empty and, where a public identity is
-- asked for, the column of that identity.
abbrev pub row_status : String → List Column → CassResult
row_status public_id cs =
    if (public_id == "" || has_column (public_id_column public_id) cs)
      && not (last_value "digest_ha1" cs "" == "")
    then CassResult.ok
    else CassResult.not_found

abbrev pub row_vector : List Column → DigestAuthVector
row_vector cs = record {
  ha1 = last_value "digest_ha1" cs "";
  realm = last_value "digest_realm" cs "";
  qop = last_value "digest_qop" cs "";
}

abbrev pub auth_row : CassResult × List Column → String → CassResult × DigestAuthVector
auth_row (CassResult.ok, cs) public_id = (row_status public_id cs, row_vector cs)
auth_row (status, cs) public_id = (status, no_row.auth_vector)

auth_status_lem :
    (public_id : String) (cs : List Column)
    → auth_status public_id (auth_columns (public_id_column public_id) cs no_row)
      ≡ row_status public_id cs
unfolding auth_status
auth_status_lem public_id cs =
    let vector = auth_columns_vector (public_id_column public_id) cs no_row in
    elim (Bool-cases (public_id == "")) [
      | inl e ↦ ground (arith, e, vector.0)
      | inr e ↦ ground (arith, e, vector.0, auth_columns_found public_id cs no_row)
    ]

auth_reply_lem :
    (public_id : String) (reply : CassResult × List Column)
    → auth_reply public_id reply ≡ auth_row reply public_id
unfolding auth_reply
auth_reply_lem public_id (CassResult.ok, cs) =
    let vector = auth_columns_vector (public_id_column public_id) cs no_row in
    ground (arith, auth_status_lem public_id cs, vector.0, vector.1, vector.2)
auth_reply_lem public_id (CassResult.not_found, cs) = refl
auth_reply_lem public_id (CassResult.other, cs) = refl

-- The vector of a private identity is that of its row, which must have an HA1 and, if a public identity
-- is asked for, its column.
pub get_auth_vector_lem :
    (cass : Cassandra) (private_id public_id : String)
    → get_auth_vector cass private_id public_id
      ≡ auth_row (cass.ha_get_columns "impi" private_id (auth_names public_id)) public_id
unfolding get_auth_vector
get_auth_vector_lem cass private_id public_id =
    auth_reply_lem public_id (cass.ha_get_columns "impi" private_id (auth_names public_id))
