-- ===== src/HsProv/Rows.antt =====
-- The order in which the provisioning store returns the columns of a row plays no part
-- (src/hsprov_store.cpp): the data is a function of the row alone.
use homestead.Prelude.{
  String, ◌≡◌, refl, sym, ap, ◌∙◌, List, [], ◌∷◌, ◌++◌, if◌then◌else◌, arith, Bool-cases, inl, inr,
  eq_iff,
}
use homestead.HsProv.{
  CassResult, Cassandra, reg_data_names, reg_data_reply, get_reg_data, Column, RegData, no_reg_data,
  reg_data_columns,
}
use homestead.HsProv.Columns.{
  values, values_back, last_value, columns_ccfs, columns_ecfs, columns_xml,
}
use mathlib.Core.Path.{fun_ext}
use mathlib.Core.List.{append-nil}
use mathlib.Core.HLevel.{hedberg}
use mathlib.Core.Quot
use mathlib.Core.Quot.{Quot, Quot-set}
use text.Mathlib.Text.{◌==◌}

-- The values of all columns of a name, in order.
abbrev pub entries : String → List Column → List String
entries n [] = []
entries n (c ∷ cs) = if c.name == n then c.value ∷ entries n cs else entries n cs

-- Two results of a query hold the same row: they have the same values at every name.
abbrev pub SameRow : List Column → List Column → Type 0
SameRow cs ds = (n : String) → entries n cs ≡ entries n ds

abbrev nonempty : List String → List String
nonempty [] = []
nonempty (s ∷ ss) = (if s == "" then [] else s ∷ []) ++ nonempty ss

abbrev nonempty_back : List String → List String
nonempty_back [] = []
nonempty_back (s ∷ ss) = nonempty_back ss ++ (if s == "" then [] else s ∷ [])

abbrev last_of : List String → String → String
last_of [] before = before
last_of (s ∷ ss) before = last_of ss s

values-entries : (n : String) (cs : List Column) → values n cs ≡ nonempty (entries n cs)
values-entries n [] = refl
values-entries n (c ∷ cs) = ground (arith, values-entries n cs)

values_back-entries :
    (n : String) (cs : List Column) → values_back n cs ≡ nonempty_back (entries n cs)
values_back-entries n [] = refl
values_back-entries n (c ∷ cs) =
    ground (arith, values_back-entries n cs, append-nil (values_back n cs))

last_value-entries :
    (n : String) (cs : List Column) (before : String)
    → last_value n cs before ≡ last_of (entries n cs) before
last_value-entries n [] before = refl
last_value-entries n (c ∷ cs) before = elim (Bool-cases (c.name == n)) [
  | inl e ↦ rw e (last_value-entries n cs c.value)
  | inr e ↦ rw e (last_value-entries n cs before)
]

-- The data of a row, by its names.
abbrev row_data : (String → List String) → RegData
row_data row = record {
  xml = last_of (row "ims_subscription_xml") "";
  charging_addrs = record {
    ccfs = nonempty_back (row "primary_ccf") ++ nonempty (row "secondary_ccf");
    ecfs = nonempty_back (row "primary_ecf") ++ nonempty (row "secondary_ecf");
  };
}

reg_data_columns-row_data :
    (cs : List Column) → reg_data_columns cs no_reg_data ≡ row_data (λ n. entries n cs)
reg_data_columns-row_data cs = ground (
  arith,
  columns_xml cs no_reg_data ∙ last_value-entries "ims_subscription_xml" cs "",
  columns_ccfs cs no_reg_data,
  columns_ecfs cs no_reg_data,
  values-entries "secondary_ccf" cs,
  values-entries "secondary_ecf" cs,
  values_back-entries "primary_ccf" cs,
  values_back-entries "primary_ecf" cs,
)

-- The same row gives the same data.
pub reg_data_columns-SameRow :
    (cs ds : List Column)
    → SameRow cs ds
    → reg_data_columns cs no_reg_data ≡ reg_data_columns ds no_reg_data
reg_data_columns-SameRow cs ds h =
    reg_data_columns-row_data cs ∙ ap row_data (fun_ext h) ∙ sym (reg_data_columns-row_data ds)

reg_data_reply-SameRow :
    (r s : CassResult × List Column)
    → r.0 ≡ s.0
    → SameRow r.1 s.1
    → reg_data_reply r ≡ reg_data_reply s
unfolding reg_data_reply
reg_data_reply-SameRow (CassResult.ok, cs) (CassResult.ok, ds) e h =
    ap (λ data'. (CassResult.ok, data')) (reg_data_columns-SameRow cs ds h)
reg_data_reply-SameRow (CassResult.ok, cs) (CassResult.not_found, ds) e h = cc
reg_data_reply-SameRow (CassResult.ok, cs) (CassResult.other, ds) e h = cc
reg_data_reply-SameRow (CassResult.not_found, cs) (CassResult.ok, ds) e h = cc
reg_data_reply-SameRow (CassResult.not_found, cs) (CassResult.not_found, ds) e h = refl
reg_data_reply-SameRow (CassResult.not_found, cs) (CassResult.other, ds) e h = cc
reg_data_reply-SameRow (CassResult.other, cs) (CassResult.ok, ds) e h = cc
reg_data_reply-SameRow (CassResult.other, cs) (CassResult.not_found, ds) e h = cc
reg_data_reply-SameRow (CassResult.other, cs) (CassResult.other, ds) e h = refl

-- A row is the result of a query, whatever the order of its columns.
abbrev pub Row : Type 0
Row = Quot SameRow

string_discrete : Discrete String
string_discrete a b = elim (Bool-cases (a == b)) [
  | inl e ↦ yes ((eq_iff a b).0 e)
  | inr e ↦ no (λ h. cc (e, (eq_iff a b).1 h))
]

string_set : IsSet String
string_set = hedberg string_discrete

RegData-set : IsSet RegData
RegData-set = hlevel (string_set)

-- The data that a query gives, as a function of the row.
pub reg_data : Row → RegData
reg_data = Quot.lift RegData-set (λ cs. reg_data_columns cs no_reg_data) reg_data_columns-SameRow

-- Two clients that reply with the same status and the same rows give the same data, in whatever order
-- each lists the columns.
pub get_reg_data-SameRow :
    (cass cass' : Cassandra) (public_id : String)
    → (cass.ha_get_columns "impu" public_id reg_data_names).0
      ≡ (cass'.ha_get_columns "impu" public_id reg_data_names).0
    → SameRow
        (cass.ha_get_columns "impu" public_id reg_data_names).1
        (cass'.ha_get_columns "impu" public_id reg_data_names).1
    → get_reg_data cass public_id ≡ get_reg_data cass' public_id
unfolding get_reg_data
get_reg_data-SameRow cass cass' public_id same row =
    reg_data_reply-SameRow (cass.ha_get_columns "impu" public_id reg_data_names)
      (cass'.ha_get_columns "impu" public_id reg_data_names) same row
