-- ===== src/ImpuStore/Examples.antt =====
-- Libraries and a store that meet what the theorems assume, and the theorems at a concrete record.
use homestead.Prelude.{
  ℕ, ◌≡◌, refl, ap, inl, String, Bool, ◌&&◌, Option, none, some, List, [], ◌∷◌, arith, leb,
  if◌then◌else◌, ◌∙◌, eq_refl,
}
use homestead.Prelude.Int.{ℤ, pos, ◌-ℤ◌, to_int32}
use homestead.Prelude.Lists.{length}
use homestead.Varbyte.{encode_varbyte}
use homestead.Store.{Status, Found, Store}
use homestead.ImpuStore.{RegistrationState, DefaultImpu, default}
use homestead.ImpuStore.Json.{
  Json, bool, int, string, array, object, Items, nil, cons, find_member, JsonUtils, ReadsMembers,
  write_json_default,
}
use homestead.ImpuStore.Codec.{Libs, parsed, write_json, compress_data_v0, to_data, from_data}
use homestead.ImpuStore.RoundTrip.{restored, RestoresText, from_data-to_data}
use homestead.ImpuStore.Mapping.{to_data_fits}
use homestead.ImpuStore.Ops.{returns, get_impu, set_impu}
use homestead.ImpuStore.ReadBack.{HoldsWrites, IsStorable, get_impu-set_impu}
use text.Mathlib.Text.{◌==◌ as str_eq}

abbrev items : List String → Items
items [] = nil
items (x ∷ xs) = cons (string x) (items xs)

abbrev strings : Items → List String
strings nil = []
strings (cons (string x) xs) = x ∷ strings xs
strings (cons _ xs) = strings xs

strings-items : (xs : List String) → strings (items xs) ≡ xs
strings-items [] = refl
strings-items (x ∷ xs) = ap (◌∷◌ x) (strings-items xs)

abbrev as_bool : Option Json → Option Bool
as_bool (some (bool b)) = some b
as_bool _ = none

abbrev as_string : Option Json → String → String
as_string (some (string s)) t = s
as_string _ t = t

abbrev as_int : Option Json → ℤ → ℤ
as_int (some (int n)) t = n
as_int _ t = t

abbrev as_strings : Option Json → List String
as_strings (some (array xs)) = strings xs
as_strings _ = []

abbrev utils : JsonUtils
utils = record {
  array_json = λ xs. array (items xs);
  get_bool_member = λ ms k. as_bool (find_member k ms);
  safe_get_string_member = λ ms k t. as_string (find_member k ms) t;
  safe_get_int_64_member = λ ms k t. as_int (find_member k ms) t;
  extract_json_string_array = λ ms k. as_strings (find_member k ms);
}

utils-ReadsMembers : ReadsMembers utils
utils-ReadsMembers = record {
  reads_bool = λ ms k b h. ap as_bool h;
  reads_string = λ ms k s t h. ap (λ o. as_string o t) h;
  reads_int = λ ms k n t h. ap (λ o. as_int o t) h;
  reads_array = λ ms k xs h. ap as_strings h ∙ strings-items xs;
}

-- A library set whose parser knows one document, and whose compressor keeps the bytes.
abbrev libs_for : Json → Libs
libs_for doc = record {
  json = utils;
  compress = λ text size. if leb (length text) size then some text else none;
  decompress = λ out size. some out;
  print = λ j. b'{' ∷ b'}' ∷ [];
  parse = λ bytes. some doc;
}

restores_for : (doc : Json) → RestoresText (libs_for doc)
restores_for doc = record {
  reads = utils-ReadsMembers;
  decompresses = λ text out n h. ground arith;
}

abbrev alice : DefaultImpu
alice = record {
  impu = "sip:alice@home";
  cas = 4;
  expiry = pos 7300;
  store = none;
  registration_state = RegistrationState.registered;
  charging_addresses = record { ccfs = "ccf1" ∷ []; ecfs = [] };
  associated_impus = "sip:alice@home" ∷ "tel:5551234" ∷ [];
  impis = "alice@home" ∷ [];
  service_profile = "<IMSSubscription/>";
}

abbrev alice_libs : Libs
alice_libs = libs_for (object (write_json_default utils alice))

alice_written : (to_data alice_libs (default alice) []).0 ≡ Status.ok
alice_written = to_data_fits alice_libs (default alice) [] _ 0 (omega arith) refl

from_data-to_data_example :
    from_data alice_libs "sip:alice@home" (to_data alice_libs (default alice) []).1 9 (some 1)
    ≡ parsed (restored (default alice) 9 (some 1))
unfolding write_json
from_data-to_data_example =
    from_data-to_data alice_libs (restores_for _) (default alice) 9 (some 1) refl alice_written
      (omega arith) (omega arith)

-- A store of which every write succeeds, with version 1.
abbrev Table : Type 0
Table = String → String → Option (List ℕ)

abbrev written : String → String → List ℕ → Table → Table
written table key bytes w t k = if str_eq table t && str_eq key k then some bytes else w t k

abbrev found : Option (List ℕ) → Status × Found
found none = (Status.not_found, record { bytes = []; cas = 0 })
found (some bytes) = (Status.ok, record { bytes = bytes; cas = 1 })

abbrev tables : Store Table
tables = record {
  get_data = λ table key w. (found (w table key), w);
  set_data = λ table key bytes cas ttl w. (Status.ok, written table key bytes w);
  set_data_without_cas = λ table key bytes ttl w. (Status.ok, written table key bytes w);
  delete_data = λ table key w. (Status.ok, w);
}

kept :
    (table key : String) (bytes : List ℕ) (w w' : Table)
    → written table key bytes w ≡ w'
    → found (w' table key) ≡ (Status.ok, record { bytes = bytes; cas = 1 })
kept table key bytes w w' e = rw (← e) (rw (eq_refl table, eq_refl key))

tables-HoldsWrites : HoldsWrites tables
tables-HoldsWrites = record {
  held = λ table key bytes cas ttl w w' live h.
      (1, kept table key bytes w w' (ap (λ (r : Status × Table). r.1) h));
  held_without_cas = λ table key bytes ttl w w' live h.
      (1, kept table key bytes w w' (ap (λ (r : Status × Table). r.1) h));
}

abbrev no_data : Table
no_data t k = none

alice_set :
    set_impu alice_libs tables (default alice) (pos 100) no_data
    ≡ (Status.ok, written "impu" "sip:alice@home" (to_data alice_libs (default alice) []).1 no_data)
unfolding set_impu to_data write_json compress_data_v0 encode_varbyte
alice_set = refl

alice-IsStorable : IsStorable alice_libs (default alice)
unfolding write_json
alice-IsStorable = record { printable = refl; positive = omega arith; short = omega arith }

get_impu-set_impu_example :
    (c : ℕ) × ((get_impu alice_libs tables 1 "sip:alice@home"
        (written "impu" "sip:alice@home" (to_data alice_libs (default alice) []).1 no_data)).0
      ≡ returns Status.ok (some (restored (default alice) c (some 1))))
unfolding ◌-ℤ◌ to_int32
get_impu-set_impu_example =
    get_impu-set_impu alice_libs tables (restores_for _) tables-HoldsWrites 1 (default alice)
      (pos 100) no_data _ alice-IsStorable refl (inl alice_set)
