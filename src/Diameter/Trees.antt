-- ===== src/Diameter/Trees.antt =====
-- Trees of AVPs, which keep the laws that src/cx.cpp relies on.
use homestead.Prelude.{
  ℕ, String, ◌≡◌, refl, ap, ◌∙◌, List, [], ◌∷◌, ◌++◌, if◌then◌else◌, Bool-cases, inl, inr, arith,
}
use homestead.Prelude.Int.{ℤ, pos}
use homestead.Diameter.{AvpName, MessageName, same, first, value_of, DiameterLib, DiameterLaws}

pub data Value : Type 0 where
  no_value : Value
  text : String → Value
  signed : ℤ → Value
  unsigned : ℕ → Value

mutual
  pub data Tree : Type 0 where
    tree : AvpName → Value → Trees → Tree

  pub data Trees : Type 0 where
    nil : Trees
    cons : Tree → Trees → Trees

abbrev pub snoc : Trees → Tree → Trees
snoc nil t = cons t nil
snoc (cons u us) t = cons u (snoc us t)

abbrev tree_name : Tree → AvpName
tree_name (tree n v c) = n

abbrev children : Tree → Trees
children (tree n v c) = c

abbrev find : AvpName → Trees → List Tree
find n nil = []
find n (cons u us) = if same n (tree_name u) then u ∷ find n us else find n us

abbrev set_value : Value → Tree → Tree
set_value v (tree n w c) = tree n v c

abbrev value : Tree → Value
value (tree n v c) = v

abbrev text_value : Value → String
text_value (text s) = s
text_value _ = ""

abbrev signed_value : Value → ℤ
signed_value (signed i) = i
signed_value _ = pos 0

abbrev unsigned_value : Value → ℕ
unsigned_value (unsigned n) = n
unsigned_value _ = 0

abbrev add_child : Tree → Tree → Tree
add_child u (tree n v c) = tree n v (snoc c u)

abbrev codes : Tree → ℤ × ℕ
codes e = (
  signed_value
      (value_of value no_value (first (find AvpName.experimental_result_code (children e)))),
  unsigned_value (value_of value no_value (first (find AvpName.vendor_id (children e)))),
)

-- A message is its command and its AVPs; the bytes of a text play no part.
abbrev pub trees : DiameterLib
trees = record {
  Avp = Tree;
  Message = MessageName × Trees;
  avp = λ n. tree n no_value nil;
  name_of = tree_name;
  message = λ c. (c, nil);
  command = λ m. m.0;
  in_message = record { add = λ a m. (m.0, snoc m.1 a); all = λ n m. find n m.1 };
  in_avp = record { add = add_child; all = λ n t. find n (children t) };
  set_str = λ s t. set_value (text s) t;
  set_i32 = λ i t. set_value (signed i) t;
  set_u32 = λ n t. set_value (unsigned n) t;
  val_str = λ t. text_value (value t);
  val_os = λ t. [];
  val_i32 = λ t. signed_value (value t);
  val_u32 = λ t. unsigned_value (value t);
  bytes = λ s. [];
  add_new_session_id = λ m. m;
  add_app_id = λ m. m;
  add_origin = λ m. m;
  build_response = λ m. (m.0, nil);
  set_result_code = λ s m. m;
  result_code =
      λ m. value_of (λ t. signed_value (value t)) (pos 0) (first (find AvpName.result_code m.1));
  impi = λ m. value_of (λ t. text_value (value t)) "" (first (find AvpName.user_name m.1));
  auth_session_state = λ m.
      value_of (λ t. signed_value (value t)) (pos 0) (first (find AvpName.auth_session_state m.1));
  experimental_result =
      λ m. value_of codes (pos 0, 0) (first (find AvpName.experimental_result m.1));
}

find-snoc :
    (n : AvpName) (us : Trees) (t : Tree)
    → find n (snoc us t) ≡ find n us ++ (if same n (tree_name t) then t ∷ [] else [])
find-snoc n nil t = refl
find-snoc n (cons u us) t = elim (Bool-cases (same n (tree_name u))) [
  | inl e ↦ rw e (ap (λ rest. u ∷ rest) (find-snoc n us t))
  | inr e ↦ rw e (find-snoc n us t)
]

codes_lem :
    (e : Tree)
    → codes e ≡ (
      value_of
          (λ t. signed_value (value t))
          (pos 0)
          (first (find AvpName.experimental_result_code (children e))),
      value_of (λ t. unsigned_value (value t)) 0 (first (find AvpName.vendor_id (children e))),
    )
codes_lem e = ground arith

tree_name-set_value : (v : Value) (t : Tree) → tree_name (set_value v t) ≡ tree_name t
tree_name-set_value v (tree n w c) = refl

value-set_value : (v : Value) (t : Tree) → value (set_value v t) ≡ v
value-set_value v (tree n w c) = refl

tree_name-add_child : (u t : Tree) → tree_name (add_child u t) ≡ tree_name t
tree_name-add_child u (tree n w c) = refl

children-add_child : (u t : Tree) → children (add_child u t) ≡ snoc (children t) u
children-add_child u (tree n w c) = refl

pub trees-DiameterLaws : DiameterLaws trees
trees-DiameterLaws = record {
  message_laws = record { all_add = λ a m n. find-snoc n m.1 a };
  avp_laws = record { all_add = λ a t n. rw (children-add_child a t) (find-snoc n (children t) a) };
  all_message = λ c n. refl;
  all_avp = λ k n. refl;
  command_message = λ c. refl;
  command_add = λ a m. refl;
  all_session = λ m n. refl;
  all_app_id = λ m n. refl;
  all_origin = λ m n. refl;
  all_response = λ m n. refl;
  all_set_result = λ s m n h. refl;
  name_avp = λ k. refl;
  name_str = λ s a. tree_name-set_value (text s) a;
  name_i32 = λ i a. tree_name-set_value (signed i) a;
  name_u32 = λ n a. tree_name-set_value (unsigned n) a;
  name_add = λ b a. tree_name-add_child b a;
  str_set = λ s a. ap text_value (value-set_value (text s) a);
  os_set = λ s a. refl;
  i32_set = λ i a. ap signed_value (value-set_value (signed i) a);
  u32_set = λ n a. ap unsigned_value (value-set_value (unsigned n) a);
  result_code_lem = λ m. refl;
  experimental_result_lem = λ m e h. ap (value_of codes (pos 0, 0)) h ∙ codes_lem e;
  impi_lem = λ m. refl;
  experimental_result_none = λ m h. ap (value_of codes (pos 0, 0)) h;
}
