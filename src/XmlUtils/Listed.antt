-- ===== src/XmlUtils/Listed.antt =====
-- The identities that `get_public_and_default_ids` of src/homestead_xml_utils.cpp returns, against
-- the list of all identities that the document names.
use homestead.Prelude.{
  String, Bool, true, false, ◌≡◌, ◌⊎◌, inl, inr, refl, sym, ap, ◌∙◌, Option, none, some, List, [],
  ◌∷◌, ◌++◌, ◌||◌, ◌&&◌, not, arith, eq_iff, if◌then◌else◌, Bool-cases, Option-cases,
}
use homestead.Prelude.Lists.{contains, contains-append, contains_self}
use homestead.XmlUtils.{
  Nodes, nil, cons, element, XmlLib, document, first_node, Identities, barring_value, extended_uri,
  add_identity, visit_identity, visit_profile, visit_subscription, identities,
  get_public_and_default_ids, first_or,
}
use text.Mathlib.Text.{◌==◌}

-- Every identity element in document order, with whether it is unbarred.
abbrev pub Listed : Type 0
Listed = List (String × Bool)

-- Whether the first element that names the identity is unbarred, if one does.
unfoldable pub first_flag : String → Listed → Option Bool
first_flag k [] = none
first_flag k ((uri, unbarred) ∷ l) = if uri == k then some unbarred else first_flag k l

abbrev pub is_some : Option Bool → Bool
is_some none = false
is_some (some b) = true

abbrev pub is_true : Option Bool → Bool
is_true none = false
is_true (some b) = b

add_all : Listed → Identities → Identities
add_all [] ids = ids
add_all ((uri, unbarred) ∷ l) ids = add_all l (add_identity uri unbarred ids)

add_all-append :
    (l m : Listed) (ids : Identities) → add_all (l ++ m) ids ≡ add_all m (add_all l ids)
unfolding add_all
add_all-append [] m ids = refl
add_all-append ((uri, unbarred) ∷ l) m ids = add_all-append l m (add_identity uri unbarred ids)

-- What one element adds, for the identity `k`.
add_identity_flags :
    (k uri : String) (unbarred : Bool) (ids : Identities)
    → (contains k (add_identity uri unbarred ids).public_ids
        ≡ (contains k ids.public_ids || uri == k))
      × (contains k (add_identity uri unbarred ids).unbarred
          ≡ (contains k ids.unbarred || (uri == k && not (contains k ids.public_ids) && unbarred)))
unfolding add_identity contains
add_identity_flags k uri unbarred ids = ground (
  arith,
  contains-append k ids.public_ids (uri ∷ []),
  contains-append k ids.unbarred (uri ∷ []),
  eq_iff uri k,
)

add_all_flags :
    (k : String) (l : Listed) (ids : Identities)
    → (contains k (add_all l ids).public_ids
        ≡ (contains k ids.public_ids || is_some (first_flag k l)))
      × (contains k (add_all l ids).unbarred ≡ (
          contains k ids.unbarred || (not (contains k ids.public_ids) && is_true (first_flag k l))))
unfolding add_all first_flag
add_all_flags k [] ids = ground arith
add_all_flags k ((uri, unbarred) ∷ l) ids = ground (
  arith,
  add_all_flags k l (add_identity uri unbarred ids),
  add_identity_flags k uri unbarred ids,
)

default_cases :
    (unbarred : List String) (l : Listed) (default_id : String)
    → ((k : String) → contains k unbarred ≡ is_true (first_flag k l))
    → (((k : String) → is_true (first_flag k l) ≡ false)
        × (first_or unbarred default_id ≡ default_id))
      ⊎ (is_true (first_flag (first_or unbarred default_id) l) ≡ true)
unfolding contains
default_cases [] l default_id h = inl ((λ k. sym (h k)), refl)
default_cases (x ∷ xs) l default_id h = inr (sym (h x) ∙ contains_self x xs)

module _ (xml : XmlLib) where
  unfoldable pub listed_identity : Nodes → Listed
  listed_identity pi = elim (first_node xml.identity pi) [
    | none ↦ []
    | some id ↦
        (
          extended_uri xml id.value (first_node xml.extension pi),
          barring_value xml (first_node xml.barring_indication pi) == xml.state_unbarred,
        )
        ∷ []
  ]

  unfoldable pub listed_profile : Nodes → Listed
  listed_profile nil = []
  listed_profile (cons (element n v a c) rest) =
      (if n == xml.public_identity then listed_identity c else []) ++ listed_profile rest

  unfoldable pub listed_subscription : Nodes → Listed
  listed_subscription nil = []
  listed_subscription (cons (element n v a c) rest) =
      (if n == xml.service_profile then listed_profile c else []) ++ listed_subscription rest

  unfoldable pub listed : String → Listed
  listed user_data = elim (first_node xml.ims_subscription (document xml user_data)) [
    | none ↦ []
    | some is ↦ listed_subscription is.children
  ]

  visit_identity-add_all :
      (pi : Nodes) (ids : Identities) → visit_identity xml pi ids ≡ add_all (listed_identity pi) ids
  unfolding visit_identity listed_identity add_all
  visit_identity-add_all pi ids = ground arith

  visit_profile-add_all :
      (sp : Nodes) (ids : Identities) → visit_profile xml sp ids ≡ add_all (listed_profile sp) ids
  unfolding visit_profile listed_profile
  visit_profile-add_all nil ids = unfold add_all in refl
  visit_profile-add_all (cons (element n v a c) rest) ids =
      elim (Bool-cases (n == xml.public_identity)) [
        | inl e ↦ rw e (
            visit_profile-add_all rest (visit_identity xml c ids)
            ∙ ap (add_all (listed_profile rest)) (visit_identity-add_all c ids)
            ∙ sym (add_all-append (listed_identity c) (listed_profile rest) ids))
        | inr e ↦ rw e (visit_profile-add_all rest ids)
      ]

  visit_subscription-add_all :
      (is : Nodes) (ids : Identities)
      → visit_subscription xml is ids ≡ add_all (listed_subscription is) ids
  unfolding visit_subscription listed_subscription
  visit_subscription-add_all nil ids = unfold add_all in refl
  visit_subscription-add_all (cons (element n v a c) rest) ids =
      elim (Bool-cases (n == xml.service_profile)) [
        | inl e ↦ rw e (
            visit_subscription-add_all rest (visit_profile xml c ids)
            ∙ ap (add_all (listed_subscription rest)) (visit_profile-add_all c ids)
            ∙ sym (add_all-append (listed_profile c) (listed_subscription rest) ids))
        | inr e ↦ rw e (visit_subscription-add_all rest ids)
      ]

  no_identities : Identities
  no_identities = record { public_ids = []; unbarred = [] }

  identities-add_all :
      (user_data : String) → identities xml user_data ≡ add_all (listed user_data) no_identities
  unfolding identities listed add_all no_identities
  identities-add_all user_data =
      elim (Option-cases (first_node xml.ims_subscription (document xml user_data))) [
        | inl e ↦ rw (e, identities) (rw (e, listed))
        | inr (is, e) ↦
            rw (e, identities) (rw (e, listed) (visit_subscription-add_all is.children _))
      ]

  -- An identity is returned exactly if the document lists it. The default identity stays what it was
  -- exactly if no identity is unbarred at its first mention; otherwise it becomes such an identity.
  pub get_public_and_default_ids_lem :
      (user_data default_id : String)
      → ((k : String)
          → contains k (get_public_and_default_ids xml user_data default_id).0
            ≡ is_some (first_flag k (listed user_data)))
        × ((((k : String) → is_true (first_flag k (listed user_data)) ≡ false)
              × ((get_public_and_default_ids xml user_data default_id).1 ≡ default_id))
            ⊎ (is_true (
                  first_flag
                    (get_public_and_default_ids xml user_data default_id).1
                    (listed user_data))
                ≡ true))
  unfolding get_public_and_default_ids no_identities contains
  get_public_and_default_ids_lem user_data default_id = (
    (λ k. rw (identities-add_all user_data) (add_all_flags k (listed user_data) no_identities).0),
    default_cases (identities xml user_data).unbarred (listed user_data) default_id (λ k.
        rw (identities-add_all user_data) (add_all_flags k (listed user_data) no_identities).1),
  )
