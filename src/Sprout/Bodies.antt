-- ===== src/Sprout/Bodies.antt =====
-- What Sprout reads from the body of a deregistration (src/sproutconnection.cpp).
use homestead.Prelude.{String, ◌≡◌, refl, ap, ◌∙◌, Option, none, some, List, [], ◌∷◌, ◌++◌, map}
use homestead.ImpuStore.Json.{Json, string, array, object, Items, nil, cons, find_member}
use homestead.Sprout.{items, registration, registrations_of, registrations, rtr_create_body}

abbrev pub text_of : Option Json → Option String
text_of (some (string s)) = some s
text_of _ = none

-- The public and the private identity of a registration.
abbrev pub binding : Json → Option String × Option String
binding (object ms) = (text_of (find_member "primary-impu" ms), text_of (find_member "impi" ms))
binding _ = (none, none)

abbrev pub bindings_in : Items → List (Option String × Option String)
bindings_in nil = []
bindings_in (cons j rest) = binding j ∷ bindings_in rest

abbrev pub bindings_of : Option Json → List (Option String × Option String)
bindings_of (some (array js)) = bindings_in js
bindings_of _ = []

abbrev pub bindings : Json → List (Option String × Option String)
bindings (object ms) = bindings_of (find_member "registrations" ms)
bindings _ = []

-- The private identities of each binding: all of them, or none for all bindings at once.
abbrev pub impis_or_all : List String → List (Option String)
impis_or_all [] = none ∷ []
impis_or_all (impi ∷ impis) = map some (impi ∷ impis)

-- Every public identity with every private one.
abbrev pub pairs : List String → List (Option String) → List (Option String × Option String)
pairs [] impis = []
pairs (impu ∷ impus) impis = map (λ impi. (some impu, impi)) impis ++ pairs impus impis

bindings_in-append :
    (xs ys : List Json)
    → bindings_in (items (xs ++ ys)) ≡ bindings_in (items xs) ++ bindings_in (items ys)
bindings_in-append [] ys = refl
bindings_in-append (x ∷ xs) ys = ap (λ rest. binding x ∷ rest) (bindings_in-append xs ys)

bindings_in-registration :
    (impu : String) (impis : List String)
    → bindings_in (items (registration impu impis))
      ≡ map (λ impi. (some impu, impi)) (map some impis)
unfolding find_member
bindings_in-registration impu [] = refl
bindings_in-registration impu (impi ∷ impis) =
    ap (λ rest. (some impu, some impi) ∷ rest) (bindings_in-registration impu impis)

bindings_in-registrations_of :
    (impis : List String) (impu : String)
    → bindings_in (items (registrations_of impis impu))
      ≡ map (λ impi. (some impu, impi)) (impis_or_all impis)
unfolding registrations_of find_member
bindings_in-registrations_of [] impu = refl
bindings_in-registrations_of (impi ∷ impis) impu = bindings_in-registration impu (impi ∷ impis)

bindings_in-registrations :
    (impis impus : List String)
    → bindings_in (items (registrations impis impus)) ≡ pairs impus (impis_or_all impis)
unfolding registrations
bindings_in-registrations impis [] = refl
bindings_in-registrations impis (impu ∷ impus) =
    bindings_in-append (registrations_of impis impu) (registrations impis impus)
    ∙ rw (bindings_in-registrations_of impis impu, bindings_in-registrations impis impus) refl

-- Sprout reads every public identity with every private one, in order, and the public identities alone
-- if there is no private one.
pub bindings-rtr_create_body :
    (impus impis : List String)
    → bindings (rtr_create_body impus impis) ≡ pairs impus (impis_or_all impis)
unfolding rtr_create_body find_member
bindings-rtr_create_body impus impis = bindings_in-registrations impis impus
