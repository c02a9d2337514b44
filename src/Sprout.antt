-- ===== src/Sprout.antt =====
-- The requests to Sprout: src/sproutconnection.cpp and include/sproutconnection.h. The HTTP client of
-- another repository is a parameter, by the status code of its answer; logs are left out. A body is the
-- tree that rapidjson writes.
pub mod Bodies
mod Examples
use homestead.Prelude.{ℕ, String, Bool, true, false, ◌≡◌, List, [], ◌∷◌, ◌++◌, map, if◌then◌else◌}
use homestead.ImpuStore.{is_empty_list}
use homestead.ImpuStore.Json.{Json, string, array, object, Items, nil, cons, Members, member, end}
use Prim.Native.String.{◌++◌ as str_append}

pub data RequestMethod : Type 0 where
  put delete : RequestMethod

pub record SproutRequest : Type 0 where
  pub method : RequestMethod
  pub path : String
  pub body : Json

abbrev pub items : List Json → Items
items [] = nil
items (j ∷ js) = cons j (items js)

-- One registration of the body.
abbrev pub registration : String → List String → List Json
registration impu [] = []
registration impu (impi ∷ impis) =
    object (member "primary-impu" (string impu) (member "impi" (string impi) end))
    ∷ registration impu impis

-- The objects for a default public identity: one for each private identity, if there are any.
unfoldable pub registrations_of : List String → String → List Json
registrations_of impis impu =
    if is_empty_list impis
    then object (member "primary-impu" (string impu) end) ∷ []
    else registration impu impis

unfoldable pub registrations : List String → List String → List Json
unfolding registrations_of
registrations impis [] = []
registrations impis (impu ∷ impus) = registrations_of impis impu ++ registrations impis impus

unfoldable pub rtr_create_body : List String → List String → Json
unfolding registrations
rtr_create_body default_public_ids impis =
    object (member "registrations" (array (items (registrations impis default_public_ids))) end)

unfoldable pub ppr_create_body : String → Json
ppr_create_body user_data = object (member "user-data-xml" (string user_data) end)

module _ (send : SproutRequest → ℕ) where
  unfoldable pub deregister_bindings : Bool → List String → List String → ℕ
  unfolding rtr_create_body
  deregister_bindings send_notifications default_public_ids impis = send (record {
    method = RequestMethod.delete;
    path =
        str_append "/registrations?send-notifications="
          (if send_notifications then "true" else "false");
    body = rtr_create_body default_public_ids impis;
  })

  unfoldable pub change_associated_identities : String → String → ℕ
  unfolding ppr_create_body
  change_associated_identities default_id user_data = send (record {
    method = RequestMethod.put;
    path = str_append "/registrations/" default_id;
    body = ppr_create_body user_data;
  })
