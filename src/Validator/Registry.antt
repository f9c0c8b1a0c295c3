-- ===== src/Validator/Registry.antt =====
-- The class of lib/inc/cpp-pcp-client/validator/validator.hpp and lib/src/validator/validator.cc.
-- One call at a time: the mutex is left out, and so is the text of the validation errors.
pub mod Laws
use Prim.Native.String.{String}
use text.Mathlib.Text.{◌==◌ as str_eq}
use cpp_pcp_client.Base.{
  Bool, not, List, [], ◌∷◌, Option, none, some, if◌then◌else◌, ok, err, guard, ◌>>=◌, ◌>>◌,
}
use cpp_pcp_client.Validator.Errors.{
  schema_redefinition_error, schema_not_found_error, validation_error, Outcome,
}
use cpp_pcp_client.Validator.Valijson.{Valijson, is_some}
use cpp_pcp_client.Validator.Schema.{ContentType, Schema, get_raw}

-- `std::map::find` on a map from names.
unfoldable pub find {ℓ} : {A : Type ℓ} → String → List (String × A) → Option A
find k [] = none
find k ((j, a) ∷ m) = if str_eq j k then some a else find k m

module _ (V : Valijson) where
  open V use {Json}

  -- The schema map.
  abbrev pub Validator : Type 0
  Validator = List (String × Schema V)

  abbrev pub new_validator : Validator
  new_validator = []

  unfoldable pub includes_schema : Validator → String → Bool
  includes_schema v schema_name = is_some (find schema_name v)

  unfoldable pub register_schema : Validator → Schema V → Outcome Validator
  unfolding includes_schema
  register_schema v schema = do
    let schema_name = schema.name
    guard (not (includes_schema v schema_name)) (schema_redefinition_error schema_name)
    ok ((schema_name, schema) ∷ v)

  unfoldable pub validate_json_container : Json → Schema V → Bool
  validate_json_container document schema = V.validate (get_raw V schema) document

  -- `schema_map_.at`, behind the check that the name is there.
  unfoldable pub validate : Validator → Json → String → Outcome (Unit {0})
  unfolding validate_json_container
  validate v document schema_name = elim (find schema_name v) [
    | none ↦ err (schema_not_found_error schema_name)
    | some schema ↦ guard (validate_json_container document schema) (validation_error schema_name)
  ]

  unfoldable pub get_schema_content_type : Validator → String → Outcome ContentType
  get_schema_content_type v schema_name = elim (find schema_name v) [
    | none ↦ err (schema_not_found_error schema_name)
    | some schema ↦ ok schema.content_type
  ]
