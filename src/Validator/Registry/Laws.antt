-- ===== src/Validator/Registry/Laws.antt =====
-- Registering, looking up and validating.
use Prim.Native.String.{String}
use text.Mathlib.TextEquality.{eq_iff}
use cpp_pcp_client.Base.{◌≡◌, ◌≢◌, ◌⊎◌, false, ◌∷◌, if◌then◌else◌, ok, err, arith}
use cpp_pcp_client.Validator.Errors.{
  schema_redefinition_error, schema_not_found_error, validation_error,
}
use cpp_pcp_client.Validator.Valijson.{Valijson}
use cpp_pcp_client.Validator.Schema.{Schema, get_raw}
use cpp_pcp_client.Validator.Registry.{
  find, Validator, includes_schema, register_schema, validate, get_schema_content_type,
}

module _ (V : Valijson) where
  open V use {Json}

  -- A schema whose name is registered is refused, and any other is added.
  pub register_schema_lem :
      (v : Validator V) (s : Schema V)
      → register_schema V v s ≡ (
          if includes_schema V v s.name
          then err (schema_redefinition_error s.name)
          else ok ((s.name, s) ∷ v))
  unfolding register_schema
  register_schema_lem v s = ground arith

  -- After a registration that succeeds, validating against any other name and its content type are
  -- what they were, errors included; against the new name a document is accepted exactly if
  -- valijson accepts it for the schema, and its content type is the schema's; and registering a
  -- schema of that name again is refused.
  pub register-validate :
      (v w : Validator V) (s t : Schema V) (other : String) (j : Json)
      → register_schema V v s ≡ ok w
      → other ≢ s.name
      → t.name ≡ s.name
      → (validate V w j other ≡ validate V v j other)
        × (get_schema_content_type V w other ≡ get_schema_content_type V v other)
        × (validate V w j s.name
            ≡ (if V.validate (get_raw V s) j then ok tt else err (validation_error s.name)))
        × (get_schema_content_type V w s.name ≡ ok s.content_type)
        × (register_schema V w t ≡ err (schema_redefinition_error s.name))
  unfolding register_schema validate get_schema_content_type find
  register-validate v w s t other j e differs same = (
    ground (arith, eq_iff s.name other),
    ground (arith, eq_iff s.name other),
    ground (arith, eq_iff s.name s.name),
    ground (arith, eq_iff s.name s.name),
    ground (arith, eq_iff s.name t.name),
  )

  -- With a name that is not registered, `validate` and `get_schema_content_type` throw
  -- schema_not_found_error.
  pub not_found :
      (v : Validator V) (n : String) (j : Json)
      → includes_schema V v n ≡ false
      → (validate V v j n ≡ err (schema_not_found_error n))
        × (get_schema_content_type V v n ≡ err (schema_not_found_error n))
  unfolding includes_schema validate get_schema_content_type
  not_found v n j missing = (ground arith, ground arith)

  -- `validate` throws two exceptions only.
  pub validate_outcomes :
      (v : Validator V) (n : String) (j : Json)
      → (validate V v j n ≡ ok tt)
        ⊎ ((validate V v j n ≡ err (schema_not_found_error n))
            ⊎ (validate V v j n ≡ err (validation_error n)))
  unfolding validate
  validate_outcomes v n j = ground arith
