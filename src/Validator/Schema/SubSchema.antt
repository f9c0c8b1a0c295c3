-- ===== src/Validator/Schema/SubSchema.antt =====
-- `addConstraint` with a sub-schema puts an items constraint on the field, which concerns the
-- elements of an array. A member that is an object is not checked against the sub-schema.
use Prim.Native.String.{String}
use cpp_pcp_client.Base.{◌≡◌, refl, Bool, true, false, List, [], ◌∷◌, ok, some}
use cpp_pcp_client.Validator.Valijson.{Valijson, Documented, k_object, k_array}
use cpp_pcp_client.Validator.Schema.{
  ContentType, Schema, object_schema, make_schema, update_at, insert_name, require, add_sub_schema,
  get_raw,
}

module _ (V : Valijson) (D : Documented V) where
  open V use {Json, RawSchema, no_constraint, add_type, add_items, validate}
  open D use {
    has_type, member, validate_nothing, validate_type, validate_items, validate_properties,
    validate_required, properties_of_object, required_of_object, items_of_others,
  }

  abbrev typed : RawSchema
  typed = add_type no_constraint k_object

  abbrev items_on : String → RawSchema → List (String × RawSchema)
  items_on field sub = (field, add_items no_constraint sub) ∷ []

  fields_unchecked :
      (field : String) (sub : RawSchema) (j v : Json)
      → has_type k_object j ≡ true
      → member field j ≡ some v
      → has_type k_array v ≡ false
      → validate (V.add_properties typed (items_on field sub) []) j ≡ true
  fields_unchecked field sub j v obj has other = rw (
    validate_properties typed (items_on field sub) j,
    validate_type no_constraint k_object j,
    validate_nothing j,
    obj,
    properties_of_object (items_on field sub) j obj,
    has,
    validate_items no_constraint sub v,
    validate_nothing v,
    items_of_others sub v other,
  )

  unchecked :
      (n field : String) (ct : ContentType) (sub : Schema V) (required : Bool) (j v : Json)
      → has_type k_object j ≡ true
      → member field j ≡ some v
      → has_type k_array v ≡ false
      → validate
          (get_raw V (
            require V field required
              (record (object_schema V n ct) { properties = items_on field (get_raw V sub) })))
          j
        ≡ true
  unfolding object_schema make_schema insert_name get_raw require
  unchecked n field ct sub true j v obj has other = rw (
    validate_required (V.add_properties typed (items_on field (get_raw V sub)) []) (field ∷ []) j,
    fields_unchecked field (get_raw V sub) j v obj has other,
    required_of_object (field ∷ []) j obj,
    has,
  )
  unchecked n field ct sub false j v obj has other =
      fields_unchecked field (get_raw V sub) j v obj has other

  -- Whatever a sub-schema asks for, an object whose member of that name is no array satisfies the
  -- schema that has the sub-schema for its only constraint, required or not.
  pub sub_schema_unchecked :
      (n field : String) (ct : ContentType) (sub : Schema V) (required : Bool) (j v : Json)
      → has_type k_object j ≡ true
      → member field j ≡ some v
      → has_type k_array v ≡ false
      → (s : Schema V) × (add_sub_schema V (object_schema V n ct) field sub required ≡ ok s)
        × (validate (get_raw V s) j ≡ true)
  unfolding add_sub_schema object_schema make_schema update_at
  sub_schema_unchecked n field ct sub required j v obj has other =
      (_, refl, unchecked n field ct sub required j v obj has other)
