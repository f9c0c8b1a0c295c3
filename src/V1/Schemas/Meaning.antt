-- ===== src/V1/Schemas/Meaning.antt =====
-- What the envelope schema accepts.
use Prim.Native.String.{String}
use cpp_pcp_client.Base.{
  ◌≡◌, refl, ap, ◌∙◌, Bool, true, false, ◌&&◌, ok, Option, none, some, and-true,
}
use cpp_pcp_client.Validator.Valijson.{
  Valijson, Documented, is_some, RawType, k_object, k_string, k_array, k_boolean,
}
use cpp_pcp_client.Validator.Schema.{Schema, json, get_raw, TypeConstraint, string, array, bool}
use cpp_pcp_client.Validator.Schema.Fields.{json_type, typed_member, satisfies}
use cpp_pcp_client.Validator.Schema.Meaning.{object_schema_lem, all_satisfied}
use cpp_pcp_client.V1.Schemas.{envelope_schema, envelope_schema_name, envelope_schema_fields}

module _ (V : Valijson) (D : Documented V) where
  open V use {Json, validate}
  open D use {has_type, member}

  abbrev pub absent_or : RawType → Option Json → Bool
  absent_or t none = true
  absent_or t (some v) = has_type t v

  abbrev pub present : RawType → Option Json → Bool
  present t none = false
  present t (some v) = has_type t v

  required_member :
      (t : TypeConstraint) (o : Option Json)
      → (typed_member V D t o && is_some o) ≡ present (json_type t) o
  required_member t none = refl
  required_member t (some v) = and-true (has_type (json_type t) v)

  optional_member :
      (t : TypeConstraint) (o : Option Json)
      → (typed_member V D t o && true) ≡ absent_or (json_type t) o
  optional_member t none = refl
  optional_member t (some v) = and-true (has_type (json_type t) v)

  required_field :
      (j : Json) (k : String) (t : TypeConstraint)
      → satisfies V D j (record { field = k; type = t; required = true })
        ≡ present (json_type t) (member k j)
  unfolding satisfies
  required_field j k t = required_member t (member k j)

  optional_field :
      (j : Json) (k : String) (t : TypeConstraint)
      → satisfies V D j (record { field = k; type = t; required = false })
        ≡ absent_or (json_type t) (member k j)
  unfolding satisfies
  optional_field j k t = optional_member t (member k j)

  -- The envelope schema is made without an error, is named envelope_schema, and valijson accepts
  -- for it exactly the objects with the strings id, message_type, expires and sender, the array
  -- targets, and, where they are there, a Boolean destination_report and a string in-reply-to.
  pub envelope_schema_lem :
      (j : Json)
      → (s : Schema V) × (envelope_schema V ≡ ok s)
        × (s.name ≡ "envelope_schema")
        × (s.content_type ≡ json)
        × (validate (get_raw V s) j ≡ (
            has_type k_object j
            && (present k_string (member "id" j)
                && (present k_string (member "message_type" j)
                    && (present k_string (member "expires" j)
                        && (present k_array (member "targets" j)
                            && (present k_string (member "sender" j)
                                && (absent_or k_boolean (member "destination_report" j)
                                    && absent_or k_string (member "in-reply-to" j)))))))))
  unfolding envelope_schema all_satisfied
  envelope_schema_lem j =
      let (s, made, named, typed, meaning) =
        object_schema_lem V D envelope_schema_name json envelope_schema_fields in
      let fields : all_satisfied V D j envelope_schema_fields ≡ _ = rw (
        all_satisfied,
        required_field j "id" string,
        required_field j "message_type" string,
        required_field j "expires" string,
        required_field j "targets" array,
        required_field j "sender" string,
        optional_field j "destination_report" bool,
        optional_field j "in-reply-to" string,
        and-true,
      ) in
      (s, made, named, typed, meaning j ∙ ap (◌&&◌ (has_type k_object j)) fields)
