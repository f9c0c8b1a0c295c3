-- ===== src/Validator/Tests.antt =====
-- Runs of the validator on documents.
use Prim.Native.String.{String}
use text.Mathlib.TextEquality.{eq_iff}
use cpp_pcp_client.Base.{◌≡◌, ◌≢◌, refl, true, false, ◌&&◌, List, [], ◌∷◌, if◌then◌else◌, ok, err}
use cpp_pcp_client.Validator.Errors.{schema_redefinition_error, validation_error}
use cpp_pcp_client.Validator.Valijson.{k_object}
use cpp_pcp_client.Validator.Schema.{
  object, string, array, json, Schema, Constraint, add_constraints, object_schema, get_raw,
  add_sub_schema,
}
use cpp_pcp_client.Validator.Schema.Meaning.{object_schema_lem, all_satisfied}
use cpp_pcp_client.Validator.Schema.SubSchema.{sub_schema_unchecked}
use cpp_pcp_client.Validator.Registry.{
  Validator, register_schema, validate, get_schema_content_type, includes_schema, find,
}
use cpp_pcp_client.Validator.Registry.Laws.{register-validate}
use cpp_pcp_client.Validator.Documents.{
  Doc, null_doc, empty_object, with_member, check, documents, documented, has_type,
}

abbrev uri_fields : List Constraint
uri_fields =
    record { field = "uri"; type = string; required = true }
    ∷ record { field = "notes"; type = array; required = false }
    ∷ []

object_schema_lem_example :
    (s : Schema documents) × (add_constraints documents
        (object_schema documents "uris" json)
        uri_fields
      ≡ ok s)
    × (s.name ≡ "uris")
    × (s.content_type ≡ json)
    × ((j : Doc)
        → check (get_raw documents s) j
          ≡ (has_type k_object j && all_satisfied documents documented j uri_fields))
object_schema_lem_example = object_schema_lem documents documented "uris" json uri_fields

abbrev door : Schema documents
door = record {
  name = "door_schema";
  content_type = json;
  type = object;
  parsed_json_schema = λ d. true;
  parsed = false;
  properties = [];
  pattern_properties = [];
  required_properties = "key" ∷ [];
}

abbrev registered : Validator documents
registered = ("door_schema", door) ∷ []

window≢door : ◌≢◌ {A = String} "window_schema" "door_schema"
window≢door e = let same : false ≡ true = (eq_iff "window_schema" "door_schema").1 e in cc

registers : register_schema documents [] door ≡ ok registered
unfolding register_schema includes_schema find
registers = refl

register-validate_example :
    (validate documents registered null_doc "window_schema"
      ≡ validate documents [] null_doc "window_schema")
    × (get_schema_content_type documents registered "window_schema"
        ≡ get_schema_content_type documents [] "window_schema")
    × (validate documents registered null_doc "door_schema" ≡ (
        if check (get_raw documents door) null_doc
        then ok tt
        else err (validation_error "door_schema")))
    × (get_schema_content_type documents registered "door_schema" ≡ ok json)
    × (register_schema documents registered door ≡ err (schema_redefinition_error "door_schema"))
register-validate_example =
    register-validate documents [] registered door door "window_schema" null_doc registers
      window≢door refl

-- A member of type object is accepted although the sub-schema of the member wants a member of its
-- own.
abbrev handle : Doc
handle = with_member "lock" empty_object empty_object

sub_schema_unchecked_example :
    (s : Schema documents) × (add_sub_schema documents
        (object_schema documents "house" json)
        "lock"
        door
        true
      ≡ ok s)
    × (check (get_raw documents s) handle ≡ true)
sub_schema_unchecked_example =
    sub_schema_unchecked documents documented "house" "lock" json door true handle empty_object refl
      refl refl
