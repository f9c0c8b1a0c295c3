-- ===== src/Validator/Schema.antt =====
-- lib/inc/cpp-pcp-client/validator/schema.hpp and lib/src/validator/schema.cc.
-- Maps and sets are lists: what is observed of them does not depend on their order.
pub mod Fields
pub mod Meaning
pub mod SubSchema
use Prim.Native.String.{String}
use text.Mathlib.Text.{◌==◌ as str_eq}
use cpp_pcp_client.Base.{
  Bool, true, false, List, [], ◌∷◌, none, some, if◌then◌else◌, Result, ok, err, ◌>>=◌, ◌>>◌,
}
use cpp_pcp_client.Validator.Valijson.{
  Valijson, RawType, k_object, k_array, k_string, k_integer, k_boolean, k_number, k_null, k_any,
}

pub data TypeConstraint : Type 0 where
  object array string int bool double null any : TypeConstraint

pub data ContentType : Type 0 where
  json binary : ContentType

pub data SchemaError : Type 0 where
  failed_to_parse populated_by_parsing not_object : SchemaError

abbrev pub SchemaOutcome {ℓ} : Type ℓ → Type ℓ
SchemaOutcome A = Result SchemaError A

abbrev pub get_constraint : TypeConstraint → RawType
get_constraint object = k_object
get_constraint array = k_array
get_constraint string = k_string
get_constraint int = k_integer
get_constraint bool = k_boolean
get_constraint double = k_number
get_constraint null = k_null
get_constraint any = k_any

-- `(*properties_)[field]` changed in place, after the default is put there if it is missing.
unfoldable pub update_at {ℓ} :
    {A : Type ℓ} → String → A → (A → A) → List (String × A) → List (String × A)
update_at k d f [] = (k, f d) ∷ []
update_at k d f ((j, a) ∷ m) = if str_eq j k then (j, f a) ∷ m else (j, a) ∷ update_at k d f m

-- `std::set::insert`.
unfoldable pub insert_name : String → List String → List String
insert_name k [] = k ∷ []
insert_name k (j ∷ ks) = if str_eq j k then j ∷ ks else j ∷ insert_name k ks

abbrev pub is_empty {ℓ} : {A : Type ℓ} → List A → Bool
is_empty [] = true
is_empty (_ ∷ _) = false

-- The arguments of a call of `addConstraint`.
pub record Constraint : Type 0 where
  pub field : String
  pub type : TypeConstraint
  pub required : Bool

module _ (V : Valijson) where
  open V use {
    Json, RawSchema, no_constraint, add_type, add_items, add_properties, add_required,
    populate_schema,
  }

  pub record Schema : Type 0 where
    pub name : String
    pub content_type : ContentType
    pub type : TypeConstraint
    pub parsed_json_schema : RawSchema
    pub parsed : Bool
    pub properties : List (String × RawSchema)
    pub pattern_properties : List (String × RawSchema)
    pub required_properties : List String

  -- The constructors without a document.
  unfoldable pub make_schema : String → ContentType → TypeConstraint → Schema
  make_schema name content_type type = record {
    name = name;
    content_type = content_type;
    type = type;
    parsed_json_schema = no_constraint;
    parsed = false;
    properties = [];
    pattern_properties = [];
    required_properties = [];
  }

  unfoldable pub object_schema : String → ContentType → Schema
  object_schema name content_type = make_schema name content_type object

  unfoldable json_schema : String → TypeConstraint → Schema
  json_schema name type = make_schema name json type

  unfoldable named_schema : String → Schema
  named_schema name = make_schema name json object

  -- The constructor that parses a JSON schema.
  unfoldable parse_schema : String → Json → SchemaOutcome Schema
  parse_schema name metadata = elim (populate_schema metadata) [
    | none ↦ err failed_to_parse
    | some raw ↦ ok (record {
      name = name;
      content_type = json;
      type = object;
      parsed_json_schema = raw;
      parsed = true;
      properties = [];
      pattern_properties = [];
      required_properties = [];
    })
  ]

  check_add_constraint : Schema → SchemaOutcome (Unit {0})
  check_add_constraint s =
      if s.parsed
      then err populated_by_parsing
      else elim s.type [ object ↦ ok tt | _ ↦ err not_object ]

  require : String → Bool → Schema → Schema
  require field required s =
      if required
      then record s { required_properties = insert_name field s.required_properties }
      else s

  unfoldable pub add_constraint : Schema → String → TypeConstraint → Bool → SchemaOutcome Schema
  unfolding check_add_constraint require
  add_constraint s field type required = do
    check_add_constraint s
    ok (
        require field required (record s {
          properties =
              update_at field no_constraint (λ p. add_type p (get_constraint type)) s.properties;
        }))

  unfoldable pub get_raw : Schema → RawSchema
  get_raw s =
      let typed = add_type no_constraint (get_constraint s.type) in
      let with_properties =
        if is_empty s.properties
        then typed
        else add_properties typed s.properties s.pattern_properties in
      let built =
        if is_empty s.required_properties
        then with_properties
        else add_required with_properties s.required_properties in
      if s.parsed then s.parsed_json_schema else built

  pub add_sub_schema : Schema → String → Schema → Bool → SchemaOutcome Schema
  unfolding check_add_constraint require
  add_sub_schema s field sub_schema required = do
    check_add_constraint s
    ok (
        require field required (record s {
          properties =
              update_at field no_constraint (λ p. add_items p (get_raw sub_schema)) s.properties;
        }))

  -- The calls of `addConstraint` on one schema, in turn.
  unfoldable pub add_constraints : Schema → List Constraint → SchemaOutcome (Schema)
  add_constraints s [] = ok s
  add_constraints s (c ∷ cs) = do
    next ← add_constraint s c.field c.type c.required
    add_constraints next cs
