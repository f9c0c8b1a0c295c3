-- ===== src/V2/Schemas.antt =====
-- lib/inc/cpp-pcp-client/protocol/v2/schemas.hpp and lib/src/protocol/v2/schemas.cc: the schemas of
-- the protocol, each made by calls of `addConstraint`.
use Prim.Native.String.{String}
use cpp_pcp_client.Base.{Bool, true, false, List, [], ◌∷◌, ok}
use cpp_pcp_client.Validator.Valijson.{Valijson}
use cpp_pcp_client.Validator.Schema.{
  TypeConstraint, array, string, bool, any, json, Schema, SchemaOutcome, Constraint, object_schema,
  make_schema, add_constraints,
}

abbrev pub envelope_schema_name : String
envelope_schema_name = "envelope_schema"

abbrev pub inventory_req_type : String
inventory_req_type = "http://puppetlabs.com/inventory_request"

abbrev pub inventory_resp_type : String
inventory_resp_type = "http://puppetlabs.com/inventory_response"

abbrev pub error_msg_type : String
error_msg_type = "http://puppetlabs.com/error_message"

abbrev field : String → TypeConstraint → Bool → Constraint
field name type required = record { field = name; type = type; required = required }

abbrev pub envelope_schema_fields : List Constraint
envelope_schema_fields =
    field "id" string true
    ∷ field "message_type" string true
    ∷ field "target" string false
    ∷ field "sender" string false
    ∷ field "in_reply_to" string false
    ∷ field "data" any false
    ∷ []

abbrev pub inventory_request_schema_fields : List Constraint
inventory_request_schema_fields = field "query" array true ∷ field "subscribe" bool false ∷ []

abbrev pub inventory_response_schema_fields : List Constraint
inventory_response_schema_fields = field "uris" array true ∷ []

module _ (V : Valijson) where
  pub envelope_schema : SchemaOutcome (Schema V)
  envelope_schema =
      add_constraints V (object_schema V envelope_schema_name json) envelope_schema_fields

  unfoldable inventory_request_schema : SchemaOutcome (Schema V)
  inventory_request_schema =
      add_constraints V (object_schema V inventory_req_type json) inventory_request_schema_fields

  unfoldable inventory_response_schema : SchemaOutcome (Schema V)
  inventory_response_schema =
      add_constraints V (object_schema V inventory_resp_type json) inventory_response_schema_fields

  pub error_message_schema : SchemaOutcome (Schema V)
  error_message_schema = ok (make_schema V error_msg_type json string)
