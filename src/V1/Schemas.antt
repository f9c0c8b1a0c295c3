-- ===== src/V1/Schemas.antt =====
-- lib/inc/cpp-pcp-client/protocol/v1/schemas.hpp and lib/src/protocol/v1/schemas.cc: the schemas of
-- the protocol, each made by calls of `addConstraint`.
pub mod Meaning
mod Tests
use Prim.Native.String.{String}
use cpp_pcp_client.Base.{Bool, true, false, List, [], ◌∷◌}
use cpp_pcp_client.Validator.Valijson.{Valijson}
use cpp_pcp_client.Validator.Schema.{
  TypeConstraint, array, string, bool, json, Schema, SchemaOutcome, Constraint, object_schema,
  add_constraints,
}

abbrev pub envelope_schema_name : String
envelope_schema_name = "envelope_schema"

abbrev pub associate_req_type : String
associate_req_type = "http://puppetlabs.com/associate_request"

abbrev pub associate_resp_type : String
associate_resp_type = "http://puppetlabs.com/associate_response"

abbrev pub inventory_req_type : String
inventory_req_type = "http://puppetlabs.com/inventory_request"

abbrev pub inventory_resp_type : String
inventory_resp_type = "http://puppetlabs.com/inventory_response"

abbrev pub error_msg_type : String
error_msg_type = "http://puppetlabs.com/error_message"

abbrev pub destination_report_type : String
destination_report_type = "http://puppetlabs.com/destination_report"

abbrev pub ttl_expired_type : String
ttl_expired_type = "http://puppetlabs.com/ttl_expired"

abbrev pub version_error_type : String
version_error_type = "http://puppetlabs.com/version_error"

abbrev pub debug_schema_name : String
debug_schema_name = "debug_schema"

abbrev pub debug_item_schema_name : String
debug_item_schema_name = "debug_item_schema"

abbrev field : String → TypeConstraint → Bool → Constraint
field name type required = record { field = name; type = type; required = required }

abbrev pub envelope_schema_fields : List Constraint
envelope_schema_fields =
    field "id" string true
    ∷ field "message_type" string true
    ∷ field "expires" string true
    ∷ field "targets" array true
    ∷ field "sender" string true
    ∷ field "destination_report" bool false
    ∷ field "in-reply-to" string false
    ∷ []

abbrev pub associate_response_schema_fields : List Constraint
associate_response_schema_fields =
    field "id" string true ∷ field "success" bool true ∷ field "reason" string false ∷ []

abbrev pub inventory_request_schema_fields : List Constraint
inventory_request_schema_fields = field "query" string true ∷ []

abbrev pub inventory_response_schema_fields : List Constraint
inventory_response_schema_fields = field "uris" array true ∷ []

abbrev pub error_message_schema_fields : List Constraint
error_message_schema_fields = field "description" string true ∷ field "id" string false ∷ []

abbrev pub destination_report_schema_fields : List Constraint
destination_report_schema_fields = field "id" string true ∷ field "targets" array true ∷ []

abbrev pub ttl_expired_schema_fields : List Constraint
ttl_expired_schema_fields = field "id" string true ∷ []

abbrev pub version_error_schema_fields : List Constraint
version_error_schema_fields =
    field "id" string true ∷ field "target" string true ∷ field "reason" string true ∷ []

abbrev pub debug_schema_fields : List Constraint
debug_schema_fields = field "hops" array true ∷ []

abbrev pub debug_item_schema_fields : List Constraint
debug_item_schema_fields =
    field "server" string true ∷ field "time" string true ∷ field "stage" string false ∷ []

module _ (V : Valijson) where
  unfoldable pub envelope_schema : SchemaOutcome (Schema V)
  envelope_schema =
      add_constraints V (object_schema V envelope_schema_name json) envelope_schema_fields

  unfoldable pub associate_response_schema : SchemaOutcome (Schema V)
  associate_response_schema =
      add_constraints V (object_schema V associate_resp_type json) associate_response_schema_fields

  unfoldable pub inventory_request_schema : SchemaOutcome (Schema V)
  inventory_request_schema =
      add_constraints V (object_schema V inventory_req_type json) inventory_request_schema_fields

  unfoldable pub inventory_response_schema : SchemaOutcome (Schema V)
  inventory_response_schema =
      add_constraints V (object_schema V inventory_resp_type json) inventory_response_schema_fields

  unfoldable pub error_message_schema : SchemaOutcome (Schema V)
  error_message_schema =
      add_constraints V (object_schema V error_msg_type json) error_message_schema_fields

  unfoldable pub destination_report_schema : SchemaOutcome (Schema V)
  destination_report_schema =
      add_constraints V (object_schema V destination_report_type json)
        destination_report_schema_fields

  unfoldable pub ttl_expired_schema : SchemaOutcome (Schema V)
  ttl_expired_schema =
      add_constraints V (object_schema V ttl_expired_type json) ttl_expired_schema_fields

  unfoldable pub version_error_schema : SchemaOutcome (Schema V)
  version_error_schema =
      add_constraints V (object_schema V version_error_type json) version_error_schema_fields

  unfoldable pub debug_schema : SchemaOutcome (Schema V)
  debug_schema = add_constraints V (object_schema V debug_schema_name json) debug_schema_fields

  unfoldable pub debug_item_schema : SchemaOutcome (Schema V)
  debug_item_schema =
      add_constraints V (object_schema V debug_item_schema_name json) debug_item_schema_fields
