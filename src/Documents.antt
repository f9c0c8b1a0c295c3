-- ===== src/Documents.antt =====
-- A container for the documents of Validator/Documents, and some documents in it.
use Prim.Native.String.{String}
use cpp_pcp_client.Base.{true, false, if◌then◌else◌, ◌==◌, [], ◌∷◌, Option, none, some}
use cpp_pcp_client.ParsedChunks.{JsonContainer}
use cpp_pcp_client.Validator.Valijson.{is_some}
use cpp_pcp_client.Validator.Schema.{object, json, Schema}
use cpp_pcp_client.Validator.Registry.{Validator}
use cpp_pcp_client.Validator.Documents.{
  Doc, null_doc, word, empty_object, with_member, documents, member, get_own_string, get_string,
  get_bool, get_document, get_documents,
}
use cpp_pcp_client.V1.Serialization.{Bytes}

abbrev pub envelope_doc : Doc
envelope_doc =
    with_member "id" (word "12") (with_member "message_type" (word "greeting") empty_object)

abbrev pub full_envelope_doc : Doc
full_envelope_doc =
    with_member "id" (word "12")
      (with_member "message_type" (word "greeting") (with_member "data" null_doc empty_object))

-- The texts of three documents, told apart by the first byte.
abbrev pub parse : Bytes → Option Doc
parse [] = none
parse (b ∷ _) =
    if b == 1
    then some envelope_doc
    else if b == 2
    then some full_envelope_doc
    else if b == 3
    then some null_doc
    else none

abbrev pub container : JsonContainer documents
container = record {
  empty = empty_object;
  parse = parse;
  includes = λ d k. is_some (member k d);
  get_own_string = get_own_string;
  get_string = get_string;
  get_bool = get_bool;
  get_document = get_document;
  get_documents = get_documents;
}

-- A schema of objects with the given name.
abbrev pub objects : String → Schema documents
objects name = record {
  name = name;
  content_type = json;
  type = object;
  parsed_json_schema = λ d. true;
  parsed = false;
  properties = [];
  pattern_properties = [];
  required_properties = [];
}

abbrev pub envelope_only : Validator documents
envelope_only = ("envelope_schema", objects "envelope_schema") ∷ []

abbrev pub with_greeting : Validator documents
with_greeting = ("greeting", objects "greeting") ∷ envelope_only
