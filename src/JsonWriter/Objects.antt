-- ===== src/JsonWriter/Objects.antt =====
-- A writer for the documents of Validator/Documents, with a container that reads one document back,
-- the data of an error and the empty object.
use Prim.Native.String.{String}
use text.Mathlib.Text.{◌==◌ as str_eq}
use text.Mathlib.TextEquality.{eq_iff}
use cpp_pcp_client.Base.{
  ◌≡◌, ◌≢◌, refl, ap, true, Bool-cases, inl, inr, List, [], ◌∷◌, Option, none, some, if◌then◌else◌,
  ◌==◌,
}
use cpp_pcp_client.Validator.Valijson.{is_some, k_object}
use cpp_pcp_client.Validator.Documents.{
  Doc, flag, word, empty_object, with_member, empty_array, with_element, has_type, documents,
  member, get_own_string, get_string, get_bool, get_document, get_documents,
}
use cpp_pcp_client.ParsedChunks.{JsonContainer}
use cpp_pcp_client.JsonWriter.{
  Value, string_value, strings_value, flag_value, document_value, JsonWriter, IsWriter,
}
use cpp_pcp_client.V1.Serialization.{Bytes}

abbrev pub words : List String → Doc
words [] = empty_array
words (s ∷ rest) = with_element (word s) (words rest)

abbrev pub doc_of : Value Doc → Doc
doc_of (string_value s) = word s
doc_of (strings_value ss) = words ss
doc_of (flag_value b) = flag b
doc_of (document_value d) = d

-- The data of an error message.
abbrev pub failure : Doc
failure =
    with_member "description" (word "unknown client") (with_member "id" (word "7") empty_object)

-- The texts of the empty object, the error data and the others.
abbrev pub to_text : Doc → Bytes
to_text empty_object = 3 ∷ []
to_text (with_member k v d) = if str_eq k "description" then 5 ∷ [] else 1 ∷ []
to_text d = 1 ∷ []

abbrev pub parse_as : Doc → Bytes → Option Doc
parse_as d [] = none
parse_as d (b ∷ _) = if b == 3 then some empty_object else if b == 5 then some failure else some d

abbrev pub container_of : Doc → JsonContainer documents
container_of d = record {
  empty = empty_object;
  parse = parse_as d;
  includes = λ d k. is_some (member k d);
  get_own_string = get_own_string;
  get_string = get_string;
  get_bool = get_bool;
  get_document = get_document;
  get_documents = get_documents;
}

abbrev pub writer : JsonWriter documents
writer = record { set = λ d k v. with_member k (doc_of v) d; to_string = to_text }

member-same : (k : String) (v d : Doc) → member k (with_member k v d) ≡ some v
member-same k v d = let same : str_eq k k ≡ true = (eq_iff k k).1 refl in rw same refl

member-other : (k j : String) (v d : Doc) → k ≢ j → member j (with_member k v d) ≡ member j d
member-other k j v d differs = elim (Bool-cases (str_eq k j)) [
  | inl same ↦ absurd (differs ((eq_iff k j).0 same))
  | inr different ↦ rw different refl
]

pub writes : (d : Doc) → IsWriter documents (container_of d) writer
writes d = record {
  is_object = has_type k_object;
  is_object-empty = refl;
  is_object-set = λ e k v object. refl;
  includes-set = λ e k v object. ap is_some (member-same k (doc_of v) e);
  get_string-set = λ e k s object. rw (get_string, member-same k (word s) e) refl;
  get_document-set = λ e k f object. rw (get_document, member-same k f e) refl;
  includes-set_other = λ e j k v object differs. ap is_some (member-other k j (doc_of v) e differs);
  get_string-set_other =
      λ e j k v object differs. rw (get_string, member-other k j (doc_of v) e differs) refl;
  get_document-set_other =
      λ e j k v object differs. rw (get_document, member-other k j (doc_of v) e differs) refl;
}
