-- ===== src/Validator/Documents.antt =====
-- An instance of the documented library: documents as trees, and a schema as the test that it
-- stands for.
use Prim.Native.String.{String}
use text.Mathlib.Text.{◌==◌ as str_eq}
use cpp_pcp_client.Base.{
  ◌≡◌, refl, Bool, true, false, ◌&&◌, List, [], ◌∷◌, Option, none, some, if◌then◌else◌, ok, err,
}
use cpp_pcp_client.Validator.Errors.{data_key_error, data_type_error, Outcome}
use cpp_pcp_client.Validator.Valijson.{
  Valijson, Documented, RawType, k_object, k_array, k_string, k_boolean, k_null, k_any, members_ok,
  all_present,
}

-- An object is its members, and an array its elements.
pub data Doc : Type 0 where
  null_doc : Doc
  flag : Bool → Doc
  word : String → Doc
  empty_object : Doc
  with_member : String → Doc → Doc → Doc
  empty_array : Doc
  with_element : Doc → Doc → Doc

abbrev pub has_type : RawType → Doc → Bool
has_type k_null null_doc = true
has_type k_boolean (flag b) = true
has_type k_string (word s) = true
has_type k_object empty_object = true
has_type k_object (with_member k v rest) = true
has_type k_array empty_array = true
has_type k_array (with_element v rest) = true
has_type k_any d = true
has_type t d = false

abbrev pub member : String → Doc → Option Doc
member k (with_member j v rest) = if str_eq j k then some v else member k rest
member k d = none

abbrev pub items_ok : (Doc → Bool) → Doc → Bool
items_ok s (with_element v rest) = s v && items_ok s rest
items_ok s d = true

abbrev pub check : (Doc → Bool) → Doc → Bool
check s d = s d

abbrev pub properties_ok : List (String × (Doc → Bool)) → Doc → Bool
properties_ok ps d = if has_type k_object d then members_ok check member ps d else true

abbrev pub required_ok : List String → Doc → Bool
required_ok ks d = if has_type k_object d then all_present member ks d else true

abbrev pub documents : Valijson
documents = record {
  Json = Doc;
  RawSchema = Doc → Bool;
  no_constraint = λ d. true;
  add_type = λ s t d. s d && has_type t d;
  add_items = λ s items d. s d && items_ok items d;
  add_properties = λ s ps patterns d. s d && properties_ok ps d;
  add_required = λ s ks d. s d && required_ok ks d;
  populate_schema = λ d. none;
  validate = check;
}

pub items_of_others :
    (items : Doc → Bool) (d : Doc) → has_type k_array d ≡ false → items_ok items d ≡ true
items_of_others items null_doc other = refl
items_of_others items (flag b) other = refl
items_of_others items (word s) other = refl
items_of_others items empty_object other = refl
items_of_others items (with_member k v rest) other = refl
items_of_others items empty_array other = refl
items_of_others items (with_element v rest) other = cc

abbrev pub documented : Documented documents
documented = record {
  has_type = has_type;
  member = member;
  items_ok = items_ok;
  properties_ok = properties_ok;
  required_ok = required_ok;
  validate_nothing = λ j. refl;
  validate_type = λ s t j. refl;
  validate_items = λ s items j. refl;
  validate_properties = λ s ps j. refl;
  validate_required = λ s ks j. refl;
  items_of_others = items_of_others;
  properties_of_object = λ ps j object. rw object;
  required_of_object = λ ks j object. rw object;
}

-- The getters of a container.
abbrev pub get_own_string : Doc → Outcome String
get_own_string (word s) = ok s
get_own_string d = err data_type_error

abbrev pub get_string : Doc → String → Outcome String
get_string d k = elim (member k d) [
  | none ↦ err data_key_error
  | some v ↦ elim v [ word s ↦ ok s | _ ↦ err data_type_error ]
]

abbrev pub get_bool : Doc → String → Outcome Bool
get_bool d k = elim (member k d) [
  | none ↦ err data_key_error
  | some v ↦ elim v [ flag b ↦ ok b | _ ↦ err data_type_error ]
]

abbrev pub get_document : Doc → String → Outcome Doc
get_document d k = elim (member k d) [ none ↦ err data_key_error | some v ↦ ok v ]

abbrev pub elements : Doc → List Doc
elements (with_element v rest) = v ∷ elements rest
elements d = []

abbrev pub get_documents : Doc → String → Outcome (List Doc)
get_documents d k = elim (member k d) [ none ↦ err data_key_error | some v ↦ ok (elements v) ]
