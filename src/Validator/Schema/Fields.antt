-- ===== src/Validator/Schema/Fields.antt =====
-- The constraints on the members of an object, given what valijson documents.
use Prim.Native.String.{String}
use text.Mathlib.Text.{◌==◌ as str_eq}
use text.Mathlib.TextEquality.{eq_iff}
use cpp_pcp_client.Base.{
  ◌≡◌, refl, sym, ap, ◌∙◌, Bool, true, false, ◌&&◌, not, ◌||◌, List, [], ◌∷◌, Option, none, some,
  if◌then◌else◌, Bool-cases, and-true, and_assoc, and_right_comm, and_absorb, inl, inr,
}
use cpp_pcp_client.Validator.Valijson.{
  Valijson, Documented, RawType, k_object, k_array, k_string, k_integer, k_boolean, k_number,
  k_null, k_any, member_ok, members_ok, is_some, all_present,
}
use cpp_pcp_client.Validator.Schema.{
  TypeConstraint, object, Constraint, update_at, insert_name, get_constraint, is_empty,
}

-- What valijson calls the types of JSON that schema.hpp names.
abbrev pub json_type : TypeConstraint → RawType
json_type TypeConstraint.object = k_object
json_type TypeConstraint.array = k_array
json_type TypeConstraint.string = k_string
json_type TypeConstraint.int = k_integer
json_type TypeConstraint.bool = k_boolean
json_type TypeConstraint.double = k_number
json_type TypeConstraint.null = k_null
json_type TypeConstraint.any = k_any

get_constraint-json_type : (t : TypeConstraint) → get_constraint t ≡ json_type t
get_constraint-json_type TypeConstraint.object = refl
get_constraint-json_type TypeConstraint.array = refl
get_constraint-json_type TypeConstraint.string = refl
get_constraint-json_type TypeConstraint.int = refl
get_constraint-json_type TypeConstraint.bool = refl
get_constraint-json_type TypeConstraint.double = refl
get_constraint-json_type TypeConstraint.null = refl
get_constraint-json_type TypeConstraint.any = refl

module _ (V : Valijson) (D : Documented V) where
  open V use {Json, RawSchema, no_constraint, add_type, validate}
  open D use {
    has_type, member, validate_nothing, validate_type, validate_properties, validate_required,
    properties_of_object, required_of_object,
  }

  abbrev pub typed_member : TypeConstraint → Option Json → Bool
  typed_member t none = true
  typed_member t (some v) = has_type (json_type t) v

  -- A document satisfies a constraint: the member, if there, has the type, and is there if required.
  unfoldable pub satisfies : Json → Constraint → Bool
  satisfies j c =
      typed_member c.type (member c.field j) && (not c.required || is_some (member c.field j))

  -- The member constraints of a schema on a document.
  abbrev pub fields_ok : List (String × RawSchema) → Json → Bool
  fields_ok ps j = members_ok validate member ps j

  pub member_ok-add_type :
      (s : RawSchema) (t : TypeConstraint) (o : Option Json)
      → member_ok validate (add_type s (get_constraint t)) o
        ≡ (member_ok validate s o && typed_member t o)
  member_ok-add_type s t none = refl
  member_ok-add_type s t (some v) =
      validate_type s (get_constraint t) v
      ∙ ap (λ k. validate s v && has_type k v) (get_constraint-json_type t)

  pub member_ok_nothing : (o : Option Json) → member_ok validate no_constraint o ≡ true
  member_ok_nothing none = refl
  member_ok_nothing (some v) = validate_nothing v

  pub fields_ok-update_at :
      (k : String) (t : TypeConstraint) (ps : List (String × RawSchema)) (j : Json)
      → fields_ok (update_at k no_constraint (λ p. add_type p (get_constraint t)) ps) j
        ≡ (fields_ok ps j && typed_member t (member k j))
  unfolding update_at
  fields_ok-update_at k t [] j =
      rw (member_ok-add_type no_constraint t (member k j), member_ok_nothing (member k j))
        (and-true (typed_member t (member k j)))
  fields_ok-update_at k t ((i, s) ∷ ps) j = elim (Bool-cases (str_eq i k)) [
    | inl e ↦
        let same : i ≡ k = (eq_iff i k).0 e in
        rw (e, ← same, member_ok-add_type s t (member i j))
          (and_right_comm (member_ok validate s (member i j)) (typed_member t (member i j))
            (fields_ok ps j))
    | inr e ↦
        rw (e, fields_ok-update_at k t ps j)
          (sym (
            and_assoc (member_ok validate s (member i j)) (fields_ok ps j)
              (typed_member t (member k j))))
  ]

  pub all_present-insert_name :
      (k : String) (ks : List String) (j : Json)
      → all_present member (insert_name k ks) j ≡ (all_present member ks j && is_some (member k j))
  unfolding insert_name
  all_present-insert_name k [] j = and-true (is_some (member k j))
  all_present-insert_name k (i ∷ ks) j = elim (Bool-cases (str_eq i k)) [
    | inl e ↦
        let same : i ≡ k = (eq_iff i k).0 e in
        rw (e, ← same) (sym (and_absorb (is_some (member i j)) (all_present member ks j)))
    | inr e ↦
        rw (e, all_present-insert_name k ks j)
          (sym (and_assoc (is_some (member i j)) (all_present member ks j) (is_some (member k j))))
  ]

  pub validate_fields :
      (typed : RawSchema) (ps : List (String × RawSchema)) (j : Json)
      → has_type k_object j ≡ true
      → validate (if is_empty ps then typed else V.add_properties typed ps []) j
        ≡ (validate typed j && fields_ok ps j)
  validate_fields typed [] j obj = sym (and-true (validate typed j))
  validate_fields typed (p ∷ ps) j obj =
      validate_properties typed (p ∷ ps) j
      ∙ ap (λ b. validate typed j && b) (properties_of_object (p ∷ ps) j obj)

  pub validate_names :
      (s : RawSchema) (ks : List String) (j : Json)
      → has_type k_object j ≡ true
      → validate (if is_empty ks then s else V.add_required s ks) j
        ≡ (validate s j && all_present member ks j)
  validate_names s [] j obj = sym (and-true (validate s j))
  validate_names s (k ∷ ks) j obj =
      validate_required s (k ∷ ks) j
      ∙ ap (λ b. validate s j && b) (required_of_object (k ∷ ks) j obj)

  pub validate_typed :
      (j : Json) → validate (add_type no_constraint (get_constraint object)) j ≡ has_type k_object j
  validate_typed j = validate_type no_constraint (get_constraint object) j ∙ rw (validate_nothing j)

  abbrev pub typed_object : RawSchema
  typed_object = add_type no_constraint (get_constraint object)

  abbrev pub with_fields : List (String × RawSchema) → RawSchema
  with_fields ps = if is_empty ps then typed_object else V.add_properties typed_object ps []

  abbrev pub with_names : RawSchema → List String → RawSchema
  with_names s ks = if is_empty ks then s else V.add_required s ks

  pub validate_fields_other :
      (ps : List (String × RawSchema)) (j : Json)
      → has_type k_object j ≡ false
      → validate (with_fields ps) j ≡ false
  validate_fields_other [] j other = validate_typed j ∙ other
  validate_fields_other (p ∷ ps) j other =
      validate_properties typed_object (p ∷ ps) j ∙ rw (validate_typed j, other)

  -- A document that is no object is refused by its type.
  pub validate_other :
      (ps : List (String × RawSchema)) (ks : List String) (j : Json)
      → has_type k_object j ≡ false
      → validate (with_names (with_fields ps) ks) j ≡ false
  validate_other ps [] j other = validate_fields_other ps j other
  validate_other ps (k ∷ ks) j other =
      validate_required (with_fields ps) (k ∷ ks) j ∙ rw (validate_fields_other ps j other)
