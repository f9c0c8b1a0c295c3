-- ===== src/Validator/Valijson.antt =====
-- The valijson library as far as lib/src/validator uses it, and the documented behaviour of its
-- constraints. `Json` is a document as leatherman's JsonContainer and rapidjson hold it.
use Prim.Native.String.{String}
use cpp_pcp_client.Base.{◌≡◌, Bool, true, false, ◌&&◌, List, [], ◌∷◌, Option, none, some}

-- V_C::TypeConstraint.
pub data RawType : Type 0 where
  k_object k_array k_string k_integer k_boolean k_number k_null k_any : RawType

pub record Valijson : Type 1 where
  pub Json : Type 0
  pub RawSchema : Type 0
  pub no_constraint : RawSchema
  pub add_type : RawSchema → RawType → RawSchema
  pub add_items : RawSchema → RawSchema → RawSchema
  pub add_properties : RawSchema → List (String × RawSchema) → List (String × RawSchema) → RawSchema
  pub add_required : RawSchema → List String → RawSchema
  pub populate_schema : Json → Option RawSchema
  pub validate : RawSchema → Json → Bool

-- The members of an object that a list of properties names satisfy their schemas.
abbrev pub member_ok {ℓ} : {J S : Type ℓ} → (S → J → Bool) → S → Option J → Bool
member_ok check s none = true
member_ok check s (some j) = check s j

abbrev pub members_ok {ℓ} :
    {J S : Type ℓ} → (S → J → Bool) → (String → J → Option J) → List (String × S) → J → Bool
members_ok check member [] j = true
members_ok check member ((k, s) ∷ ps) j =
    member_ok check s (member k j) && members_ok check member ps j

abbrev pub is_some {ℓ} : {A : Type ℓ} → Option A → Bool
is_some none = false
is_some (some _) = true

abbrev pub all_present {ℓ} : {J : Type ℓ} → (String → J → Option J) → List String → J → Bool
all_present member [] j = true
all_present member (k ∷ ks) j = is_some (member k j) && all_present member ks j

-- A document satisfies a schema if it satisfies each constraint that was added. The constraints on
-- members are documented for objects, and the one on items for arrays.
module _ (V : Valijson) where
  open V use {
    Json, RawSchema, no_constraint, add_type, add_items, add_properties, add_required, validate,
  }

  pub record Documented : Type 0 where
    pub has_type : RawType → Json → Bool
    pub member : String → Json → Option Json
    pub items_ok : RawSchema → Json → Bool
    pub properties_ok : List (String × RawSchema) → Json → Bool
    pub required_ok : List String → Json → Bool
    pub validate_nothing : (j : Json) → validate no_constraint j ≡ true
    pub validate_type :
        (s : RawSchema) (t : RawType) (j : Json)
        → validate (add_type s t) j ≡ (validate s j && has_type t j)
    pub validate_items :
        (s items : RawSchema) (j : Json)
        → validate (add_items s items) j ≡ (validate s j && items_ok items j)
    pub validate_properties :
        (s : RawSchema) (ps : List (String × RawSchema)) (j : Json)
        → validate (add_properties s ps []) j ≡ (validate s j && properties_ok ps j)
    pub validate_required :
        (s : RawSchema) (ks : List String) (j : Json)
        → validate (add_required s ks) j ≡ (validate s j && required_ok ks j)
    pub items_of_others :
        (items : RawSchema) (j : Json) → has_type k_array j ≡ false → items_ok items j ≡ true
    pub properties_of_object :
        (ps : List (String × RawSchema)) (j : Json)
        → has_type k_object j ≡ true
        → properties_ok ps j ≡ members_ok validate member ps j
    pub required_of_object :
        (ks : List String) (j : Json)
        → has_type k_object j ≡ true
        → required_ok ks j ≡ all_present member ks j
