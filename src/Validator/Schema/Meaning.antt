-- ===== src/Validator/Schema/Meaning.antt =====
-- What a schema that is made of constraints accepts, given what valijson documents.
use Prim.Native.String.{String}
use cpp_pcp_client.Base.{
  ◌≡◌, refl, sym, ◌∙◌, Bool, true, false, ◌&&◌, not, ◌||◌, List, [], ◌∷◌, ok, Bool-cases, and-true,
  and_assoc, and_inside, and_last, inl, inr,
}
use cpp_pcp_client.Validator.Valijson.{Valijson, Documented, k_object, is_some, all_present}
use cpp_pcp_client.Validator.Schema.{
  TypeConstraint, object, Schema, Constraint, add_constraints, object_schema, ContentType,
  update_at, get_constraint, make_schema, check_add_constraint, require, add_constraint, get_raw,
}
use cpp_pcp_client.Validator.Schema.Fields.{
  typed_member, satisfies, fields_ok, fields_ok-update_at, all_present-insert_name, validate_fields,
  validate_names, validate_typed, typed_object, with_fields, with_names, validate_other,
}

module _ (V : Valijson) (D : Documented V) where
  open V use {Json, RawSchema, no_constraint, add_type, validate}
  open D use {
    has_type, member, validate_nothing, validate_type, validate_properties, validate_required,
    properties_of_object, required_of_object,
  }

  -- A schema of constraints on an object: what the constructors and `addConstraint` keep.
  pub record IsOpen (n : String) (ct : ContentType) (s : Schema V) : Type 0 where
    pub named : s.name ≡ n
    pub content_typed : s.content_type ≡ ct
    pub not_parsed : s.parsed ≡ false
    pub of_object : s.type ≡ object
    pub no_patterns : s.pattern_properties ≡ []

  -- What an open schema accepts.
  accepts : Schema V → Json → Bool
  accepts s j =
      has_type k_object j
      && (fields_ok V D s.properties j && all_present member s.required_properties j)

  get_raw-IsOpen :
      {n : String} {ct : ContentType} (s : Schema V)
      → IsOpen n ct s
      → get_raw V s ≡ with_names V D (with_fields V D s.properties) s.required_properties
  unfolding get_raw
  get_raw-IsOpen s o = rw (o.not_parsed, o.of_object, o.no_patterns)

  validate-get_raw :
      {n : String} {ct : ContentType} (s : Schema V) (j : Json)
      → IsOpen n ct s
      → validate (get_raw V s) j ≡ accepts s j
  unfolding accepts
  validate-get_raw s j o = elim (Bool-cases (has_type k_object j)) [
    | inl obj ↦ rw (
      get_raw-IsOpen s o,
      obj,
      validate_names V D (with_fields V D s.properties) s.required_properties j obj,
      validate_fields V D (typed_object V D) s.properties j obj,
      validate_typed V D j,
      obj,
    )
    | inr other ↦
        rw
          (get_raw-IsOpen s o, other, validate_other V D s.properties s.required_properties j other)
  ]

  add_constraint_fields :
      (k : String) (t : TypeConstraint) (s : Schema V) (j : Json)
      → accepts
          (record s {
            properties =
                update_at k no_constraint (λ p. add_type p (get_constraint t)) s.properties;
          })
          j
        ≡ (accepts s j && typed_member V D t (member k j))
  unfolding accepts
  add_constraint_fields k t s j = rw (fields_ok-update_at V D k t s.properties j) (
      and_inside (has_type k_object j) (fields_ok V D s.properties j)
        (typed_member V D t (member k j)) (all_present member s.required_properties j))

  accepts-require :
      (k : String) (required : Bool) (s : Schema V) (j : Json)
      → accepts (require V k required s) j ≡ (accepts s j && (not required || is_some (member k j)))
  unfolding accepts require
  accepts-require k true s j = rw (all_present-insert_name V D k s.required_properties j) (
      and_last (has_type k_object j) (fields_ok V D s.properties j)
        (all_present member s.required_properties j) (is_some (member k j)))
  accepts-require k false s j = sym (and-true (accepts s j))

  require-IsOpen :
      {n : String} {ct : ContentType} (k : String) (required : Bool) (s : Schema V)
      → IsOpen n ct s
      → IsOpen n ct (require V k required s)
  unfolding require
  require-IsOpen k true s o = record {
    named = o.named;
    content_typed = o.content_typed;
    not_parsed = o.not_parsed;
    of_object = o.of_object;
    no_patterns = o.no_patterns;
  }
  require-IsOpen k false s o = o

  -- A call on an open schema succeeds, and the schema accepts what it did and the constraint does.
  add_constraint_lem :
      {n : String} {ct : ContentType} (s : Schema V) (c : Constraint)
      → IsOpen n ct s
      → (s' : Schema V) × (add_constraint V s c.field c.type c.required ≡ ok s')
        × IsOpen n ct s'
        × ((j : Json) → accepts s' j ≡ (accepts s j && satisfies V D j c))
  unfolding add_constraint check_add_constraint satisfies
  add_constraint_lem s c o =
      let s1 : Schema V = record s {
        properties =
            update_at c.field no_constraint (λ p. add_type p (get_constraint c.type)) s.properties;
      } in
      (
        require V c.field c.required s1,
        rw (o.not_parsed, o.of_object),
        require-IsOpen c.field c.required s1 (record {
          named = o.named;
          content_typed = o.content_typed;
          not_parsed = o.not_parsed;
          of_object = o.of_object;
          no_patterns = o.no_patterns;
        }),
        λ j.
            accepts-require c.field c.required s1 j
            ∙ rw (add_constraint_fields c.field c.type s j) (
                and_assoc (accepts s j) (typed_member V D c.type (member c.field j))
                  (not c.required || is_some (member c.field j))),
      )

  unfoldable pub all_satisfied : Json → List Constraint → Bool
  all_satisfied j [] = true
  all_satisfied j (c ∷ cs) = satisfies V D j c && all_satisfied j cs

  add_constraints_lem :
      {n : String} {ct : ContentType} (s : Schema V) (cs : List Constraint)
      → IsOpen n ct s
      → (s' : Schema V) × (add_constraints V s cs ≡ ok s')
        × IsOpen n ct s'
        × ((j : Json) → accepts s' j ≡ (accepts s j && all_satisfied j cs))
  unfolding add_constraints all_satisfied
  add_constraints_lem s [] o = (s, refl, o, λ j. sym (and-true (accepts s j)))
  add_constraints_lem s (c ∷ cs) o =
      let (s1, done1, o1, means1) = add_constraint_lem s c o in
      let (s2, done2, o2, means2) = add_constraints_lem s1 cs o1 in
      (
        s2,
        rw (done1) done2,
        o2,
        λ j.
            means2 j
            ∙ rw (means1 j) (and_assoc (accepts s j) (satisfies V D j c) (all_satisfied j cs)),
      )

  accepts_start :
      (n : String) (ct : ContentType) (j : Json)
      → accepts (object_schema V n ct) j ≡ has_type k_object j
  unfolding accepts object_schema make_schema
  accepts_start n ct j = and-true (has_type k_object j)

  -- Any calls of the `addConstraint` for a type, on a new schema of JSON objects, succeed and give a
  -- schema with the name and content type, for which valijson accepts exactly the objects in which
  -- the member of every call has the call's type, if it is there, and is there, if it is required.
  pub object_schema_lem :
      (n : String) (ct : ContentType) (cs : List Constraint)
      → (s : Schema V) × (add_constraints V (object_schema V n ct) cs ≡ ok s)
        × (s.name ≡ n)
        × (s.content_type ≡ ct)
        × ((j : Json) → validate (get_raw V s) j ≡ (has_type k_object j && all_satisfied j cs))
  unfolding object_schema make_schema
  object_schema_lem n ct cs =
      let start : IsOpen n ct (object_schema V n ct) = record {
        named = refl;
        content_typed = refl;
        not_parsed = refl;
        of_object = refl;
        no_patterns = refl;
      } in
      let (s, done, o, means) = add_constraints_lem (object_schema V n ct) cs start in
      (
        s,
        done,
        o.named,
        o.content_typed,
        λ j. validate-get_raw s j o ∙ means j ∙ rw (accepts_start n ct j),
      )
