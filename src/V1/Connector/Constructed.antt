-- ===== src/V1/Connector/Constructed.antt =====
-- What the constructors of the connector register.
use Prim.Native.String.{String}
use cpp_pcp_client.Base.{ℕ, ◌≡◌, refl, ◌∙◌, false, List, [], ◌∷◌, none, ok, arith}
use cpp_pcp_client.Validator.Valijson.{Valijson, Documented, is_some}
use cpp_pcp_client.Validator.Schema.{
  Schema, SchemaOutcome, json, Constraint, add_constraints, object_schema,
}
use cpp_pcp_client.Validator.Schema.Meaning.{object_schema_lem}
use cpp_pcp_client.Validator.Registry.{Validator, find, includes_schema, register_schema}
use cpp_pcp_client.Validator.Registry.Laws.{register_schema_lem}
use cpp_pcp_client.Connector.ClientMetadata.{ClientMetadata}
use cpp_pcp_client.Connector.Base.{
  Thrown, document_error, thrown_as, Callback, associate_response_callback, error_message_callback,
  ttl_message_callback, insert_callback, register_message_callback, make_connector,
}
use cpp_pcp_client.Connector.Base
use cpp_pcp_client.V1.Schemas.{
  envelope_schema, debug_schema, debug_item_schema, associate_response_schema, error_message_schema,
  ttl_expired_schema, envelope_schema_name, debug_schema_name, debug_item_schema_name,
  associate_resp_type, error_msg_type, ttl_expired_type, envelope_schema_fields,
  debug_schema_fields, debug_item_schema_fields, associate_response_schema_fields,
  error_message_schema_fields, ttl_expired_schema_fields,
}
use cpp_pcp_client.V1.Connector.{
  Connector, with_schema, with_callback, register_protocol, of_metadata, new_session,
  new_association_timings,
}

abbrev pub names {ℓ} : {A : Type ℓ} → List (String × A) → List String
names [] = []
names ((n, a) ∷ rest) = n ∷ names rest

abbrev pub protocol_callbacks : List (String × Callback)
protocol_callbacks =
    (ttl_expired_type, ttl_message_callback)
    ∷ (error_msg_type, error_message_callback)
    ∷ (associate_resp_type, associate_response_callback)
    ∷ []

insert-new :
    (m n : String) (callback : Callback) (pairs : List (String × Callback))
    → m ≡ n
    → is_some (find n pairs) ≡ false
    → insert_callback m callback pairs ≡ (n, callback) ∷ pairs
unfolding insert_callback
insert-new m n callback pairs same free = rw (same, free) refl

module _ (V : Valijson) where
  added :
      (v : Validator V) (s : Schema V) (n : String)
      → s.name ≡ n
      → includes_schema V v n ≡ false
      → register_schema V v s ≡ ok ((n, s) ∷ v)
  added v s n named new = register_schema_lem V v s ∙ ground (arith, named, new)

  with_schema-made :
      (made : SchemaOutcome (Schema V)) (s : Schema V) (n : String) (c : Base.Connector V)
      → made ≡ ok s
      → s.name ≡ n
      → includes_schema V c.validator n ≡ false
      → with_schema V made c ≡ ok (record c { validator = (n, s) ∷ c.validator })
  unfolding with_schema
  with_schema-made made s n c is_made named new = rw (is_made, added c.validator s n named new) refl

  with_callback-made :
      (made : SchemaOutcome (Schema V)) (s : Schema V) (n : String) (callback : Callback)
      (c : Base.Connector V)
      → made ≡ ok s
      → s.name ≡ n
      → includes_schema V c.validator n ≡ false
      → is_some (find n c.schema_callback_pairs) ≡ false
      → with_callback V made callback c
        ≡ ok (record c {
          validator = (n, s) ∷ c.validator;
          schema_callback_pairs = (n, callback) ∷ c.schema_callback_pairs;
        })
  unfolding with_callback register_message_callback
  with_callback-made made s n callback c is_made named new free =
      rw
        (
          is_made,
          added c.validator s n named new,
          insert-new s.name n callback c.schema_callback_pairs named free,
        )
        refl

  abbrev registered : Base.Connector V → Validator V → List (String × Callback) → Base.Connector V
  registered c schemas callbacks = record c {
    validator = schemas;
    schema_callback_pairs = callbacks;
  }

  module _ (D : Documented V) where
    -- One step for each schema of the protocol, with its callback or without.
    schema-step :
        (n : String) (cs : List Constraint) (c : Base.Connector V)
        → includes_schema V c.validator n ≡ false
        → (s : Schema V) × (with_schema V (add_constraints V (object_schema V n json) cs) c
            ≡ ok (registered c ((n, s) ∷ c.validator) c.schema_callback_pairs))
    schema-step n cs c new =
        let (s, made, named, _, _) = object_schema_lem V D n json cs in
        (s, with_schema-made (add_constraints V (object_schema V n json) cs) s n c made named new)

    callback-step :
        (n : String) (cs : List Constraint) (callback : Callback) (c : Base.Connector V)
        → includes_schema V c.validator n ≡ false
        → is_some (find n c.schema_callback_pairs) ≡ false
        → (s : Schema V) × (with_callback V
              (add_constraints V (object_schema V n json) cs)
              callback
              c
            ≡ ok (registered c ((n, s) ∷ c.validator) ((n, callback) ∷ c.schema_callback_pairs)))
    callback-step n cs callback c new free =
        let (s, made, named, _, _) = object_schema_lem V D n json cs in
        let schema = add_constraints V (object_schema V n json) cs in
        (s, with_callback-made schema s n callback c made named new free)

    -- The constructors throw nothing once the metadata are made: the connector has the six schemas
    -- of the protocol, with callbacks for the responses, the errors and the expired messages and for
    -- no other type, no connection, and a session that is not in progress.
    pub of_metadata-registers :
        (uris : List String) (m : ClientMetadata) (timeout : ℕ) (other : String)
        → (c : Connector V) × (of_metadata V uris m timeout ≡ ok c)
          × (names c.base.validator
              ≡ ttl_expired_type ∷ error_msg_type ∷ associate_resp_type ∷ debug_item_schema_name
                ∷ debug_schema_name ∷ envelope_schema_name ∷ [])
          × (find other c.base.schema_callback_pairs ≡ find other protocol_callbacks)
          × (c.base.connection ≡ none)
          × (c.session_association.in_progress ≡ false)
    unfolding of_metadata register_protocol make_connector find includes_schema envelope_schema
        debug_schema debug_item_schema associate_response_schema error_message_schema
        ttl_expired_schema
    of_metadata-registers uris m timeout other =
        let c0 = make_connector V uris m in
        let (s1, r1) = schema-step envelope_schema_name envelope_schema_fields c0 refl in
        let c1 = registered c0 ((envelope_schema_name, s1) ∷ []) [] in
        let (s2, r2) = schema-step debug_schema_name debug_schema_fields c1 refl in
        let c2 = registered c0 ((debug_schema_name, s2) ∷ c1.validator) [] in
        let (s3, r3) = schema-step debug_item_schema_name debug_item_schema_fields c2 refl in
        let c3 = registered c0 ((debug_item_schema_name, s3) ∷ c2.validator) [] in
        let (s4, r4) =
          callback-step associate_resp_type associate_response_schema_fields
            associate_response_callback c3 refl refl in
        let c4 =
          registered c0 ((associate_resp_type, s4) ∷ c3.validator)
            ((associate_resp_type, associate_response_callback) ∷ []) in
        let (s5, r5) =
          callback-step error_msg_type error_message_schema_fields error_message_callback c4 refl
            refl in
        let c5 =
          registered c0 ((error_msg_type, s5) ∷ c4.validator)
            ((error_msg_type, error_message_callback) ∷ c4.schema_callback_pairs) in
        let (s6, r6) =
          callback-step ttl_expired_type ttl_expired_schema_fields ttl_message_callback c5 refl
            refl in
        let c6 = registered c0 ((ttl_expired_type, s6) ∷ c5.validator) protocol_callbacks in
        (
          record {
            base = c6;
            associate_response_callback = none;
            ttl_expired_callback = none;
            session_association = new_session;
            association_timeout_s = timeout;
            association_timings = new_association_timings;
          },
          rw (of_metadata, register_protocol, r1, r2, r3, r4, r5, r6) refl,
          refl,
          refl,
          refl,
          refl,
        )
