-- ===== src/Connector/Base/Registered.antt =====
-- What the registration of callbacks guarantees: a callback is never without a schema, and never
-- replaced.
use Prim.Native.String.{String}
use mathlib.Core.Path.{subst}
use text.Mathlib.Text.{◌==◌ as str_eq}
use text.Mathlib.TextEquality.{eq_iff}
use cpp_pcp_client.Base.{
  ℕ, ◌≡◌, ◌≢◌, sym, Bool, true, false, List, ◌∷◌, some, Bool-cases, Result-cases, if◌then◌else◌,
  inl, inr, ok, err, bind-eq-ok, ok-injective, arith,
}
use cpp_pcp_client.Validator.Errors.{schema_redefinition_error}
use cpp_pcp_client.Validator.Valijson.{Valijson, is_some}
use cpp_pcp_client.Validator.Schema.{Schema}
use cpp_pcp_client.Validator.Registry.{Validator, find, includes_schema, register_schema}
use cpp_pcp_client.Validator.Registry.Laws.{register_schema_lem}
use cpp_pcp_client.Connector.Durations.{ℤ}
use cpp_pcp_client.Connector.Connection.Connect.{Round}
use cpp_pcp_client.Connector.ClientMetadata.{ClientMetadata}
use cpp_pcp_client.Connector.Base.{
  Callback, Connector, make_connector, insert_callback, register_message_callback,
  set_pcp_error_callback, connect, initialized_connection,
}

module _ (V : Valijson) where
  -- Every type of message with a callback has a schema.
  abbrev pub IsCovered : Validator V → List (String × Callback) → Type 0
  IsCovered v pairs = (n : String) → is_some (find n pairs) ≡ true → includes_schema V v n ≡ true

  register-adds :
      (v w : Validator V) (s : Schema V)
      → register_schema V v s ≡ ok w
      → (includes_schema V v s.name ≡ false) × (w ≡ (s.name, s) ∷ v)
  unfolding register_schema
  register-adds v w s e = (ground arith, ground arith)

  register-covers :
      (v w : Validator V) (pairs : List (String × Callback)) (s : Schema V)
      → IsCovered v pairs
      → register_schema V v s ≡ ok w
      → IsCovered w pairs
  unfolding includes_schema find
  register-covers v w pairs s covered e n has =
      let (_, added) = register-adds v w s e in rw added (ground (arith, covered n has))

  register-includes :
      (v w : Validator V) (s : Schema V)
      → register_schema V v s ≡ ok w
      → includes_schema V w s.name ≡ true
  unfolding includes_schema find
  register-includes v w s e =
      let (_, added) = register-adds v w s e in rw added (ground (arith, eq_iff s.name s.name))

  insert-covers :
      (v : Validator V) (name : String) (callback : Callback) (pairs : List (String × Callback))
      → IsCovered v pairs
      → includes_schema V v name ≡ true
      → IsCovered v (insert_callback name callback pairs)
  unfolding insert_callback find
  insert-covers v name callback pairs covered known n has =
      elim (Bool-cases (is_some (find name pairs))) [
        | inl old ↦ covered n (rw old at has)
        | inr new ↦ elim (Bool-cases (str_eq name n)) [
          | inl same ↦ rw (← (eq_iff name n).0 same) known
          | inr other ↦ covered n (rw (new, other) at has)
        ]
      ]

  -- A connector, by what is called on it.
  pub data Configured : Connector V → Type 0 where
    made : (uris : List String) (m : ClientMetadata) → Configured (make_connector V uris m)
    with_schema :
        {c : Connector V} (s : Schema V) (w : Validator V)
        → Configured c
        → register_schema V c.validator s ≡ ok w
        → Configured (record c { validator = w })
    with_callback :
        {c d : Connector V} (s : Schema V) (callback : Callback)
        → Configured c
        → register_message_callback V s callback c ≡ ok d
        → Configured d
    with_error_callback :
        {c : Connector V} (callback : ℕ)
        → Configured c
        → Configured (set_pcp_error_callback V callback c)
    connecting :
        {c : Connector V} (init_fails : Bool) (max : ℤ) (rounds : List Round)
        → Configured c
        → Configured (connect V init_fails max rounds c).0

  abbrev IsConsistent : Connector V → Type 0
  IsConsistent c = IsCovered c.validator c.schema_callback_pairs

  connect-keeps :
      (init_fails : Bool) (max : ℤ) (rounds : List Round) (c : Connector V)
      → IsConsistent c
      → IsConsistent (connect V init_fails max rounds c).0
  unfolding connect
  connect-keeps init_fails max rounds c h =
      elim (Result-cases (initialized_connection V init_fails c)) [
        | inl (connection, found) ↦ rw (connect, found) h
        | inr (e, failed) ↦ rw (connect, failed) h
      ]

  registered :
      (s : Schema V) (callback : Callback) (c d : Connector V)
      → register_message_callback V s callback c ≡ ok d
      → (w : Validator V) × (register_schema V c.validator s ≡ ok w)
        × (d ≡ record c {
          validator = w;
          schema_callback_pairs = insert_callback s.name callback c.schema_callback_pairs;
        })
  unfolding register_message_callback
  registered s callback c d e =
      let (w, registered, same) = bind-eq-ok (register_schema V c.validator s) _ e in
      (w, registered, sym (ok-injective same))

  Configured-IsConsistent : {c : Connector V} → Configured c → IsConsistent c
  unfolding make_connector set_pcp_error_callback find
  Configured-IsConsistent (made uris m) n has = cc
  Configured-IsConsistent (with_schema {c = c} s w r e) n has =
      register-covers c.validator w c.schema_callback_pairs s (Configured-IsConsistent r) e n has
  Configured-IsConsistent (with_callback {c = c} {d = d} s callback r e) n has =
      let (w, added, same) = registered s callback c d e in
      let covered =
        register-covers c.validator w c.schema_callback_pairs s (Configured-IsConsistent r) added in
      let known = register-includes c.validator w s added in
      subst IsConsistent (sym same)
        (insert-covers w s.name callback c.schema_callback_pairs covered known) n has
  Configured-IsConsistent (with_error_callback callback r) n has = Configured-IsConsistent r n has
  Configured-IsConsistent (connecting {c = c} init_fails max rounds r) n has =
      connect-keeps init_fails max rounds c (Configured-IsConsistent r) n has

  new-callback :
      (c : Connector V) (s : Schema V) (w : Validator V)
      → Configured c
      → register_schema V c.validator s ≡ ok w
      → is_some (find s.name c.schema_callback_pairs) ≡ false
  new-callback c s w r added = elim (Bool-cases (is_some (find s.name c.schema_callback_pairs))) [
    | inr new ↦ new
    | inl old ↦
        let known = Configured-IsConsistent r s.name old in
        let (unknown, _) = register-adds c.validator w s added in cc
  ]

  insert-finds :
      (name n : String) (callback : Callback) (pairs : List (String × Callback))
      → is_some (find name pairs) ≡ false
      → find n (insert_callback name callback pairs)
        ≡ (if str_eq name n then some callback else find n pairs)
  unfolding insert_callback find
  insert-finds name n callback pairs new = rw new

  -- For a connector that was made by its constructor and then used for registrations,
  -- `setPCPErrorCallback` and `connect` only, a registration that succeeds makes the given callback
  -- the one of the schema's type and leaves the callbacks of all other types as they are; a second
  -- registration for the type is refused; and every type with a callback has a schema.
  pub register-dispatches :
      (c d : Connector V) (s t : Schema V) (callback another : Callback) (other : String)
      → Configured c
      → register_message_callback V s callback c ≡ ok d
      → other ≢ s.name
      → t.name ≡ s.name
      → (find s.name d.schema_callback_pairs ≡ some callback)
        × (find other d.schema_callback_pairs ≡ find other c.schema_callback_pairs)
        × (register_message_callback V t another d ≡ err (schema_redefinition_error s.name))
        × IsCovered d.validator d.schema_callback_pairs
  unfolding register_message_callback
  register-dispatches c d s t callback another other r e differs same_name =
      let (w, added, same) = registered s callback c d e in
      let new = new-callback c s w r added in
      let found = insert-finds s.name s.name callback c.schema_callback_pairs new in
      let elsewhere = insert-finds s.name other callback c.schema_callback_pairs new in
      let known = register-includes c.validator w s added in
      (
        rw same (ground (arith, found, eq_iff s.name s.name)),
        rw same (ground (arith, elsewhere, eq_iff s.name other)),
        rw (same, register_schema_lem V w t, same_name, known),
        Configured-IsConsistent (with_callback s callback r e),
      )
