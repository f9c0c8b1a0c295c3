-- ===== src/V1/Connector/Dispatch/Refined.antt =====
-- `processMessage` (lib/src/connector/v1/connector.cc) beside the association of V1/Association,
-- by the kind of the message.
use Prim.Native.String.{String}
use cpp_pcp_client.Base.{
  ℕ, ◌≡◌, refl, Bool, Option, none, some, Option-cases, Result-cases, if◌then◌else◌, inl, inr, ok,
  err, arith,
}
use cpp_pcp_client.Validator.Errors as Documents
use cpp_pcp_client.Validator.Valijson.{Valijson}
use cpp_pcp_client.Validator.Registry.{find}
use cpp_pcp_client.ParsedChunks.{JsonContainer, ParsedChunks}
use cpp_pcp_client.Connector.Base.{Callback, user}
use cpp_pcp_client.V1.Association.{
  SessionAssociation, fail, associate_response_callback, error_message_callback,
  ttl_message_callback, Incoming, response, pcp_error, ttl_expired, unrelated, or_same,
}
use cpp_pcp_client.V1.Association
use cpp_pcp_client.V1.Connector.{Connector}
use cpp_pcp_client.V1.Connector.Dispatch.{
  Texts, Read, unreadable, readable, escaped, hook_raises, hook_first, hook_last, run_callback,
  dispatch, header, received, process_read,
}

module _ (V : Valijson) (J : JsonContainer V) (texts : Texts)
    (raises : ℕ → ParsedChunks V → Bool) where
  -- The kind of a message, by the callback for its type. An error or an expired message whose
  -- callback of the client throws counts for nothing.
  unfoldable pub kind : Callback → ParsedChunks V → Connector V → Incoming V J
  kind Callback.associate_response_callback p c = response p
  kind Callback.error_message_callback p c =
      if hook_raises V J texts raises c.base.error_callback p then unrelated else pcp_error p
  kind Callback.ttl_message_callback p c =
      if hook_raises V J texts raises c.ttl_expired_callback p then unrelated else ttl_expired p
  kind (user n) p c = unrelated

  unfoldable pub kind_of_type : String → ParsedChunks V → Connector V → Incoming V J
  unfolding kind
  kind_of_type message_type p c = elim (find message_type c.base.schema_callback_pairs) [
    | some callback ↦ kind callback p c
    | none ↦ unrelated
  ]

  unfoldable pub classify : Read V → Connector V → Incoming V J
  unfolding kind_of_type
  classify (unreadable why) c = Association.unreadable why
  classify (escaped e) c = unrelated
  classify (readable p) c = elim (header V J p) [
    | err e ↦ unrelated
    | ok message_type ↦ kind_of_type message_type p c
  ]

  hook_first_lem :
      (hook : Option ℕ) (p : ParsedChunks V) (s : SessionAssociation)
      (o : Documents.Outcome SessionAssociation)
      → (hook_first V J texts raises hook p s o).session
        ≡ (if hook_raises V J texts raises hook p then s else or_same V J s o)
  unfolding hook_first
  hook_first_lem hook p s (ok t) = refl
  hook_first_lem hook p s (err e) = ground arith

  hook_last_lem :
      (hook : Option ℕ) (p : ParsedChunks V) (s : SessionAssociation)
      (o : Documents.Outcome SessionAssociation)
      → (hook_last V J texts raises hook p s o).session ≡ or_same V J s o
  unfolding hook_last
  hook_last_lem hook p s (ok t) = refl
  hook_last_lem hook p s (err e) = refl

  run_callback_lem :
      (callback : Callback) (p : ParsedChunks V) (c : Connector V) (s : SessionAssociation)
      → (run_callback V J texts raises callback p c s).session
        ≡ Association.process_message V J (kind callback p c) s
  unfolding run_callback kind Association.process_message
  run_callback_lem Callback.associate_response_callback p c s =
      hook_last_lem c.associate_response_callback p s (associate_response_callback V J p s)
  run_callback_lem Callback.error_message_callback p c s =
      ground (arith, hook_first_lem c.base.error_callback p s (error_message_callback V J p s))
  run_callback_lem Callback.ttl_message_callback p c s =
      ground (arith, hook_first_lem c.ttl_expired_callback p s (ttl_message_callback V J p s))
  run_callback_lem (user n) p c s = refl

  dispatch_lem :
      (message_type : String) (p : ParsedChunks V) (c : Connector V) (s : SessionAssociation)
      → (dispatch V J texts raises message_type p c s).session
        ≡ Association.process_message V J (kind_of_type message_type p c) s
  unfolding dispatch kind_of_type Association.process_message
  dispatch_lem message_type p c s =
      elim (Option-cases (find message_type c.base.schema_callback_pairs)) [
        | inl missing ↦ rw (dispatch, kind_of_type, missing) refl
        | inr (callback, found) ↦
            rw (dispatch, kind_of_type, found) (run_callback_lem callback p c s)
      ]

  -- The same for a message that is read already.
  pub process_read_lem :
      (r : Read V) (c : Connector V) (s : SessionAssociation)
      → (process_read V J texts raises r c s).session
        ≡ Association.process_message V J (classify r c) s
  unfolding process_read received dispatch classify Association.process_message
  process_read_lem (unreadable why) c s = refl
  process_read_lem (escaped e) c s = refl
  process_read_lem (readable p) c s = elim (Result-cases (header V J p)) [
    | inr (e, bad) ↦ rw (process_read, received, classify, bad) refl
    | inl (message_type, good) ↦
        rw (process_read, received, classify, good) (dispatch_lem message_type p c s)
  ]
