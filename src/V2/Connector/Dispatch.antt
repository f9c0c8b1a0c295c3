-- ===== src/V2/Connector/Dispatch.antt =====
-- `Connector::processMessage` and `Connector::errorMessageCallback` of
-- lib/src/connector/v2/connector.cc: which callbacks of the client run, and what is thrown, which
-- goes to the handler of the WebSocket event.
use Prim.Native.String.{String}
use cpp_pcp_client.Base.{
  ℕ, Bool, true, false, not, ◌&&◌, List, [], ◌∷◌, Option, none, some, if◌then◌else◌, ok, err, ◌>>=◌,
  ◌>>◌, guard,
}
use cpp_pcp_client.Validator.Errors.{
  Error, data_parse_error, validation_error, schema_not_found_error, assertion_failed, Outcome,
}
use cpp_pcp_client.Validator.Valijson.{Valijson}
use cpp_pcp_client.Validator.Registry.{find}
use cpp_pcp_client.ParsedChunks.{JsonContainer, ParsedChunks}
use cpp_pcp_client.Connector.Base.{
  Thrown, document_error, callback_error, Callback, user, Connector, my_broker_uri,
}
use cpp_pcp_client.V1.Serialization.{Bytes}
use cpp_pcp_client.V1.Association.{is_json}
use cpp_pcp_client.V2.Message.{of_transport, get_parsed_chunks}

-- The handlers of `processMessage`.
abbrev pub is_caught : Error → Bool
is_caught data_parse_error = true
is_caught (validation_error n) = true
is_caught (schema_not_found_error n) = true
is_caught e = false

module _ (V : Valijson) where
  -- The calls of the client's callbacks, by their numbers.
  pub record Handled : Type 0 where
    pub calls : List (ℕ × ParsedChunks V)
    pub thrown : Option Thrown

  abbrev pub nothing_run : Option Thrown → Handled
  nothing_run thrown = record { calls = []; thrown = thrown }

  -- A callback of the client, where one is set.
  unfoldable pub run_hook : (ℕ → ParsedChunks V → Bool) → Option ℕ → ParsedChunks V → Handled
  run_hook raises none p = nothing_run none
  run_hook raises (some n) p = record {
    calls = (n, p) ∷ [];
    thrown = if raises n p then some callback_error else none;
  }

  module _ (J : JsonContainer V) (raises : ℕ → ParsedChunks V → Bool) where
    open V use {Json}
    open J use {includes, get_string, get_own_string}

    unfoldable pub sender_of : Json → Outcome String
    sender_of envelope =
        if includes envelope "sender" then get_string envelope "sender" else ok my_broker_uri

    unfoldable pub description_of : ParsedChunks V → Outcome String
    description_of p =
        if p.has_data && not p.invalid_data
        then (guard (is_json p.data_type) assertion_failed >> get_own_string p.data_json)
        else ok ""

    -- What `errorMessageCallback` reads before it runs the client's callback.
    unfoldable pub error_read : ParsedChunks V → Outcome (Unit {0})
    unfolding sender_of description_of
    error_read p = do
      error_id ← get_string p.envelope "id"
      sender_uri ← sender_of p.envelope
      description ← description_of p
      cause_id ←
          if includes p.envelope "in_reply_to" then get_string p.envelope "in_reply_to" else ok ""
      ok tt

    unfoldable pub run_error_callback : ParsedChunks V → Connector V → Handled
    unfolding error_read run_hook
    run_error_callback p c = elim (error_read p) [
      | err e ↦ nothing_run (some (document_error e))
      | ok _ ↦ run_hook raises c.error_callback p
    ]

    -- The connector registers no callbacks for the other two kinds.
    unfoldable pub run_callback : Callback → ParsedChunks V → Connector V → Handled
    unfolding run_error_callback run_hook
    run_callback Callback.error_message_callback p c = run_error_callback p c
    run_callback (user n) p c = run_hook raises (some n) p
    run_callback _ p c = nothing_run none

    -- What is read from the envelope before the dispatch.
    unfoldable pub header : ParsedChunks V → Outcome String
    unfolding sender_of
    header p = do
      message_type ← get_string p.envelope "message_type"
      id ← get_string p.envelope "id"
      sender ← sender_of p.envelope
      ok message_type

    unfoldable pub dispatch : String → ParsedChunks V → Connector V → Handled
    unfolding run_callback
    dispatch message_type p c = elim (find message_type c.schema_callback_pairs) [
      | some callback ↦ run_callback callback p c
      | none ↦ nothing_run none
    ]

    unfoldable pub received : Outcome (ParsedChunks V) → Connector V → Handled
    unfolding header dispatch
    received (err e) c = nothing_run (some (document_error e))
    received (ok p) c = elim (header p) [
      | err e ↦ nothing_run (some (document_error e))
      | ok message_type ↦ dispatch message_type p c
    ]

    -- The try block is around the constructor of the message alone.
    unfoldable pub process_message : Bytes → Connector V → Handled
    unfolding received
    process_message msg_txt c = elim (of_transport V J msg_txt) [
      | err e ↦ nothing_run (if is_caught e then none else some (document_error e))
      | ok m ↦ received (get_parsed_chunks V J m c.validator) c
    ]
