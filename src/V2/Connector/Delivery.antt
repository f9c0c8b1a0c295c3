-- ===== src/V2/Connector/Delivery.antt =====
-- From `send` of one connector of version 2 to the callback of another, and what becomes of an
-- envelope that is not valid.
use Prim.Native.String.{String}
use text.Mathlib.Text.{◌==◌ as str_eq}
use cpp_pcp_client.Base.{
  ℕ, ◌≡◌, refl, Bool, true, false, not, Bool-cases, inl, inr, [], ◌∷◌, none, some, if◌then◌else◌,
  ok, err,
}
use cpp_pcp_client.Validator.Errors.{Error}
use cpp_pcp_client.Validator.Valijson.{Valijson, is_some}
use cpp_pcp_client.Validator.Registry.{validate, find}
use cpp_pcp_client.ParsedChunks.{JsonContainer, ParsedChunks, with_json_data}
use cpp_pcp_client.JsonWriter.{string_value, document_value, JsonWriter, IsWriter}
use cpp_pcp_client.JsonWriter.Entries.{
  last_of, get_string-set_all, get_document-set_all, includes-set_all,
}
use cpp_pcp_client.Connector.Connection.Sending.{text_frame, send_text}
use cpp_pcp_client.Connector.Base.{
  Connector, user, callback_error, document_error, check_connection_initialization,
}
use cpp_pcp_client.V1.Serialization.{Bytes}
use cpp_pcp_client.V2.Schemas.{envelope_schema_name}
use cpp_pcp_client.V2.Message.{Message, of_transport, get_parsed_chunks}
use cpp_pcp_client.V2.Message.Reported.{get_parsed_chunks_data}
use cpp_pcp_client.V2.Connector.{envelope_entries, envelope_content, send_message, send}
use cpp_pcp_client.V2.Connector.Dispatch.{
  nothing_run, run_hook, run_callback, sender_of, header, dispatch, received, process_message,
}

module _ (V : Valijson) (J : JsonContainer V) (W : JsonWriter V) (w : IsWriter V J W)
    (raises : ℕ → ParsedChunks V → Bool) where
  open V use {Json}
  open J use {includes, get_string, get_document, parse}
  open W use {to_string}

  -- The last entry for a key, whether or not there is one for the reply behind it.
  entries-last :
      (msg_id target message_type : String) (data_json : Json) (in_reply_to uri : String)
      → (last_of "id" (envelope_entries V J W msg_id target message_type data_json in_reply_to uri)
          ≡ some (string_value msg_id))
        × (last_of "message_type"
              (envelope_entries V J W msg_id target message_type data_json in_reply_to uri)
            ≡ some (string_value message_type))
        × (last_of "sender"
              (envelope_entries V J W msg_id target message_type data_json in_reply_to uri)
            ≡ some (string_value uri))
        × (last_of "data"
              (envelope_entries V J W msg_id target message_type data_json in_reply_to uri)
            ≡ some (document_value data_json))
  unfolding envelope_entries
  entries-last msg_id target mt data_json in_reply_to uri =
      elim (Bool-cases (not (str_eq in_reply_to ""))) [
        | inl a_reply ↦ rw a_reply (refl, refl, refl, refl)
        | inr no_reply ↦ rw no_reply (refl, refl, refl, refl)
      ]

  -- A document that is read as a valid envelope with a type, an identifier, a sender and data.
  delivered :
      (msg_txt : Bytes) (envelope document : Json) (id sender message_type : String)
      (d : Connector V) (n : ℕ)
      → parse msg_txt ≡ some envelope
      → validate V d.validator envelope envelope_schema_name ≡ ok tt
      → validate V d.validator document message_type ≡ ok tt
      → find message_type d.schema_callback_pairs ≡ some (user n)
      → get_string envelope "id" ≡ ok id
      → get_string envelope "message_type" ≡ ok message_type
      → includes envelope "sender" ≡ true
      → get_string envelope "sender" ≡ ok sender
      → includes envelope "data" ≡ true
      → get_document envelope "data" ≡ ok document
      → process_message V J raises msg_txt d ≡ record {
        calls = (n, with_json_data V J envelope document [] 0) ∷ [];
        thrown =
            if raises n (with_json_data V J envelope document [] 0)
            then some callback_error
            else none;
      }
  unfolding process_message received of_transport with_json_data sender_of run_callback run_hook
  delivered msg_txt envelope document id sender mt d n parsed valid accepted registered named typed
        has_sender sent has_data held =
      let m : Message V J = record { envelope = envelope } in
      let chunks : get_parsed_chunks V J m d.validator
          ≡ ok (with_json_data V J envelope document [] 0) =
        rw accepted at
          (get_parsed_chunks_data V J m d.validator mt document valid has_data typed held) in
      let is_read : of_transport V J msg_txt ≡ ok m = rw (of_transport, parsed) refl in
      let is_header : header V J raises (with_json_data V J envelope document [] 0) ≡ ok mt =
        rw (header, typed, named, sender_of, has_sender, sent) refl in
      rw (process_message, is_read, chunks, received, is_header, dispatch, registered) refl

  module _ (msg_id target message_type : String) (data_json : Json) (in_reply_to : String)
      (c : Connector V) where
    abbrev pub sent_envelope : Json
    sent_envelope =
        envelope_content V J W msg_id target message_type data_json in_reply_to
          c.client_metadata.uri

    -- JSON data that one connector sends reach the callback that the client of another has
    -- registered for their type, in an envelope with the identifier that the sender returns and the
    -- sender's URI; no other callback runs, and nothing is thrown but what that one throws. The
    -- sender is connected and websocketpp reports no error; the document is read back from its text;
    -- and the receiver's validator accepts envelope and data.
    pub send-delivers :
        (d : Connector V) (n : ℕ)
        → is_some c.connection ≡ true
        → parse (to_string sent_envelope) ≡ some sent_envelope
        → validate V d.validator sent_envelope envelope_schema_name ≡ ok tt
        → validate V d.validator data_json message_type ≡ ok tt
        → find message_type d.schema_callback_pairs ≡ some (user n)
        → (send V J W false msg_id target message_type data_json in_reply_to c
            ≡ ok (msg_id, text_frame (to_string sent_envelope)))
          × (process_message V J raises (to_string sent_envelope) d ≡ record {
            calls = (n, with_json_data V J sent_envelope data_json [] 0) ∷ [];
            thrown =
                if raises n (with_json_data V J sent_envelope data_json [] 0)
                then some callback_error
                else none;
          })
          × (get_string sent_envelope "id" ≡ ok msg_id)
          × (get_string sent_envelope "sender" ≡ ok c.client_metadata.uri)
    unfolding send send_message envelope_content check_connection_initialization send_text
    send-delivers d n connected parsed valid accepted registered =
        let uri = c.client_metadata.uri in
        let es = envelope_entries V J W msg_id target message_type data_json in_reply_to uri in
        let (id_last, type_last, sender_last, data_last) =
          entries-last msg_id target message_type data_json in_reply_to uri in
        let id = get_string-set_all V J W w es "id" msg_id id_last in
        let typed = get_string-set_all V J W w es "message_type" message_type type_last in
        let sent = get_string-set_all V J W w es "sender" uri sender_last in
        let has_sender = includes-set_all V J W w es "sender" (string_value uri) sender_last in
        let has_data = includes-set_all V J W w es "data" (document_value data_json) data_last in
        let held = get_document-set_all V J W w es "data" data_json data_last in
        (
          rw (send, connected) refl,
          delivered (to_string sent_envelope) sent_envelope data_json msg_id uri message_type d n
              parsed valid accepted registered id typed has_sender sent has_data held,
          id,
          sent,
        )

module _ (V : Valijson) (J : JsonContainer V) (raises : ℕ → ParsedChunks V → Bool) where
  open V use {Json}
  open J use {parse}

  -- A JSON text that the envelope schema does not accept is not reported as an invalid envelope:
  -- its exception, be it one that the handlers of `processMessage` name, leaves `processMessage`,
  -- and no callback runs.
  pub invalid_envelope_thrown :
      (msg_txt : Bytes) (envelope : Json) (e : Error) (c : Connector V)
      → parse msg_txt ≡ some envelope
      → validate V c.validator envelope envelope_schema_name ≡ err e
      → process_message V J raises msg_txt c ≡ nothing_run V (some (document_error e))
  unfolding process_message received of_transport get_parsed_chunks
  invalid_envelope_thrown msg_txt envelope e c parsed invalid =
      let m : Message V J = record { envelope = envelope } in
      let is_read : of_transport V J msg_txt ≡ ok m = rw (of_transport, parsed) refl in
      let chunks : get_parsed_chunks V J m c.validator ≡ err e =
        rw (get_parsed_chunks, invalid) refl in
      rw (process_message, is_read, chunks, received) refl
