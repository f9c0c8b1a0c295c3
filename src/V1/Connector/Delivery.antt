-- ===== src/V1/Connector/Delivery.antt =====
-- From `send` of one connector to the callback of another.
pub mod Transmitted
use Prim.Native.String.{String}
use cpp_pcp_client.Base.{ℕ, ◌≡◌, refl, Bool, true, false, List, [], ◌∷◌, some, ok}
use cpp_pcp_client.Validator.Valijson.{Valijson, is_some}
use cpp_pcp_client.Validator.Schema.{json}
use cpp_pcp_client.Validator.Registry.{validate, get_schema_content_type, find}
use cpp_pcp_client.ParsedChunks.{JsonContainer, ParsedChunks, with_json_data}
use cpp_pcp_client.JsonWriter.{JsonWriter, IsWriter}
use cpp_pcp_client.JsonWriter.Entries.{get_string-set_all}
use cpp_pcp_client.Connector.Connection.Sending.{binary_frame, send_binary}
use cpp_pcp_client.Connector.Base.{user, check_connection_initialization}
use cpp_pcp_client.Connector.Base
use cpp_pcp_client.V1.Serialization.{Bytes, Host}
use cpp_pcp_client.V1.Chunks.{make_chunk, envelope}
use cpp_pcp_client.V1.Message.{get_serialized, has_data}
use cpp_pcp_client.V1.Message.Encode.{encode}
use cpp_pcp_client.V1.Content.{
  get_parsed_chunks, envelope_schema_name, parse_json, data_content, with_data, parse_data,
  parse_debug_chunks,
}
use cpp_pcp_client.V1.Connector.{Connector, Stamp}
use cpp_pcp_client.V1.Connector.Sending.{
  send, envelope_content, envelope_entries, create_envelope, add_debug_chunks, send_message,
  send_json,
}
use cpp_pcp_client.V1.Connector.Dispatch.{
  Texts, readable, raised, message_read, content_read, header, received, dispatch, run_callback,
  process_read, process_message,
}
use cpp_pcp_client.V1.Connector.Delivery.Transmitted.{
  message_of_texts, of_data-make, AreTransmissible, sent-encode, received-parse,
}

module _ (V : Valijson) (J : JsonContainer V) where
  open V use {Json}
  open J use {get_string, parse}

  -- A message that the receiver's validator accepts.
  pub record IsExpected (c : Connector V) (envelope document : Json) (message_type : String)
      : Type 0 where
    pub envelope_valid : validate V c.base.validator envelope envelope_schema_name ≡ ok tt
    pub type_known : get_schema_content_type V c.base.validator message_type ≡ ok json
    pub document_valid : validate V c.base.validator document message_type ≡ ok tt

  pub content-of :
      (c : Connector V) (e d : Bytes) (env document : Json) (id message_type : String)
      → IsExpected c env document message_type
      → parse e ≡ some env
      → parse d ≡ some document
      → get_string env "id" ≡ ok id
      → get_string env "message_type" ≡ ok message_type
      → get_parsed_chunks V J (message_of_texts e d) c.base.validator
        ≡ ok (with_json_data V J env document [] 0)
  unfolding get_parsed_chunks parse_debug_chunks has_data data_content with_data parse_data
      make_chunk
  content-of c e d env document id mt x parsed_e parsed_d named typed =
      let pe : parse_json V J e ≡ ok env = rw (parse_json, parsed_e) refl in
      let pd : parse_json V J d ≡ ok document = rw (parse_json, parsed_d) refl in
      rw
        (
          get_parsed_chunks, pe, x.envelope_valid, named, typed, x.type_known, parse_data, pd,
          x.document_valid,
        )
        refl

module _ (V : Valijson) (J : JsonContainer V) (W : JsonWriter V) (w : IsWriter V J W)
    (texts : Texts) (raises : ℕ → ParsedChunks V → Bool) where
  open V use {Json}
  open J use {get_string, parse}
  open W use {to_string}

  pub send_json-encode :
      (h : Host) (stamp : Stamp) (targets : List String) (message_type : String) (timeout : ℕ)
      (report : Bool) (data_json : Json) (c : Base.Connector V)
      → is_some c.connection ≡ true
      → get_serialized h (
          message_of_texts
            (to_string (
              envelope_content V J W targets message_type timeout report stamp
                c.client_metadata.uri))
            (to_string data_json))
        ≡ ok (
            encode (
              message_of_texts
                (to_string (
                  envelope_content V J W targets message_type timeout report stamp
                    c.client_metadata.uri))
                (to_string data_json)))
      → send_json V J W h false stamp targets message_type timeout report data_json [] c
        ≡ ok (
          stamp.uuid,
          binary_frame (
              encode (
                message_of_texts
                  (to_string (
                    envelope_content V J W targets message_type timeout report stamp
                      c.client_metadata.uri))
                  (to_string data_json))),
        )
  unfolding send_json send_message create_envelope add_debug_chunks send
      check_connection_initialization send_binary
  send_json-encode h stamp targets mt timeout report data_json c connected serialized =
      rw (send_json, of_data-make _ _, connected, serialized) refl

  -- The calls of a callback of the client for a message that is read.
  handled-by :
      (k : Host) (m : Bytes) (c : Connector V) (p : ParsedChunks V) (n : ℕ)
      (id sender message_type : String)
      → message_read V J texts raises k c.base.validator m ≡ readable p
      → get_string p.envelope "message_type" ≡ ok message_type
      → get_string p.envelope "id" ≡ ok id
      → get_string p.envelope "sender" ≡ ok sender
      → find message_type c.base.schema_callback_pairs ≡ some (user n)
      → process_message V J texts raises k m c ≡ record {
        session = c.session_association;
        calls = (n, p) ∷ [];
        thrown = raised V J texts raises (raises n p);
      }
  unfolding process_message process_read received header dispatch run_callback
  handled-by k m c p n id sender mt is_read typed named sent registered =
      let is_header : header V J p ≡ ok mt = rw (header, typed, named, sent) refl in
      let dispatched : dispatch V J texts raises mt p c c.session_association ≡ _ =
        rw (dispatch, registered) refl in
      rw (is_read, process_read, received, is_header) dispatched

  pub envelope-reads :
      (targets : List String) (message_type : String) (timeout : ℕ) (report : Bool) (stamp : Stamp)
      (uri : String)
      → (get_string (envelope_content V J W targets message_type timeout report stamp uri) "id"
          ≡ ok stamp.uuid)
        × (get_string
              (envelope_content V J W targets message_type timeout report stamp uri)
              "message_type"
            ≡ ok message_type)
        × (get_string
              (envelope_content V J W targets message_type timeout report stamp uri)
              "sender"
            ≡ ok uri)
  unfolding envelope_content envelope_entries
  envelope-reads targets mt timeout true stamp uri =
      let read =
        get_string-set_all V J W w (envelope_entries V J W targets mt timeout true stamp uri) in
      (read "id" stamp.uuid refl, read "message_type" mt refl, read "sender" uri refl)
  envelope-reads targets mt timeout false stamp uri =
      let read =
        get_string-set_all V J W w (envelope_entries V J W targets mt timeout false stamp uri) in
      (read "id" stamp.uuid refl, read "message_type" mt refl, read "sender" uri refl)

  module _ (stamp : Stamp) (targets : List String) (message_type : String) (timeout : ℕ)
      (report : Bool) (data_json : Json) (c : Base.Connector V) where
    abbrev pub sent_envelope : Json
    sent_envelope =
        envelope_content V J W targets message_type timeout report stamp c.client_metadata.uri

    abbrev pub sent_bytes : Bytes
    sent_bytes = encode (message_of_texts (to_string sent_envelope) (to_string data_json))

    -- JSON data that one connector sends without debug data reach the callback that the client of
    -- another has registered for their type, with the content that was sent and an envelope with
    -- the identifier that the sender returns, the type and the sender's URI; no other callback
    -- runs, and the session of the receiver is left alone. The sender is connected and websocketpp
    -- reports no error; the hosts can hold the message; documents are read back from their text;
    -- and the receiver's validator accepts envelope and data.
    pub send_json-delivers :
        (sender receiver : Host) (d : Connector V) (n : ℕ)
        → is_some c.connection ≡ true
        → AreTransmissible sender receiver (to_string sent_envelope) (to_string data_json)
        → parse (to_string sent_envelope) ≡ some sent_envelope
        → parse (to_string data_json) ≡ some data_json
        → IsExpected V J d sent_envelope data_json message_type
        → find message_type d.base.schema_callback_pairs ≡ some (user n)
        → (send_json V J W sender false stamp targets message_type timeout report data_json [] c
            ≡ ok (stamp.uuid, binary_frame sent_bytes))
          × (process_message V J texts raises receiver sent_bytes d ≡ record {
            session = d.session_association;
            calls = (n, with_json_data V J sent_envelope data_json [] 0) ∷ [];
            thrown =
                raised V J texts raises
                  (raises n (with_json_data V J sent_envelope data_json [] 0));
          })
          × (get_string sent_envelope "id" ≡ ok stamp.uuid)
          × (get_string sent_envelope "message_type" ≡ ok message_type)
          × (get_string sent_envelope "sender" ≡ ok c.client_metadata.uri)
    unfolding message_read content_read with_json_data
    send_json-delivers sender receiver d n connected t parsed_e parsed_d x registered =
        let e = to_string sent_envelope in
        let b = to_string data_json in
        let (id, typed, uri) =
          envelope-reads targets message_type timeout report stamp c.client_metadata.uri in
        let content =
          content-of V J d e b sent_envelope data_json stamp.uuid message_type x parsed_e parsed_d
            id typed in
        let is_read : message_read V J texts raises receiver d.base.validator sent_bytes
            ≡ readable (with_json_data V J sent_envelope data_json [] 0) =
          rw (message_read, received-parse sender receiver e b t, content) refl in
        (
          send_json-encode sender stamp targets message_type timeout report data_json c connected
              (sent-encode sender receiver e b t),
          handled-by receiver sent_bytes d (with_json_data V J sent_envelope data_json [] 0) n
              stamp.uuid c.client_metadata.uri message_type is_read typed id uri registered,
          id,
          typed,
          uri,
        )
