-- ===== src/V1/Connector/Failure.antt =====
-- From `sendError` of one connector to the failure of another's association.
mod Tests
use Prim.Native.String.{String}
use text.Mathlib.Text.{◌==◌ as str_eq}
use text.Mathlib.TextEquality.{eq_iff}
use cpp_pcp_client.Base.{ℕ, ◌≡◌, refl, sym, Bool, true, false, List, [], ◌∷◌, some, none, ok}
use cpp_pcp_client.Validator.Errors as Documents
use cpp_pcp_client.Validator.Valijson.{Valijson, is_some}
use cpp_pcp_client.Validator.Registry.{find}
use cpp_pcp_client.ParsedChunks.{JsonContainer, ParsedChunks, with_json_data}
use cpp_pcp_client.JsonWriter.{string_value, JsonWriter, IsWriter, set_all}
use cpp_pcp_client.JsonWriter.Entries.{get_string-set_all, includes-set_all}
use cpp_pcp_client.Connector.Timings.{AssociationTimings}
use cpp_pcp_client.Connector.Connection.Sending.{binary_frame}
use cpp_pcp_client.Connector.Base.{Callback}
use cpp_pcp_client.Connector.Base
use cpp_pcp_client.V1.Serialization.{Bytes, Host}
use cpp_pcp_client.V1.Schemas.{error_msg_type}
use cpp_pcp_client.V1.Association.{
  SessionAssociation, error_message_callback, assert_data, fail, conclude, association_error,
}
use cpp_pcp_client.V1.Connector.{Connector, Stamp}
use cpp_pcp_client.V1.Connector.Sending.{send_error, send_json_unreported}
use cpp_pcp_client.V1.Connector.Dispatch.{
  Texts, readable, message_read, content_read, header, received, dispatch, run_callback, hook_first,
  hook_raises, calls_of, process_read, process_message,
}
use cpp_pcp_client.V1.Connector.Delivery.{
  IsExpected, content-of, send_json-encode, envelope-reads, sent_envelope, sent_bytes,
}
use cpp_pcp_client.V1.Connector.Delivery.Transmitted.{AreTransmissible, sent-encode, received-parse}

module _ (V : Valijson) (J : JsonContainer V) (W : JsonWriter V) (w : IsWriter V J W)
    (texts : Texts) (raises : ℕ → ParsedChunks V → Bool) where
  open V use {Json}
  open J use {includes, get_string, parse, empty}
  open W use {to_string}

  abbrev pub error_data : String → String → Json
  error_data id description =
      set_all V J W empty (("id", string_value id) ∷ ("description", string_value description) ∷ [])

  error_data-reads :
      (id description : String)
      → (get_string (error_data id description) "id" ≡ ok id)
        × (get_string (error_data id description) "description" ≡ ok description)
        × (includes (error_data id description) "id" ≡ true)
  error_data-reads id description =
      let entries = ("id", string_value id) ∷ ("description", string_value description) ∷ [] in
      let read = get_string-set_all V J W w entries in
      (
        read "id" id refl,
        read "description" description refl,
        includes-set_all V J W w entries "id" (string_value id) refl,
      )

  callback-fails :
      (p : ParsedChunks V) (s : SessionAssociation) (id sender description cause : String)
      → assert_data V J p ≡ ok tt
      → get_string p.envelope "id" ≡ ok id
      → get_string p.envelope "sender" ≡ ok sender
      → get_string p.data_json "description" ≡ ok description
      → includes p.data_json "id" ≡ true
      → get_string p.data_json "id" ≡ ok cause
      → str_eq cause "" ≡ false
      → str_eq cause s.request_id ≡ true
      → s.in_progress ≡ true
      → error_message_callback V J p s
        ≡ ok (record s { got_messaging_failure = true; error = description })
  unfolding error_message_callback fail
  callback-fails p s id sender description cause asserted named sent described has caused some_id
        same waits =
      rw
        (
          error_message_callback, asserted, named, sent, described, has, caused, some_id, same,
          waits,
        )
        refl

  -- A message that goes to the error callback, which changes the session.
  error-handled :
      (k : Host) (m : Bytes) (c : Connector V) (p : ParsedChunks V) (s : SessionAssociation)
      (id sender : String)
      → message_read V J texts raises k c.base.validator m ≡ readable p
      → get_string p.envelope "message_type" ≡ ok error_msg_type
      → get_string p.envelope "id" ≡ ok id
      → get_string p.envelope "sender" ≡ ok sender
      → find error_msg_type c.base.schema_callback_pairs ≡ some Callback.error_message_callback
      → error_message_callback V J p c.session_association ≡ ok s
      → hook_raises V J texts raises c.base.error_callback p ≡ false
      → process_message V J texts raises k m c ≡ record {
        session = s;
        calls = calls_of V J texts raises c.base.error_callback p;
        thrown = none;
      }
  unfolding process_message process_read received header dispatch run_callback hook_first
  error-handled k m c p s id sender is_read typed named sent registered changed quiet =
      let is_header : header V J p ≡ ok error_msg_type = rw (header, typed, named, sent) refl in
      let dispatched : dispatch V J texts raises error_msg_type p c c.session_association ≡ _ =
        rw (dispatch, registered, run_callback, changed, hook_first, quiet) refl in
      rw (is_read, process_read, received, is_header) dispatched

  conclude-fails :
      (now : ℕ) (s : SessionAssociation) (t : AssociationTimings)
      → s.got_messaging_failure ≡ true
      → (conclude now s t).1 ≡ association_error
  unfolding conclude
  conclude-fails now s t failed = rw failed refl

  module _ (stamp : Stamp) (targets : List String) (timeout : ℕ) (id description : String)
      (c : Base.Connector V) where
    abbrev pub error_envelope : Json
    error_envelope =
        sent_envelope V J W w texts raises stamp targets error_msg_type timeout false
          (error_data id description) c

    abbrev pub error_bytes : Bytes
    error_bytes =
        sent_bytes V J W w texts raises stamp targets error_msg_type timeout false
          (error_data id description) c

    -- `sendError` about the association request of another connector, which has been sent and is
    -- not answered yet, makes the other's `connect` fail with connection_association_error: the
    -- message reaches its error callback, which calls the client's, if there is one, and leaves the
    -- session with a failure and the description that was sent. The sender is connected and
    -- websocketpp reports no error; the hosts can hold the message; documents are read back from
    -- their text; the receiver's validator accepts envelope and data; the request's identifier is
    -- not empty; and the client's callback does not throw.
    pub send_error-fails :
        (sender receiver : Host) (d : Connector V) (now : ℕ)
        → let p = with_json_data V J error_envelope (error_data id description) [] 0 in
          is_some c.connection ≡ true
          → AreTransmissible sender receiver
              (to_string error_envelope)
              (to_string (error_data id description))
          → parse (to_string error_envelope) ≡ some error_envelope
          → parse (to_string (error_data id description)) ≡ some (error_data id description)
          → IsExpected V J d error_envelope (error_data id description) error_msg_type
          → find error_msg_type d.base.schema_callback_pairs ≡ some Callback.error_message_callback
          → hook_raises V J texts raises d.base.error_callback p ≡ false
          → d.session_association.in_progress ≡ true
          → d.session_association.request_id ≡ id
          → str_eq id "" ≡ false
          → let failed = record d.session_association {
            got_messaging_failure = true;
            error = description;
          } in
            (send_error V J W sender false stamp targets timeout id description c
              ≡ ok (stamp.uuid, binary_frame error_bytes))
            × (process_message V J texts raises receiver error_bytes d ≡ record {
              session = failed;
              calls = calls_of V J texts raises d.base.error_callback p;
              thrown = none;
            })
            × ((conclude now failed d.association_timings).1 ≡ association_error)
    unfolding send_error send_json_unreported message_read content_read with_json_data assert_data
    send_error-fails sender receiver d now connected t parsed_e parsed_d x registered quiet waits
          same some_id =
        let sent = error_data id description in
        let e = to_string error_envelope in
        let b = to_string sent in
        let s = d.session_association in
        let p = with_json_data V J error_envelope sent [] 0 in
        let (named, typed, uri) =
          envelope-reads V J W w texts raises targets error_msg_type timeout false stamp
            c.client_metadata.uri in
        let (caused, described, has) = error_data-reads id description in
        let content =
          content-of V J d e b error_envelope sent stamp.uuid error_msg_type x parsed_e parsed_d
            named typed in
        let is_read : message_read V J texts raises receiver d.base.validator error_bytes
            ≡ readable p =
          rw (message_read, received-parse sender receiver e b t, content) refl in
        let changed =
          callback-fails p s stamp.uuid c.client_metadata.uri description id refl named uri
            described has caused some_id ((eq_iff id s.request_id).1 (sym same)) waits in
        (
          send_json-encode V J W w texts raises sender stamp targets error_msg_type timeout false
              sent c connected (sent-encode sender receiver e b t),
          error-handled receiver error_bytes d p _ stamp.uuid c.client_metadata.uri is_read typed
              named uri registered changed quiet,
          conclude-fails now _ d.association_timings refl,
        )
