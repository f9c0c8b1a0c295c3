-- ===== src/V1/Connector/Dispatch.antt =====
-- `Connector::processMessage` and the callbacks of lib/src/connector/v1/connector.cc: which callbacks
-- of the client run, what happens to the session, and what is thrown, which goes to the handler of
-- the WebSocket event. A callback of the client does nothing to the connector but run or throw.
pub mod Refined
pub mod Contained
use Prim.Native.String.{String}
use text.Mathlib.Text.{◌==◌ as str_eq}
use cpp_pcp_client.Base.{
  ℕ, Bool, true, false, ◌&&◌, List, [], ◌∷◌, Option, none, some, if◌then◌else◌, ok, err, ◌>>=◌,
  ◌>>◌,
}
use cpp_pcp_client.Validator.Errors as Documents
use cpp_pcp_client.Validator.Valijson.{Valijson}
use cpp_pcp_client.Validator.Registry.{Validator, find}
use cpp_pcp_client.ParsedChunks.{JsonContainer, ParsedChunks}
use cpp_pcp_client.Connector.Base.{
  Thrown, document_error, message_error, callback_error, Callback, user,
}
use cpp_pcp_client.Connector.Base
use cpp_pcp_client.V1.Errors as Messages
use cpp_pcp_client.V1.Serialization.{Bytes, Host}
use cpp_pcp_client.V1.Parser.{parse_message}
use cpp_pcp_client.V1.Content.{get_parsed_chunks}
use cpp_pcp_client.V1.Association.{
  SessionAssociation, fail, associate_response_callback, error_message_callback,
  ttl_message_callback,
}
use cpp_pcp_client.V1.Connector.{Connector}

-- The texts that are made for an exception of the message and of its content.
pub record Texts : Type 0 where
  pub deserialization : Messages.Error → String
  pub content : Documents.Error → String

-- A fault is no exception.
abbrev pub is_message_error : Messages.Error → Bool
is_message_error (Messages.fault f) = false
is_message_error e = true

-- The handlers for the content.
abbrev pub is_content_error : Documents.Error → Bool
is_content_error (Documents.validation_error n) = true
is_content_error Documents.data_parse_error = true
is_content_error (Documents.schema_not_found_error n) = true
is_content_error e = false

module _ (V : Valijson) where
  -- The calls of the client's callbacks, by their numbers.
  abbrev pub Calls : Type 0
  Calls = List (ℕ × ParsedChunks V)

  pub record Handled : Type 0 where
    pub session : SessionAssociation
    pub calls : Calls
    pub thrown : Option Thrown

  -- A message that is reported to the session, one that is read, and one that throws.
  pub data Read : Type 0 where
    unreadable : String → Read
    readable : ParsedChunks V → Read
    escaped : Thrown → Read

  module _ (J : JsonContainer V) where
    open J use {get_string}

    -- What is read from the envelope before the dispatch.
    unfoldable pub header : ParsedChunks V → Documents.Outcome String
    header p = do
      message_type ← get_string p.envelope "message_type"
      id ← get_string p.envelope "id"
      sender ← get_string p.envelope "sender"
      ok message_type

  module _ (J : JsonContainer V) (texts : Texts) (raises : ℕ → ParsedChunks V → Bool) where
    open J use {get_string}

    unfoldable pub content_read : Documents.Outcome (ParsedChunks V) → Read
    content_read (ok p) = readable p
    content_read (err e) =
        if is_content_error e then unreadable (texts.content e) else escaped (document_error e)

    -- The two try blocks and their handlers.
    unfoldable pub message_read : Host → Validator V → Bytes → Read
    unfolding content_read
    message_read h v msg_txt = elim (parse_message h msg_txt) [
      | ok m ↦ content_read (get_parsed_chunks V J m v)
      | err e ↦
          if is_message_error e
          then unreadable (texts.deserialization e)
          else escaped (message_error e)
    ]

    -- A callback of the client, where one is set.
    abbrev pub calls_of : Option ℕ → ParsedChunks V → Calls
    calls_of none p = []
    calls_of (some n) p = (n, p) ∷ []

    abbrev pub hook_raises : Option ℕ → ParsedChunks V → Bool
    hook_raises none p = false
    hook_raises (some n) p = raises n p

    abbrev pub raised : Bool → Option Thrown
    raised b = if b then some callback_error else none

    -- The error and TTL callbacks run the client's before they change the session, so that it stays
    -- as it is if that one throws.
    unfoldable pub hook_first :
        Option ℕ
        → ParsedChunks V
        → SessionAssociation
        → Documents.Outcome SessionAssociation
        → Handled
    hook_first hook p s (err e) = record {
      session = s;
      calls = [];
      thrown = some (document_error e);
    }
    hook_first hook p s (ok t) = record {
      session = if hook_raises hook p then s else t;
      calls = calls_of hook p;
      thrown = raised (hook_raises hook p);
    }

    -- The response is not discarded.
    unfoldable pub is_answer : ParsedChunks V → SessionAssociation → Bool
    is_answer p s = elim (get_string p.data_json "id") [
      | ok request_id ↦ s.in_progress && str_eq request_id s.request_id
      | err e ↦ false
    ]

    -- The response callback runs the client's last, unless it discards the response.
    unfoldable pub hook_last :
        Option ℕ
        → ParsedChunks V
        → SessionAssociation
        → Documents.Outcome SessionAssociation
        → Handled
    unfolding is_answer
    hook_last hook p s (err e) = record {
      session = s;
      calls = [];
      thrown = some (document_error e);
    }
    hook_last hook p s (ok t) = record {
      session = t;
      calls = if is_answer p s then calls_of hook p else [];
      thrown = if is_answer p s then raised (hook_raises hook p) else none;
    }

    unfoldable pub run_callback :
        Callback → ParsedChunks V → Connector V → SessionAssociation → Handled
    unfolding hook_first hook_last
    run_callback Callback.associate_response_callback p c s =
        hook_last c.associate_response_callback p s (associate_response_callback V J p s)
    run_callback Callback.error_message_callback p c s =
        hook_first c.base.error_callback p s (error_message_callback V J p s)
    run_callback Callback.ttl_message_callback p c s =
        hook_first c.ttl_expired_callback p s (ttl_message_callback V J p s)
    run_callback (user n) p c s = record {
      session = s;
      calls = (n, p) ∷ [];
      thrown = raised (raises n p);
    }

    abbrev pub untouched : SessionAssociation → Option Thrown → Handled
    untouched s thrown = record { session = s; calls = []; thrown = thrown }

    unfoldable pub dispatch : String → ParsedChunks V → Connector V → SessionAssociation → Handled
    unfolding run_callback
    dispatch message_type p c s = elim (find message_type c.base.schema_callback_pairs) [
      | some callback ↦ run_callback callback p c s
      | none ↦ untouched s none
    ]

    unfoldable pub received : ParsedChunks V → Connector V → SessionAssociation → Handled
    unfolding header dispatch
    received p c s = elim (header J p) [
      | err e ↦ untouched s (some (document_error e))
      | ok message_type ↦ dispatch message_type p c s
    ]

    unfoldable pub process_read : Read → Connector V → SessionAssociation → Handled
    unfolding received
    process_read (unreadable why) c s = untouched (fail why s) none
    process_read (escaped e) c s = untouched s (some e)
    process_read (readable p) c s = received p c s

    -- On the connector's own session.
    unfoldable pub process_message : Host → Bytes → Connector V → Handled
    unfolding message_read process_read
    process_message h msg_txt c =
        process_read (message_read h c.base.validator msg_txt) c c.session_association
