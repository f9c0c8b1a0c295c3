-- ===== src/V1/Connector/Delivery/Transmitted.antt =====
-- A message with an envelope and data, from the serialization on one host to the parser of another.
use cpp_pcp_client.Base.{
  ℕ, ◌%◌, ◌^◌, ◌≤◌, ◌<◌, ◌≡◌, refl, inr, [], append-nil, some, length, ok, eq→==, arith,
}
use cpp_pcp_client.V1.Serialization.{Bytes, Host, size_mod}
use cpp_pcp_client.V1.Serialization.Wire.{IsHost}
use cpp_pcp_client.V1.Chunks.{
  make_chunk, envelope, data_type, type_bits, names, ChunkName, envelope_name, data_name,
}
use cpp_pcp_client.V1.Message.{Message, of_data, validate_chunk, get_serialized}
use cpp_pcp_client.V1.Message.Encode.{encode, optional_chunks, get_serialized-encode}
use cpp_pcp_client.V1.Parser.{parse_message}
use cpp_pcp_client.V1.Parser.Format.{max_envelope_size}
use cpp_pcp_client.V1.Parser.Safety.{IsWellFormed}
use cpp_pcp_client.V1.Parser.RoundTrip.{parse_message-encode, HasSizes-of}

-- The message of an envelope and data.
abbrev pub message_of_texts : Bytes → Bytes → Message
message_of_texts envelope_text data_text = record {
  version = 1;
  envelope_chunk = make_chunk envelope envelope_text;
  data_chunk = make_chunk data_type data_text;
  debug_chunks = [];
}

chunk-accepted :
    (t : ℕ) (s : Bytes) (n : ChunkName)
    → names (type_bits t) ≡ some n
    → validate_chunk (make_chunk t s) ≡ ok tt
unfolding validate_chunk make_chunk
chunk-accepted t s n known =
    rw (validate_chunk, known, eq→== (length s % 2 ^ 32) (length s % 2 ^ 32) refl) refl

pub of_data-make :
    (e d : Bytes)
    → of_data (make_chunk envelope e) (make_chunk data_type d) ≡ ok (message_of_texts e d)
unfolding of_data type_bits names
of_data-make e d =
    rw (chunk-accepted envelope e envelope_name refl, chunk-accepted data_type d data_name refl)
      refl

message-IsWellFormed :
    (e d : Bytes)
    → length e ≤ max_envelope_size
    → length d < 2 ^ 32
    → IsWellFormed (message_of_texts e d)
unfolding make_chunk type_bits
message-IsWellFormed e d small_e small_d = record {
  version_one = refl;
  has_envelope = record { typed = refl; sized = omega arith; size_u32 = omega arith };
  envelope_fits = omega arith;
  data_or_none = inr (record { typed = refl; sized = omega arith; size_u32 = omega arith });
  all_debug = tt;
}

-- The sizes that both hosts can handle, and some data.
pub record AreTransmissible (sender receiver : Host) (e d : Bytes) : Type 0 where
  pub sender_is_host : IsHost sender
  pub envelope_fits : length e ≤ max_envelope_size
  pub some_data : 0 < length d
  pub data_fits : length d < 2 ^ 32
  pub sender_fits : length (encode (message_of_texts e d)) ≤ sender.max_size
  pub receiver_fits : length (encode (message_of_texts e d)) < size_mod receiver.width

module _ (sender receiver : Host) (e d : Bytes) (t : AreTransmissible sender receiver e d) where
  pub sent-encode :
      get_serialized sender (message_of_texts e d) ≡ ok (encode (message_of_texts e d))
  sent-encode =
      get_serialized-encode sender (message_of_texts e d) t.sender_is_host
        (HasSizes-of (message_of_texts e d) (message-IsWellFormed e d t.envelope_fits t.data_fits))
        t.sender_fits

  pub received-parse :
      parse_message receiver (encode (message_of_texts e d)) ≡ ok (message_of_texts e d)
  unfolding optional_chunks make_chunk
  received-parse =
      let m = message_of_texts e d in
      rw append-nil at (
        parse_message-encode receiver m [] (message-IsWellFormed e d t.envelope_fits t.data_fits)
          (omega (arith, t.data_fits, t.some_data)) (omega arith) (rw append-nil t.receiver_fits))
