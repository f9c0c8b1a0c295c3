-- ===== src/V1/Parser.antt =====
-- `Message::parseMessage` of lib/src/protocol/v1/message.cc. The chunks are members that the loop
-- sets; with the iterator and `still_to_parse` they are its state. An iterator is the list of the
-- bytes from it on, and reading beyond them is the fault `out_of_range`. The loop takes fuel: one
-- round for each byte of the message.
pub mod Step
pub mod Frames
pub mod Rounds
pub mod Format
pub mod Decides
pub mod Safety
pub mod RoundTrip
pub mod EmptyChunk
use cpp_pcp_client.Base.{
  ℕ, zero, suc, ◌+◌, ◌-◌, not, ◌&&◌, List, [], ◌∷◌, ◌++◌, ltb, ◌==◌, if◌then◌else◌, length, ok, err,
  ◌>>=◌, ◌>>◌, guard,
}
use cpp_pcp_client.V1.Errors.{
  message_serialization_error, envelope_too_small, no_envelope_descriptor, size_too_large,
  no_envelope, invalid_chunk_descriptor, missing_chunk_content, multiple_data_chunks, fault,
  assertion_failed, out_of_fuel, Outcome,
}
use cpp_pcp_client.V1.Serialization.{
  Bytes, Host, add_size, sub_size, deserialize_u8, deserialize_u32, deserialize_string,
}
use cpp_pcp_client.V1.Chunks.{MessageChunk, no_chunk, type_bits, envelope, data_type, debug}
use cpp_pcp_client.V1.Message.{Message, validate_version, is_set}

abbrev pub min_envelope_size : ℕ
min_envelope_size = 6

abbrev pub chunk_metadata_size : ℕ
chunk_metadata_size = 5

abbrev pub version_field_size : ℕ
version_field_size = 1

abbrev pub uint_max : ℕ
uint_max = 0xFFFFFFFF

pub record Loop : Type 0 where
  pub next_itr : Bytes
  pub still_to_parse : ℕ
  pub data_chunk : MessageChunk
  pub debug_chunks : List MessageChunk

-- Where a chunk that has been read goes.
store_chunk : Loop → MessageChunk → Outcome Loop
store_chunk s chunk =
    if type_bits chunk.descriptor == data_type
    then guard (not (is_set s.data_chunk)) (message_serialization_error multiple_data_chunks)
      >> ok (record s { data_chunk = chunk })
    else ok (record s { debug_chunks = s.debug_chunks ++ chunk ∷ [] })

-- A declared size above the bytes left; the assert stands before the reports.
check_chunk_size : ℕ → ℕ → Outcome (Unit {0})
check_chunk_size chunk_size missing_bytes =
    if ltb missing_bytes chunk_size
    then guard (ltb 1 chunk_size) (fault assertion_failed)
      >> err (message_serialization_error missing_chunk_content)
    else ok tt

-- The body of the while loop.
unfoldable pub parse_chunk : Host → Loop → Outcome Loop
unfolding store_chunk check_chunk_size
parse_chunk h s = do
  (chunk_desc, itr1) ← deserialize_u8 1 s.next_itr
  let chunk_desc_bit = type_bits chunk_desc
  guard (not (not (chunk_desc_bit == data_type) && not (chunk_desc_bit == debug)))
      (message_serialization_error invalid_chunk_descriptor)
  (chunk_size, itr2) ← deserialize_u32 h 4 itr1
  let missing_bytes = sub_size h s.still_to_parse chunk_metadata_size
  check_chunk_size chunk_size missing_bytes
  (chunk_content, itr3) ← deserialize_string chunk_size itr2
  stored ←
      store_chunk s (record { descriptor = chunk_desc; size = chunk_size; content = chunk_content })
  ok (record stored {
    next_itr = itr3;
    still_to_parse = sub_size h s.still_to_parse (add_size h chunk_metadata_size chunk_size);
  })

-- `while (still_to_parse > CHUNK_METADATA_SIZE)`.
unfoldable pub parse_chunks : Host → ℕ → Loop → Outcome Loop
parse_chunks h zero s = err (fault out_of_fuel)
parse_chunks h (suc fuel) s =
    let rest = parse_chunk h s >>= parse_chunks h fuel in
    if ltb chunk_metadata_size s.still_to_parse then rest else ok s

-- The checks of the envelope, and its chunk with the iterator behind it.
unfoldable pub parse_envelope : Host → ℕ → Bytes → Outcome (MessageChunk × Bytes)
parse_envelope h msg_size itr = do
  (envelope_desc, itr1) ← deserialize_u8 1 itr
  guard (type_bits envelope_desc == envelope) (message_serialization_error no_envelope_descriptor)
  (envelope_size, itr2) ← deserialize_u32 h 4 itr1
  guard (not (ltb (uint_max - (version_field_size + chunk_metadata_size)) envelope_size))
      (message_serialization_error size_too_large)
  guard (not (ltb msg_size (add_size h (version_field_size + chunk_metadata_size) envelope_size)))
      (message_serialization_error no_envelope)
  (envelope_content, itr3) ← deserialize_string envelope_size itr2
  ok (record { descriptor = envelope_desc; size = envelope_size; content = envelope_content }, itr3)

-- The constructor from a transport message. Bytes left over at the end are only logged.
unfoldable pub parse_message : Host → Bytes → Outcome Message
parse_message h transport_msg = do
  let msg_size = length transport_msg
  guard (not (ltb msg_size min_envelope_size)) (message_serialization_error envelope_too_small)
  (msg_version, itr1) ← deserialize_u8 1 transport_msg
  validate_version msg_version
  (envelope_chunk, itr2) ← parse_envelope h msg_size itr1
  let used = add_size h (version_field_size + chunk_metadata_size) envelope_chunk.size
  end ← parse_chunks h (suc msg_size) (record {
    next_itr = itr2;
    still_to_parse = sub_size h msg_size used;
    data_chunk = no_chunk;
    debug_chunks = [];
  })
  ok (record {
    version = msg_version;
    envelope_chunk = envelope_chunk;
    data_chunk = end.data_chunk;
    debug_chunks = end.debug_chunks;
  })
