-- ===== src/V1/Tests.antt =====
-- Runs of the message format on concrete messages.
use cpp_pcp_client.Base.{
  ℕ, ◌+◌, ◌^◌, ◌≡◌, ◌≢◌, ◌↔◌, refl, inl, [], ◌∷◌, ◌++◌, length, length-replicate, replicate, All,
  ok, err, ◌>>=◌, arith,
}
use cpp_pcp_client.V1.Errors.{fault, buffer_overrun, out_of_range}
use cpp_pcp_client.V1.Serialization.{
  Bytes, Host, little, big, size_32, size_64, add_size, sub_size, deserialize_u8, deserialize_u32,
  deserialize_string, number_in, get_host_number, copy_from,
}
use cpp_pcp_client.V1.Serialization.Wire.{IsByte, all_bytes-IsByte}
use cpp_pcp_client.V1.Chunks.{MessageChunk, type_bits, names, no_chunk, make_chunk, envelope}
use cpp_pcp_client.V1.Message.{
  Message, validate_version, validate_chunk, of_envelope, get_serialized, set_data_chunk,
}
use cpp_pcp_client.V1.Message.Encode.{encode, optional_chunks, encode_chunks, get_serialized-encode}
use cpp_pcp_client.V1.Message.Built.{
  Built, from_envelope, with_data, IsValid, Built-IsValid, get_serialized-Built,
}
use cpp_pcp_client.V1.Message.Oversized.{oversized_envelope_overrun}
use cpp_pcp_client.V1.Parser.{parse_message, parse_envelope, parse_chunks, parse_chunk}
use cpp_pcp_client.V1.Parser.Format.{Format}
use cpp_pcp_client.V1.Parser.Decides.{parse_message_iff}
use cpp_pcp_client.V1.Parser.Safety.{
  IsWellFormed, parse_message-ne-fault, parse_message-IsWellFormed,
}
use cpp_pcp_client.V1.Parser.RoundTrip.{parse_message-get_serialized}
use cpp_pcp_client.V1.Parser.EmptyChunk.{empty_debug_chunk_lost}

abbrev pc : Host
pc = record { endian = little; width = size_64; max_size = 1000000 }

abbrev board : Host
board = record { endian = big; width = size_32; max_size = 1000 }

abbrev wire : Bytes
wire = 1 ∷ 1 ∷ 0 ∷ 0 ∷ 0 ∷ 2 ∷ 7 ∷ 8 ∷ 2 ∷ 0 ∷ 0 ∷ 0 ∷ 1 ∷ 9 ∷ 3 ∷ 0 ∷ 0 ∷ 0 ∷ 1 ∷ 5 ∷ []

abbrev parsed : Message
parsed = record {
  version = 1;
  envelope_chunk = record { descriptor = 1; size = 2; content = 7 ∷ 8 ∷ [] };
  data_chunk = record { descriptor = 2; size = 1; content = 9 ∷ [] };
  debug_chunks = record { descriptor = 3; size = 1; content = 5 ∷ [] } ∷ [];
}

parse-wire : parse_message pc wire ≡ ok parsed
unfolding parse_message parse_envelope parse_chunks parse_chunk deserialize_u8 deserialize_u32
    deserialize_string copy_from type_bits validate_version add_size sub_size get_host_number
    number_in
parse-wire = refl

wire-IsByte : All IsByte wire
wire-IsByte = all_bytes-IsByte wire refl

parse_message_iff_example : (parse_message pc wire ≡ ok parsed) ↔ Format wire (ok parsed)
parse_message_iff_example = parse_message_iff pc wire (ok parsed) wire-IsByte (omega arith)

parse_message-ne-fault_example : parse_message pc wire ≢ err (fault out_of_range)
parse_message-ne-fault_example =
    parse_message-ne-fault pc wire out_of_range wire-IsByte (omega arith)

parse_message-IsWellFormed_example : IsWellFormed parsed
parse_message-IsWellFormed_example =
    parse_message-IsWellFormed pc wire parsed wire-IsByte (omega arith) parse-wire

parsed-IsWellFormed : IsWellFormed parsed
parsed-IsWellFormed = parse_message-IsWellFormed pc wire parsed wire-IsByte (omega arith) parse-wire

parse_message-get_serialized_example :
    (get_serialized board parsed >>= parse_message pc) ≡ ok parsed
unfolding optional_chunks encode encode_chunks
parse_message-get_serialized_example =
    parse_message-get_serialized board pc parsed (omega arith) parsed-IsWellFormed (omega arith)
      (omega arith) (omega arith)

get_serialized-encode_example : get_serialized pc parsed ≡ ok (encode parsed)
unfolding optional_chunks encode encode_chunks
get_serialized-encode_example =
    get_serialized-encode pc parsed (omega arith) (refl, (refl, (refl, tt))) (omega arith)

-- The envelope of `parsed`, and then its data.
abbrev header : MessageChunk
header = make_chunk 1 (7 ∷ 8 ∷ [])

abbrev payload : MessageChunk
payload = make_chunk 2 (9 ∷ [])

abbrev made : Message
made = record { version = 1; envelope_chunk = header; data_chunk = payload; debug_chunks = [] }

made-Built : Built made
unfolding of_envelope validate_chunk set_data_chunk make_chunk type_bits names
made-Built =
    with_data {m = record made { data_chunk = no_chunk }} payload (from_envelope header refl) refl

Built-IsValid_example : IsValid made
Built-IsValid_example = Built-IsValid made-Built

get_serialized-Built_example : get_serialized pc made ≡ ok (encode made)
unfolding optional_chunks encode encode_chunks make_chunk
get_serialized-Built_example =
    get_serialized-Built pc made made-Built (omega arith) (omega arith) (omega arith) tt
      (omega arith)

-- A content whose length is known, and which is never written out.
fill : ℕ → Bytes
fill n = replicate n 0

length-fill : (n : ℕ) → length (fill n) ≡ n
unfolding fill
length-fill n = length-replicate n 0

abbrev server : Host
server = record { endian = little; width = size_64; max_size = 2 ^ 40 }

one-envelope : type_bits 1 ≡ envelope
unfolding type_bits
one-envelope = refl

oversized_envelope_overrun_example :
    (of_envelope (make_chunk 1 (fill (2 ^ 32 + 5))) >>= get_serialized server)
    ≡ err (fault buffer_overrun)
oversized_envelope_overrun_example =
    oversized_envelope_overrun server 1 (fill (2 ^ 32 + 5)) (omega arith) one-envelope
      (omega (arith, length-fill (2 ^ 32 + 5))) (omega (arith, length-fill (2 ^ 32 + 5)))

abbrev empty_debug : MessageChunk
empty_debug = record { descriptor = 3; size = 0; content = [] }

empty_debug_chunk_lost_example :
    (get_serialized pc (record parsed { debug_chunks = parsed.debug_chunks ++ empty_debug ∷ [] })
      >>= parse_message board)
    ≡ ok parsed
unfolding optional_chunks encode encode_chunks
empty_debug_chunk_lost_example =
    empty_debug_chunk_lost pc board parsed empty_debug (omega arith) parsed-IsWellFormed
      (omega arith) (refl, refl) (omega arith) (omega arith)

abbrev bare : Message
bare = record parsed { data_chunk = no_chunk; debug_chunks = [] }

bare-IsWellFormed : IsWellFormed bare
bare-IsWellFormed = record {
  version_one = refl;
  has_envelope = parsed-IsWellFormed.has_envelope;
  envelope_fits = parsed-IsWellFormed.envelope_fits;
  data_or_none = inl refl;
  all_debug = tt;
}

abbrev empty_data : MessageChunk
empty_data = record { descriptor = 2; size = 0; content = [] }
