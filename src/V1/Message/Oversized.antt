-- ===== src/V1/Message/Oversized.antt =====
-- A content that a uint32_t cannot count: the size is cut to 32 bits where the chunk is made and
-- where it is validated, and the serializer makes room for that many bytes only.
use cpp_pcp_client.Base.{
  ℕ, ◌+◌, ◌^◌, ◌≤◌, ◌<◌, ◌≡◌, ◌∷◌, ◌++◌, [], length, length-append, ok, err, ◌>>=◌, arith,
}
use cpp_pcp_client.V1.Errors.{fault, buffer_overrun}
use cpp_pcp_client.V1.Serialization.{Bytes, Host, serialize_string}
use cpp_pcp_client.V1.Serialization.Wire.{
  IsHost, network_order, serialize_u8-append, serialize_u32-append, serialize-overrun,
}
use cpp_pcp_client.V1.Chunks.{MessageChunk, make_chunk, type_bits, envelope, serialize_on, names}
use cpp_pcp_client.V1.Message.{validate_chunk, of_envelope, get_serialized}

-- A chunk whose content is longer than its size is written beyond the buffer.
serialize_on-overrun :
    (h : Host) (c : MessageChunk) (buffer : Bytes)
    → IsHost h
    → c.size < length c.content
    → length buffer + (5 + c.size) ≤ h.max_size
    → serialize_on h c buffer ≡ err (fault buffer_overrun)
unfolding serialize_on serialize_string
serialize_on-overrun h c buffer host long fits =
    let b1 = buffer ++ c.descriptor ∷ [] in
    let s1 = length-append buffer (c.descriptor ∷ []) in
    let s2 = length-append b1 (network_order c.size) in
    rw (
      serialize_u8-append h c.descriptor buffer host (omega arith),
      serialize_u32-append h c.size b1 host (omega arith),
      serialize-overrun h c.content c.size (b1 ++ network_order c.size) host long (omega arith),
    )

make_chunk-valid :
    (desc : ℕ) (content : Bytes)
    → type_bits desc ≡ envelope
    → validate_chunk (make_chunk desc content) ≡ ok tt
unfolding validate_chunk make_chunk names
make_chunk-valid desc content type = ground arith

-- For every envelope content of 2 ^ 32 bytes or more, serializing the message that is made of it,
-- by the two-argument chunk constructor, writes beyond the buffer, if a vector can hold the
-- content.
pub oversized_envelope_overrun :
    (h : Host) (desc : ℕ) (content : Bytes)
    → IsHost h
    → type_bits desc ≡ envelope
    → 2 ^ 32 ≤ length content
    → length content + 6 ≤ h.max_size
    → (of_envelope (make_chunk desc content) >>= get_serialized h) ≡ err (fault buffer_overrun)
unfolding of_envelope get_serialized make_chunk
oversized_envelope_overrun h desc content host type long fits = rw (
  make_chunk-valid desc content type,
  serialize_u8-append h 1 [] host (omega arith),
  serialize_on-overrun h (make_chunk desc content) (1 ∷ []) host (omega arith) (omega arith),
)
