-- ===== src/V1/Chunks.antt =====
-- lib/inc/cpp-pcp-client/protocol/v1/chunks.hpp and lib/src/protocol/v1/chunks.cc.
-- A std::string is its list of bytes.
use cpp_pcp_client.Base.{
  ℕ, ◌%◌, ◌^◌, Bool, true, false, ◌&&◌, [], ◌∷◌, Option, none, some, ◌==◌, if◌then◌else◌, length,
  ◌>>=◌, bit_and,
}
use cpp_pcp_client.V1.Errors.{Outcome}
use cpp_pcp_client.V1.Serialization.{Bytes, Host, serialize_u8, serialize_u32, serialize_string}

abbrev pub type_mask : ℕ
type_mask = 0x0F

abbrev pub envelope : ℕ
envelope = 0x01

abbrev pub data_type : ℕ
data_type = 0x02

abbrev pub debug : ℕ
debug = 0x03

-- `descriptor & ChunkDescriptor::TYPE_MASK`.
unfoldable pub type_bits : ℕ → ℕ
type_bits descriptor = bit_and descriptor type_mask

pub data ChunkName : Type 0 where
  envelope_name data_name debug_name : ChunkName

-- `ChunkDescriptor::names.find`.
unfoldable pub names : ℕ → Option ChunkName
names desc_bit =
    if desc_bit == envelope
    then some envelope_name
    else if desc_bit == data_type
    then some data_name
    else if desc_bit == debug
    then some debug_name
    else none

pub record MessageChunk : Type 0 where
  pub descriptor : ℕ
  pub size : ℕ
  pub content : Bytes

-- The default constructor.
abbrev pub no_chunk : MessageChunk
no_chunk = record { descriptor = 0; size = 0; content = [] }

-- The constructor from a descriptor and a content, whose size is converted to a uint32_t.
unfoldable pub make_chunk : ℕ → Bytes → MessageChunk
make_chunk descriptor content = record {
  descriptor = descriptor;
  size = length content % 2 ^ 32;
  content = content;
}

bytes_equal : Bytes → Bytes → Bool
bytes_equal [] [] = true
bytes_equal (x ∷ xs) (y ∷ ys) = x == y && bytes_equal xs ys
bytes_equal _ _ = false

unfoldable chunk_equal : MessageChunk → MessageChunk → Bool
unfolding bytes_equal
chunk_equal c other =
    c.descriptor == other.descriptor && c.size == other.size && bytes_equal c.content other.content

unfoldable pub serialize_on : Host → MessageChunk → Bytes → Outcome Bytes
serialize_on h c buffer = do
  b1 ← serialize_u8 h c.descriptor 1 buffer
  b2 ← serialize_u32 h c.size 4 b1
  serialize_string h c.content c.size b2
