-- ===== src/V1/Serialization.antt =====
-- lib/inc/cpp-pcp-client/protocol/v1/serialization.hpp and lib/src/protocol/v1/serialization.cc.
-- A buffer is its list of bytes; an iterator into it is the list of the bytes from there on. What
-- depends on the machine is a `Host`: its byte order, the width of size_t, and the number of bytes
-- that a vector can hold (resizing beyond it throws).
pub mod Wire
use cpp_pcp_client.Base.{
  ℕ, ◌+◌, ◌-◌, ◌*◌, ◌/◌, ◌%◌, ◌^◌, List, [], ◌∷◌, ◌++◌, leb, ◌==◌, if◌then◌else◌, length, take,
  drop, replicate, ok, err, guard, ◌>>=◌, ◌>>◌,
}
use cpp_pcp_client.V1.Errors.{
  message_serialization_error, bad_allocation, fault, out_of_range, buffer_overrun,
  assertion_failed, Outcome,
}

abbrev pub Bytes : Type 0
Bytes = List ℕ

pub data Endian : Type 0 where
  little big : Endian

pub data SizeWidth : Type 0 where
  size_32 size_64 : SizeWidth

pub record Host : Type 0 where
  pub endian : Endian
  pub width : SizeWidth
  pub max_size : ℕ

abbrev pub size_mod : SizeWidth → ℕ
size_mod size_32 = 2 ^ 32
size_mod size_64 = 2 ^ 64

-- size_t addition and subtraction.
unfoldable pub add_size : Host → ℕ → ℕ → ℕ
add_size h a b = (a + b) % size_mod h.width

unfoldable pub sub_size : Host → ℕ → ℕ → ℕ
sub_size h a b = (a + size_mod h.width - b) % size_mod h.width

-- Byte `i` of a uint32_t, from the least significant.
abbrev pub byte_of : ℕ → ℕ → ℕ
byte_of n i = n / 256 ^ i % 256

abbrev pub swapped : ℕ → ℕ
swapped n = byte_of n 0 * 256 ^ 3 + byte_of n 1 * 256 ^ 2 + byte_of n 2 * 256 + byte_of n 3

-- htonl and ntohl reverse the bytes on a little-endian host, and the inline versions for a
-- big-endian one return the number.
unfoldable pub get_network_number : Endian → ℕ → ℕ
get_network_number little n = swapped n
get_network_number big n = n

unfoldable pub get_host_number : Endian → ℕ → ℕ
get_host_number little n = swapped n
get_host_number big n = n

-- The four bytes of a uint32_t in memory, and the number that four bytes hold.
unfoldable pub memory_of : Endian → ℕ → Bytes
memory_of little n = byte_of n 0 ∷ byte_of n 1 ∷ byte_of n 2 ∷ byte_of n 3 ∷ []
memory_of big n = byte_of n 3 ∷ byte_of n 2 ∷ byte_of n 1 ∷ byte_of n 0 ∷ []

unfoldable pub number_in : Endian → Bytes → ℕ
number_in little (a ∷ b ∷ c ∷ d ∷ []) = a + b * 256 + c * 256 ^ 2 + d * 256 ^ 3
number_in big (a ∷ b ∷ c ∷ d ∷ []) = a * 256 ^ 3 + b * 256 ^ 2 + c * 256 + d
number_in _ _ = 0

resize : Host → ℕ → Bytes → Outcome Bytes
resize h n buffer =
    if leb n h.max_size
    then ok (take n buffer ++ replicate (n - length buffer) 0)
    else err (message_serialization_error bad_allocation)

-- std::copy into the buffer at an offset.
write_at : ℕ → Bytes → Bytes → Outcome Bytes
write_at offset bytes buffer =
    if leb (offset + length bytes) (length buffer)
    then ok (take offset buffer ++ (bytes ++ drop (offset + length bytes) buffer))
    else err (fault buffer_overrun)

-- `serialize<T>`, given the bytes that `serialize_<T>` copies.
unfoldable pub serialize : Host → Bytes → ℕ → Bytes → Outcome Bytes
unfolding resize write_at
serialize h bytes thing_size buffer = do
  let offset = length buffer
  resized ← resize h (add_size h offset thing_size) buffer
  written ← write_at offset bytes resized
  guard (offset + length bytes == offset + thing_size) (fault assertion_failed)
  ok written

unfoldable pub serialize_string : Host → Bytes → ℕ → Bytes → Outcome Bytes
serialize_string h txt = serialize h txt

unfoldable pub serialize_u32 : Host → ℕ → ℕ → Bytes → Outcome Bytes
serialize_u32 h number = serialize h (memory_of h.endian (get_network_number h.endian number))

unfoldable pub serialize_u8 : Host → ℕ → ℕ → Bytes → Outcome Bytes
serialize_u8 h number = serialize h (number ∷ [])

-- The bytes from an iterator, and the iterator behind them.
unfoldable pub copy_from : ℕ → Bytes → Outcome (Bytes × Bytes)
copy_from n start =
    if leb n (length start) then ok (take n start, drop n start) else err (fault out_of_range)

unfoldable pub deserialize_string : ℕ → Bytes → Outcome (Bytes × Bytes)
deserialize_string thing_size start = copy_from thing_size start

abbrev pub first_byte : Bytes → ℕ
first_byte [] = 0
first_byte (b ∷ _) = b

unfoldable pub deserialize_u8 : ℕ → Bytes → Outcome (ℕ × Bytes)
deserialize_u8 thing_size start = do
  guard (thing_size == 1) (fault assertion_failed)
  (value, next) ← copy_from thing_size start
  ok (first_byte value, next)

unfoldable pub deserialize_u32 : Host → ℕ → Bytes → Outcome (ℕ × Bytes)
deserialize_u32 h thing_size start = do
  guard (thing_size == 4) (fault assertion_failed)
  (value, next) ← copy_from thing_size start
  ok (get_host_number h.endian (number_in h.endian value), next)
