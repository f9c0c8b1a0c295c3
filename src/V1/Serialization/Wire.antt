-- ===== src/V1/Serialization/Wire.antt =====
-- What the serializers write and the deserializers read, the same on every host: the number in
-- network byte order.
use cpp_pcp_client.Base.{
  ℕ, ◌+◌, ◌-◌, ◌*◌, ◌^◌, ◌≤◌, ◌<◌, ◌≡◌, refl, ap, ◌∙◌, [], ◌∷◌, ◌++◌, append-nil, leb, le→leb,
  eq→==, length, replicate, length-append, length-replicate, take-append, drop-append, take-ge,
  drop-ge, ok, err, Bool, true, false, ltb, ◌&&◌, All, arith,
}
use cpp_pcp_client.V1.Errors.{fault, buffer_overrun}
use cpp_pcp_client.V1.Serialization.{
  Bytes, Endian, little, big, Host, size_mod, add_size, sub_size, byte_of, get_network_number,
  get_host_number, memory_of, number_in, resize, write_at, serialize, serialize_u32, serialize_u8,
  copy_from, deserialize_u8, deserialize_u32,
}

-- A number in network byte order, most significant byte first.
abbrev pub network_order : ℕ → Bytes
network_order n = byte_of n 3 ∷ byte_of n 2 ∷ byte_of n 1 ∷ byte_of n 0 ∷ []

abbrev pub IsByte : ℕ → Type 0
IsByte b = b < 256

abbrev pub all_bytes : Bytes → Bool
all_bytes [] = true
all_bytes (b ∷ bs) = ltb b 256 && all_bytes bs

pub all_bytes-IsByte : (s : Bytes) → all_bytes s ≡ true → All IsByte s
all_bytes-IsByte [] h = tt
all_bytes-IsByte (b ∷ bs) h = (ground arith, all_bytes-IsByte bs (ground arith))

-- A vector can hold fewer bytes than size_t counts.
abbrev pub IsHost : Host → Type 0
IsHost h = h.max_size < size_mod h.width

pub add_size-eq : (h : Host) (a b : ℕ) → a + b < size_mod h.width → add_size h a b ≡ a + b
unfolding add_size
add_size-eq h a b lt = ground arith

pub sub_size-eq : (h : Host) (a b : ℕ) → b ≤ a → a < size_mod h.width → sub_size h a b ≡ a - b
unfolding sub_size
sub_size-eq h a b le lt = ground arith

-- Four bytes are recovered from the number that they make up.
pub byte_of-sum :
    (a b c d : ℕ)
    → a < 256
    → b < 256
    → c < 256
    → d < 256
    → let n = a * 256 ^ 3 + b * 256 ^ 2 + c * 256 + d in
      (byte_of n 0 ≡ d) × (byte_of n 1 ≡ c) × (byte_of n 2 ≡ b) × (byte_of n 3 ≡ a)
byte_of-sum a b c d ha hb hc hd = omega arith

memory_of-network_number :
    (e : Endian) (n : ℕ) → memory_of e (get_network_number e n) ≡ network_order n
unfolding memory_of get_network_number
memory_of-network_number little n =
    let bytes =
      byte_of-sum (byte_of n 0) (byte_of n 1) (byte_of n 2) (byte_of n 3) (omega arith)
        (omega arith) (omega arith) (omega arith) in
    cc (bytes.0, bytes.1, bytes.2, bytes.3)
memory_of-network_number big n = refl

host_number-number_in :
    (e : Endian) (n : ℕ) → n < 2 ^ 32 → get_host_number e (number_in e (network_order n)) ≡ n
unfolding get_host_number number_in
host_number-number_in little n h = omega arith
host_number-number_in big n h = omega arith

resize-grow :
    (h : Host) (k : ℕ) (buffer : Bytes)
    → length buffer + k ≤ h.max_size
    → resize h (length buffer + k) buffer ≡ ok (buffer ++ replicate k 0)
unfolding resize
resize-grow h k buffer fits =
    let tail : length buffer + k - length buffer ≡ k = omega arith in
    rw (
      le→leb (length buffer + k) h.max_size fits,
      take-ge (length buffer + k) buffer (omega arith),
      tail,
    )

write_at_end :
    (bytes buffer : Bytes)
    → write_at (length buffer) bytes (buffer ++ replicate (length bytes) 0) ≡ ok (buffer ++ bytes)
unfolding write_at
write_at_end bytes buffer =
    let grown = buffer ++ replicate (length bytes) 0 in
    let size : length grown ≡ length buffer + length bytes =
      length-append buffer _ ∙ ap (λ n. length buffer + n) (length-replicate (length bytes) 0) in
    rw (
      le→leb (length buffer + length bytes) (length grown) (omega arith),
      take-append buffer (replicate (length bytes) 0),
      drop-ge (length buffer + length bytes) grown (omega arith),
      append-nil,
    )

-- Writing at the end of a buffer that has just been enlarged appends.
pub serialize-append :
    (h : Host) (bytes : Bytes) (size : ℕ) (buffer : Bytes)
    → IsHost h
    → length bytes ≡ size
    → length buffer + size ≤ h.max_size
    → serialize h bytes size buffer ≡ ok (buffer ++ bytes)
unfolding serialize
serialize-append h bytes size buffer host sized fits = rw (← sized) (
    rw (
      add_size-eq h (length buffer) (length bytes) (omega arith),
      resize-grow h (length bytes) buffer (omega arith),
      write_at_end bytes buffer,
      eq→== (length buffer + length bytes) _ refl,
    ))

-- More bytes than the declared size are written beyond the end of the buffer.
pub serialize-overrun :
    (h : Host) (bytes : Bytes) (size : ℕ) (buffer : Bytes)
    → IsHost h
    → size < length bytes
    → length buffer + size ≤ h.max_size
    → serialize h bytes size buffer ≡ err (fault buffer_overrun)
unfolding serialize write_at
serialize-overrun h bytes size buffer host long fits =
    let grown = buffer ++ replicate size 0 in
    let space : length grown ≡ length buffer + size =
      length-append buffer _ ∙ ap (λ n. length buffer + n) (length-replicate size 0) in
    let outside : leb (length buffer + length bytes) (length grown) ≡ false = ground arith in
    rw (add_size-eq h (length buffer) size (omega arith), resize-grow h size buffer fits, outside)

pub serialize_u8-append :
    (h : Host) (n : ℕ) (buffer : Bytes)
    → IsHost h
    → length buffer + 1 ≤ h.max_size
    → serialize_u8 h n 1 buffer ≡ ok (buffer ++ n ∷ [])
unfolding serialize_u8
serialize_u8-append h n buffer host fits = serialize-append h (n ∷ []) 1 buffer host refl fits

pub serialize_u32-append :
    (h : Host) (n : ℕ) (buffer : Bytes)
    → IsHost h
    → length buffer + 4 ≤ h.max_size
    → serialize_u32 h n 4 buffer ≡ ok (buffer ++ network_order n)
unfolding serialize_u32
serialize_u32-append h n buffer host fits =
    rw (memory_of-network_number h.endian n)
      (serialize-append h (network_order n) 4 buffer host refl fits)

pub copy_from-append :
    (bytes rest : Bytes) → copy_from (length bytes) (bytes ++ rest) ≡ ok (bytes, rest)
unfolding copy_from
copy_from-append bytes rest = rw (
  le→leb (length bytes) (length (bytes ++ rest)) (omega (arith, length-append bytes rest)),
  take-append bytes rest,
  drop-append bytes rest,
)

pub deserialize_u8-cons : (n : ℕ) (rest : Bytes) → deserialize_u8 1 (n ∷ rest) ≡ ok (n, rest)
unfolding deserialize_u8 copy_from
deserialize_u8-cons n rest = ground arith

pub deserialize_u32-append :
    (h : Host) (n : ℕ) (rest : Bytes)
    → n < 2 ^ 32
    → deserialize_u32 h 4 (network_order n ++ rest) ≡ ok (n, rest)
unfolding deserialize_u32
deserialize_u32-append h n rest lt =
    rw (copy_from-append (network_order n) rest, host_number-number_in h.endian n lt)
