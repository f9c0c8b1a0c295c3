-- ===== src/V1/Message/Encode.antt =====
-- The wire format of a message as a plain concatenation, and `getSerialized` against it.
use mathlib.Core.Path.{fun_ext}
use cpp_pcp_client.Base.{
  ◌+◌, ◌≤◌, ◌≡◌, refl, ap, ◌∙◌, true, false, inl, inr, List, [], ◌∷◌, ◌++◌, append-nil,
  append_assoc, Bool-cases, if◌then◌else◌, length, length-append, All, ok, ◌>>=◌, arith,
}
use cpp_pcp_client.V1.Errors.{Outcome}
use cpp_pcp_client.V1.Serialization.{Bytes, Host, serialize_string}
use cpp_pcp_client.V1.Serialization.Wire.{
  network_order, IsHost, serialize-append, serialize_u8-append, serialize_u32-append,
}
use cpp_pcp_client.V1.Chunks.{MessageChunk, serialize_on}
use cpp_pcp_client.V1.Message.{
  Message, is_set, has_data, has_debug, serialize_debug, get_serialized,
}

abbrev pub encode_chunk : MessageChunk → Bytes
encode_chunk c = c.descriptor ∷ (network_order c.size ++ c.content)

unfoldable pub encode_chunks : List MessageChunk → Bytes
encode_chunks [] = []
encode_chunks (c ∷ cs) = encode_chunk c ++ encode_chunks cs

-- The optional chunks, in the order in which they are sent.
unfoldable pub optional_chunks : Message → List MessageChunk
optional_chunks m = if is_set m.data_chunk then m.data_chunk ∷ m.debug_chunks else m.debug_chunks

unfoldable pub encode : Message → Bytes
unfolding optional_chunks
encode m = m.version ∷ (encode_chunk m.envelope_chunk ++ encode_chunks (optional_chunks m))

-- The declared size is the number of bytes of the content.
abbrev pub IsSized : MessageChunk → Type 0
IsSized c = length c.content ≡ c.size

-- A buffer with this much room left takes the bytes.
abbrev Fits : Host → Bytes → Bytes → Type 0
Fits h buffer bytes = length buffer + length bytes ≤ h.max_size

pub serialize_on-append :
    (h : Host) (c : MessageChunk) (buffer : Bytes)
    → IsHost h
    → IsSized c
    → Fits h buffer (encode_chunk c)
    → serialize_on h c buffer ≡ ok (buffer ++ encode_chunk c)
unfolding serialize_on serialize_string
serialize_on-append h c buffer host sized fits = rw (
  serialize_u8-append h c.descriptor buffer host (omega arith),
  serialize_u32-append h c.size (buffer ++ c.descriptor ∷ []) host
      (omega (arith, length-append buffer (c.descriptor ∷ []))),
  serialize-append h c.content c.size ((buffer ++ c.descriptor ∷ []) ++ network_order c.size) host
      sized
      (omega (
        arith,
        length-append buffer (c.descriptor ∷ []),
        length-append (buffer ++ c.descriptor ∷ []) (network_order c.size),
      )),
  append_assoc,
  append_assoc,
)

serialize_debug-append :
    (h : Host) (cs : List MessageChunk) (buffer : Bytes)
    → IsHost h
    → All IsSized cs
    → Fits h buffer (encode_chunks cs)
    → serialize_debug h cs buffer ≡ ok (buffer ++ encode_chunks cs)
unfolding serialize_debug encode_chunks
serialize_debug-append h [] buffer host sized fits = rw append-nil
serialize_debug-append h (c ∷ cs) buffer host sized fits =
    let room = length-append (encode_chunk c) (encode_chunks cs) in
    rw (serialize_on-append h c buffer host sized.0 (omega (arith, room))) (
      serialize_debug-append h cs (buffer ++ encode_chunk c) host sized.1
        (omega (arith, room, length-append buffer (encode_chunk c)))
      ∙ rw append_assoc)

-- The code skips the loop over no debug chunks; the loop would do nothing.
serialize_debug_guarded :
    (h : Host) (cs : List MessageChunk) (b : Bytes)
    → (if (elim cs [ [] ↦ false | _ ∷ _ ↦ true ]) then serialize_debug h cs b else ok b)
      ≡ serialize_debug h cs b
unfolding serialize_debug
serialize_debug_guarded h [] b = refl
serialize_debug_guarded h (c ∷ cs) b = refl

-- What the code sends behind the envelope is one loop over the optional chunks.
get_serialized_tail :
    (h : Host) (m : Message) (b : Bytes)
    → (do
      b3 ← if has_data m then serialize_on h m.data_chunk b else ok b
      if has_debug m then serialize_debug h m.debug_chunks b3 else ok b3)
      ≡ serialize_debug h (optional_chunks m) b
unfolding has_data has_debug optional_chunks serialize_debug
get_serialized_tail h m b = elim (Bool-cases (is_set m.data_chunk)) [
  | inl e ↦ rw e (
      ap (λ (f : Bytes → Outcome Bytes). serialize_on h m.data_chunk b >>= f)
        (fun_ext (serialize_debug_guarded h m.debug_chunks)))
  | inr e ↦ rw e (serialize_debug_guarded h m.debug_chunks b)
]

-- Every chunk of a message declares the size of its content.
abbrev pub HasSizes : Message → Type 0
HasSizes m = IsSized m.envelope_chunk × All IsSized (optional_chunks m)

-- On a host whose vectors can hold the encoded message, `get_serialized` returns it: a message
-- whose chunks have the declared sizes is serialized without an exception, and to the same bytes
-- whatever the byte order and the width of size_t.
pub get_serialized-encode :
    (h : Host) (m : Message)
    → IsHost h
    → HasSizes m
    → length (encode m) ≤ h.max_size
    → get_serialized h m ≡ ok (encode m)
unfolding get_serialized encode
get_serialized-encode h m host sized fits =
    let room = length-append (encode_chunk m.envelope_chunk) (encode_chunks (optional_chunks m)) in
    let head = m.version ∷ encode_chunk m.envelope_chunk in
    rw
      (
        serialize_u8-append h m.version [] host (omega arith),
        serialize_on-append h m.envelope_chunk (m.version ∷ []) host sized.0 (omega (arith, room)),
        get_serialized_tail h m head,
      )
      (serialize_debug-append h (optional_chunks m) head host sized.1 (omega (arith, room)))
