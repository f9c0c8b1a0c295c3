-- ===== src/V1/Parser/EmptyChunk.antt =====
-- The loop of `parseMessage` goes on while more bytes are left than a chunk header has, so a chunk
-- without content at the end of a message is taken for bytes that are left over.
use cpp_pcp_client.Base.{
  ◌+◌, ◌≤◌, ◌<◌, ◌≡◌, refl, sym, ap, ◌∙◌, true, List, [], ◌∷◌, ◌++◌, append_assoc, length,
  length-append, All-append, ok, ◌>>=◌, arith,
}
use cpp_pcp_client.V1.Serialization.{Host, size_mod}
use cpp_pcp_client.V1.Serialization.Wire.{IsHost}
use cpp_pcp_client.V1.Chunks.{MessageChunk, no_chunk}
use cpp_pcp_client.V1.Message.{Message, is_set, get_serialized}
use cpp_pcp_client.V1.Message.Encode.{
  encode_chunk, encode_chunks, optional_chunks, encode, IsSized, HasSizes, get_serialized-encode,
}
use cpp_pcp_client.V1.Parser.{parse_message}
use cpp_pcp_client.V1.Parser.Safety.{IsWellFormed}
use cpp_pcp_client.V1.Parser.RoundTrip.{EndsFull, HasSizes-of, parse_message-encode}

encode_chunks-append :
    (cs ds : List MessageChunk) → encode_chunks (cs ++ ds) ≡ encode_chunks cs ++ encode_chunks ds
unfolding encode_chunks
encode_chunks-append [] ds = refl
encode_chunks-append (c ∷ cs) ds =
    ap (◌++◌ (encode_chunk c)) (encode_chunks-append cs ds)
    ∙ sym (append_assoc (encode_chunk c) (encode_chunks cs) (encode_chunks ds))

-- A chunk without content.
abbrev pub IsEmpty : MessageChunk → Type 0
IsEmpty c = (c.size ≡ 0) × (c.content ≡ [])

-- A message `sent` that is `m` with one more chunk at the end.
record Extends (m sent : Message) (c : MessageChunk) : Type 0 where
  same_version : sent.version ≡ m.version
  same_envelope : sent.envelope_chunk ≡ m.envelope_chunk
  one_more : optional_chunks sent ≡ optional_chunks m ++ c ∷ []

encode-Extends :
    (m sent : Message) (c : MessageChunk)
    → Extends m sent c
    → encode sent ≡ encode m ++ encode_chunks (c ∷ [])
unfolding encode
encode-Extends m sent c e = rw (
  e.same_version,
  e.same_envelope,
  e.one_more,
  encode_chunks-append (optional_chunks m) (c ∷ []),
  append_assoc,
)

length-encode_empty : (c : MessageChunk) → IsEmpty c → length (encode_chunks (c ∷ [])) ≡ 5
unfolding encode_chunks
length-encode_empty c e = rw (e.1)

lost :
    (sender receiver : Host) (m sent : Message) (c : MessageChunk)
    → Extends m sent c
    → IsHost sender
    → IsWellFormed m
    → EndsFull (optional_chunks m)
    → IsEmpty c
    → length (encode m) + 5 ≤ sender.max_size
    → length (encode m) + 5 < size_mod receiver.width
    → (get_serialized sender sent >>= parse_message receiver) ≡ ok m
lost sender receiver m sent c e host w full none fits room =
    let five = length-encode_empty c none in
    let total = length-append (encode m) (encode_chunks (c ∷ [])) in
    let same = encode-Extends m sent c e in
    let old = HasSizes-of m w in
    let empty_sized : IsSized c = ap length none.1 ∙ sym none.0 in
    let sizes : HasSizes sent = (
      rw e.same_envelope old.0,
      rw e.one_more (All-append IsSized (optional_chunks m) (c ∷ []) old.1 (empty_sized, tt)),
    ) in
    rw (get_serialized-encode sender sent host sizes (rw same (omega arith)), same)
      (parse_message-encode receiver m (encode_chunks (c ∷ [])) w full (omega arith) (omega arith))

-- A debug chunk without content that is added last is lost on the way: the receiver parses the
-- message without it.
pub empty_debug_chunk_lost :
    (sender receiver : Host) (m : Message) (c : MessageChunk)
    → IsHost sender
    → IsWellFormed m
    → EndsFull (optional_chunks m)
    → IsEmpty c
    → length (encode m) + 5 ≤ sender.max_size
    → length (encode m) + 5 < size_mod receiver.width
    → (get_serialized sender (record m { debug_chunks = m.debug_chunks ++ c ∷ [] })
        >>= parse_message receiver)
      ≡ ok m
unfolding optional_chunks
empty_debug_chunk_lost sender receiver m c =
    lost sender receiver m (record m { debug_chunks = m.debug_chunks ++ c ∷ [] }) c
      (record { same_version = refl; same_envelope = refl; one_more = ground arith })

-- So is a data chunk without content in a message that has no debug chunk: the receiver parses a
-- message that has no data.
pub empty_data_chunk_lost :
    (sender receiver : Host) (m : Message) (c : MessageChunk)
    → IsHost sender
    → IsWellFormed m
    → m.data_chunk ≡ no_chunk
    → m.debug_chunks ≡ []
    → is_set c ≡ true
    → IsEmpty c
    → length (encode m) + 5 ≤ sender.max_size
    → length (encode m) + 5 < size_mod receiver.width
    → (get_serialized sender (record m { data_chunk = c }) >>= parse_message receiver) ≡ ok m
unfolding optional_chunks
empty_data_chunk_lost sender receiver m c host w no_data no_debug set =
    let none : optional_chunks m ≡ [] = rw (ap is_set no_data, no_debug) in
    lost sender receiver m (record m { data_chunk = c }) c
      (record {
        same_version = refl;
        same_envelope = refl;
        one_more = rw (set, none) (rw no_debug);
      })
      host w (rw none tt)
