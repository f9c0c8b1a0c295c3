-- ===== src/V1/Parser/RoundTrip.antt =====
-- A message that one host serializes, another parses back.
use mathlib.Core.Path.{subst, ap₂}
use native.Mathlib.Decide.{ℕ_discrete}
use cpp_pcp_client.Base.{
  ℕ, ◌≤◌, ◌<◌, ◌≡◌, ◌≢◌, refl, sym, ap, ◌∙◌, true, false, List, [], ◌∷◌, ◌++◌, append-nil,
  append_assoc, length, take, drop, take-append, drop-append, length-append, All, ok, ◌>>=◌, arith,
  inl, inr,
}
use cpp_pcp_client.V1.Serialization.{Bytes, Host, size_mod}
use cpp_pcp_client.V1.Serialization.Wire.{IsHost}
use cpp_pcp_client.V1.Chunks.{MessageChunk, no_chunk, type_bits, data_type, debug}
use cpp_pcp_client.V1.Message.{Message, is_set, get_serialized}
use cpp_pcp_client.V1.Message.Encode.{
  encode_chunk, encode_chunks, optional_chunks, encode, IsSized, HasSizes, get_serialized-encode,
}
use cpp_pcp_client.V1.Parser.{parse_message}
use cpp_pcp_client.V1.Parser.Step.{chunk_in, with_header}
use cpp_pcp_client.V1.Parser.Frames.{Frames, left_over, data_chunk, debug_chunk}
use cpp_pcp_client.V1.Parser.Format.{Format, accepted, message_of}
use cpp_pcp_client.V1.Parser.Decides.{Format-parse_message}
use cpp_pcp_client.V1.Parser.Safety.{IsChunkOf, IsWellFormed}

-- The last chunk, if there is one, has some content.
abbrev pub EndsFull : List MessageChunk → Type 0
EndsFull [] = Unit
EndsFull (c ∷ []) = 0 < c.size
EndsFull (c ∷ d ∷ cs) = EndsFull (d ∷ cs)

EndsFull-tail : (c : MessageChunk) (cs : List MessageChunk) → EndsFull (c ∷ cs) → EndsFull cs
EndsFull-tail c [] h = tt
EndsFull-tail c (d ∷ cs) h = h

module _ (c : MessageChunk) (rest : Bytes) (sized : length c.content ≡ c.size) where
  encode_chunk-append : encode_chunk c ++ rest ≡ with_header c.descriptor c.size (c.content ++ rest)
  encode_chunk-append = refl

  chunk_in-content : chunk_in c.descriptor c.size (c.content ++ rest) ≡ c
  chunk_in-content =
      let e : take c.size (c.content ++ rest) ≡ c.content =
        rw (← sized) (take-append c.content rest) in
      λ i. record { descriptor = c.descriptor; size = c.size; content = e i }

  drop-content : drop c.size (c.content ++ rest) ≡ rest
  drop-content = rw (← sized) (drop-append c.content rest)

-- There is something behind a chunk's header, unless it is a last chunk with no content.
some_behind :
    (c : MessageChunk) (cs : List MessageChunk) (tail : Bytes)
    → length c.content ≡ c.size
    → EndsFull (c ∷ cs)
    → 0 < length (c.content ++ (encode_chunks cs ++ tail))
unfolding encode_chunks
some_behind c [] tail sized full = omega (arith, length-append c.content tail)
some_behind c (d ∷ cs) tail sized full =
    omega (arith, length-append c.content (encode_chunks (d ∷ cs) ++ tail))

Frames-debugs :
    (cs debugs : List MessageChunk) (held : MessageChunk) (tail : Bytes)
    → length tail ≤ 5
    → All (IsChunkOf debug) cs
    → EndsFull cs
    → Frames held debugs (encode_chunks cs ++ tail) (ok (held, debugs ++ cs))
unfolding encode_chunks
Frames-debugs [] debugs held tail few typed full = rw append-nil (left_over held debugs tail few)
Frames-debugs (c ∷ cs) debugs held tail few (t, ts) full =
    let rest = encode_chunks cs ++ tail in
    debug_chunk held debugs c.descriptor c.size _ (c.content ++ rest)
      (append_assoc (encode_chunk c) (encode_chunks cs) tail) t.size_u32
      (some_behind c cs tail t.sized full) t.typed
      (omega (arith, length-append c.content rest, t.sized))
      (rw (chunk_in-content c rest t.sized, drop-content c rest t.sized)
        (rw (append_assoc debugs (c ∷ []) cs) at
          (Frames-debugs cs (debugs ++ c ∷ []) held tail few ts (EndsFull-tail c cs full))))

Frames-data :
    (c : MessageChunk) (cs : List MessageChunk) (tail : Bytes)
    → length tail ≤ 5
    → IsChunkOf data_type c
    → All (IsChunkOf debug) cs
    → EndsFull (c ∷ cs)
    → Frames no_chunk [] (encode_chunks (c ∷ cs) ++ tail) (ok (c, cs))
unfolding encode_chunks
Frames-data c cs tail few t ts full =
    let rest = encode_chunks cs ++ tail in
    data_chunk no_chunk [] c.descriptor c.size _ (c.content ++ rest)
      (append_assoc (encode_chunk c) (encode_chunks cs) tail) t.size_u32
      (some_behind c cs tail t.sized full) t.typed
      (omega (arith, length-append c.content rest, t.sized)) refl
      (rw (chunk_in-content c rest t.sized, drop-content c rest t.sized)
        (Frames-debugs cs [] c tail few ts (EndsFull-tail c cs full)))

is_set_of_data : (c : MessageChunk) → IsChunkOf data_type c → is_set c ≡ true
unfolding type_bits
is_set_of_data c t = elim (ℕ_discrete c.descriptor 0) [
  | yes zero_desc ↦ absurd (zero-ne-data (ap type_bits (sym zero_desc) ∙ t.typed))
  | no some_desc ↦ ground arith
]
  where
    zero-ne-data : ◌≢◌ {A = ℕ} 0 2
    zero-ne-data = omega arith

optional_chunks-none : (m : Message) → m.data_chunk ≡ no_chunk → optional_chunks m ≡ m.debug_chunks
unfolding optional_chunks
optional_chunks-none m none = let unset : is_set m.data_chunk ≡ false = ap is_set none in rw unset

optional_chunks-data :
    (m : Message)
    → IsChunkOf data_type m.data_chunk
    → optional_chunks m ≡ m.data_chunk ∷ m.debug_chunks
unfolding optional_chunks
optional_chunks-data m t = rw (is_set_of_data m.data_chunk t)

-- The optional chunks of a well-formed message, read from no data chunk and no debug chunk.
Frames-optional :
    (m : Message) (tail : Bytes)
    → length tail ≤ 5
    → IsWellFormed m
    → EndsFull (optional_chunks m)
    → Frames no_chunk []
        (encode_chunks (optional_chunks m) ++ tail)
        (ok (m.data_chunk, m.debug_chunks))
Frames-optional m tail few w full = elim w.data_or_none [
  | inl none ↦
      let e = optional_chunks-none m none in
      rw (e, none) (Frames-debugs m.debug_chunks [] no_chunk tail few w.all_debug (rw e at full))
  | inr t ↦
      let e = optional_chunks-data m t in
      rw e (Frames-data m.data_chunk m.debug_chunks tail few t w.all_debug (rw e at full))
]

-- The format of an encoded message with a few bytes behind it.
Format-encode :
    (m : Message) (tail : Bytes)
    → length tail ≤ 5
    → IsWellFormed m
    → EndsFull (optional_chunks m)
    → Format (encode m ++ tail) (ok m)
unfolding encode
Format-encode m tail few w full =
    let c = m.envelope_chunk in
    let sent = encode_chunks (optional_chunks m) in
    let rest = sent ++ tail in
    let t = w.has_envelope in
    let same : message_of c.descriptor c.size (c.content ++ rest) m.data_chunk m.debug_chunks ≡ m =
      λ i. record {
        version = sym w.version_one i;
        envelope_chunk = chunk_in-content c rest t.sized i;
        data_chunk = m.data_chunk;
        debug_chunks = m.debug_chunks;
      } in
    subst (λ x. Format (encode m ++ tail) (ok x)) same
      (accepted (encode m ++ tail) c.descriptor c.size (c.content ++ rest) m.data_chunk
        m.debug_chunks (ap₂ ◌∷◌ w.version_one (append_assoc (encode_chunk c) sent tail)) t.typed
        w.envelope_fits (omega (arith, length-append c.content rest, t.sized))
        (rw (drop-content c rest t.sized) (Frames-optional m tail few w full)))

-- A well-formed message whose last chunk has some content, encoded and with at most five bytes
-- appended, is parsed back.
pub parse_message-encode :
    (h : Host) (m : Message) (tail : Bytes)
    → IsWellFormed m
    → EndsFull (optional_chunks m)
    → length tail ≤ 5
    → length (encode m ++ tail) < size_mod h.width
    → parse_message h (encode m ++ tail) ≡ ok m
parse_message-encode h m tail w full few room =
    Format-parse_message h (Format-encode m tail few w full) room

pub HasSizes-of : (m : Message) → IsWellFormed m → HasSizes m
HasSizes-of m w = (
  w.has_envelope.sized,
  elim w.data_or_none [
    | inl none ↦ rw (optional_chunks-none m none) (sizes m.debug_chunks w.all_debug)
    | inr t ↦ rw (optional_chunks-data m t) (t.sized, sizes m.debug_chunks w.all_debug)
  ],
)
  where
    sizes : (cs : List MessageChunk) → All (IsChunkOf debug) cs → All IsSized cs
    sizes [] h = tt
    sizes (c ∷ cs) h = (h.0.sized, sizes cs h.1)

-- What one host makes of a well-formed message whose last chunk has some content, another host
-- parses back to the same message, whatever the byte order and the width of size_t of the two, if
-- the encoded message fits on both.
pub parse_message-get_serialized :
    (sender receiver : Host) (m : Message)
    → IsHost sender
    → IsWellFormed m
    → EndsFull (optional_chunks m)
    → length (encode m) ≤ sender.max_size
    → length (encode m) < size_mod receiver.width
    → (get_serialized sender m >>= parse_message receiver) ≡ ok m
parse_message-get_serialized sender receiver m host w full fits room =
    rw (get_serialized-encode sender m host (HasSizes-of m w) fits) (
      rw append-nil at
        (parse_message-encode receiver m [] w full (omega arith) (rw append-nil room)))
