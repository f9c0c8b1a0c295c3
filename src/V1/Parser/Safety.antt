-- ===== src/V1/Parser/Safety.antt =====
-- What holds of every run of `parseMessage`, whatever the bytes: no fault, and a message that is
-- well formed if there is one.
use cpp_pcp_client.Base.{
  ℕ, ◌^◌, ◌≤◌, ◌<◌, ◌≡◌, ◌≢◌, refl, List, length, length-take, All, All-append, ok, err, arith, inl,
  inr, ◌⊎◌,
}
use cpp_pcp_client.V1.Errors.{Fault, fault, Outcome}
use cpp_pcp_client.V1.Serialization.{Bytes, Host, size_mod}
use cpp_pcp_client.V1.Serialization.Wire.{IsByte}
use cpp_pcp_client.V1.Chunks.{MessageChunk, no_chunk, type_bits, envelope, data_type, debug}
use cpp_pcp_client.V1.Message.{Message}
use cpp_pcp_client.V1.Parser.{parse_message}
use cpp_pcp_client.V1.Parser.Step.{chunk_in}
use cpp_pcp_client.V1.Parser.Frames.{
  Collected, Frames, left_over, bad_descriptor, missing_content, second_data, data_chunk,
  debug_chunk,
}
use cpp_pcp_client.V1.Parser.Format.{
  Format, too_small, bad_version, no_descriptor, too_large, short, bad_frames, accepted,
  max_envelope_size,
}
use cpp_pcp_client.V1.Parser.Decides.{parse_message_iff}

Format-ne-fault : {s : Bytes} {r : Outcome Message} {why : Fault} → Format s r → r ≢ err (fault why)
Format-ne-fault (too_small s few) e = cc
Format-ne-fault (bad_version s v rest _ enough other) e = cc
Format-ne-fault (no_descriptor s desc n tail _ other) e = cc
Format-ne-fault (too_large s desc n tail _ small type large) e = cc
Format-ne-fault (short s desc n tail _ type little long) e = cc
Format-ne-fault (bad_frames s desc n tail why _ type little fits f) e = cc
Format-ne-fault (accepted s desc n tail held debugs _ type little fits f) e = cc

-- Whatever bytes arrive, as long as size_t counts them, `parse_message` never reads outside the
-- buffer, never fails an assert and never runs out of rounds.
pub parse_message-ne-fault :
    (h : Host) (s : Bytes) (why : Fault)
    → All IsByte s
    → length s < size_mod h.width
    → parse_message h s ≢ err (fault why)
parse_message-ne-fault h s why bytes room e =
    Format-ne-fault ((parse_message_iff h s _ bytes room).0 refl) e

-- A chunk of the given type whose content has the declared size, a uint32_t.
pub record IsChunkOf (type : ℕ) (c : MessageChunk) : Type 0 where
  pub typed : type_bits c.descriptor ≡ type
  pub sized : length c.content ≡ c.size
  pub size_u32 : c.size < 2 ^ 32

-- No data chunk, or a chunk of the data type.
abbrev pub IsData : MessageChunk → Type 0
IsData c = (c ≡ no_chunk) ⊎ IsChunkOf data_type c

-- The class invariant of a message that has come over the wire.
pub record IsWellFormed (m : Message) : Type 0 where
  pub version_one : m.version ≡ 1
  pub has_envelope : IsChunkOf envelope m.envelope_chunk
  pub envelope_fits : m.envelope_chunk.size ≤ max_envelope_size
  pub data_or_none : IsData m.data_chunk
  pub all_debug : All (IsChunkOf debug) m.debug_chunks

chunk_in-IsChunkOf :
    (type desc n : ℕ) (tail : Bytes)
    → type_bits desc ≡ type
    → n < 2 ^ 32
    → n ≤ length tail
    → IsChunkOf type (chunk_in desc n tail)
chunk_in-IsChunkOf type desc n tail typed small fits = record {
  typed = typed;
  sized = omega (arith, length-take n tail);
  size_u32 = small;
}

abbrev AreCollected : Collected → Type 0
AreCollected (ok (held, debugs)) = IsData held × All (IsChunkOf debug) debugs
AreCollected (err e) = Unit

Frames-AreCollected :
    {held : MessageChunk} {debugs : List MessageChunk} {itr : Bytes} {r : Collected}
    → Frames held debugs itr r
    → IsData held
    → All (IsChunkOf debug) debugs
    → AreCollected r
Frames-AreCollected (left_over held debugs itr few) d g = (d, g)
Frames-AreCollected (bad_descriptor held debugs desc n itr tail _ _ _ _ _) d g = tt
Frames-AreCollected (missing_content held debugs desc n itr tail _ _ _ _ _) d g = tt
Frames-AreCollected (second_data held debugs desc n itr tail _ _ _ _ _ _) d g = tt
Frames-AreCollected (data_chunk held debugs desc n itr tail _ small _ type fits _ f) d g =
    Frames-AreCollected f (inr (chunk_in-IsChunkOf data_type desc n tail type small fits)) g
Frames-AreCollected (debug_chunk held debugs desc n itr tail _ small _ type fits f) d g =
    Frames-AreCollected f d (
      All-append (IsChunkOf debug) debugs _ g
        (chunk_in-IsChunkOf debug desc n tail type small fits, tt))

abbrev IsParsed : Outcome Message → Type 0
IsParsed (ok m) = IsWellFormed m
IsParsed (err e) = Unit

Format-IsParsed : {s : Bytes} {r : Outcome Message} → Format s r → IsParsed r
Format-IsParsed (too_small s few) = tt
Format-IsParsed (bad_version s v rest _ enough other) = tt
Format-IsParsed (no_descriptor s desc n tail _ other) = tt
Format-IsParsed (too_large s desc n tail _ small type large) = tt
Format-IsParsed (short s desc n tail _ type little long) = tt
Format-IsParsed (bad_frames s desc n tail why _ type little fits f) = tt
Format-IsParsed (accepted s desc n tail held debugs _ type little fits f) =
    let (d, g) = Frames-AreCollected f (inl refl) tt in
    record {
      version_one = refl;
      has_envelope = chunk_in-IsChunkOf envelope desc n tail type (omega arith) fits;
      envelope_fits = little;
      data_or_none = d;
      all_debug = g;
    }

-- A message that `parse_message` returns has version 1, an envelope chunk of the envelope type and
-- within the size limit, at most a data chunk of the data type and only debug chunks behind it,
-- each with as many bytes of content as it declares.
pub parse_message-IsWellFormed :
    (h : Host) (s : Bytes) (m : Message)
    → All IsByte s
    → length s < size_mod h.width
    → parse_message h s ≡ ok m
    → IsWellFormed m
parse_message-IsWellFormed h s m bytes room e =
    Format-IsParsed {r = ok m} ((parse_message_iff h s (ok m) bytes room).0 e)
