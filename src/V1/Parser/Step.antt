-- ===== src/V1/Parser/Step.antt =====
-- One round of the loop of `parseMessage` on a buffer split into a chunk header and the rest.
use cpp_pcp_client.Base.{
  ℕ, ◌+◌, ◌-◌, ◌*◌, ◌^◌, ◌≤◌, ◌<◌, ◌≡◌, ◌≢◌, true, false, not, ◌&&◌, List, [], ◌∷◌, ◌++◌, ◌==◌,
  length, take, drop, length-drop, ◌⊎◌, All, ok, err, ◌>>=◌, ◌>>◌, guard, arith,
}
use cpp_pcp_client.V1.Errors.{
  message_serialization_error, invalid_chunk_descriptor, missing_chunk_content,
  multiple_data_chunks,
}
use cpp_pcp_client.V1.Serialization.{
  Bytes, Host, size_mod, add_size, sub_size, deserialize_string, copy_from,
}
use cpp_pcp_client.V1.Serialization.Wire.{
  network_order, IsByte, byte_of-sum, add_size-eq, sub_size-eq, deserialize_u8-cons,
  deserialize_u32-append,
}
use cpp_pcp_client.V1.Chunks.{MessageChunk, type_bits, data_type, debug}
use cpp_pcp_client.V1.Message.{is_set}
use cpp_pcp_client.V1.Parser.{Loop, chunk_metadata_size, store_chunk, check_chunk_size, parse_chunk}

-- The loop with all of a buffer left to parse.
abbrev pub loop_at : Bytes → MessageChunk → List MessageChunk → Loop
loop_at itr held debugs = record {
  next_itr = itr;
  still_to_parse = length itr;
  data_chunk = held;
  debug_chunks = debugs;
}

-- The chunk that a header declares, with its content from the bytes behind it.
abbrev pub chunk_in : ℕ → ℕ → Bytes → MessageChunk
chunk_in desc n tail = record { descriptor = desc; size = n; content = take n tail }

-- A buffer that starts with a chunk header.
abbrev pub with_header : ℕ → ℕ → Bytes → Bytes
with_header desc n tail = desc ∷ (network_order n ++ tail)

-- Any five bytes are a header.
pub header_view :
    (itr : Bytes)
    → All IsByte itr
    → 5 ≤ length itr
    → (desc : ℕ) × (n : ℕ) × (tail : Bytes) × (itr ≡ with_header desc n tail)
      × (desc < 256)
      × (n < 2 ^ 32)
      × All IsByte tail
header_view (x ∷ a ∷ b ∷ c ∷ d ∷ tail) (hx, (ha, (hb, (hc, (hd, ht))))) h =
    (x, a * 256 ^ 3 + b * 256 ^ 2 + c * 256 + d, tail, header_bytes, hx, omega arith, ht)
  where
    header_bytes :
        x ∷ a ∷ b ∷ c ∷ d ∷ tail ≡ with_header x (a * 256 ^ 3 + b * 256 ^ 2 + c * 256 + d) tail
    header_bytes = let e = byte_of-sum a b c d ha hb hc hd in cc (e.0, e.1, e.2, e.3)
header_view itr hs h = absurd (omega arith)

module _ (h : Host) (desc n : ℕ) (tail : Bytes) (held : MessageChunk) (debugs : List MessageChunk)
    (small : n < 2 ^ 32) (room : 5 + length tail < size_mod h.width) where
  parse_chunk_lem : parse_chunk h (loop_at (with_header desc n tail) held debugs) ≡ (do
    guard
        (not (not (type_bits desc == data_type) && not (type_bits desc == debug)))
        (message_serialization_error invalid_chunk_descriptor)
    check_chunk_size n (length (with_header desc n tail) - 5)
    (content, itr3) ← deserialize_string n tail
    stored ←
        store_chunk
          (loop_at (with_header desc n tail) held debugs)
          (record { descriptor = desc; size = n; content = content })
    ok (record stored {
      next_itr = itr3;
      still_to_parse =
          sub_size h (length (with_header desc n tail)) (add_size h chunk_metadata_size n);
    }))
  unfolding parse_chunk
  parse_chunk_lem = rw (
    deserialize_u8-cons desc (network_order n ++ tail),
    deserialize_u32-append h n tail small,
    sub_size-eq h (length (with_header desc n tail)) 5 (omega arith) (omega arith),
  )

  -- What is left to parse behind the chunk.
  still_behind :
      n ≤ length tail
      → sub_size h (length (with_header desc n tail)) (add_size h chunk_metadata_size n)
        ≡ length (drop n tail)
  still_behind fits =
      rw
        (
          add_size-eq h 5 n (omega arith),
          sub_size-eq h (length (with_header desc n tail)) (5 + n) (omega arith) (omega arith),
        )
        (omega (arith, length-drop n tail))

  pub parse_chunk_bad_descriptor :
      type_bits desc ≢ data_type
      → type_bits desc ≢ debug
      → parse_chunk h (loop_at (with_header desc n tail) held debugs)
        ≡ err (message_serialization_error invalid_chunk_descriptor)
  parse_chunk_bad_descriptor not_data not_debug = ground (arith, parse_chunk_lem)

  pub parse_chunk_missing :
      (type_bits desc ≡ data_type) ⊎ (type_bits desc ≡ debug)
      → 0 < length tail
      → length tail < n
      → parse_chunk h (loop_at (with_header desc n tail) held debugs)
        ≡ err (message_serialization_error missing_chunk_content)
  unfolding check_chunk_size
  parse_chunk_missing type some_left short = ground (arith, parse_chunk_lem)

  pub parse_chunk_multiple :
      type_bits desc ≡ data_type
      → n ≤ length tail
      → is_set held ≡ true
      → parse_chunk h (loop_at (with_header desc n tail) held debugs)
        ≡ err (message_serialization_error multiple_data_chunks)
  unfolding check_chunk_size store_chunk deserialize_string copy_from
  parse_chunk_multiple type fits taken = ground (arith, parse_chunk_lem)

  pub parse_chunk_data :
      type_bits desc ≡ data_type
      → n ≤ length tail
      → is_set held ≡ false
      → parse_chunk h (loop_at (with_header desc n tail) held debugs)
        ≡ ok (loop_at (drop n tail) (chunk_in desc n tail) debugs)
  unfolding check_chunk_size store_chunk deserialize_string copy_from
  parse_chunk_data type fits free = ground (arith, parse_chunk_lem, still_behind)

  pub parse_chunk_debug :
      type_bits desc ≡ debug
      → n ≤ length tail
      → parse_chunk h (loop_at (with_header desc n tail) held debugs)
        ≡ ok (loop_at (drop n tail) held (debugs ++ chunk_in desc n tail ∷ []))
  unfolding check_chunk_size store_chunk deserialize_string copy_from
  parse_chunk_debug type fits = ground (arith, parse_chunk_lem, still_behind)
