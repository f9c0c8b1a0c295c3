-- ===== src/V1/Message/Validation.antt =====
-- `Message::validateChunk`: its outcomes.
use cpp_pcp_client.Base.{◌%◌, ◌^◌, ◌≡◌, ◌≢◌, ◌⊎◌, inl, inr, length, ok, err, arith, sym, ◌∙◌}
use cpp_pcp_client.V1.Errors.{invalid_chunk_error, unknown_descriptor, invalid_size}
use cpp_pcp_client.V1.Chunks.{MessageChunk, type_bits, names, envelope, data_type, debug}
use cpp_pcp_client.V1.Message.{validate_chunk}

-- The descriptor names one of the three types of chunk.
abbrev pub IsKnown : MessageChunk → Type 0
IsKnown c =
    (type_bits c.descriptor ≡ envelope)
    ⊎ ((type_bits c.descriptor ≡ data_type) ⊎ (type_bits c.descriptor ≡ debug))

-- The declared size is that of the content, as a uint32_t.
abbrev pub HasSize : MessageChunk → Type 0
HasSize c = c.size ≡ length c.content % 2 ^ 32

-- One of three holds of every chunk: it is accepted, of a known type and with the size of its
-- content as a uint32_t; it is refused for its size, with a known type and another size; or it is
-- refused for its descriptor, whatever its size, with no known type. The assert never fails.
pub validate_chunk_lem :
    (c : MessageChunk)
    → (IsKnown c × HasSize c × (validate_chunk c ≡ ok tt))
      ⊎ ((IsKnown c
            × (c.size ≢ length c.content % 2 ^ 32)
            × (validate_chunk c ≡ err (invalid_chunk_error invalid_size)))
          ⊎ ((¬ IsKnown c) × (validate_chunk c ≡ err (invalid_chunk_error unknown_descriptor))))
unfolding validate_chunk names
validate_chunk_lem c = ground arith

pub validate_chunk_ok : (c : MessageChunk) → validate_chunk c ≡ ok tt → IsKnown c × HasSize c
validate_chunk_ok c e = elim (validate_chunk_lem c) [
  | inl (known, sized, _) ↦ (known, sized)
  | inr (inl (_, _, refused)) ↦ cc (sym refused ∙ e)
  | inr (inr (_, refused)) ↦ cc (sym refused ∙ e)
]
