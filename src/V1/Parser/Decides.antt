-- ===== src/V1/Parser/Decides.antt =====
-- `parseMessage` against the format.
use mathlib.Core.Path.{subst}
use cpp_pcp_client.Base.{
  ℕ, suc, ◌+◌, ◌^◌, ◌≤◌, ◌<◌, ◌≡◌, ◌≢◌, ◌↔◌, sym, ap, ◌∙◌, [], ◌∷◌, ◌++◌, length, drop, length-drop,
  All, ok, err, ◌>>=◌, arith,
}
use cpp_pcp_client.V1.Errors.{
  Reason, message_serialization_error, unsupported_version_error, envelope_too_small,
  no_envelope_descriptor, size_too_large, no_envelope, Outcome,
}
use cpp_pcp_client.V1.Serialization.{
  Bytes, Host, size_mod, add_size, sub_size, deserialize_string, copy_from,
}
use cpp_pcp_client.V1.Serialization.Wire.{
  IsByte, network_order, add_size-eq, sub_size-eq, deserialize_u8-cons, deserialize_u32-append,
}
use cpp_pcp_client.V1.Chunks.{no_chunk, type_bits, envelope}
use cpp_pcp_client.V1.Message.{Message, validate_version}
use cpp_pcp_client.V1.Parser.{parse_envelope, parse_message}
use cpp_pcp_client.V1.Parser.Step.{chunk_in, with_header}
use cpp_pcp_client.V1.Parser.Frames.{Collected, Frames}
use cpp_pcp_client.V1.Parser.Rounds.{Frames-parse_chunks, raised}
use cpp_pcp_client.V1.Parser.Format.{
  Format, too_small, bad_version, no_descriptor, too_large, short, bad_frames, accepted,
  Format-total, max_envelope_size, message_of,
}

too_small-parse_message :
    (h : Host) (s : Bytes)
    → length s < 6
    → parse_message h s ≡ err (message_serialization_error envelope_too_small)
unfolding parse_message
too_small-parse_message h s few = ground arith

bad_version-parse_message :
    (h : Host) (v : ℕ) (rest : Bytes)
    → 6 ≤ length (v ∷ rest)
    → v ≢ 1
    → parse_message h (v ∷ rest) ≡ err (unsupported_version_error v)
unfolding parse_message validate_version
bad_version-parse_message h v rest enough other = ground (arith, deserialize_u8-cons v rest)

module _ (h : Host) (desc n : ℕ) (tail : Bytes) where
  abbrev message_bytes : Bytes
  message_bytes = 1 ∷ with_header desc n tail

  parse_envelope_no_descriptor :
      type_bits desc ≢ envelope
      → parse_envelope h (length message_bytes) (with_header desc n tail)
        ≡ err (message_serialization_error no_envelope_descriptor)
  unfolding parse_envelope
  parse_envelope_no_descriptor other =
      ground (arith, deserialize_u8-cons desc (network_order n ++ tail))

  parse_envelope_too_large :
      n < 2 ^ 32
      → type_bits desc ≡ envelope
      → max_envelope_size < n
      → parse_envelope h (length message_bytes) (with_header desc n tail)
        ≡ err (message_serialization_error size_too_large)
  unfolding parse_envelope
  parse_envelope_too_large small type large = ground (
    arith,
    deserialize_u8-cons desc (network_order n ++ tail),
    deserialize_u32-append h n tail small,
  )

  parse_envelope_short :
      type_bits desc ≡ envelope
      → n ≤ max_envelope_size
      → length tail < n
      → parse_envelope h (length message_bytes) (with_header desc n tail)
        ≡ err (message_serialization_error no_envelope)
  unfolding parse_envelope
  parse_envelope_short type little long = ground (
    arith,
    deserialize_u8-cons desc (network_order n ++ tail),
    deserialize_u32-append h n tail (omega arith),
    add_size-eq h 6 n (ground arith),
  )

  parse_envelope_read :
      type_bits desc ≡ envelope
      → n ≤ max_envelope_size
      → n ≤ length tail
      → parse_envelope h (length message_bytes) (with_header desc n tail)
        ≡ ok (chunk_in desc n tail, drop n tail)
  unfolding parse_envelope deserialize_string copy_from
  parse_envelope_read type little fits = ground (
    arith,
    deserialize_u8-cons desc (network_order n ++ tail),
    deserialize_u32-append h n tail (omega arith),
    add_size-eq h 6 n (ground arith),
  )

  parse_message_refused :
      {e : Reason}
      → parse_envelope h (length message_bytes) (with_header desc n tail)
        ≡ err (message_serialization_error e)
      → parse_message h message_bytes ≡ err (message_serialization_error e)
  unfolding parse_message validate_version
  parse_message_refused e = ground (arith, deserialize_u8-cons 1 (with_header desc n tail))

  parse_message_read :
      {r : Collected}
      → type_bits desc ≡ envelope
      → n ≤ max_envelope_size
      → n ≤ length tail
      → length message_bytes < size_mod h.width
      → Frames no_chunk [] (drop n tail) r
      → parse_message h message_bytes ≡ (raised r >>= λ c. ok (message_of desc n tail c.0 c.1))
  unfolding parse_message validate_version
  parse_message_read {r} type little fits room f =
      let used : add_size h 6 n ≡ 6 + n = add_size-eq h 6 n (omega arith) in
      let still : sub_size h (length message_bytes) (6 + n) ≡ length (drop n tail) =
        sub_size-eq h (length message_bytes) (6 + n) (omega arith) room
        ∙ omega (arith, length-drop n tail) in
      let loop =
        Frames-parse_chunks h (suc (length message_bytes)) f (omega (arith, length-drop n tail))
          (omega (arith, length-drop n tail)) in
      ground (
        arith,
        deserialize_u8-cons 1 (with_header desc n tail),
        parse_envelope_read type little fits,
        used,
        still,
        loop,
      )

-- What the format gives to the bytes, `parse_message` returns.
pub Format-parse_message :
    (h : Host) {s : Bytes} {r : Outcome Message}
    → Format s r
    → length s < size_mod h.width
    → parse_message h s ≡ r
Format-parse_message h (too_small s few) room = too_small-parse_message h s few
Format-parse_message h (bad_version s v rest e enough other) room =
    rw e (bad_version-parse_message h v rest (omega (arith, ap length e)) other)
Format-parse_message h (no_descriptor s desc n tail e other) room =
    rw e (parse_message_refused h desc n tail (parse_envelope_no_descriptor h desc n tail other))
Format-parse_message h (too_large s desc n tail e small type large) room =
    rw e (
      parse_message_refused h desc n tail (parse_envelope_too_large h desc n tail small type large))
Format-parse_message h (short s desc n tail e type little long) room =
    rw e (parse_message_refused h desc n tail (parse_envelope_short h desc n tail type little long))
Format-parse_message h (bad_frames s desc n tail why e type little fits f) room =
    rw e (parse_message_read h desc n tail type little fits (omega (arith, ap length e)) f)
Format-parse_message h (accepted s desc n tail held debugs e type little fits f) room =
    rw e (parse_message_read h desc n tail type little fits (omega (arith, ap length e)) f)

-- On any bytes that size_t can count, `parse_message` gives exactly the outcome of the format: it
-- ends, accepts what the format accepts, and refuses the rest with the exception of its case.
pub parse_message_iff :
    (h : Host) (s : Bytes) (r : Outcome Message)
    → All IsByte s
    → length s < size_mod h.width
    → (parse_message h s ≡ r) ↔ Format s r
parse_message_iff h s r bytes room =
    let (q, f) = Format-total s bytes in
    (
      (λ e. subst (Format s) (sym (Format-parse_message h f room) ∙ e) f),
      λ f'. Format-parse_message h f' room,
    )
