-- ===== src/V1/Parser/Rounds.antt =====
-- The loop of `parseMessage` against the format of what follows the envelope.
use cpp_pcp_client.Base.{
  ℕ, zero, suc, ◌+◌, ◌≤◌, ◌<◌, ◌≡◌, ap, List, length, length-drop, Result, ok, err, ◌>>=◌, arith,
}
use cpp_pcp_client.V1.Errors.{Reason, message_serialization_error, Outcome}
use cpp_pcp_client.V1.Serialization.{Bytes, Host, size_mod}
use cpp_pcp_client.V1.Chunks.{MessageChunk}
use cpp_pcp_client.V1.Parser.{Loop, parse_chunk, parse_chunks}
use cpp_pcp_client.V1.Parser.Step.{
  loop_at, with_header, parse_chunk_bad_descriptor, parse_chunk_missing, parse_chunk_multiple,
  parse_chunk_data, parse_chunk_debug,
}
use cpp_pcp_client.V1.Parser.Frames.{
  Collected, Frames, left_over, bad_descriptor, missing_content, second_data, data_chunk,
  debug_chunk,
}

-- The exception that an outcome stands for, and what the loop hands on.
abbrev pub raised {ℓ} : {A : Type ℓ} → Result Reason A → Outcome A
raised (ok a) = ok a
raised (err e) = err (message_serialization_error e)

abbrev pub collected : Outcome Loop → Outcome (MessageChunk × List MessageChunk)
collected r = r >>= λ s. ok (s.data_chunk, s.debug_chunks)

parse_chunks_next :
    (h : Host) (fuel : ℕ) (s : Loop) {r : Outcome Loop}
    → 5 < s.still_to_parse
    → parse_chunk h s ≡ r
    → parse_chunks h (suc fuel) s ≡ (r >>= parse_chunks h fuel)
unfolding parse_chunks
parse_chunks_next h fuel s more e = ground arith

parse_chunks_last :
    (h : Host) (fuel : ℕ) (s : Loop) → s.still_to_parse ≤ 5 → parse_chunks h (suc fuel) s ≡ ok s
unfolding parse_chunks
parse_chunks_last h fuel s few = ground arith

-- A header at the front of the buffer: what bounds the buffer bounds what follows the header.
shorter :
    {itr : Bytes} {k : ℕ} (desc n : ℕ) (tail : Bytes)
    → itr ≡ with_header desc n tail
    → length itr < k
    → 5 + length tail < k
shorter desc n tail e below = omega (arith, ap length e)

-- With more rounds of fuel than bytes, the loop ends with the outcome that the format gives.
pub Frames-parse_chunks :
    (h : Host) (fuel : ℕ) {itr : Bytes} {held : MessageChunk} {debugs : List MessageChunk}
    {r : Collected}
    → Frames held debugs itr r
    → length itr < fuel
    → length itr < size_mod h.width
    → collected (parse_chunks h fuel (loop_at itr held debugs)) ≡ raised r
Frames-parse_chunks h zero f below room = absurd (omega arith)
Frames-parse_chunks h (suc fuel) (left_over held debugs itr few) below room =
    rw (parse_chunks_last h fuel (loop_at itr held debugs) few)
Frames-parse_chunks h (suc fuel)
      (bad_descriptor held debugs desc n itr tail e small some_left not_data not_debug) below room =
    rw (
      e,
      parse_chunks_next h fuel (loop_at (with_header desc n tail) held debugs) (omega arith) (
          parse_chunk_bad_descriptor h desc n tail held debugs small (shorter desc n tail e room)
            not_data not_debug),
    )
Frames-parse_chunks h (suc fuel)
      (missing_content held debugs desc n itr tail e small some_left type short) below room =
    rw (
      e,
      parse_chunks_next h fuel (loop_at (with_header desc n tail) held debugs) (omega arith) (
          parse_chunk_missing h desc n tail held debugs small (shorter desc n tail e room) type
            some_left short),
    )
Frames-parse_chunks h (suc fuel)
      (second_data held debugs desc n itr tail e small some_left type fits taken) below room =
    rw (
      e,
      parse_chunks_next h fuel (loop_at (with_header desc n tail) held debugs) (omega arith) (
          parse_chunk_multiple h desc n tail held debugs small (shorter desc n tail e room) type
            fits taken),
    )
Frames-parse_chunks h (suc fuel)
      (data_chunk held debugs desc n itr tail e small some_left type fits free f) below room =
    rw
      (
        e,
        parse_chunks_next h fuel (loop_at (with_header desc n tail) held debugs) (omega arith) (
            parse_chunk_data h desc n tail held debugs small (shorter desc n tail e room) type fits
              free),
      )
      (Frames-parse_chunks h fuel f (omega (arith, length-drop n tail, shorter desc n tail e below))
        (omega (arith, length-drop n tail, shorter desc n tail e room)))
Frames-parse_chunks h (suc fuel)
      (debug_chunk held debugs desc n itr tail e small some_left type fits f) below room =
    rw
      (
        e,
        parse_chunks_next h fuel (loop_at (with_header desc n tail) held debugs) (omega arith) (
            parse_chunk_debug h desc n tail held debugs small (shorter desc n tail e room) type
              fits),
      )
      (Frames-parse_chunks h fuel f (omega (arith, length-drop n tail, shorter desc n tail e below))
        (omega (arith, length-drop n tail, shorter desc n tail e room)))
