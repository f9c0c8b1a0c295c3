-- ===== src/V1/Parser/Format.antt =====
-- The format of a whole transport message, as a relation between the bytes and an outcome, and
-- `parseMessage` against it.
use native.Mathlib.Decide.{dec_le, ℕ_discrete}
use cpp_pcp_client.Base.{
  ℕ, ◌-◌, ◌^◌, ◌≤◌, ◌<◌, ◌≡◌, ◌≢◌, refl, List, [], ◌∷◌, length, drop, All, All-drop, ok, err, arith,
}
use cpp_pcp_client.V1.Errors.{
  Reason, message_serialization_error, unsupported_version_error, envelope_too_small,
  no_envelope_descriptor, size_too_large, no_envelope, Outcome,
}
use cpp_pcp_client.V1.Serialization.{Bytes}
use cpp_pcp_client.V1.Serialization.Wire.{IsByte}
use cpp_pcp_client.V1.Chunks.{MessageChunk, no_chunk, type_bits, envelope}
use cpp_pcp_client.V1.Message.{Message}
use cpp_pcp_client.V1.Parser.{uint_max}
use cpp_pcp_client.V1.Parser.Step.{chunk_in, with_header, header_view}
use cpp_pcp_client.V1.Parser.Frames.{Collected, Frames, Frames-total}

-- The greatest envelope size that the parser takes.
abbrev pub max_envelope_size : ℕ
max_envelope_size = uint_max - 6

abbrev pub message_of : ℕ → ℕ → Bytes → MessageChunk → List MessageChunk → Message
message_of desc n tail data_chunk debugs = record {
  version = 1;
  envelope_chunk = chunk_in desc n tail;
  data_chunk = data_chunk;
  debug_chunks = debugs;
}

pub data Format : Bytes → Outcome Message → Type 0 where
  too_small :
      (s : Bytes) → length s < 6 → Format s (err (message_serialization_error envelope_too_small))
  bad_version :
      (s : Bytes) (v : ℕ) (rest : Bytes)
      → s ≡ v ∷ rest
      → 6 ≤ length s
      → v ≢ 1
      → Format s (err (unsupported_version_error v))
  no_descriptor :
      (s : Bytes) (desc n : ℕ) (tail : Bytes)
      → s ≡ 1 ∷ with_header desc n tail
      → type_bits desc ≢ envelope
      → Format s (err (message_serialization_error no_envelope_descriptor))
  too_large :
      (s : Bytes) (desc n : ℕ) (tail : Bytes)
      → s ≡ 1 ∷ with_header desc n tail
      → n < 2 ^ 32
      → type_bits desc ≡ envelope
      → max_envelope_size < n
      → Format s (err (message_serialization_error size_too_large))
  short :
      (s : Bytes) (desc n : ℕ) (tail : Bytes)
      → s ≡ 1 ∷ with_header desc n tail
      → type_bits desc ≡ envelope
      → n ≤ max_envelope_size
      → length tail < n
      → Format s (err (message_serialization_error no_envelope))
  bad_frames :
      (s : Bytes) (desc n : ℕ) (tail : Bytes) (e : Reason)
      → s ≡ 1 ∷ with_header desc n tail
      → type_bits desc ≡ envelope
      → n ≤ max_envelope_size
      → n ≤ length tail
      → Frames no_chunk [] (drop n tail) (err e)
      → Format s (err (message_serialization_error e))
  accepted :
      (s : Bytes) (desc n : ℕ) (tail : Bytes) (held : MessageChunk) (debugs : List MessageChunk)
      → s ≡ 1 ∷ with_header desc n tail
      → type_bits desc ≡ envelope
      → n ≤ max_envelope_size
      → n ≤ length tail
      → Frames no_chunk [] (drop n tail) (ok (held, debugs))
      → Format s (ok (message_of desc n tail held debugs))

-- Some outcome is in the relation for every sequence of bytes.
module _ (desc n : ℕ) (tail : Bytes) (small : n < 2 ^ 32) (bytes : All IsByte tail) where
  abbrev whole : Bytes
  whole = 1 ∷ with_header desc n tail

  Format-of_Frames :
      (r : Collected)
      → type_bits desc ≡ envelope
      → n ≤ max_envelope_size
      → n ≤ length tail
      → Frames no_chunk [] (drop n tail) r
      → (r : Outcome Message) × Format whole r
  Format-of_Frames (ok (held, debugs)) type little fits f =
      (_, accepted whole desc n tail held debugs refl type little fits f)
  Format-of_Frames (err e) type little fits f =
      (_, bad_frames whole desc n tail e refl type little fits f)

  Format-total_frames :
      type_bits desc ≡ envelope
      → n ≤ max_envelope_size
      → n ≤ length tail
      → (r : Outcome Message) × Format whole r
  Format-total_frames type little fits =
      let (r, f) = Frames-total (drop n tail) no_chunk [] (All-drop IsByte n tail bytes) in
      Format-of_Frames r type little fits f

  Format-total_whole : (r : Outcome Message) × Format whole r
  Format-total_whole = elim (ℕ_discrete (type_bits desc) envelope) [
    | no other ↦ (_, no_descriptor whole desc n tail refl other)
    | yes type ↦ elim (dec_le n max_envelope_size) [
      | no large ↦ (_, too_large whole desc n tail refl small type (omega arith))
      | yes little ↦ elim (dec_le n (length tail)) [
        | no long ↦ (_, short whole desc n tail refl type little (omega arith))
        | yes fits ↦ Format-total_frames type little fits
      ]
    ]
  ]

Format-total_enough :
    (v : ℕ) (rest : Bytes)
    → All IsByte rest
    → 6 ≤ length (v ∷ rest)
    → (r : Outcome Message) × Format (v ∷ rest) r
Format-total_enough v rest bytes enough = elim (ℕ_discrete v 1) [
  | no other ↦ (_, bad_version (v ∷ rest) v rest refl enough other)
  | yes one ↦
      let (desc, n, tail, e, _, small, tail_bytes) = header_view rest bytes (omega arith) in
      rw (one, e) (Format-total_whole desc n tail small tail_bytes)
]

pub Format-total : (s : Bytes) → All IsByte s → (r : Outcome Message) × Format s r
Format-total [] bytes = (_, too_small [] (omega arith))
Format-total (v ∷ rest) bytes = elim (dec_le 6 (length (v ∷ rest))) [
  | yes enough ↦ Format-total_enough v rest bytes.1 enough
  | no few ↦ (_, too_small (v ∷ rest) (omega arith))
]
