-- ===== src/V1/Parser/Frames.antt =====
-- The format of what follows the envelope, as a relation between the bytes and an outcome.
use native.Mathlib.Decide.{dec_le, ℕ_discrete}
use cpp_pcp_client.Base.{
  ℕ, zero, suc, ◌^◌, ◌≤◌, ◌<◌, ◌≡◌, ◌≢◌, refl, ap, true, false, List, [], ◌∷◌, ◌++◌, length, drop,
  length-drop, All, All-drop, Result, ok, err, arith, ◌⊎◌, inl, inr, Bool-cases,
}
use cpp_pcp_client.V1.Errors.{
  Reason, invalid_chunk_descriptor, missing_chunk_content, multiple_data_chunks,
}
use cpp_pcp_client.V1.Serialization.{Bytes}
use cpp_pcp_client.V1.Serialization.Wire.{IsByte}
use cpp_pcp_client.V1.Chunks.{MessageChunk, type_bits, data_type, debug}
use cpp_pcp_client.V1.Message.{is_set}
use cpp_pcp_client.V1.Parser.Step.{chunk_in, with_header, header_view}

-- The data chunk and the debug chunks read, or why the bytes are refused.
abbrev pub Collected : Type 0
Collected = Result Reason (MessageChunk × List MessageChunk)

-- From the data chunk held and the debug chunks read so far, the bytes lead to the outcome. At
-- most five bytes are left over; a chunk header with nothing behind it is among these.
pub data Frames : MessageChunk → List MessageChunk → Bytes → Collected → Type 0 where
  left_over :
      (held : MessageChunk) (debugs : List MessageChunk) (itr : Bytes)
      → length itr ≤ 5
      → Frames held debugs itr (ok (held, debugs))
  bad_descriptor :
      (held : MessageChunk) (debugs : List MessageChunk) (desc n : ℕ) (itr tail : Bytes)
      → itr ≡ with_header desc n tail
      → n < 2 ^ 32
      → 0 < length tail
      → type_bits desc ≢ data_type
      → type_bits desc ≢ debug
      → Frames held debugs itr (err invalid_chunk_descriptor)
  missing_content :
      (held : MessageChunk) (debugs : List MessageChunk) (desc n : ℕ) (itr tail : Bytes)
      → itr ≡ with_header desc n tail
      → n < 2 ^ 32
      → 0 < length tail
      → (type_bits desc ≡ data_type) ⊎ (type_bits desc ≡ debug)
      → length tail < n
      → Frames held debugs itr (err missing_chunk_content)
  second_data :
      (held : MessageChunk) (debugs : List MessageChunk) (desc n : ℕ) (itr tail : Bytes)
      → itr ≡ with_header desc n tail
      → n < 2 ^ 32
      → 0 < length tail
      → type_bits desc ≡ data_type
      → n ≤ length tail
      → is_set held ≡ true
      → Frames held debugs itr (err multiple_data_chunks)
  data_chunk :
      (held : MessageChunk) (debugs : List MessageChunk) (desc n : ℕ) (itr tail : Bytes)
      {r : Collected}
      → itr ≡ with_header desc n tail
      → n < 2 ^ 32
      → 0 < length tail
      → type_bits desc ≡ data_type
      → n ≤ length tail
      → is_set held ≡ false
      → Frames (chunk_in desc n tail) debugs (drop n tail) r
      → Frames held debugs itr r
  debug_chunk :
      (held : MessageChunk) (debugs : List MessageChunk) (desc n : ℕ) (itr tail : Bytes)
      {r : Collected}
      → itr ≡ with_header desc n tail
      → n < 2 ^ 32
      → 0 < length tail
      → type_bits desc ≡ debug
      → n ≤ length tail
      → Frames held (debugs ++ chunk_in desc n tail ∷ []) (drop n tail) r
      → Frames held debugs itr r

-- Some outcome is in the relation, if it is so behind a chunk.
module _ (held : MessageChunk) (debugs : List MessageChunk) (desc n : ℕ) (tail : Bytes)
    (small : n < 2 ^ 32) (some_left : 0 < length tail)
    (rest : (held' : MessageChunk) (debugs' : List MessageChunk)
      → (r : Collected) × Frames held' debugs' (drop n tail) r) where
  abbrev itr : Bytes
  itr = with_header desc n tail

  Frames-total_data :
      type_bits desc ≡ data_type → n ≤ length tail → (r : Collected) × Frames held debugs itr r
  Frames-total_data type fits = elim (Bool-cases (is_set held)) [
    | inl taken ↦ (_, second_data held debugs desc n itr tail refl small some_left type fits taken)
    | inr free ↦
        let (r, frames) = rest (chunk_in desc n tail) debugs in
        (r, data_chunk held debugs desc n itr tail refl small some_left type fits free frames)
  ]

  Frames-total_debug :
      type_bits desc ≡ debug → n ≤ length tail → (r : Collected) × Frames held debugs itr r
  Frames-total_debug type fits =
      let (r, frames) = rest held (debugs ++ chunk_in desc n tail ∷ []) in
      (r, debug_chunk held debugs desc n itr tail refl small some_left type fits frames)

  Frames-total_chunk : (r : Collected) × Frames held debugs itr r
  Frames-total_chunk = elim (ℕ_discrete (type_bits desc) data_type) [
    | yes is_data ↦ elim (dec_le n (length tail)) [
      | yes fits ↦ Frames-total_data is_data fits
      | no short ↦ (
        _,
        missing_content held debugs desc n itr tail refl small some_left (inl is_data)
            (omega arith),
      )
    ]
    | no not_data ↦ elim (ℕ_discrete (type_bits desc) debug) [
      | yes is_debug ↦ elim (dec_le n (length tail)) [
        | yes fits ↦ Frames-total_debug is_debug fits
        | no short ↦ (
          _,
          missing_content held debugs desc n itr tail refl small some_left (inr is_debug)
              (omega arith),
        )
      ]
      | no not_debug ↦
          (_, bad_descriptor held debugs desc n itr tail refl small some_left not_data not_debug)
    ]
  ]

Frames-total_below :
    (bound : ℕ) (itr : Bytes) (held : MessageChunk) (debugs : List MessageChunk)
    → All IsByte itr
    → length itr < bound
    → (r : Collected) × Frames held debugs itr r
Frames-total_below zero itr held debugs bytes below = absurd (omega arith)
Frames-total_below (suc bound) itr held debugs bytes below = elim (dec_le (length itr) 5) [
  | yes few ↦ (_, left_over held debugs itr few)
  | no more ↦
      let (desc, n, tail, e, _, small, tail_bytes) = header_view itr bytes (omega arith) in
      let size = ap length e in
      rw e (
        Frames-total_chunk held debugs desc n tail small (omega arith) (λ held' debugs'.
          Frames-total_below bound (drop n tail) held' debugs' (All-drop IsByte n tail tail_bytes)
            (omega (arith, length-drop n tail))))
]

-- The format gives every sequence of bytes an outcome.
pub Frames-total :
    (itr : Bytes) (held : MessageChunk) (debugs : List MessageChunk)
    → All IsByte itr
    → (r : Collected) × Frames held debugs itr r
Frames-total itr held debugs bytes =
    Frames-total_below (suc (length itr)) itr held debugs bytes (omega arith)
