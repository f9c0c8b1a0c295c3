-- ===== src/V1/Message/Built.antt =====
-- The messages that the constructors from chunks and the two setters make.
use mathlib.Core.Path.{subst}
use cpp_pcp_client.Base.{
  ◌^◌, ◌≤◌, ◌<◌, ◌≡◌, refl, ap, ◌⊎◌, inl, inr, List, [], ◌∷◌, length, All, All-append, ok,
  bind-eq-ok, ◌>>◌, ok-injective, arith, Bool-cases, false,
}
use cpp_pcp_client.V1.Errors.{Outcome}
use cpp_pcp_client.V1.Serialization.{Host}
use cpp_pcp_client.V1.Serialization.Wire.{IsHost}
use cpp_pcp_client.V1.Chunks.{MessageChunk, no_chunk}
use cpp_pcp_client.V1.Message.{
  Message, validate_chunk, of_envelope, of_data, of_debug, set_data_chunk, add_debug_chunk,
  get_serialized, is_set,
}
use cpp_pcp_client.V1.Message.Encode.{
  optional_chunks, encode, IsSized, HasSizes, get_serialized-encode,
}
use cpp_pcp_client.V1.Message.Validation.{IsKnown, HasSize, validate_chunk_ok}

-- A message is built by a constructor, and changed by a setter that does not throw.
pub data Built : Message → Type 0 where
  from_envelope : {m : Message} (envelope : MessageChunk) → of_envelope envelope ≡ ok m → Built m
  from_data :
      {m : Message} (envelope data_chunk : MessageChunk)
      → of_data envelope data_chunk ≡ ok m
      → Built m
  from_debug :
      {m : Message} (envelope data_chunk debug_chunk : MessageChunk)
      → of_debug envelope data_chunk debug_chunk ≡ ok m
      → Built m
  with_data :
      {m n : Message} (chunk : MessageChunk) → Built m → set_data_chunk m chunk ≡ ok n → Built n
  with_debug :
      {m n : Message} (chunk : MessageChunk) → Built m → add_debug_chunk m chunk ≡ ok n → Built n

abbrev pub IsValidChunk : MessageChunk → Type 0
IsValidChunk c = IsKnown c × HasSize c

-- The class invariant of a message made of chunks.
pub record IsValid (m : Message) : Type 0 where
  pub version_one : m.version ≡ 1
  pub envelope_valid : IsValidChunk m.envelope_chunk
  pub data_valid : (m.data_chunk ≡ no_chunk) ⊎ IsValidChunk m.data_chunk
  pub debug_valid : All IsValidChunk m.debug_chunks

-- What goes on behind a check, and that the check has passed.
checked :
    (c : MessageChunk) (r : Outcome Message) {m : Message}
    → (validate_chunk c >> r) ≡ ok m
    → IsValidChunk c × (r ≡ ok m)
checked c r e =
    let (_, passed, made) = bind-eq-ok (validate_chunk c) (λ _. r) e in
    (validate_chunk_ok c passed, made)

made-IsValid : {m n : Message} → IsValid m → ◌≡◌ {A = Outcome Message} (ok m) (ok n) → IsValid n
made-IsValid v e = subst IsValid (ok-injective e) v

of_envelope-IsValid : (c : MessageChunk) {m : Message} → of_envelope c ≡ ok m → IsValid m
unfolding of_envelope
of_envelope-IsValid c e =
    let (v, made) = checked c _ e in
    made-IsValid
      (record { version_one = refl; envelope_valid = v; data_valid = inl refl; debug_valid = tt })
      made

of_data-IsValid : (c d : MessageChunk) {m : Message} → of_data c d ≡ ok m → IsValid m
unfolding of_data
of_data-IsValid c d e =
    let (v, e1) = checked c _ e in
    let (w, made) = checked d _ e1 in
    made-IsValid
      (record { version_one = refl; envelope_valid = v; data_valid = inr w; debug_valid = tt }) made

of_debug-IsValid : (c d g : MessageChunk) {m : Message} → of_debug c d g ≡ ok m → IsValid m
unfolding of_debug
of_debug-IsValid c d g e =
    let (v, e1) = checked c _ e in
    let (w, e2) = checked d _ e1 in
    let (x, made) = checked g _ e2 in
    made-IsValid
      (record { version_one = refl; envelope_valid = v; data_valid = inr w; debug_valid = (x, tt) })
      made

set_data_chunk-IsValid :
    (m : Message) (c : MessageChunk) {n : Message}
    → IsValid m
    → set_data_chunk m c ≡ ok n
    → IsValid n
unfolding set_data_chunk
set_data_chunk-IsValid m c v e =
    let (w, made) = checked c _ e in
    made-IsValid
      (record {
        version_one = v.version_one;
        envelope_valid = v.envelope_valid;
        data_valid = inr w;
        debug_valid = v.debug_valid;
      })
      made

add_debug_chunk-IsValid :
    (m : Message) (c : MessageChunk) {n : Message}
    → IsValid m
    → add_debug_chunk m c ≡ ok n
    → IsValid n
unfolding add_debug_chunk
add_debug_chunk-IsValid m c v e =
    let (w, made) = checked c _ e in
    made-IsValid
      (record {
        version_one = v.version_one;
        envelope_valid = v.envelope_valid;
        data_valid = v.data_valid;
        debug_valid = All-append IsValidChunk m.debug_chunks (c ∷ []) v.debug_valid (w, tt);
      })
      made

-- Every message that is built from chunks and changed by setters has version 1, an envelope chunk,
-- data chunk (if set) and debug chunks of known types, and declares the sizes of their contents as
-- uint32_t numbers.
pub Built-IsValid : {m : Message} → Built m → IsValid m
Built-IsValid (from_envelope c e) = of_envelope-IsValid c e
Built-IsValid (from_data c d e) = of_data-IsValid c d e
Built-IsValid (from_debug c d g e) = of_debug-IsValid c d g e
Built-IsValid (with_data {m = m} c b e) = set_data_chunk-IsValid m c (Built-IsValid b) e
Built-IsValid (with_debug {m = m} c b e) = add_debug_chunk-IsValid m c (Built-IsValid b) e

-- A content that a uint32_t can count.
abbrev pub IsSmall : MessageChunk → Type 0
IsSmall c = length c.content < 2 ^ 32

IsValidChunk-IsSized : (c : MessageChunk) → IsSmall c → IsValidChunk c → IsSized c
IsValidChunk-IsSized c small v = omega (arith, v.1)

All-IsSized : (cs : List MessageChunk) → All IsSmall cs → All IsValidChunk cs → All IsSized cs
All-IsSized [] s v = tt
All-IsSized (c ∷ cs) s v = (IsValidChunk-IsSized c s.0 v.0, All-IsSized cs s.1 v.1)

IsValid-HasSizes :
    (m : Message)
    → IsSmall m.envelope_chunk
    → IsSmall m.data_chunk
    → All IsSmall m.debug_chunks
    → IsValid m
    → HasSizes m
unfolding optional_chunks
IsValid-HasSizes m se sd sg v =
    let debugs = All-IsSized m.debug_chunks sg v.debug_valid in
    (
      IsValidChunk-IsSized m.envelope_chunk se v.envelope_valid,
      elim v.data_valid [
        | inl none ↦ let unset : is_set m.data_chunk ≡ false = ap is_set none in rw unset debugs
        | inr w ↦ elim (Bool-cases (is_set m.data_chunk)) [
          | inl set ↦ rw set (IsValidChunk-IsSized m.data_chunk sd w, debugs)
          | inr unset ↦ rw unset debugs
        ]
      ],
    )

-- A message built from chunks is serialized without an exception, to its encoding, if no content
-- is longer than a uint32_t counts and the encoding fits in a vector.
pub get_serialized-Built :
    (h : Host) (m : Message)
    → Built m
    → IsHost h
    → IsSmall m.envelope_chunk
    → IsSmall m.data_chunk
    → All IsSmall m.debug_chunks
    → length (encode m) ≤ h.max_size
    → get_serialized h m ≡ ok (encode m)
get_serialized-Built h m b host se sd sg fits =
    get_serialized-encode h m host (IsValid-HasSizes m se sd sg (Built-IsValid b)) fits
