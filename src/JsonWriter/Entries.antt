-- ===== src/JsonWriter/Entries.antt =====
-- What the getters read from a document that was made entry by entry.
use Prim.Native.String.{String}
use text.Mathlib.Text.{◌==◌ as str_eq}
use text.Mathlib.TextEquality.{eq_iff}
use cpp_pcp_client.Base.{
  ◌≡◌, ◌≢◌, refl, ◌∙◌, Bool, true, false, Bool-cases, List, [], ◌∷◌, Option, none, some,
  Option-cases, inl, inr, ok,
}
use cpp_pcp_client.Validator.Valijson.{Valijson}
use cpp_pcp_client.ParsedChunks.{JsonContainer}
use cpp_pcp_client.JsonWriter.{Value, string_value, document_value, JsonWriter, IsWriter, set_all}

-- The value of the last entry for a key.
abbrev pub last_or {ℓ} : {A : Type ℓ} → Option A → Bool → A → Option A
last_or (some w) b v = some w
last_or none true v = some v
last_or none false v = none

abbrev pub last_of {ℓ} : {A : Type ℓ} → String → List (String × A) → Option A
last_of k [] = none
last_of k ((j, v) ∷ es) = last_or (last_of k es) (str_eq j k) v

last_of-none {ℓ} :
    {A : Type ℓ} (o : Option A) (b : Bool) (v : A) → last_or o b v ≡ none → (o ≡ none) × (b ≡ false)
last_of-none (some w) b v e = cc
last_of-none none true v e = cc
last_of-none none false v e = (refl, refl)

some-injective {ℓ} : {A : Type ℓ} {a b : A} → some a ≡ some b → a ≡ b
some-injective e = cc

differs : (j k : String) → str_eq j k ≡ false → j ≢ k
differs j k e same = let yes_eq = (eq_iff j k).1 same in cc

module _ (V : Valijson) (J : JsonContainer V) (W : JsonWriter V) (w : IsWriter V J W) where
  open V use {Json}
  open J use {empty, includes, get_string, get_document}
  open W use {set}
  open w use {is_object}

  -- For a getter that reads what was set for its key, and does not mind other keys.
  module _ {A : Type 0} (g : Json → String → A)
      (keeps : (d : Json) (j k : String) (v : Value Json)
        → is_object d ≡ true
        → k ≢ j
        → g (set d k v) j ≡ g d j) where
    absent :
        (es : List (String × Value Json)) (d : Json) (k : String)
        → is_object d ≡ true
        → last_of k es ≡ none
        → g (set_all V J W d es) k ≡ g d k
    unfolding set_all
    absent [] d k h e = refl
    absent ((j, v) ∷ es) d k h e =
        let (none_later, other) = last_of-none (last_of k es) (str_eq j k) v e in
        absent es (set d j v) k (w.is_object-set d j v h) none_later
        ∙ keeps d k j v h (differs j k other)

    present :
        (es : List (String × Value Json)) (d : Json) (k : String) (v : Value Json) (a : A)
        → ((d : Json) → is_object d ≡ true → g (set d k v) k ≡ a)
        → is_object d ≡ true
        → last_of k es ≡ some v
        → g (set_all V J W d es) k ≡ a
    unfolding set_all
    present [] d k v a reads h e = cc
    present ((j, u) ∷ es) d k v a reads h e = elim (Option-cases (last_of k es)) [
      | inr (x, later) ↦
          present es (set d j u) k v a reads (w.is_object-set d j u h) (later ∙ rw later at e)
      | inl none_later ↦ elim (Bool-cases (str_eq j k)) [
        | inr other ↦ cc (rw (none_later, other) at e)
        | inl same ↦
            let key : j ≡ k = (eq_iff j k).0 same in
            let value : u ≡ v = some-injective (rw (none_later, same) at e) in
            absent es (set d j u) k (w.is_object-set d j u h) none_later
            ∙ rw (key, value) (reads d h)
      ]
    ]

  -- From the empty document, an entry is read back if no later one has its key.
  pub get_string-set_all :
      (es : List (String × Value Json)) (k s : String)
      → last_of k es ≡ some (string_value s)
      → get_string (set_all V J W empty es) k ≡ ok s
  get_string-set_all es k s =
      present get_string w.get_string-set_other es empty k (string_value s) (ok s)
        (λ d h. w.get_string-set d k s h) w.is_object-empty

  pub get_document-set_all :
      (es : List (String × Value Json)) (k : String) (e : Json)
      → last_of k es ≡ some (document_value e)
      → get_document (set_all V J W empty es) k ≡ ok e
  get_document-set_all es k e =
      present get_document w.get_document-set_other es empty k (document_value e) (ok e)
        (λ d h. w.get_document-set d k e h) w.is_object-empty

  pub includes-set_all :
      (es : List (String × Value Json)) (k : String) (v : Value Json)
      → last_of k es ≡ some v
      → includes (set_all V J W empty es) k ≡ true
  includes-set_all es k v =
      present includes w.includes-set_other es empty k v true (λ d h. w.includes-set d k v h)
        w.is_object-empty
