-- ===== src/JsonWriter.antt =====
-- The making of documents by leatherman's JsonContainer, as far as lib/src/connector uses it, and
-- what is documented of it.
pub mod Entries
pub mod Objects
use Prim.Native.String.{String}
use cpp_pcp_client.Base.{◌≡◌, ◌≢◌, Bool, true, List, [], ◌∷◌, ok}
use cpp_pcp_client.Validator.Valijson.{Valijson}
use cpp_pcp_client.ParsedChunks.{JsonContainer}
use cpp_pcp_client.V1.Serialization.{Bytes}

-- A value, by the type for which `set` is called.
pub data Value (Json : Type 0) : Type 0 where
  string_value : String → Value Json
  strings_value : List String → Value Json
  flag_value : Bool → Value Json
  document_value : Json → Value Json

module _ (V : Valijson) where
  open V use {Json}

  -- `set` on an object, and `toString`.
  pub record JsonWriter : Type 0 where
    pub set : Json → String → Value Json → Json
    pub to_string : Json → Bytes

  module _ (J : JsonContainer V) (W : JsonWriter) where
    open J use {empty, includes, get_string, get_document}
    open W use {set}

    -- The getters of an object give what was set last for their key.
    pub record IsWriter : Type 0 where
      pub is_object : Json → Bool
      pub is_object-empty : is_object empty ≡ true
      pub is_object-set :
          (d : Json) (k : String) (v : Value Json)
          → is_object d ≡ true
          → is_object (set d k v) ≡ true
      pub includes-set :
          (d : Json) (k : String) (v : Value Json)
          → is_object d ≡ true
          → includes (set d k v) k ≡ true
      pub get_string-set :
          (d : Json) (k s : String)
          → is_object d ≡ true
          → get_string (set d k (string_value s)) k ≡ ok s
      pub get_document-set :
          (d : Json) (k : String) (e : Json)
          → is_object d ≡ true
          → get_document (set d k (document_value e)) k ≡ ok e
      pub includes-set_other :
          (d : Json) (j k : String) (v : Value Json)
          → is_object d ≡ true
          → k ≢ j
          → includes (set d k v) j ≡ includes d j
      pub get_string-set_other :
          (d : Json) (j k : String) (v : Value Json)
          → is_object d ≡ true
          → k ≢ j
          → get_string (set d k v) j ≡ get_string d j
      pub get_document-set_other :
          (d : Json) (j k : String) (v : Value Json)
          → is_object d ≡ true
          → k ≢ j
          → get_document (set d k v) j ≡ get_document d j

    -- One `set` for each entry.
    unfoldable pub set_all : Json → List (String × Value Json) → Json
    set_all d [] = d
    set_all d ((k, v) ∷ es) = set_all (set d k v) es
