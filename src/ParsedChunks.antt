-- ===== src/ParsedChunks.antt =====
-- lib/inc/cpp-pcp-client/protocol/parsed_chunks.hpp and lib/src/protocol/parsed_chunks.cc: what
-- both message formats hand to the callbacks. With leatherman's JsonContainer as far as the
-- messages use it: the document library is not part of the repository.
use Prim.Native.String.{String}
use cpp_pcp_client.Base.{ℕ, Bool, true, false, List, [], Option}
use cpp_pcp_client.Validator.Errors.{Outcome}
use cpp_pcp_client.Validator.Valijson.{Valijson}
use cpp_pcp_client.Validator.Schema.{ContentType, json, binary}
use cpp_pcp_client.V1.Serialization.{Bytes}

module _ (V : Valijson) where
  open V use {Json}

  -- `parse` is the constructor from a text, which throws data_parse_error on a text that is no
  -- JSON; the getters throw if the entry is missing or has another type. `get_own_string` reads the
  -- document itself.
  pub record JsonContainer : Type 0 where
    pub empty : Json
    pub parse : Bytes → Option Json
    pub includes : Json → String → Bool
    pub get_own_string : Json → Outcome String
    pub get_string : Json → String → Outcome String
    pub get_bool : Json → String → Outcome Bool
    pub get_document : Json → String → Outcome Json
    pub get_documents : Json → String → Outcome (List Json)

  pub record ParsedChunks : Type 0 where
    pub envelope : Json
    pub has_data : Bool
    pub invalid_data : Bool
    pub data_type : ContentType
    pub data_json : Json
    pub binary_data : Bytes
    pub debug : List Json
    pub num_invalid_debug : ℕ

  module _ (J : JsonContainer) where
    open J use {empty}

    abbrev pub default_chunks : ParsedChunks
    default_chunks = record {
      envelope = empty;
      has_data = false;
      invalid_data = false;
      data_type = json;
      data_json = empty;
      binary_data = [];
      debug = [];
      num_invalid_debug = 0;
    }

    unfoldable pub without_data : Json → List Json → ℕ → ParsedChunks
    without_data envelope debug num_invalid_debug = record default_chunks {
      envelope = envelope;
      debug = debug;
      num_invalid_debug = num_invalid_debug;
    }

    unfoldable pub with_invalid_data : Json → Bool → List Json → ℕ → ParsedChunks
    with_invalid_data envelope invalid_data debug num_invalid_debug = record default_chunks {
      envelope = envelope;
      has_data = invalid_data;
      invalid_data = invalid_data;
      debug = debug;
      num_invalid_debug = num_invalid_debug;
    }

    unfoldable pub with_json_data : Json → Json → List Json → ℕ → ParsedChunks
    with_json_data envelope document debug num_invalid_debug = record default_chunks {
      envelope = envelope;
      has_data = true;
      data_json = document;
      debug = debug;
      num_invalid_debug = num_invalid_debug;
    }

    unfoldable pub with_binary_data : Json → Bytes → List Json → ℕ → ParsedChunks
    with_binary_data envelope bytes debug num_invalid_debug = record default_chunks {
      envelope = envelope;
      has_data = true;
      data_type = binary;
      binary_data = bytes;
      debug = debug;
      num_invalid_debug = num_invalid_debug;
    }
