-- ===== src/Connector/Connection/Tls.antt =====
-- `Connection::onTlsInit`, the verification of the broker and the log channels of
-- lib/src/connector/connection.cc. OpenSSL and asio are a parameter.
pub mod Verified
mod Tests
use Prim.Native.String.{String}
use text.Mathlib.Text.{◌==◌ as str_eq}
use cpp_pcp_client.Base.{
  ℕ, ◌==◌, ◌≡◌, ◌⊎◌, refl, Bool, true, false, not, Bool-cases, Option-cases, inl, inr, List, [],
  ◌∷◌, Option, none, some, if◌then◌else◌, Result, ok, err, ◌>>=◌, ◌>>◌, guard, bind-eq-ok,
  ok-injective, arith,
}
use cpp_pcp_client.Connector.Monitor.{MonitorError, config_error, other_error}
use cpp_pcp_client.Connector.Connection.{Connection, get_ws_uri}
use cpp_pcp_client.Connector.ClientMetadata.{
  ClientMetadata, LogLevel, log_none, log_trace, log_debug, log_info, log_warning, log_error,
  log_fatal,
}

-- `context::options` and the flags of a certificate store that the code names.
pub data TlsOption : Type 0 where
  default_workarounds no_sslv2 no_sslv3 single_dh_use : TlsOption

pub data StoreFlag : Type 0 where
  crl_check_all crl_check : StoreFlag

-- What asio and OpenSSL answer: whether a new context and the calls on it succeed, the number of
-- objects that are loaded from a file of revoked certificates, `get_host` of a `websocketpp::uri`,
-- and `rfc2818_verification` for a host.
pub record Asio : Type 0 where
  pub new_context : Bool
  pub set_options : List TlsOption → Bool
  pub use_certificate_file : String → Bool
  pub use_private_key_file : String → Bool
  pub load_verify_file : String → Bool
  pub load_crl_file : String → ℕ
  pub set_verify : Bool
  pub get_host : String → String
  pub rfc2818_verification : String → Bool → Bool

-- The certificate store of a context: the files of revoked certificates that are loaded into it,
-- and the flags that are set. OpenSSL documents that it looks a certificate up in the former only
-- under crl_check, and the certificates of its whole chain only under crl_check_all.
pub record Store : Type 0 where
  pub revocations : List String
  pub flags : List StoreFlag

-- A context, as far as it is set up: the options, the files, the store, whether the peer is
-- verified, and the host that its certificate is verified for.
pub record Context : Type 0 where
  pub options : List TlsOption
  pub crt : String
  pub key : String
  pub ca : String
  pub store : Store
  pub verify_peer : Bool
  pub verified_host : String

abbrev pub tls_options : List TlsOption
tls_options = default_workarounds ∷ no_sslv2 ∷ no_sslv3 ∷ single_dh_use ∷ []

abbrev pub new_store : Store
new_store = record { revocations = []; flags = [] }

module _ (asio : Asio) where
  open asio use {
    new_context, set_options, use_certificate_file, use_private_key_file, load_verify_file,
    load_crl_file, set_verify, get_host, rfc2818_verification,
  }

  -- The list of revoked certificates, if one is given: it is loaded, and then the flags are set.
  unfoldable pub load_revocations : String → Store → Result MonitorError Store
  load_revocations crl x509_store =
      if not (str_eq crl "")
      then (do
        guard (not (load_crl_file crl == 0)) config_error
        let loaded = record x509_store { revocations = crl ∷ x509_store.revocations }
        ok (record loaded { flags = crl_check_all ∷ crl_check ∷ loaded.flags }))
      else ok x509_store

  -- `get_host` of the URI that `getWsUri` returns. Without a broker there is no exception, but a
  -- division by zero.
  unfoldable pub broker_host : Connection → Result MonitorError String
  broker_host c = elim (get_ws_uri c) [
    | none ↦ err other_error
    | some uri_txt ↦ ok (get_host uri_txt)
  ]

  -- The exceptions of the try block are turned into connection_config_error. `set_verify` is
  -- whether the two calls that set the verification succeed.
  unfoldable pub on_tls_init : ClientMetadata → Connection → Result MonitorError Context
  unfolding load_revocations broker_host
  on_tls_init m c = do
    guard new_context other_error
    guard (set_options tls_options) config_error
    guard (use_certificate_file m.crt) config_error
    guard (use_private_key_file m.key) config_error
    guard (load_verify_file m.ca) config_error
    store ← load_revocations m.crl new_store
    host ← broker_host c
    guard set_verify config_error
    ok (record {
      options = tls_options;
      crt = m.crt;
      key = m.key;
      ca = m.ca;
      store = store;
      verify_peer = true;
      verified_host = host;
    })

  -- The callback that is set for the verification: it logs, and answers what it wraps.
  unfoldable pub verbose_verification : Context → Bool → Bool
  verbose_verification ctx preverified = rfc2818_verification ctx.verified_host preverified

-- The calls that set channels of websocketpp.
pub data Channels : Type 0 where
  no_access no_errors : Channels
  access_devel access_handshake access_connect : Channels
  error_devel error_library error_info error_warn error_rerror error_fatal : Channels

abbrev pub fatal_channels : List Channels
fatal_channels = error_fatal ∷ []

abbrev pub error_channels : List Channels
error_channels = error_rerror ∷ fatal_channels

abbrev pub warning_channels : List Channels
warning_channels = error_warn ∷ error_channels

abbrev pub info_channels : List Channels
info_channels = access_connect ∷ error_info ∷ warning_channels

abbrev pub debug_channels : List Channels
debug_channels = access_handshake ∷ error_library ∷ info_channels

abbrev pub trace_channels : List Channels
trace_channels = access_devel ∷ error_devel ∷ debug_channels

-- The cases of the `switch` fall through.
abbrev pub channels_of : LogLevel → List Channels
channels_of log_trace = trace_channels
channels_of log_debug = debug_channels
channels_of log_info = info_channels
channels_of log_warning = warning_channels
channels_of log_error = error_channels
channels_of log_fatal = fatal_channels
channels_of log_none = []

unfoldable set_web_socket_log_level : LogLevel → List Channels
set_web_socket_log_level loglevel = no_access ∷ no_errors ∷ channels_of loglevel
