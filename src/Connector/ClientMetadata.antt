-- ===== src/Connector/ClientMetadata.antt =====
-- lib/inc/cpp-pcp-client/connector/client_metadata.hpp and lib/src/connector/client_metadata.cc: the
-- identity of a client, read from its certificate. OpenSSL and the file system are a parameter; the
-- timeouts are not negative.
pub mod Identity
use Prim.Native.String.{String, ◌++◌ as ◌<>◌}
use cpp_pcp_client.Base.{
  ℕ, Bool, true, false, not, List, [], ◌∷◌, Option, none, some, if◌then◌else◌, Result, ok, err,
  ◌>>=◌, ◌>>◌, guard,
}
use cpp_pcp_client.Connector.Monitor.{MonitorError, config_error}

-- The type of an entry in the name of a certificate's subject.
pub data EntryType : Type 0 where
  common_name_entry other_entry : EntryType

abbrev pub Subject : Type 0
Subject = List (EntryType × String)

-- What the calls answer for the paths of files: whether a context can be made, whether its
-- certificate and key can be loaded, whether the key is encrypted, in which case OpenSSL calls back
-- for the password, whether the two belong together, and what is read from a certificate.
pub record OpenSsl : Type 0 where
  pub new_context : Bool
  pub use_certificate_file : String → Bool
  pub is_encrypted : String → Bool
  pub use_private_key_file : String → Bool
  pub check_private_key : String → String → Bool
  pub open_file : String → Bool
  pub read_x509 : String → Option Subject

-- PCP_URI_SCHEME
abbrev pub pcp_uri_scheme : String
pcp_uri_scheme = "pcp://"

pub data LogLevel : Type 0 where
  log_none log_trace log_debug log_info log_warning log_error log_fatal : LogLevel

-- `logstream` is a pointer, which three constructors leave without a value.
pub record ClientMetadata : Type 0 where
  pub ca : String
  pub crt : String
  pub key : String
  pub crl : String
  pub client_type : String
  pub common_name : String
  pub uri : String
  pub proxy : String
  pub ws_connection_timeout_ms : ℕ
  pub pong_timeouts_before_retry : ℕ
  pub pong_timeout_ms : ℕ
  pub loglevel : LogLevel
  pub logstream : Option ℕ

-- The arguments of the constructors, which differ in what they take behind the key.
pub data Extra : Type 0 where
  no_proxy : Extra
  with_proxy : String → Extra
  with_crl : String → String → Extra
  with_logging : String → String → LogLevel → ℕ → Extra

pub record Arguments : Type 0 where
  pub client_type : String
  pub ca : String
  pub crt : String
  pub key : String
  pub extra : Extra
  pub ws_connection_timeout_ms : ℕ
  pub pong_timeouts_before_retry : ℕ
  pub pong_timeout_ms : ℕ

-- `pwdCallback`, which OpenSSL calls for the password of a key.
abbrev pub pwd_callback : Bool → Result MonitorError (Unit {0})
pwd_callback is_called = guard (not is_called) config_error

-- `X509_NAME_get_entry` at 0, and its data.
unfoldable pub first_entry : Subject → Result MonitorError String
first_entry [] = err config_error
first_entry ((t, name) ∷ entries) = ok name

-- The members that every constructor sets.
unfoldable pub named : String → Arguments → ClientMetadata
named common_name a = record {
  ca = a.ca;
  crt = a.crt;
  key = a.key;
  crl = "";
  client_type = a.client_type;
  common_name = common_name;
  uri = pcp_uri_scheme <> common_name <> "/" <> a.client_type;
  proxy = "";
  ws_connection_timeout_ms = a.ws_connection_timeout_ms;
  pong_timeouts_before_retry = a.pong_timeouts_before_retry;
  pong_timeout_ms = a.pong_timeout_ms;
  loglevel = log_none;
  logstream = none;
}

-- The members that only some constructors set.
unfoldable pub extended : Extra → ClientMetadata → ClientMetadata
extended no_proxy m = m
extended (with_proxy proxy) m = record m { proxy = proxy }
extended (with_crl crl proxy) m = record m { crl = crl; proxy = proxy }
extended (with_logging crl proxy level stream) m = record m {
  crl = crl;
  proxy = proxy;
  loglevel = level;
  logstream = some stream;
}

module _ (ssl : OpenSsl) where
  open ssl use {
    new_context, use_certificate_file, is_encrypted, use_private_key_file, check_private_key,
    open_file, read_x509,
  }

  unfoldable pub validate_private_key_cert_pair : String → String → Result MonitorError (Unit {0})
  validate_private_key_cert_pair key crt = do
    guard new_context config_error
    guard (use_certificate_file crt) config_error
    pwd_callback (is_encrypted key)
    guard (use_private_key_file key) config_error
    guard (check_private_key key crt) config_error

  unfoldable pub get_common_name_from_cert : String → Result MonitorError String
  unfolding first_entry
  get_common_name_from_cert crt = do
    guard (open_file crt) config_error
    elim (read_x509 crt) [ none ↦ err config_error | some subject ↦ first_entry subject ]

  unfoldable pub make_client_metadata : Arguments → Result MonitorError ClientMetadata
  unfolding named extended
  make_client_metadata a = do
    common_name ← get_common_name_from_cert a.crt
    validate_private_key_cert_pair a.key a.crt
    ok (extended a.extra (named common_name a))
