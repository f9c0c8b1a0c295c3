-- ===== src/Connector/Connection/Tls/Verified.antt =====
-- What a TLS context of a connection verifies.
use Prim.Native.String.{String}
use text.Mathlib.Text.{◌==◌ as str_eq}
use text.Mathlib.TextEquality.{eq_iff}
use cpp_pcp_client.Base.{
  ◌≡◌, ◌⊎◌, ◌<◌, ◌==◌, refl, ap, sym, ◌∙◌, Bool, true, false, Bool-cases, inl, inr, [], ◌∷◌, some,
  ok, guard, bind-eq-ok, ok-injective, arith,
}
use cpp_pcp_client.Connector.Monitor.{config_error, other_error}
use cpp_pcp_client.Connector.Connection.{Connection, get_ws_uri}
use cpp_pcp_client.Connector.ClientMetadata.{ClientMetadata}
use cpp_pcp_client.Connector.Connection.Tls.{
  Asio, Context, Store, crl_check_all, crl_check, tls_options, new_store, load_revocations,
  broker_host, on_tls_init, verbose_verification,
}

-- The store that a context for the given file of revoked certificates must have.
abbrev pub checking_store : String → Store
checking_store crl = record { revocations = crl ∷ []; flags = crl_check_all ∷ crl_check ∷ [] }

guarded : (b : Bool) {u : Unit} → guard b config_error ≡ ok u → b ≡ true
guarded true e = refl
guarded false e = cc

module _ (asio : Asio) where
  open asio use {get_host, rfc2818_verification, load_crl_file}

  broker_host-of :
      (c : Connection) (uri host : String)
      → get_ws_uri c ≡ some uri
      → broker_host asio c ≡ ok host
      → host ≡ get_host uri
  unfolding broker_host
  broker_host-of c uri host current e = sym (ok-injective (rw (broker_host, current) at e))

  load_revocations-checks :
      (crl : String) (store : Store)
      → load_revocations asio crl new_store ≡ ok store
      → ((crl ≡ "") × (store ≡ new_store))
        ⊎ ((0 < load_crl_file crl) × (store ≡ checking_store crl))
  unfolding load_revocations
  load_revocations-checks crl store e = elim (Bool-cases (str_eq crl "")) [
    | inl empty ↦
        inl ((eq_iff crl "").0 empty, sym (ok-injective (rw (load_revocations, empty) at e)))
    | inr some_file ↦ elim (Bool-cases (load_crl_file crl == 0)) [
      | inl nothing ↦ cc (rw (load_revocations, some_file, nothing) at e)
      | inr loaded ↦
          inr (ground arith, sym (ok-injective (rw (load_revocations, some_file, loaded) at e)))
    ]
  ]

  -- A context is made only if asio takes the certificate, the key and the authority of the client.
  -- It then verifies the peer, and accepts a certificate exactly if `rfc2818_verification` does for
  -- the host of the broker that the connection is to. If the client gives a file of revoked
  -- certificates, something was loaded from it into the store of the context, and the flags for
  -- checking a certificate and its whole chain against it are set.
  pub on_tls_init-verifies :
      (m : ClientMetadata) (c : Connection) (ctx : Context) (uri : String) (preverified : Bool)
      → get_ws_uri c ≡ some uri
      → on_tls_init asio m c ≡ ok ctx
      → (asio.use_certificate_file m.crt ≡ true)
        × (asio.use_private_key_file m.key ≡ true)
        × (asio.load_verify_file m.ca ≡ true)
        × (ctx.verify_peer ≡ true)
        × (verbose_verification asio ctx preverified
            ≡ rfc2818_verification (get_host uri) preverified)
        × (((m.crl ≡ "") × (ctx.store ≡ new_store))
            ⊎ ((0 < load_crl_file m.crl) × (ctx.store ≡ checking_store m.crl)))
  unfolding on_tls_init verbose_verification
  on_tls_init-verifies m c ctx uri preverified current e =
      let (_, _, e1) = bind-eq-ok (guard asio.new_context other_error) _ e in
      let (_, _, e2) = bind-eq-ok (guard (asio.set_options tls_options) config_error) _ e1 in
      let (_, has_crt, e3) =
        bind-eq-ok (guard (asio.use_certificate_file m.crt) config_error) _ e2 in
      let (_, has_key, e4) =
        bind-eq-ok (guard (asio.use_private_key_file m.key) config_error) _ e3 in
      let (_, has_ca, e5) = bind-eq-ok (guard (asio.load_verify_file m.ca) config_error) _ e4 in
      let (store, given, e6) = bind-eq-ok (load_revocations asio m.crl new_store) _ e5 in
      let (host, named, e7) = bind-eq-ok (broker_host asio c) _ e6 in
      let (_, _, e8) = bind-eq-ok (guard asio.set_verify config_error) _ e7 in
      let same = sym (ok-injective e8) in
      let is_host = broker_host-of c uri host current named in
      let checks = load_revocations-checks m.crl store given in
      (
        guarded (asio.use_certificate_file m.crt) has_crt,
        guarded (asio.use_private_key_file m.key) has_key,
        guarded (asio.load_verify_file m.ca) has_ca,
        ap (λ (x : Context). x.verify_peer) same,
        ap (λ (x : Context). rfc2818_verification x.verified_host preverified) same
            ∙ ap (λ x. rfc2818_verification x preverified) is_host,
        (elim checks [
          | inl (no_file, new) ↦ inl (no_file, ap (λ (x : Context). x.store) same ∙ new)
          | inr (loaded, set) ↦ inr (loaded, ap (λ (x : Context). x.store) same ∙ set)
        ]),
      )
