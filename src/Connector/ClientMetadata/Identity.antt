-- ===== src/Connector/ClientMetadata/Identity.antt =====
-- For which files the metadata of a client can be made, and which URI it then has.
use Prim.Native.String.{String, ◌++◌ as ◌<>◌}
use mathlib.Core.Path.{subst}
use cpp_pcp_client.Base.{
  ◌≡◌, refl, true, false, [], ◌∷◌, some, Option-cases, inl, inr, ok, Bool-cases, ◌↔◌, sym, ap, ◌∙◌,
  bind-eq-ok, ok-injective, arith,
}
use cpp_pcp_client.Connector.ClientMetadata.{
  OpenSsl, Subject, EntryType, ClientMetadata, Arguments, Extra, no_proxy, with_proxy, with_crl,
  with_logging, pcp_uri_scheme, first_entry, named, get_common_name_from_cert,
  validate_private_key_cert_pair, extended, make_client_metadata,
}

first_entry-head :
    (s : Subject) (name : String)
    → first_entry s ≡ ok name
    → (t : EntryType) × (others : Subject) × (s ≡ (t, name) ∷ others)
unfolding first_entry
first_entry-head [] name e = cc
first_entry-head ((t, first) ∷ others) name e = (t, others, cc)

extended-names :
    (x : Extra) (m : ClientMetadata)
    → ((extended x m).uri ≡ m.uri)
      × ((extended x m).common_name ≡ m.common_name)
      × ((extended x m).client_type ≡ m.client_type)
unfolding extended
extended-names no_proxy m = (refl, refl, refl)
extended-names (with_proxy proxy) m = (refl, refl, refl)
extended-names (with_crl crl proxy) m = (refl, refl, refl)
extended-names (with_logging crl proxy level stream) m = (refl, refl, refl)

module _ (ssl : OpenSsl) where
  open ssl use {
    new_context, use_certificate_file, is_encrypted, use_private_key_file, check_private_key,
    open_file, read_x509,
  }

  -- A certificate whose subject starts with the given name, and a key without a password that
  -- belongs to it.
  pub record IsUsable (crt key name : String) : Type 0 where
    pub type : EntryType
    pub others : Subject
    pub opened : open_file crt ≡ true
    pub certified : read_x509 crt ≡ some ((type, name) ∷ others)
    pub context : new_context ≡ true
    pub loaded : use_certificate_file crt ≡ true
    pub open_key : is_encrypted key ≡ false
    pub key_loaded : use_private_key_file key ≡ true
    pub paired : check_private_key key crt ≡ true

  make_client_metadata-named :
      (a : Arguments) (name : String)
      → IsUsable a.crt a.key name
      → make_client_metadata ssl a ≡ ok (extended a.extra (named name a))
  unfolding make_client_metadata get_common_name_from_cert validate_private_key_cert_pair
      first_entry
  make_client_metadata-named a name u =
      rw (u.opened, u.certified, u.context, u.loaded, u.open_key, u.key_loaded, u.paired)

  read-first :
      (crt name : String)
      → get_common_name_from_cert ssl crt ≡ ok name
      → (open_file crt ≡ true)
        × ((t : EntryType) × (s : Subject) × (read_x509 crt ≡ some ((t, name) ∷ s)))
  unfolding get_common_name_from_cert first_entry
  read-first crt name e = elim (Bool-cases (open_file crt)) [
    | inr missing ↦ cc (rw missing at e)
    | inl opened ↦ elim (Option-cases (read_x509 crt)) [
      | inl invalid ↦ cc (rw (opened, invalid) at e)
      | inr (s, read) ↦
          let (t, others, first) = first_entry-head s name (rw (opened, read) at e) in
          (opened, (t, others, rw (← first) read))
    ]
  ]

  pair-checked :
      (key crt : String)
      → validate_private_key_cert_pair ssl key crt ≡ ok tt
      → (new_context ≡ true)
        × (use_certificate_file crt ≡ true)
        × (is_encrypted key ≡ false)
        × (use_private_key_file key ≡ true)
        × (check_private_key key crt ≡ true)
  unfolding validate_private_key_cert_pair
  pair-checked key crt e = (ground arith, ground arith, ground arith, ground arith, ground arith)

  made-IsUsable :
      (a : Arguments) (m : ClientMetadata)
      → make_client_metadata ssl a ≡ ok m
      → (name : String) × IsUsable a.crt a.key name × (m ≡ extended a.extra (named name a))
  unfolding make_client_metadata
  made-IsUsable a m e =
      let (name, got, e1) = bind-eq-ok (get_common_name_from_cert ssl a.crt) _ e in
      let (_, checked, e2) = bind-eq-ok (validate_private_key_cert_pair ssl a.key a.crt) _ e1 in
      let (opened, (t, others, read)) = read-first a.crt name got in
      let (context, loaded, open_key, key_loaded, paired) = pair-checked a.key a.crt checked in
      (
        name,
        record {
          type = t;
          others = others;
          opened = opened;
          certified = read;
          context = context;
          loaded = loaded;
          open_key = open_key;
          key_loaded = key_loaded;
          paired = paired;
        },
        sym (ok-injective e2),
      )

  -- The metadata of a client can be made exactly if its certificate can be read and its key, which
  -- has no password, belongs to it; the client's name is then the first entry of the certificate's
  -- subject, whatever its type, and its URI is pcp:// with that name and the type of the client.
  pub make_client_metadata_iff :
      (a : Arguments) (name : String)
      → IsUsable a.crt a.key name ↔ (
          (m : ClientMetadata) × (make_client_metadata ssl a ≡ ok m)
          × (m.common_name ≡ name)
          × (m.client_type ≡ a.client_type)
          × (m.uri ≡ pcp_uri_scheme <> name <> "/" <> a.client_type))
  unfolding named
  make_client_metadata_iff a name = (
    λ u.
        let (uri, common, type) = extended-names a.extra (named name a) in
        (extended a.extra (named name a), make_client_metadata-named a name u, common, type, uri),
    λ (m, made, common, type, uri).
        let (n, u, same) = made-IsUsable a m made in
        let (_, stored, _) = extended-names a.extra (named n a) in
        let is_name : n ≡ name =
          sym stored ∙ ap (λ (x : ClientMetadata). x.common_name) (sym same) ∙ common in
        subst (IsUsable a.crt a.key) is_name u,
  )
