-- ===== src/Ca/Bootstrap/Loaded.antt =====
-- The authority that `BootstrapCertificates` leaves on the disk is the one that `LoadCA` reads.
use mtls_authentication_poc.Prelude.{
  ◌≡◌, refl, sym, ap, ◌∙◌, subst, ◌≢◌, inl, inr, Bool, true, false, none, some, List, [], ◌∷◌,
  arith, ℤ_eq, All, Bytes, Text, ℕ_eq, text_eq, ok, Result-cases,
}
use mtls_authentication_poc.Platform.{Platform}
use mtls_authentication_poc.Ca.Signer.{Ca, generate_ca, load_ca}
use mtls_authentication_poc.Ca.Signer.Loaded.{IsCodec, load_ca-generate_ca}
use mtls_authentication_poc.Ca.Bootstrap.{
  FileSystem, BootstrapPaths, BootstrapOptions, BootstrapWorld, BootstrapError, with_defaults,
  path_list, and_then, reported, existing, write_pair, create_server, create_all, create_missing,
  dir_of, bootstrap_certificates, write_failed, no_directory,
}
use mtls_authentication_poc.Ca.Bootstrap.Kept.{IsFileSystem, create_server_keeps}
use mtls_authentication_poc.Ca.Bootstrap.Complete.{and_then-eq-none, both-written, not_none}

-- The two files of the authority are two, and neither is a file of the server.
pub record AreDistinct (q : BootstrapPaths) : Type 0 where
  pub cert_key : q.ca_key_path ≢ q.ca_cert_path
  pub cert_server_key : q.ca_cert_path ≢ q.server_key_path
  pub cert_server_cert : q.ca_cert_path ≢ q.server_cert_path
  pub key_server_key : q.ca_key_path ≢ q.server_key_path
  pub key_server_cert : q.ca_key_path ≢ q.server_cert_path

module _ (p : Platform) (fs : FileSystem) where
  -- The files of the authority are those of one that was generated with the draws of this run.
  pub record IsStored (w : BootstrapWorld) (opts : BootstrapOptions) (s : fs.State) : Type 0 where
    pub ca : Ca p
    pub cert : Bytes
    pub key : Bytes
    pub made :
        generate_ca p w.ca_draws (with_defaults opts).ca_cn (with_defaults opts).ca_validity
        ≡ ok (ca, cert, key)
    pub cert_file : fs.file opts.paths.ca_cert_path s ≡ some cert
    pub key_file : fs.file opts.paths.ca_key_path s ≡ some key

  -- No file stands at any of the four paths.
  abbrev pub AreMissing : BootstrapPaths → fs.State → Type 0
  AreMissing q s = All (λ path. fs.file path s ≡ none) (path_list q)

  existing-nil :
      (paths : List Text) (s : fs.State)
      → All (λ path. fs.file path s ≡ none) paths
      → existing p fs paths s ≡ []
  unfolding existing
  existing-nil [] s h = refl
  existing-nil (path ∷ paths) s (missing, rest) = ground (arith, existing-nil paths s rest)

  reported-missing :
      (q : BootstrapPaths) (e : BootstrapError) (r : fs.State × Bool)
      → AreMissing q r.0
      → AreMissing q (reported p fs e r).0
  reported-missing q e (s, true) h = h
  reported-missing q e (s, false) h = h

  module _ (law : IsFileSystem fs) where
    write_pair-both :
        (key_path : Text) (key : Bytes) (cert_path : Text) (cert : Bytes) (s : fs.State)
        → key_path ≢ cert_path
        → (write_pair p fs key_path key cert_path cert s).1 ≡ none
        → (fs.file cert_path (write_pair p fs key_path key cert_path cert s).0 ≡ some cert)
          × (fs.file key_path (write_pair p fs key_path key cert_path cert s).0 ≡ some key)
    unfolding write_pair
    write_pair-both key_path key cert_path cert s other h =
        let (first, second, same) =
          both-written p fs write_failed (fs.write_file key_path key s)
            (fs.write_file cert_path cert) h in
        (
          ap (fs.file cert_path) same ∙ law.file-write cert_path cert _ second,
          ap (fs.file key_path) same
              ∙ (law.file-write_other cert_path cert key_path _ other
                  ∙ law.file-write key_path key s first),
        )

    create_all-IsStored :
        (w : BootstrapWorld) (opts : BootstrapOptions) (s : fs.State)
        → AreDistinct opts.paths
        → (create_all p fs w (with_defaults opts) s).1 ≡ none
        → IsStored w opts (create_all p fs w (with_defaults opts) s).0
    unfolding create_all with_defaults
    create_all-IsStored w opts s x h =
        elim (Result-cases
          (generate_ca p w.ca_draws (with_defaults opts).ca_cn (with_defaults opts).ca_validity)) [
            | inl ((ca, cert, key), e) ↦
                let (first, second, same) =
                  and_then-eq-none p fs
                    (write_pair p fs opts.paths.ca_key_path key opts.paths.ca_cert_path cert s)
                    (create_server p fs w (with_defaults opts) ca) (rw (e, create_all) at h) in
                let (cert_held, key_held) =
                  write_pair-both opts.paths.ca_key_path key opts.paths.ca_cert_path cert s
                    x.cert_key first in
                record {
                  ca = ca;
                  cert = cert;
                  key = key;
                  made = e;
                  cert_file =
                      rw (e, create_all)
                        (ap (fs.file opts.paths.ca_cert_path) same
                          ∙ create_server_keeps p fs law opts.paths.ca_cert_path cert w
                              (with_defaults opts) ca _ x.cert_server_key x.cert_server_cert
                              cert_held);
                  key_file =
                      rw (e, create_all)
                        (ap (fs.file opts.paths.ca_key_path) same
                          ∙ create_server_keeps p fs law opts.paths.ca_key_path key w
                              (with_defaults opts) ca _ x.key_server_key x.key_server_cert
                              key_held);
                }
            | inr (z, e) ↦ absurd (not_none (rw (e, create_all) at h))
          ]

    create_missing-IsStored :
        (w : BootstrapWorld) (opts : BootstrapOptions) (s : fs.State)
        → AreDistinct opts.paths
        → AreMissing opts.paths s
        → (create_missing p fs w opts s).1 ≡ none
        → IsStored w opts (create_missing p fs w opts s).0
    unfolding create_missing ℕ_eq
    create_missing-IsStored w opts s x missing h =
        let nothing = existing-nil (path_list opts.paths) s missing in
        rw nothing (create_all-IsStored w opts s x (rw nothing at h))

    AreMissing-mkdir_all :
        (q : BootstrapPaths) (dir : Text) (s : fs.State)
        → AreMissing q s
        → AreMissing q (fs.mkdir_all dir s).0
    AreMissing-mkdir_all q dir s (a, (b, (x, (y, _)))) = (
      law.file-mkdir_all dir _ s ∙ a,
      (
        law.file-mkdir_all dir _ s ∙ b,
        (law.file-mkdir_all dir _ s ∙ x, (law.file-mkdir_all dir _ s ∙ y, tt)),
      ),
    )

    -- A success of `BootstrapCertificates` where none of its files existed stores an authority that it
    -- generated.
    pub bootstrap_certificates-IsStored :
        (w : BootstrapWorld) (opts : BootstrapOptions) (s : fs.State)
        → AreDistinct opts.paths
        → AreMissing opts.paths s
        → (bootstrap_certificates p fs w opts s).1 ≡ none
        → IsStored w opts (bootstrap_certificates p fs w opts s).0
    unfolding bootstrap_certificates
    bootstrap_certificates-IsStored w opts s x missing h =
        let (first, h1, same) =
          and_then-eq-none p fs
            (reported p fs no_directory (fs.mkdir_all (dir_of opts.paths.ca_cert_path) s))
            (λ t.
              and_then p fs
                (reported p fs no_directory (fs.mkdir_all (dir_of opts.paths.server_cert_path) t))
                (create_missing p fs w opts))
            h in
        let (second, h2, same') = and_then-eq-none p fs _ (create_missing p fs w opts) h1 in
        subst (IsStored w opts) (sym (same ∙ same')) (
          create_missing-IsStored w opts _ x
            (reported-missing opts.paths no_directory _ (
              AreMissing-mkdir_all opts.paths _ _ (
                reported-missing opts.paths no_directory _
                  (AreMissing-mkdir_all opts.paths _ s missing))))
            h2)

  -- `LoadCA` reads the authority of the files that hold one.
  pub IsStored-load_ca :
      IsCodec p
      → (w : BootstrapWorld) (opts : BootstrapOptions) (s : fs.State) (q : IsStored w opts s)
      → load_ca p (fs.file opts.paths.ca_cert_path s) (fs.file opts.paths.ca_key_path s) ≡ ok q.ca
  IsStored-load_ca codec w opts s q =
      rw (q.cert_file, q.key_file)
        (load_ca-generate_ca p w.ca_draws _ _ q.ca q.cert q.key codec q.made)
