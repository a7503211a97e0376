-- ===== src/Ca/Bootstrap/Kept.antt =====
-- What `BootstrapCertificates` does to the files that exist, and what it leaves when it succeeds.
use mtls_authentication_poc.Prelude.{
  ◌≡◌, ◌∙◌, ◌≢◌, inl, inr, Bool, true, false, Option, none, some, List, [], ◌∷◌, arith, ltb, ◌==◌,
  Bool-cases, ℤ_eq, length, All, Bytes, Text, ℕ_eq, text_eq, Result-cases,
}
use mtls_authentication_poc.Platform.{Platform}
use mtls_authentication_poc.Ca.Signer.{Ca, generate_ca}
use mtls_authentication_poc.Ca.Bootstrap.{
  FileSystem, BootstrapOptions, BootstrapWorld, BootstrapError, with_defaults, path_list,
  server_pair, and_then, reported, existing, write_pair, create_server, create_all, create_missing,
  dir_of, bootstrap_certificates, write_failed, no_directory,
}

-- What is assumed of the calls of package `os`, for paths of which no two name the same file.
pub record IsFileSystem (fs : FileSystem) : Type 0 where
  pub file-mkdir_all :
      (dir j : Text) (s : fs.State) → fs.file j (fs.mkdir_all dir s).0 ≡ fs.file j s
  pub file-write_other :
      (path : Text) (bytes : Bytes) (j : Text) (s : fs.State)
      → j ≢ path
      → fs.file j (fs.write_file path bytes s).0 ≡ fs.file j s
  pub file-write :
      (path : Text) (bytes : Bytes) (s : fs.State)
      → (fs.write_file path bytes s).1 ≡ true
      → fs.file path (fs.write_file path bytes s).0 ≡ some bytes

module _ (p : Platform) (fs : FileSystem) where
  and_then_keeps :
      (P : fs.State → Type 0) (q : fs.State × Option BootstrapError)
      (f : fs.State → fs.State × Option BootstrapError)
      → P q.0
      → ((t : fs.State) → P t → P (f t).0)
      → P (and_then p fs q f).0
  and_then_keeps P (s, none) f h k = k s h
  and_then_keeps P (s, some e) f h k = h

  reported_keeps :
      (P : fs.State → Type 0) (e : BootstrapError) (q : fs.State × Bool)
      → P q.0
      → P (reported p fs e q).0
  reported_keeps P e (s, true) h = h
  reported_keeps P e (s, false) h = h

  existing-none :
      (paths : List Text) (s : fs.State)
      → length (existing p fs paths s) ≡ 0
      → All (λ path. fs.file path s ≡ none) paths
  unfolding existing
  existing-none [] s h = tt
  existing-none (path ∷ paths) s h = ground (arith, existing-none paths s)

  some-ne-none :
      (s : fs.State) (j path : Text) (c : Bytes)
      → fs.file j s ≡ some c
      → fs.file path s ≡ none
      → j ≢ path
  some-ne-none s j path c h missing same = cc (same, h, missing)

  module _ (law : IsFileSystem fs) (j : Text) (c : Bytes) where
    -- The file at `j` has the content `c`.
    abbrev HasFile : fs.State → Type 0
    HasFile s = fs.file j s ≡ some c

    write_pair_keeps :
        (key_path : Text) (key : Bytes) (cert_path : Text) (cert : Bytes) (s : fs.State)
        → j ≢ key_path
        → j ≢ cert_path
        → HasFile s
        → HasFile (write_pair p fs key_path key cert_path cert s).0
    unfolding write_pair
    write_pair_keeps key_path key cert_path cert s a b h =
        and_then_keeps HasFile (reported p fs write_failed (fs.write_file key_path key s))
          (λ t. reported p fs write_failed (fs.write_file cert_path cert t))
          (reported_keeps HasFile write_failed _ (law.file-write_other key_path key j s a ∙ h))
          (λ t k.
            reported_keeps HasFile write_failed _ (law.file-write_other cert_path cert j t b ∙ k))

    pub create_server_keeps :
        (w : BootstrapWorld) (opts : BootstrapOptions) (ca : Ca p) (s : fs.State)
        → j ≢ opts.paths.server_key_path
        → j ≢ opts.paths.server_cert_path
        → HasFile s
        → HasFile (create_server p fs w opts ca s).0
    unfolding create_server
    create_server_keeps w opts ca s a b h =
        elim (Result-cases (server_pair p w.server_draws w.interfaces ca opts)) [
          | inl ((key, cert), e) ↦ rw (e, create_server) (write_pair_keeps _ key _ cert s a b h)
          | inr (x, e) ↦ rw (e, create_server) h
        ]

    create_all_keeps :
        (w : BootstrapWorld) (opts : BootstrapOptions) (s : fs.State)
        → All (λ path. j ≢ path) (path_list opts.paths)
        → HasFile s
        → HasFile (create_all p fs w opts s).0
    unfolding create_all
    create_all_keeps w opts s (a, (b, (x, (y, _)))) h =
        elim (Result-cases (generate_ca p w.ca_draws opts.ca_cn opts.ca_validity)) [
          | inl ((ca, cert, key), e) ↦
              rw (e, create_all)
                (and_then_keeps HasFile
                  (write_pair p fs opts.paths.ca_key_path key opts.paths.ca_cert_path cert s)
                  (create_server p fs w opts ca) (write_pair_keeps _ key _ cert s b a h)
                  (λ t k. create_server_keeps w opts ca t y x k))
          | inr (z, e) ↦ rw (e, create_all) h
        ]

    create_missing_keeps :
        (w : BootstrapWorld) (opts : BootstrapOptions) (s : fs.State)
        → HasFile s
        → HasFile (create_missing p fs w opts s).0
    unfolding create_missing with_defaults
    create_missing_keeps w opts s h =
        elim (Bool-cases (length (existing p fs (path_list opts.paths) s) == 4)) [
          | inl complete ↦ rw complete h
          | inr partial ↦
              elim (Bool-cases (ltb 0 (length (existing p fs (path_list opts.paths) s)))) [
                | inl found ↦ rw (partial, found) h
                | inr nothing ↦
                    let (a, (b, (x, (y, _)))) =
                      existing-none (path_list opts.paths) s (ground arith) in
                    rw (partial, nothing)
                      (create_all_keeps w (with_defaults opts) s
                        (
                          some-ne-none s j _ c h a,
                          (
                            some-ne-none s j _ c h b,
                            (some-ne-none s j _ c h x, (some-ne-none s j _ c h y, tt)),
                          ),
                        )
                        h)
              ]
        ]

  -- `BootstrapCertificates` overwrites nothing: on a file system that behaves as assumed, each file
  -- that exists before it has the same content after it, whether it succeeds, refuses or fails at
  -- some step.
  pub bootstrap_certificates_keeps :
      IsFileSystem fs
      → (w : BootstrapWorld) (opts : BootstrapOptions) (s : fs.State) (j : Text) (c : Bytes)
      → fs.file j s ≡ some c
      → fs.file j (bootstrap_certificates p fs w opts s).0 ≡ some c
  unfolding bootstrap_certificates
  bootstrap_certificates_keeps law w opts s j c h =
      and_then_keeps (HasFile law j c)
        (reported p fs no_directory (fs.mkdir_all (dir_of opts.paths.ca_cert_path) s))
        (λ t.
          and_then p fs
            (reported p fs no_directory (fs.mkdir_all (dir_of opts.paths.server_cert_path) t))
            (create_missing p fs w opts))
        (reported_keeps (HasFile law j c) no_directory _ (law.file-mkdir_all _ j s ∙ h))
        (λ t k.
          and_then_keeps (HasFile law j c) _ (create_missing p fs w opts)
            (reported_keeps (HasFile law j c) no_directory _ (law.file-mkdir_all _ j t ∙ k))
            (create_missing_keeps law j c w opts))
