-- ===== src/Ca/Bootstrap/Complete.antt =====
-- What `BootstrapCertificates` leaves when it succeeds.
use mtls_authentication_poc.Prelude.{
  ◌≤◌, ◌≡◌, refl, sym, ◌∙◌, subst, ◌⊎◌, inl, inr, Bool, true, false, Option, none, some, List, [],
  ◌∷◌, arith, ltb, ◌==◌, Option-cases, Bool-cases, eq_of_==, ℤ_eq, length, All, Bytes, Text,
  text_discrete, ℕ_eq, text_eq, Result-cases,
}
use mtls_authentication_poc.Platform.{Platform}
use mtls_authentication_poc.Ca.Signer.{Ca, generate_ca}
use mtls_authentication_poc.Ca.Bootstrap.{
  FileSystem, BootstrapOptions, BootstrapWorld, BootstrapError, with_defaults, path_list,
  server_pair, and_then, reported, file_exists, existing, write_pair, create_server, create_all,
  create_missing, dir_of, bootstrap_certificates, write_failed, no_directory,
}
use mtls_authentication_poc.Ca.Bootstrap.Kept.{IsFileSystem}

pub not_none : {e : BootstrapError} → ◌≡◌ {A = Option BootstrapError} (some e) none → ⊥
not_none h = cc

module _ (p : Platform) (fs : FileSystem) where
  abbrev pub Exists : Text → fs.State → Type 0
  Exists path s = (c : Bytes) × (fs.file path s ≡ some c)

  file_exists-Exists : (path : Text) (s : fs.State) → file_exists p fs path s ≡ true → Exists path s
  file_exists-Exists path s h = elim (Option-cases (fs.file path s)) [
    | inl missing ↦ cc (rw (missing, file_exists) at h)
    | inr there ↦ there
  ]

  pub and_then-eq-none :
      (q : fs.State × Option BootstrapError) (f : fs.State → fs.State × Option BootstrapError)
      → (and_then p fs q f).1 ≡ none
      → (q.1 ≡ none) × ((f q.0).1 ≡ none) × ((and_then p fs q f).0 ≡ (f q.0).0)
  and_then-eq-none (s, none) f h = (refl, h, refl)
  and_then-eq-none (s, some e) f h = cc

  reported-eq-none :
      (e : BootstrapError) (q : fs.State × Bool)
      → (reported p fs e q).1 ≡ none
      → (q.1 ≡ true) × ((reported p fs e q).0 ≡ q.0)
  reported-eq-none e (s, true) h = (refl, refl)
  reported-eq-none e (s, false) h = cc

  pub both-written :
      (e : BootstrapError) (q : fs.State × Bool) (g : fs.State → fs.State × Bool)
      → (and_then p fs (reported p fs e q) (λ t. reported p fs e (g t))).1 ≡ none
      → (q.1 ≡ true)
        × ((g q.0).1 ≡ true)
        × ((and_then p fs (reported p fs e q) (λ t. reported p fs e (g t))).0 ≡ (g q.0).0)
  both-written e (s, true) g h =
      let (written, same) = reported-eq-none e (g s) h in (refl, written, same)
  both-written e (s, false) g h = cc

  length-existing :
      (paths : List Text) (s : fs.State) → length (existing p fs paths s) ≤ length paths
  unfolding existing
  length-existing [] s = omega arith
  length-existing (path ∷ paths) s = ground (arith, length-existing paths s)

  existing-All :
      (paths : List Text) (s : fs.State)
      → length (existing p fs paths s) ≡ length paths
      → All (λ path. Exists path s) paths
  unfolding existing
  existing-All [] s h = tt
  existing-All (path ∷ paths) s h = elim (Bool-cases (file_exists p fs path s)) [
    | inl there ↦ (file_exists-Exists path s there, existing-All paths s (ground (arith, there, h)))
    | inr missing ↦ ground (arith, length-existing paths s)
  ]

  module _ (law : IsFileSystem fs) where
    Exists-write :
        (path : Text) (bytes : Bytes) (j : Text) (s : fs.State)
        → (fs.write_file path bytes s).1 ≡ true
        → (j ≡ path) ⊎ Exists j s
        → Exists j (fs.write_file path bytes s).0
    Exists-write path bytes j s written from = elim (text_discrete j path) [
      | yes same ↦
          subst (λ k. Exists k (fs.write_file path bytes s).0) (sym same)
            (bytes, law.file-write path bytes s written)
      | no other ↦ elim from [
        | inl same ↦ absurd (other same)
        | inr (c, there) ↦ (c, law.file-write_other path bytes j s other ∙ there)
      ]
    ]

    write_pair-Exists :
        (key_path : Text) (key : Bytes) (cert_path : Text) (cert : Bytes) (s : fs.State) (j : Text)
        → (write_pair p fs key_path key cert_path cert s).1 ≡ none
        → (j ≡ key_path) ⊎ (j ≡ cert_path) ⊎ Exists j s
        → Exists j (write_pair p fs key_path key cert_path cert s).0
    unfolding write_pair
    write_pair-Exists key_path key cert_path cert s j h from =
        let (first, second, same) =
          both-written write_failed (fs.write_file key_path key s) (fs.write_file cert_path cert)
            h in
        rw same (
          Exists-write cert_path cert j _ second (elim from [
            | inl a ↦ inr (Exists-write key_path key j s first (inl a))
            | inr (inl b) ↦ inl b
            | inr (inr k) ↦ inr (Exists-write key_path key j s first (inr k))
          ]))

    create_server-Exists :
        (w : BootstrapWorld) (opts : BootstrapOptions) (ca : Ca p) (s : fs.State) (j : Text)
        → (create_server p fs w opts ca s).1 ≡ none
        → (j ≡ opts.paths.server_key_path) ⊎ (j ≡ opts.paths.server_cert_path) ⊎ Exists j s
        → Exists j (create_server p fs w opts ca s).0
    unfolding create_server
    create_server-Exists w opts ca s j h from =
        elim (Result-cases (server_pair p w.server_draws w.interfaces ca opts)) [
          | inl ((key, cert), e) ↦
              rw (e, create_server)
                (write_pair-Exists _ key _ cert s j (rw (e, create_server) at h) from)
          | inr (x, e) ↦ absurd (not_none (rw (e, create_server) at h))
        ]

    create_all-Exists :
        (w : BootstrapWorld) (opts : BootstrapOptions) (s : fs.State) (j : Text)
        → (create_all p fs w opts s).1 ≡ none
        → ((j ≡ opts.paths.ca_key_path) ⊎ (j ≡ opts.paths.ca_cert_path))
          ⊎ ((j ≡ opts.paths.server_key_path) ⊎ (j ≡ opts.paths.server_cert_path))
        → Exists j (create_all p fs w opts s).0
    unfolding create_all
    create_all-Exists w opts s j h from =
        elim (Result-cases (generate_ca p w.ca_draws opts.ca_cn opts.ca_validity)) [
          | inl ((ca, cert, key), e) ↦
              let (first, second, same) =
                and_then-eq-none
                  (write_pair p fs opts.paths.ca_key_path key opts.paths.ca_cert_path cert s)
                  (create_server p fs w opts ca) (rw (e, create_all) at h) in
              rw (e, create_all)
                (rw same (
                  create_server-Exists w opts ca _ j second (elim from [
                    | inl (inl a) ↦ inr (inr (write_pair-Exists _ key _ cert s j first (inl a)))
                    | inl (inr b) ↦
                        inr (inr (write_pair-Exists _ key _ cert s j first (inr (inl b))))
                    | inr (inl a) ↦ inl a
                    | inr (inr b) ↦ inr (inl b)
                  ])))
          | inr (x, e) ↦ absurd (not_none (rw (e, create_all) at h))
        ]

    create_all-All :
        (w : BootstrapWorld) (opts : BootstrapOptions) (s : fs.State)
        → (create_all p fs w opts s).1 ≡ none
        → All (λ path. Exists path (create_all p fs w opts s).0) (path_list opts.paths)
    create_all-All w opts s h = (
      create_all-Exists w opts s _ h (inl (inr refl)),
      (
        create_all-Exists w opts s _ h (inl (inl refl)),
        (
          create_all-Exists w opts s _ h (inr (inr refl)),
          (create_all-Exists w opts s _ h (inr (inl refl)), tt),
        ),
      ),
    )

    create_missing-Exists :
        (w : BootstrapWorld) (opts : BootstrapOptions) (s : fs.State)
        → (create_missing p fs w opts s).1 ≡ none
        → All (λ path. Exists path (create_missing p fs w opts s).0) (path_list opts.paths)
    unfolding create_missing with_defaults
    create_missing-Exists w opts s h =
        elim (Bool-cases (length (existing p fs (path_list opts.paths) s) == 4)) [
          | inl complete ↦
              rw complete (existing-All (path_list opts.paths) s (eq_of_== _ 4 complete))
          | inr partial ↦
              elim (Bool-cases (ltb 0 (length (existing p fs (path_list opts.paths) s)))) [
                | inl found ↦ absurd (not_none (rw (partial, found) at h))
                | inr nothing ↦
                    rw (partial, nothing)
                      (create_all-All w (with_defaults opts) s (rw (partial, nothing) at h))
              ]
        ]

  -- On a file system that behaves as assumed, a success of `BootstrapCertificates` leaves a file at
  -- each of the four paths.
  pub bootstrap_certificates-Exists :
      IsFileSystem fs
      → (w : BootstrapWorld) (opts : BootstrapOptions) (s : fs.State)
      → (bootstrap_certificates p fs w opts s).1 ≡ none
      → All (λ path. Exists path (bootstrap_certificates p fs w opts s).0) (path_list opts.paths)
  unfolding bootstrap_certificates
  bootstrap_certificates-Exists law w opts s h =
      let (_, h1, same) =
        and_then-eq-none
          (reported p fs no_directory (fs.mkdir_all (dir_of opts.paths.ca_cert_path) s))
          (λ t.
            and_then p fs
              (reported p fs no_directory (fs.mkdir_all (dir_of opts.paths.server_cert_path) t))
              (create_missing p fs w opts))
          h in
      let (_, h2, same') = and_then-eq-none _ (create_missing p fs w opts) h1 in
      subst (λ t. All (λ path. Exists path t) (path_list opts.paths)) (sym (same ∙ same'))
        (create_missing-Exists law w opts _ h2)
