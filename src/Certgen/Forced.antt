-- ===== src/Certgen/Forced.antt =====
-- What the certificate generator leaves when it generates certificates.
use mtls_authentication_poc.Prelude.{
  ◌≡◌, refl, sym, ap, ◌∙◌, subst, ◌≢◌, ◌⊎◌, inl, inr, Bool, true, false, Option, none, some, List,
  [], ◌∷◌, arith, ◌==◌, Bool-cases, Option-cases, eq_of_==, ℤ_eq, All, Bytes, Text, text_discrete,
  ℕ_eq, text_eq, ok,
}
use mtls_authentication_poc.Platform.{Platform}
use mtls_authentication_poc.Ca.Signer.{load_ca}
use mtls_authentication_poc.Ca.Signer.Loaded.{IsCodec}
use mtls_authentication_poc.Ca.Bootstrap.{
  BootstrapWorld, BootstrapError, path_list, bootstrap_certificates,
}
use mtls_authentication_poc.Ca.Bootstrap.Loaded.{
  AreDistinct, IsStored, bootstrap_certificates-IsStored, IsStored-load_ca,
}
use mtls_authentication_poc.Certgen.{
  Os, FilePath, Flags, CertgenError, already_exist, generated, gone, paths_of, options_of,
  any_exist, remove_all, wrote, write_copy, copy_into, copy_android_ca, after_bootstrap,
  after_removal, generate, certgen,
}
use mtls_authentication_poc.Certgen.Kept.{IsOs, copy_android_ca_keeps}

module _ (f : FilePath) (os : Os) where
  -- The copy holds what the source holds, unless it has no path or no directory.
  abbrev pub Copied : Text → Text → os.fs.State → Type 0
  Copied target source s =
      (target ≡ [])
      ⊎ ((os.stat (f.dir target) s ≢ some true) ⊎ (os.fs.file target s ≡ os.fs.file source s))

not_generated : already_exist ≡ generated → ⊥
not_generated h = cc

module _ (p : Platform) (f : FilePath) (os : Os) (law : IsOs os) where
  AreNone : List Text → os.fs.State → Type 0
  AreNone paths s = All (λ path. os.fs.file path s ≡ none) paths

  stat-none : (path : Text) (s : os.fs.State) → os.stat path s ≡ none → os.fs.file path s ≡ none
  stat-none path s missing = elim (Option-cases (os.fs.file path s)) [
    | inl e ↦ e
    | inr (c, e) ↦ cc (missing, law.stat-file path c s e)
  ]

  any_exist-AreNone :
      (paths : List Text) (s : os.fs.State) → any_exist p f os paths s ≡ false → AreNone paths s
  unfolding any_exist AreNone
  any_exist-AreNone [] s h = tt
  any_exist-AreNone (path ∷ paths) s h = elim (Option-cases (os.stat path s)) [
    | inl missing ↦ (stat-none path s missing, any_exist-AreNone paths s (ground (arith, missing)))
    | inr (info, found) ↦ ground arith
  ]

  file-remove_none :
      (path j : Text) (s : os.fs.State)
      → gone (os.remove path s).1 ≡ true
      → os.fs.file j s ≡ none
      → os.fs.file j (os.remove path s).0 ≡ none
  file-remove_none path j s done missing = elim (text_discrete j path) [
    | yes same ↦ rw same (law.file-remove path s done)
    | no other ↦ law.file-remove_other path j s other ∙ missing
  ]

  remove_all-none :
      (paths : List Text) (j : Text) (s : os.fs.State)
      → (remove_all p f os paths s).1 ≡ none
      → os.fs.file j s ≡ none
      → os.fs.file j (remove_all p f os paths s).0 ≡ none
  unfolding remove_all
  remove_all-none [] j s done missing = missing
  remove_all-none (path ∷ paths) j s done missing = elim (Bool-cases (gone (os.remove path s).1)) [
    | inl e ↦ rw e (
        remove_all-none paths j (os.remove path s).0 (rw e at done)
          (file-remove_none path j s e missing))
    | inr e ↦ ground arith
  ]

  remove_all_next :
      (path : Text) (paths : List Text) (s : os.fs.State)
      → gone (os.remove path s).1 ≡ true
      → remove_all p f os (path ∷ paths) s ≡ remove_all p f os paths (os.remove path s).0
  unfolding remove_all
  remove_all_next path paths s e = rw e refl

  remove_all-AreNone :
      (paths : List Text) (s : os.fs.State)
      → (remove_all p f os paths s).1 ≡ none
      → AreNone paths (remove_all p f os paths s).0
  unfolding remove_all AreNone
  remove_all-AreNone [] s done = tt
  remove_all-AreNone (path ∷ paths) s done = elim (Bool-cases (gone (os.remove path s).1)) [
    | inl e ↦
        let same = remove_all_next path paths s e in
        let rest = rw same at done in
        subst (λ (q : os.fs.State × Option CertgenError). AreNone (path ∷ paths) q.0) (sym same)
          (
            remove_all-none paths path (os.remove path s).0 rest (law.file-remove path s e),
            remove_all-AreNone paths (os.remove path s).0 rest,
          )
    | inr e ↦ ground arith
  ]

  wrote-eq-generated :
      (q : os.fs.State × Bool)
      → (wrote p f os q).1 ≡ generated
      → (q.1 ≡ true) × ((wrote p f os q).0 ≡ q.0)
  wrote-eq-generated (s, true) h = (refl, refl)
  wrote-eq-generated (s, false) h = cc

  module _ (target source : Text) (other : source ≢ target) where
    write_copy-file :
        (read : Option Bytes) (s : os.fs.State)
        → os.read_file source s ≡ read
        → (write_copy p f os target read s).1 ≡ generated
        → os.fs.file target (write_copy p f os target read s).0
          ≡ os.fs.file source (write_copy p f os target read s).0
    write_copy-file none s e h = cc
    write_copy-file (some bytes) s e h =
        let (written, same) = wrote-eq-generated (os.fs.write_file target bytes s) h in
        ap (os.fs.file target) same
        ∙ (law.files.file-write target bytes s written
            ∙ sym (
                ap (os.fs.file source) same
                ∙ (law.files.file-write_other target bytes source s other
                    ∙ law.read_file-file source bytes s e)))

    copy_into-Copied :
        (info : Option Bool) (s : os.fs.State)
        → os.stat (f.dir target) s ≡ info
        → (copy_into p f os info target source s).1 ≡ generated
        → Copied f os target source (copy_into p f os info target source s).0
    copy_into-Copied none s e h = inr (inl (λ there. cc))
    copy_into-Copied (some false) s e h = inr (inl (λ there. cc))
    copy_into-Copied (some true) s e h =
        inr (inr (write_copy-file (os.read_file source s) s refl h))

    copy_android_ca-Copied :
        (s : os.fs.State)
        → (copy_android_ca p f os target source s).1 ≡ generated
        → Copied f os target source (copy_android_ca p f os target source s).0
    unfolding copy_android_ca
    copy_android_ca-Copied s h = elim (Bool-cases (target == [])) [
      | inl empty ↦ inl (eq_of_== target [] empty)
      | inr path ↦ rw path (copy_into-Copied (os.stat (f.dir target) s) s refl (rw path at h))
    ]

  module _ (w : BootstrapWorld) (flags : Flags) (apart : AreDistinct (paths_of f flags.out_dir))
      (cert_apart : (paths_of f flags.out_dir).ca_cert_path ≢ flags.android_ca_path)
      (key_apart : (paths_of f flags.out_dir).ca_key_path ≢ flags.android_ca_path) where
    -- The authority of this run is stored, and copied if there is a directory for it.
    abbrev Made : os.fs.State → Type 0
    Made s =
        IsStored p os.fs w (options_of f flags) s
        × Copied f os flags.android_ca_path (paths_of f flags.out_dir).ca_cert_path s

    copied-IsStored :
        (s : os.fs.State)
        → IsStored p os.fs w (options_of f flags) s
        → IsStored p os.fs w
            (options_of f flags)
            (copy_android_ca p f os flags.android_ca_path
              (paths_of f flags.out_dir).ca_cert_path
              s).0
    copied-IsStored s q = record {
      ca = q.ca;
      cert = q.cert;
      key = q.key;
      made = q.made;
      cert_file = copy_android_ca_keeps p f os law _ (some q.cert) _ _ s cert_apart q.cert_file;
      key_file = copy_android_ca_keeps p f os law _ (some q.key) _ _ s key_apart q.key_file;
    }

    after_bootstrap-Made :
        (q : os.fs.State × Option BootstrapError)
        → (q.1 ≡ none → IsStored p os.fs w (options_of f flags) q.0)
        → (after_bootstrap p f os flags q).1 ≡ generated
        → Made (after_bootstrap p f os flags q).0
    after_bootstrap-Made (s, none) stored h =
        (copied-IsStored s (stored refl), copy_android_ca-Copied _ _ cert_apart s h)
    after_bootstrap-Made (s, some e) stored h = cc

    generate-Made :
        (s : os.fs.State)
        → AreNone (path_list (paths_of f flags.out_dir)) s
        → (generate p f os w flags s).1 ≡ generated
        → Made (generate p f os w flags s).0
    unfolding generate AreNone
    generate-Made s missing h =
        after_bootstrap-Made (bootstrap_certificates p os.fs w (options_of f flags) s)
          (bootstrap_certificates-IsStored p os.fs law.files w (options_of f flags) s apart missing)
          h

    after_removal-Made :
        (q : os.fs.State × Option CertgenError)
        → (q.1 ≡ none → AreNone (path_list (paths_of f flags.out_dir)) q.0)
        → (after_removal p f os w flags q).1 ≡ generated
        → Made (after_removal p f os w flags q).0
    after_removal-Made (s, none) missing h = generate-Made s (missing refl) h
    after_removal-Made (s, some e) missing h = cc

    certgen-Made :
        (s : os.fs.State)
        → (certgen p f os w flags s).1 ≡ generated
        → Made (certgen p f os w flags s).0
    unfolding certgen generate
    certgen-Made s h =
        let paths = path_list (paths_of f flags.out_dir) in
        elim (Bool-cases (any_exist p f os paths s)) [
          | inl found ↦ elim (Bool-cases flags.force) [
            | inl forced ↦
                rw (found, forced)
                  (after_removal-Made (remove_all p f os paths s) (remove_all-AreNone paths s)
                    (rw (found, forced) at h))
            | inr kept ↦ absurd (not_generated (rw (found, kept) at h))
          ]
          | inr nothing ↦
              rw nothing (generate-Made s (any_exist-AreNone paths s nothing) (rw nothing at h))
        ]

-- On a file system that behaves as assumed, with PEM and EC keys that decode as they are encoded, and
-- with distinct paths for the two files of the authority, those of the server and the copy for Android:
-- when the generator ends with new certificates, with or without -force, then `LoadCA` reads from the
-- disk the authority that this run generated; and the copy holds what the certificate's file holds,
-- unless its path is empty or no directory stands there.
pub certgen-load_ca :
    (p : Platform) (f : FilePath) (os : Os) (w : BootstrapWorld) (flags : Flags) (s : os.fs.State)
    (law : IsOs os)
    → IsCodec p
    → AreDistinct (paths_of f flags.out_dir)
    → (paths_of f flags.out_dir).ca_cert_path ≢ flags.android_ca_path
    → (paths_of f flags.out_dir).ca_key_path ≢ flags.android_ca_path
    → (certgen p f os w flags s).1 ≡ generated
    → ((q : IsStored p os.fs w (options_of f flags) (certgen p f os w flags s).0) × (load_ca p
            (os.fs.file (paths_of f flags.out_dir).ca_cert_path (certgen p f os w flags s).0)
            (os.fs.file (paths_of f flags.out_dir).ca_key_path (certgen p f os w flags s).0)
          ≡ ok q.ca))
      × Copied f os flags.android_ca_path
          (paths_of f flags.out_dir).ca_cert_path
          (certgen p f os w flags s).0
certgen-load_ca p f os w flags s law codec apart cert_apart key_apart h =
    let (stored, copied) = certgen-Made p f os law w flags apart cert_apart key_apart s h in
    ((stored, IsStored-load_ca p os.fs codec w (options_of f flags) _ stored), copied)
