-- ===== src/Certgen/Kept.antt =====
-- What the certificate generator leaves as it was.
use mtls_authentication_poc.Prelude.{
  ◌≡◌, ◌∙◌, ◌≢◌, inl, inr, Bool, true, false, Option, none, some, [], ◌==◌, Bool-cases, ℤ_eq, Bytes,
  Text, ℕ_eq, text_eq,
}
use mtls_authentication_poc.Platform.{Platform}
use mtls_authentication_poc.Ca.Bootstrap.{BootstrapWorld, BootstrapError, path_list}
use mtls_authentication_poc.Ca.Bootstrap.Kept.{IsFileSystem, bootstrap_certificates_keeps}
use mtls_authentication_poc.Certgen.{
  Os, FilePath, Flags, gone, paths_of, options_of, any_exist, wrote, write_copy, copy_into,
  copy_android_ca, after_bootstrap, generate, certgen,
}

-- What is assumed of the calls of package `os`, for paths of which no two name the same file.
pub record IsOs (os : Os) : Type 0 where
  pub files : IsFileSystem os.fs
  pub stat-file :
      (j : Text) (c : Bytes) (s : os.fs.State) → os.fs.file j s ≡ some c → os.stat j s ≡ some false
  pub file-remove :
      (path : Text) (s : os.fs.State)
      → gone (os.remove path s).1 ≡ true
      → os.fs.file path (os.remove path s).0 ≡ none
  pub file-remove_other :
      (path j : Text) (s : os.fs.State)
      → j ≢ path
      → os.fs.file j (os.remove path s).0 ≡ os.fs.file j s
  pub read_file-file :
      (path : Text) (c : Bytes) (s : os.fs.State)
      → os.read_file path s ≡ some c
      → os.fs.file path s ≡ some c

module _ (p : Platform) (f : FilePath) (os : Os) (law : IsOs os) (j : Text)
    (held : Option Bytes) where
  -- The path `j` holds what it held.
  abbrev Same : os.fs.State → Type 0
  Same s = os.fs.file j s ≡ held

  wrote_keeps : (q : os.fs.State × Bool) → Same q.0 → Same (wrote p f os q).0
  wrote_keeps (s, true) h = h
  wrote_keeps (s, false) h = h

  write_copy_keeps :
      (target : Text) (read : Option Bytes) (s : os.fs.State)
      → j ≢ target
      → Same s
      → Same (write_copy p f os target read s).0
  write_copy_keeps target none s other h = h
  write_copy_keeps target (some bytes) s other h =
      wrote_keeps (os.fs.write_file target bytes s)
        (law.files.file-write_other target bytes j s other ∙ h)

  copy_into_keeps :
      (info : Option Bool) (target ca_cert_path : Text) (s : os.fs.State)
      → j ≢ target
      → Same s
      → Same (copy_into p f os info target ca_cert_path s).0
  copy_into_keeps none target ca_cert_path s other h = h
  copy_into_keeps (some false) target ca_cert_path s other h = h
  copy_into_keeps (some true) target ca_cert_path s other h =
      write_copy_keeps target (os.read_file ca_cert_path s) s other h

  -- The copy for Android changes its own path at most.
  pub copy_android_ca_keeps :
      (target ca_cert_path : Text) (s : os.fs.State)
      → j ≢ target
      → Same s
      → Same (copy_android_ca p f os target ca_cert_path s).0
  unfolding copy_android_ca
  copy_android_ca_keeps target ca_cert_path s other h = elim (Bool-cases (target == [])) [
    | inl empty ↦ rw empty h
    | inr path ↦ rw path (copy_into_keeps (os.stat (f.dir target) s) target ca_cert_path s other h)
  ]

  after_bootstrap_keeps :
      (flags : Flags) (q : os.fs.State × Option BootstrapError)
      → j ≢ flags.android_ca_path
      → Same q.0
      → Same (after_bootstrap p f os flags q).0
  after_bootstrap_keeps flags (s, none) other h =
      copy_android_ca_keeps flags.android_ca_path (paths_of f flags.out_dir).ca_cert_path s other h
  after_bootstrap_keeps flags (s, some e) other h = h

module _ (p : Platform) (f : FilePath) (os : Os) where
  -- Without -force, and on a file system that behaves as assumed, no file is overwritten but the copy
  -- for Android, whatever the outcome.
  pub certgen_keeps :
      (w : BootstrapWorld) (flags : Flags) (s : os.fs.State) (j : Text) (c : Bytes)
      → IsOs os
      → flags.force ≡ false
      → j ≢ flags.android_ca_path
      → os.fs.file j s ≡ some c
      → os.fs.file j (certgen p f os w flags s).0 ≡ some c
  unfolding certgen generate
  certgen_keeps w flags s j c law off other h =
      elim (Bool-cases (any_exist p f os (path_list (paths_of f flags.out_dir)) s)) [
        | inl some_exist ↦ rw (some_exist, off) h
        | inr none_exist ↦ rw none_exist (
            after_bootstrap_keeps p f os law j (some c) flags _ other
              (bootstrap_certificates_keeps p os.fs law.files w (options_of f flags) s j c h))
      ]
