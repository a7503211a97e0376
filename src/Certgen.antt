-- ===== src/Certgen.antt =====
-- backend/cmd/certgen/main.go. The flags are an argument, and so are the functions of path/filepath. The
-- calls of package `os` are a parameter; what is printed is left out, and `os.Exit(1)` is an outcome.
pub mod Kept
pub mod Forced
use mtls_authentication_poc.Prelude.{
  ◌*◌, refl, ite, Bool, true, false, not, Option, none, some, List, [], ◌∷◌, arith, ℕ_discrete,
  if◌then◌else◌, ◌==◌, ℤ, pos, ℤ_discrete, ℤ_eq, ◌*ℤ◌, Bytes, Text, codes, text_discrete, ℕ_eq,
  text_eq, ◌>>=◌, ◌>>◌,
}
use mtls_authentication_poc.Platform.{Platform, hour}
use mtls_authentication_poc.Ca.Bootstrap.{
  FileSystem, BootstrapPaths, BootstrapOptions, BootstrapWorld, BootstrapError, path_list,
  bootstrap_certificates,
}

-- What `os.Remove` returns: nil, an error that `os.IsNotExist` knows, or another one.
pub data Removal : Type 0 where
  removed missing denied : Removal

-- `stat path s` is `none` where `os.Stat` fails, and says else whether a directory stands there.
pub record Os : Type 1 where
  pub fs : FileSystem
  pub stat : Text → fs.State → Option Bool
  pub remove : Text → fs.State → fs.State × Removal
  pub read_file : Text → fs.State → Option Bytes

pub record FilePath : Type 0 where
  pub join : Text → Text → Text
  pub dir : Text → Text

pub record Flags : Type 0 where
  pub out_dir : Text
  pub ca_cn : Text
  pub server_cn : Text
  pub force : Bool
  pub android_ca_path : Text

pub data CertgenError : Type 0 where
  not_removed : Text → CertgenError
  bootstrap_failed : BootstrapError → CertgenError
  ca_not_read copy_not_written : CertgenError

pub data Outcome : Type 0 where
  already_exist generated : Outcome
  exited : CertgenError → Outcome

abbrev pub gone : Removal → Bool
gone removed = true
gone missing = true
gone denied = false

module _ (f : FilePath) where
  abbrev pub paths_of : Text → BootstrapPaths
  paths_of out_dir = record {
    ca_cert_path = f.join out_dir (codes "ca.crt");
    ca_key_path = f.join out_dir (codes "ca.key");
    server_cert_path = f.join out_dir (codes "server.crt");
    server_key_path = f.join out_dir (codes "server.key");
  }

  abbrev pub options_of : Flags → BootstrapOptions
  options_of flags = record {
    paths = paths_of flags.out_dir;
    ca_cn = flags.ca_cn;
    server_cn = flags.server_cn;
    ca_validity = pos (10 * 365 * 24) *ℤ hour;
    server_validity = pos (5 * 365 * 24) *ℤ hour;
  }

module _ (p : Platform) (f : FilePath) (os : Os) where
  unfoldable pub any_exist : List Text → os.fs.State → Bool
  any_exist [] s = false
  any_exist (path ∷ paths) s =
      let rest = any_exist paths s in elim (os.stat path s) [ some _ ↦ true | none ↦ rest ]

  unfoldable pub remove_all : List Text → os.fs.State → os.fs.State × Option CertgenError
  remove_all [] s = (s, none)
  remove_all (path ∷ paths) s =
      let q = os.remove path s in
      let rest = remove_all paths q.0 in if gone q.1 then rest else (q.0, some (not_removed path))

  abbrev pub wrote : os.fs.State × Bool → os.fs.State × Outcome
  wrote (s, true) = (s, generated)
  wrote (s, false) = (s, exited copy_not_written)

  abbrev pub write_copy : Text → Option Bytes → os.fs.State → os.fs.State × Outcome
  write_copy target none s = (s, exited ca_not_read)
  write_copy target (some bytes) s = wrote (os.fs.write_file target bytes s)

  -- The copy is skipped where `os.Stat` finds no directory.
  abbrev pub copy_into : Option Bool → Text → Text → os.fs.State → os.fs.State × Outcome
  copy_into none target ca_cert_path s = (s, generated)
  copy_into (some false) target ca_cert_path s = (s, generated)
  copy_into (some true) target ca_cert_path s = write_copy target (os.read_file ca_cert_path s) s

  unfoldable pub copy_android_ca : Text → Text → os.fs.State → os.fs.State × Outcome
  copy_android_ca target ca_cert_path s =
      if target == []
      then (s, generated)
      else copy_into (os.stat (f.dir target) s) target ca_cert_path s

  abbrev pub after_bootstrap : Flags → os.fs.State × Option BootstrapError → os.fs.State × Outcome
  after_bootstrap flags (s, none) =
      copy_android_ca flags.android_ca_path (paths_of f flags.out_dir).ca_cert_path s
  after_bootstrap flags (s, some e) = (s, exited (bootstrap_failed e))

  unfoldable pub generate : BootstrapWorld → Flags → os.fs.State → os.fs.State × Outcome
  generate w flags s =
      after_bootstrap flags (bootstrap_certificates p os.fs w (options_of f flags) s)

  abbrev pub after_removal :
      BootstrapWorld → Flags → os.fs.State × Option CertgenError → os.fs.State × Outcome
  after_removal w flags (s, none) = generate w flags s
  after_removal w flags (s, some e) = (s, exited e)

  unfoldable pub certgen : BootstrapWorld → Flags → os.fs.State → os.fs.State × Outcome
  certgen w flags s =
      let paths = path_list (paths_of f flags.out_dir) in
      if any_exist paths s
      then (if not flags.force
          then (s, already_exist)
          else after_removal w flags (remove_all paths s))
      else generate w flags s
