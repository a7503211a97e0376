-- ===== src/Tests/Generated.antt =====
-- The theorems on the certificate generator, on a disk with an authority from an earlier run.
use mtls_authentication_poc.Prelude.{
  ◌≡◌, refl, ◌∙◌, ◌≢◌, Bool, true, false, Option, none, some, [], ◌∷◌, ◌++◌, if◌then◌else◌, ◌==◌,
  ==_refl, ne_of_==, ==-ne, ℤ_eq, ◌*ℤ◌, Bytes, Text, codes, ℕ_eq, text_eq, ok,
}
use mtls_authentication_poc.Prelude.Dict.{Dict, lookup, erase, lookup-erase}
use mtls_authentication_poc.Ca.Signer.{generate_ca, load_ca}
use mtls_authentication_poc.Ca.Bootstrap.{
  BootstrapWorld, with_defaults, dir_of, existing, server_pair, write_pair, create_server,
  create_all, create_missing, bootstrap_certificates,
}
use mtls_authentication_poc.Ca.Bootstrap.Loaded.{AreDistinct, IsStored}
use mtls_authentication_poc.Certgen.{
  Os, FilePath, Flags, removed, missing, generated, paths_of, options_of, any_exist, remove_all,
  copy_android_ca, generate, certgen,
}
use mtls_authentication_poc.Certgen.Kept.{IsOs, certgen_keeps}
use mtls_authentication_poc.Certgen.Forced.{Copied, certgen-load_ca}
use mtls_authentication_poc.Tests.Run.{library, draws}
use mtls_authentication_poc.Tests.Files.{files, files-IsFileSystem}
use mtls_authentication_poc.Tests.Issued.{coding, coding-IsCodec}

abbrev raw_dir : Text
raw_dir = codes "raw"

-- The directory of the copy exists.
abbrev info : Text → Option Bytes → Option Bool
info path (some _) = some false
info path none = if path == raw_dir then some true else none

abbrev commands : Os
commands = record {
  fs = files;
  stat = λ path s. info path (lookup path s);
  remove = λ path s. (erase path s, elim (lookup path s) [ some _ ↦ removed | none ↦ missing ]);
  read_file = lookup;
}

commands-IsOs : IsOs commands
commands-IsOs = record {
  files = files-IsFileSystem;
  stat-file = λ j c s held. rw held refl;
  file-remove = λ path s done. lookup-erase path path s ∙ rw (==_refl path) refl;
  file-remove_other = λ path j s other. lookup-erase j path s ∙ rw (==-ne j path other) refl;
  read_file-file = λ path c s read. read;
}

abbrev path : FilePath
path = record { join = λ dir name. dir ++ (b'/' ∷ name); dir = dir_of }

abbrev flags : Flags
flags = record {
  out_dir = codes "certs";
  ca_cn = codes "Root";
  server_cn = codes "localhost";
  force = true;
  android_ca_path = codes "raw/debug_ca.crt";
}

abbrev conditions : BootstrapWorld
conditions = record { ca_draws = draws; server_draws = draws; interfaces = none }

abbrev disk : Dict Bytes
disk = (codes "certs/ca.crt", 1 ∷ []) ∷ []

certgen_run : (certgen coding path commands conditions flags disk).1 ≡ generated
unfolding library bootstrap_certificates create_missing existing create_all create_server
    server_pair write_pair with_defaults dir_of generate_ca ◌*ℤ◌ certgen generate copy_android_ca
    remove_all any_exist
certgen_run = refl

abbrev after : Dict Bytes
after = (certgen coding path commands conditions flags disk).0

apart : AreDistinct (paths_of path flags.out_dir)
unfolding library
apart = record {
  cert_key = ne_of_== _ _ refl;
  cert_server_key = ne_of_== _ _ refl;
  cert_server_cert = ne_of_== _ _ refl;
  key_server_key = ne_of_== _ _ refl;
  key_server_cert = ne_of_== _ _ refl;
}

cert_apart : codes "certs/ca.crt" ≢ codes "raw/debug_ca.crt"
cert_apart e = cc

key_apart : codes "certs/ca.key" ≢ codes "raw/debug_ca.crt"
key_apart e = cc

certgen-load_ca_example :
    ((q : IsStored coding files conditions (options_of path flags) after) × (load_ca coding
          (lookup (codes "certs/ca.crt") after)
          (lookup (codes "certs/ca.key") after)
        ≡ ok q.ca))
    × Copied path commands flags.android_ca_path (codes "certs/ca.crt") after
certgen-load_ca_example =
    certgen-load_ca coding path commands conditions flags disk commands-IsOs coding-IsCodec apart
      cert_apart key_apart certgen_run

held_run : lookup (codes "certs/ca.crt") disk ≡ some (1 ∷ [])
unfolding library
held_run = refl

certgen_keeps_example :
    lookup
      (codes "certs/ca.crt")
      (certgen coding path commands conditions (record flags { force = false }) disk).0
    ≡ some (1 ∷ [])
certgen_keeps_example =
    certgen_keeps coding path commands conditions (record flags { force = false }) disk
      (codes "certs/ca.crt") (1 ∷ []) commands-IsOs refl cert_apart held_run
