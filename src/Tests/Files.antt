-- ===== src/Tests/Files.antt =====
-- The theorems on the bootstrap of the authority, on a file system that is a map from paths to files.
use mtls_authentication_poc.Prelude.{
  ◌≡◌, refl, ◌∙◌, true, false, none, some, [], ◌∷◌, ==_refl, ==-ne, pos, ℤ_eq, ◌*ℤ◌, All, Bytes,
  codes, ℕ_eq, text_eq,
}
use mtls_authentication_poc.Prelude.Dict.{Dict, lookup, insert, lookup-insert}
use mtls_authentication_poc.Platform.{Platform}
use mtls_authentication_poc.Ca.Signer.{generate_ca}
use mtls_authentication_poc.Ca.Bootstrap.{
  FileSystem, BootstrapOptions, BootstrapWorld, ip_net, path_list, with_defaults, dir_of, existing,
  server_pair, write_pair, create_server, create_all, create_missing, bootstrap_certificates,
}
use mtls_authentication_poc.Ca.Bootstrap.Kept.{IsFileSystem, bootstrap_certificates_keeps}
use mtls_authentication_poc.Ca.Bootstrap.Complete.{Exists, bootstrap_certificates-Exists}
use mtls_authentication_poc.Tests.Toy.{toy}
use mtls_authentication_poc.Tests.Run.{library, draws}

-- The small platform, with an authority that creates every certificate.
abbrev signing : Platform
signing = record toy { create_certificate = λ nonce template parent key signer. some (9 ∷ nonce) }

abbrev pub files : FileSystem
files = record {
  State = Dict Bytes;
  file = lookup;
  mkdir_all = λ dir s. (s, true);
  write_file = λ path bytes s. (insert path bytes s, true);
}

pub files-IsFileSystem : IsFileSystem files
files-IsFileSystem = record {
  file-mkdir_all = λ dir j s. refl;
  file-write_other =
      λ path bytes j s other. lookup-insert j path bytes s ∙ rw (==-ne j path other) refl;
  file-write = λ path bytes s written. lookup-insert path path bytes s ∙ rw (==_refl path) refl;
}

abbrev options : BootstrapOptions
options = record {
  paths = record {
    ca_cert_path = codes "certs/ca.crt";
    ca_key_path = codes "certs/ca.key";
    server_cert_path = codes "certs/server.crt";
    server_key_path = codes "certs/server.key";
  };
  ca_cn = [];
  server_cn = [];
  ca_validity = pos 0;
  server_validity = pos 0;
}

abbrev conditions : BootstrapWorld
conditions = record {
  ca_draws = draws;
  server_draws = draws;
  interfaces = some (
      record {
        up = true;
        loopback = false;
        addrs = some (ip_net (some (codes "192.168.1.7")) ∷ []);
      }
      ∷ []);
}

-- A file that has nothing to do with the certificates.
abbrev disk : Dict Bytes
disk = (codes "README", codes "text") ∷ []

disk_run : lookup (codes "README") disk ≡ some (codes "text")
unfolding library
disk_run = refl

created_run : (bootstrap_certificates signing files conditions options disk).1 ≡ none
unfolding library bootstrap_certificates create_missing existing create_all create_server
    server_pair write_pair with_defaults dir_of generate_ca ◌*ℤ◌
created_run = refl

bootstrap_certificates_keeps_example :
    lookup (codes "README") (bootstrap_certificates signing files conditions options disk).0
    ≡ some (codes "text")
bootstrap_certificates_keeps_example =
    bootstrap_certificates_keeps signing files files-IsFileSystem conditions options disk
      (codes "README") (codes "text") disk_run

bootstrap_certificates-Exists_example :
    All
      (λ path.
        Exists signing files path (bootstrap_certificates signing files conditions options disk).0)
      (path_list options.paths)
bootstrap_certificates-Exists_example =
    bootstrap_certificates-Exists signing files files-IsFileSystem conditions options disk
      created_run
