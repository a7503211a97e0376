-- ===== src/Ca/Bootstrap.antt =====
-- backend/internal/ca/bootstrap.go. The file system is a parameter: its calls of package `os`, with what
-- stands at a path as the one observation. A call that fails returns false.
use mtls_authentication_poc.Prelude.{
  ℕ, ◌+◌, ◌-◌, ◌*◌, ◌/◌, refl, ite, Bool, true, false, not, ◌||◌, Option, none, some, List, [], ◌∷◌,
  ◌++◌, arith, ℕ_discrete, ltb, if◌then◌else◌, ◌==◌, ℤ, pos, ℤ_discrete, ℤ_eq, ◌+ℤ◌, ◌-ℤ◌, ◌*ℤ◌,
  length, Bytes, Text, codes, text_discrete, ℕ_eq, text_eq, Result, ok, err, ◌>>=◌, ◌>>◌, or_fail,
}
use Prim.Native.Nat.{bit_or}
use mtls_authentication_poc.Platform.{
  Platform, Time, Duration, Certificate, minute, hour, digital_signature, key_encipherment,
  server_auth,
}
use mtls_authentication_poc.Ca.Signer.{
  Ca, CaError, Draws, generate_ca, certificate_pem, ec_key_pem, key_not_generated, no_serial,
  not_created, key_not_marshaled,
}
pub mod Complete
pub mod Kept
pub mod Loaded

-- `file path s` is the content of the regular file at the path: `none` where `os.Stat` fails or finds
-- a directory.
pub record FileSystem : Type 1 where
  pub State : Type 0
  pub file : Text → State → Option Bytes
  pub mkdir_all : Text → State → State × Bool
  pub write_file : Text → Bytes → State → State × Bool

pub record BootstrapPaths : Type 0 where
  pub ca_cert_path : Text
  pub ca_key_path : Text
  pub server_cert_path : Text
  pub server_key_path : Text

pub record BootstrapOptions : Type 0 where
  pub paths : BootstrapPaths
  pub ca_cn : Text
  pub server_cn : Text
  pub ca_validity : Duration
  pub server_validity : Duration

-- What `net.Interfaces` and `Addrs` report: an address that is no `*net.IPNet`, or the IPv4 form of
-- one that is, if it has one.
pub data Address : Type 0 where
  other_address : Address
  ip_net : Option Text → Address

pub record Interface : Type 0 where
  pub up : Bool
  pub loopback : Bool
  pub addrs : Option (List Address)

pub record BootstrapWorld : Type 0 where
  pub ca_draws : Draws
  pub server_draws : Draws
  pub interfaces : Option (List Interface)

pub data BootstrapError : Type 0 where
  no_directory write_failed : BootstrapError
  -- The files that exist already.
  refused : List Text → BootstrapError
  ca_failed server_failed : CaError → BootstrapError

-- The part before the last slash, if there is one.
unfoldable pub before_last_slash : Text → Option Text
unfolding ℕ_eq
before_last_slash [] = none
before_last_slash (c ∷ cs) = elim (before_last_slash cs) [
  | some dir ↦ some (c ∷ dir)
  | none ↦ if c == b'/' then some [] else none
]

unfoldable pub dir_of : Text → Text
unfolding before_last_slash
dir_of path = elim (before_last_slash path) [ none ↦ codes "." | some dir ↦ dir ]

abbrev pub ip4_of : List Address → List Text
ip4_of [] = []
ip4_of (ip_net (some ip) ∷ addrs) = ip ∷ ip4_of addrs
ip4_of (_ ∷ addrs) = ip4_of addrs

abbrev pub interface_ips : Interface → List Text
interface_ips i =
    if not i.up || i.loopback then [] else elim i.addrs [ none ↦ [] | some addrs ↦ ip4_of addrs ]

abbrev pub interfaces_ips : List Interface → List Text
interfaces_ips [] = []
interfaces_ips (i ∷ is) = interface_ips i ++ interfaces_ips is

abbrev pub host_san_ips : Option (List Interface) → List Text
host_san_ips interfaces =
    (codes "127.0.0.1" ∷ codes "10.0.2.2" ∷ codes "::1" ∷ [])
    ++ elim interfaces [ none ↦ [] | some is ↦ interfaces_ips is ]

-- The defaults of the options that are zero.
unfoldable pub with_defaults : BootstrapOptions → BootstrapOptions
with_defaults opts = record opts {
  ca_validity = if opts.ca_validity == pos 0 then pos (10 * 365 * 24) *ℤ hour else opts.ca_validity;
  server_validity =
      if opts.server_validity == pos 0 then pos (5 * 365 * 24) *ℤ hour else opts.server_validity;
  ca_cn = if opts.ca_cn == [] then codes "Hardware mTLS PoC Root CA" else opts.ca_cn;
  server_cn = if opts.server_cn == [] then codes "localhost" else opts.server_cn;
}

abbrev pub path_list : BootstrapPaths → List Text
path_list q = q.ca_cert_path ∷ q.ca_key_path ∷ q.server_cert_path ∷ q.server_key_path ∷ []

module _ (p : Platform) where
  abbrev pub server_template :
      BootstrapOptions → Option (List Interface) → ℕ → Time → Time → Certificate p.Key
  server_template opts interfaces serial now later = record {
    public_key = none;
    serial_number = pos serial;
    common_name = opts.server_cn;
    organization = codes "Hardware mTLS Server" ∷ [];
    uris = [];
    dns_names = codes "localhost" ∷ codes "android.local" ∷ [];
    ip_addresses = host_san_ips interfaces;
    not_before = now -ℤ minute;
    not_after = later +ℤ opts.server_validity;
    key_usage = bit_or digital_signature key_encipherment;
    ext_key_usage = server_auth ∷ [];
    basic_constraints_valid = true;
    is_ca = false;
    max_path_len = 0;
    extensions = [];
  }

  -- The server's key and certificate as PEM.
  unfoldable pub server_pair :
      Draws → Option (List Interface) → Ca p → BootstrapOptions → Result CaError (Bytes × Bytes)
  server_pair w interfaces ca opts = do
    key ← or_fail (p.generate_key w.key_seed) key_not_generated
    serial ← or_fail w.serial no_serial
    der ←
        or_fail
          (p.create_certificate w.nonce (server_template opts interfaces serial w.now w.later)
            ca.certificate (some (p.public_of key)) ca.private_key)
          not_created
    key_der ← or_fail (p.marshal_ec_private_key key) key_not_marshaled
    ok (p.pem_encode (ec_key_pem key_der), p.pem_encode (certificate_pem der))

module _ (p : Platform) (fs : FileSystem) where
  -- The rest of the function, unless the call failed.
  abbrev pub and_then :
      fs.State × Option BootstrapError
      → (fs.State → fs.State × Option BootstrapError)
      → fs.State × Option BootstrapError
  and_then (s, none) f = f s
  and_then (s, some e) f = (s, some e)

  abbrev pub reported : BootstrapError → fs.State × Bool → fs.State × Option BootstrapError
  reported e (s, true) = (s, none)
  reported e (s, false) = (s, some e)

  abbrev pub file_exists : Text → fs.State → Bool
  file_exists path s = elim (fs.file path s) [ none ↦ false | some _ ↦ true ]

  unfoldable pub existing : List Text → fs.State → List Text
  existing [] s = []
  existing (path ∷ paths) s =
      let rest = existing paths s in if file_exists path s then path ∷ rest else rest

  unfoldable pub write_pair :
      Text → Bytes → Text → Bytes → fs.State → fs.State × Option BootstrapError
  write_pair key_path key cert_path cert s =
      and_then (reported write_failed (fs.write_file key_path key s))
        (λ t. reported write_failed (fs.write_file cert_path cert t))

  unfoldable pub create_server :
      BootstrapWorld → BootstrapOptions → Ca p → fs.State → fs.State × Option BootstrapError
  create_server w opts ca s = elim (server_pair p w.server_draws w.interfaces ca opts) [
    | err e ↦ (s, some (server_failed e))
    | ok (key, cert) ↦ write_pair opts.paths.server_key_path key opts.paths.server_cert_path cert s
  ]

  unfoldable pub create_all :
      BootstrapWorld → BootstrapOptions → fs.State → fs.State × Option BootstrapError
  create_all w opts s = elim (generate_ca p w.ca_draws opts.ca_cn opts.ca_validity) [
    | err e ↦ (s, some (ca_failed e))
    | ok (ca, cert, key) ↦
        and_then (write_pair opts.paths.ca_key_path key opts.paths.ca_cert_path cert s)
          (create_server w opts ca)
  ]

  -- What follows the directories.
  unfoldable pub create_missing :
      BootstrapWorld → BootstrapOptions → fs.State → fs.State × Option BootstrapError
  create_missing w opts s =
      let found = existing (path_list opts.paths) s in
      if length found == 4
      then (s, none)
      else if ltb 0 (length found)
      then (s, some (refused found))
      else create_all w (with_defaults opts) s

  -- The paths, which every return hands back, are left out.
  unfoldable pub bootstrap_certificates :
      BootstrapWorld → BootstrapOptions → fs.State → fs.State × Option BootstrapError
  bootstrap_certificates w opts s =
      and_then (reported no_directory (fs.mkdir_all (dir_of opts.paths.ca_cert_path) s)) (λ t.
        and_then (reported no_directory (fs.mkdir_all (dir_of opts.paths.server_cert_path) t))
          (create_missing w opts))
