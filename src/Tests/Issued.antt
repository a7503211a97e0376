-- ===== src/Tests/Issued.antt =====
-- The theorems on certificates that are superseded and on an authority that is read back, at the
-- example.
use mtls_authentication_poc.Prelude.{
  ℕ, ◌≡◌, refl, sym, ap, ◌≢◌, Option, none, some, [], ◌∷◌, ◌++◌, arith, pos, ℤ_eq, length, take,
  drop, take-length, drop-length, Bytes, codes, ℕ_eq, text_eq, Result, ok,
}
use mtls_authentication_poc.Platform.{Platform, PemBlock, Certificate, hour}
use mtls_authentication_poc.Storage.Challenges.{memory_challenge_store}
use mtls_authentication_poc.Storage.Devices.{memory_device_repo}
use mtls_authentication_poc.Storage.Devices.Memory.{memory_device_repo-IsLawful}
use mtls_authentication_poc.Ca.Signer.{Ca, generate_ca, load_ca}
use mtls_authentication_poc.Ca.Signer.Loaded.{IsCodec, load_ca-generate_ca}
use mtls_authentication_poc.Http.{Request, Failure, method_get}
use mtls_authentication_poc.Middleware.{DeviceIdentity, identity_of, authenticate}
use mtls_authentication_poc.Handlers.Enroll.Issue.{EnrollResponse, enroll}
use mtls_authentication_poc.Handlers.Enroll.Superseded.{enroll_superseded}
use mtls_authentication_poc.Server.Routes.{State}
use mtls_authentication_poc.Tests.Toy.{
  toy, toy-IsStandard, decoders, issued, root, device_id, device_key,
}
use mtls_authentication_poc.Tests.Run.{
  library, world, draws, handler, decode, post, start, granted, enroll_run,
}

abbrev presenting : Certificate ℕ → Request ℕ
presenting cert = record {
  method = method_get;
  path = codes "/api/v1/protected/ping";
  body = [];
  peer_certificates = some (cert ∷ root ∷ []);
}

-- A certificate of the same key with another serial number.
abbrev former : Certificate ℕ
former = record issued { serial_number = pos 5 }

abbrev claimed : DeviceIdentity
claimed = record {
  identity = device_id;
  label = codes "pixel-9";
  cert_serial = codes "5";
  record' = none;
}

ran_run :
    (enroll toy decoders
      (memory_challenge_store toy)
      memory_device_repo
      decode
      world
      handler
      post
      start).1
    ≡ ok granted
ran_run = ap (λ (q : State toy × Result Failure EnrollResponse). q.1) enroll_run

named_run : identity_of toy memory_device_repo former ≡ device_id
unfolding library identity_of
named_run = refl

enroll_superseded_example :
    authenticate toy memory_device_repo
      (some
        (enroll toy decoders
          (memory_challenge_store toy)
          memory_device_repo
          decode
          world
          handler
          post
          start).0.devices)
      (presenting former)
    ≢ ok claimed
enroll_superseded_example =
    enroll_superseded toy decoders (memory_challenge_store toy) memory_device_repo
      memory_device_repo-IsLawful decode world handler post start granted 7 (presenting former)
      former (root ∷ []) claimed toy-IsStandard refl ran_run refl named_run (λ e. ground arith)

-- A platform whose PEM texts start with the length of the type, and whose authority creates every
-- certificate.
abbrev pub decode_text : Bytes → Option PemBlock
decode_text [] = none
decode_text (n ∷ bs) = some (record { type = take n bs; bytes = drop n bs })

abbrev pub encode_text : PemBlock → Bytes
encode_text block = length block.type ∷ block.type ++ block.bytes

abbrev pub parse_key : Bytes → Option ℕ
parse_key [] = none
parse_key (k ∷ _) = some k

abbrev pub coding : Platform
coding = record toy {
  create_certificate = λ nonce template parent key signer. some (9 ∷ nonce);
  pem_decode = decode_text;
  pem_encode = encode_text;
  parse_ec_private_key = parse_key;
}

parse-marshal_run : (key : ℕ) (der : Bytes) → some (key ∷ []) ≡ some der → parse_key der ≡ some key
parse-marshal_run key der h = let same : (key ∷ []) ≡ der = cc in ap parse_key (sym same)

pub coding-IsCodec : IsCodec coding
coding-IsCodec = record {
  pem_decode-pem_encode =
      λ block. rw (take-length block.type block.bytes, drop-length block.type block.bytes) refl;
  parse-marshal = parse-marshal_run;
}

abbrev generated : Ca coding
generated = record { certificate = issued; private_key = device_key }

generated_run :
    generate_ca coding draws [] hour
    ≡ ok (
      generated,
      encode_text (record { type = codes "CERTIFICATE"; bytes = 9 ∷ 11 ∷ [] }),
      encode_text (record { type = codes "EC PRIVATE KEY"; bytes = device_key ∷ [] }),
    )
unfolding library generate_ca
generated_run = refl

load_ca-generate_ca_example :
    load_ca coding
      (some (encode_text (record { type = codes "CERTIFICATE"; bytes = 9 ∷ 11 ∷ [] })))
      (some (encode_text (record { type = codes "EC PRIVATE KEY"; bytes = device_key ∷ [] })))
    ≡ ok generated
load_ca-generate_ca_example =
    load_ca-generate_ca coding draws [] hour generated
      (encode_text (record { type = codes "CERTIFICATE"; bytes = 9 ∷ 11 ∷ [] }))
      (encode_text (record { type = codes "EC PRIVATE KEY"; bytes = device_key ∷ [] }))
      coding-IsCodec generated_run
