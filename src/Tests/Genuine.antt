-- ===== src/Tests/Genuine.antt =====
-- The theorems on what the verifier and the enrollment endpoint accept, at the example.
use mtls_authentication_poc.Prelude.{
  ◌≡◌, refl, sym, inl, inr, some, [], ◌∷◌, arith, pos, ℤ_eq, ℕ_eq, text_eq, ok,
}
use mtls_authentication_poc.Storage.Challenges.{memory_challenge_store}
use mtls_authentication_poc.Storage.Challenges.Memory.{memory_challenge_store-IsLawful}
use mtls_authentication_poc.Storage.Devices.{memory_device_repo}
use mtls_authentication_poc.Attestation.Description.Complete.{IsAcceptable, accepted_record}
use mtls_authentication_poc.Attestation.Verifier.{Verifier, verify_attestation}
use mtls_authentication_poc.Attestation.Verifier.Complete.{
  IsGenuineChain, verify_attestation_complete,
}
use mtls_authentication_poc.Handlers.Enroll.Issue.{enroll}
use mtls_authentication_poc.Handlers.Enroll.Live.{IsReady, enroll_live}
use mtls_authentication_poc.Tests.Toy.{
  toy, decoders, description, booted, issued, leaf, root, device_id, device_key,
}
use mtls_authentication_poc.Tests.Run.{
  library, policy, revocations, verification, world, handler, decode, post, start, submission,
  granted, read_submission_run, sign_csr_run,
}

abbrev verifier : Verifier toy
verifier = record { root_pool = handler.root_pool; policy = policy; revocations = some revocations }

acceptable : IsAcceptable toy decoders policy description (77 ∷ []) booted (pos 0, pos 0)
unfolding library
acceptable = record {
  fresh = refl;
  attested = inl refl;
  guarded = inr refl;
  rooted = refl;
  locked = refl;
  boot = refl;
  bound = inl refl;
  version = refl;
  patch = refl;
  new_version = inl refl;
  new_patch = inl refl;
}

genuine :
    IsGenuineChain toy decoders verification verifier submission.chain_der
      (77 ∷ [])
      device_key
      description
      booted
      (pos 0, pos 0)
unfolding library
genuine = record {
  leaf = leaf;
  intermediates = root ∷ [];
  parsed = refl;
  long = omega arith;
  short = omega arith;
  unrevoked = (refl, (refl, tt));
  rooted = refl;
  same_key = record { der = device_key ∷ []; leaf_der = refl; csr_der = refl };
  first = 42;
  rest = [];
  found = refl;
  decoded = refl;
  acceptable = acceptable;
}

ready :
    IsReady toy decoders
      (memory_challenge_store toy)
      memory_device_repo
      (memory_challenge_store-IsLawful toy)
      decode
      world
      handler
      post
      start
      submission
      device_id
      issued
      (9 ∷ 11 ∷ [])
unfolding library
ready = record {
  read = read_submission_run;
  challenged = λ e. cc;
  fresh = sym ((memory_challenge_store-IsLawful toy).consumed (pos 1) (77 ∷ []) start.challenges);
  key = device_key;
  requested = refl;
  kd = description;
  rot = booted;
  os = (pos 0, pos 0);
  genuine = genuine;
  derived = refl;
  clear = tt;
  signed = sign_csr_run;
  written = refl;
}

verify_attestation_complete_example :
    (verify_attestation toy decoders verification verifier submission.chain_der
      (77 ∷ [])
      (some device_key)).1
    ≡ ok (accepted_record description booted (pos 0, pos 0))
verify_attestation_complete_example =
    verify_attestation_complete toy decoders verification verifier submission.chain_der (77 ∷ [])
      device_key description booted (pos 0, pos 0) refl genuine

enroll_live_example :
    (enroll toy decoders
      (memory_challenge_store toy)
      memory_device_repo
      decode
      world
      handler
      post
      start).1
    ≡ ok granted
enroll_live_example =
    enroll_live toy decoders (memory_challenge_store toy) memory_device_repo
      (memory_challenge_store-IsLawful toy) decode world handler post start submission device_id
      issued (9 ∷ 11 ∷ []) refl ready
