-- ===== src/Server/Verifying.antt =====
-- The verifier that backend/cmd/server/main.go builds from its configuration, and what it accepts.
use mtls_authentication_poc.Prelude.{
  ◌≡◌, refl, sym, Option, Required, ◌∷◌, ℕ, ap, ◌∙◌, subst, inl, inr, Bool, true, false, none, some,
  List, [], pos, ℤ_eq, ◌*ℤ◌, Bytes, codes, ℕ_eq, text_eq, Result, ok, ◌>>=◌, >>=-eq-ok,
  ok-injective,
}
use mtls_authentication_poc.Platform.{Platform, Certificate, hour}
use mtls_authentication_poc.Config.{Environment, Config, get_env_bool, load_config}
use mtls_authentication_poc.Attestation.Types.{Decoders, AttestationRecord, Policy}
use mtls_authentication_poc.Attestation.Revocation.{
  RevocationStatusClient, Call, new_revocation_status_client,
}
use mtls_authentication_poc.Attestation.Verifier.{Verifier, World, verify_attestation}
use mtls_authentication_poc.Attestation.Verifier.Soundness.{
  IsTrusted, AllClear, ClearFor, verify_attestation-IsTrusted,
}
use mtls_authentication_poc.Attestation.Roots.{
  RootError, new_google_root_cert_pool, new_verifier, with_revocation_checker,
}
use mtls_authentication_poc.Server.Routes.{server_policy}
use mtls_authentication_poc.Server.Policy.{IsStrict, server_policy-IsStrict}
use mtls_authentication_poc.Attestation.Verifier.Client.{HasClient}
use mtls_authentication_poc.Attestation.Roots.Pool.{AreRoots, new_google_root_cert_pool-AreRoots}

module _ (p : Platform) where
  abbrev pub attach : Bool → RevocationStatusClient → Verifier p → Verifier p
  attach true rc v = with_revocation_checker p rc v
  attach false rc v = v

  unfoldable pub server_verifier : List Bytes → Config → Result RootError (Verifier p)
  server_verifier pems cfg = do
    v ← new_verifier p pems none (server_policy cfg)
    ok (
        attach cfg.require_revocation_check
          (new_revocation_status_client cfg.revocation_list_url (pos 24 *ℤ hour)) v)

  pub record IsBuilt (pems : List Bytes) (cfg : Config) (v : Verifier p) : Type 0 where
    pub pool : new_google_root_cert_pool p pems [] ≡ ok v.root_pool
    pub policy : v.policy ≡ server_policy cfg

  attach-IsBuilt :
      (pems : List Bytes) (cfg : Config) (on : Bool) (rc : RevocationStatusClient) (v : Verifier p)
      → IsBuilt pems cfg v
      → IsBuilt pems cfg (attach on rc v)
  attach-IsBuilt pems cfg true rc v b = record { pool = b.pool; policy = b.policy }
  attach-IsBuilt pems cfg false rc v b = b

  pub server_verifier-IsBuilt :
      (pems : List Bytes) (cfg : Config) (v : Verifier p)
      → server_verifier pems cfg ≡ ok v
      → IsBuilt pems cfg v
  unfolding server_verifier new_verifier
  server_verifier-IsBuilt pems cfg v h =
      let (u, e, h1) = >>=-eq-ok (new_verifier p pems none (server_policy cfg)) _ h in
      let (pool, f, g) = >>=-eq-ok (new_google_root_cert_pool p pems []) _ e in
      let base : IsBuilt pems cfg
          (record { root_pool = pool; policy = server_policy cfg; revocations = none }) =
        record { pool = f; policy = refl } in
      subst (IsBuilt pems cfg) (ok-injective _ _ h1) (
        attach-IsBuilt pems cfg cfg.require_revocation_check _ u
          (subst (IsBuilt pems cfg) (ok-injective _ _ g) base))

  attach-HasClient :
      (on : Bool) (rc : RevocationStatusClient) (v : Verifier p)
      → Required on (HasClient (attach on rc v).revocations)
  attach-HasClient true rc v = inr (rc, refl)
  attach-HasClient false rc v = inl refl

  -- The verifier has a revocation client if the configuration asks for the check.
  pub server_verifier-HasClient :
      (pems : List Bytes) (cfg : Config) (v : Verifier p)
      → server_verifier pems cfg ≡ ok v
      → Required cfg.require_revocation_check (HasClient v.revocations)
  unfolding server_verifier
  server_verifier-HasClient pems cfg v h =
      let (u, e, h1) = >>=-eq-ok (new_verifier p pems none (server_policy cfg)) _ h in
      subst (λ (x : Verifier p). Required cfg.require_revocation_check (HasClient x.revocations))
        (ok-injective _ _ h1) (attach-HasClient cfg.require_revocation_check _ u)

  pub load_config-HasClient :
      (env : Environment) (o : Option RevocationStatusClient)
      → get_env_bool env (codes "DEV_MODE") false ≡ false
      → Required (load_config env).require_revocation_check (HasClient o)
      → Required (get_env_bool env (codes "REQUIRE_REVOCATION_CHECK") true) (HasClient o)
  unfolding load_config
  load_config-HasClient env o off h = rw off at h

  pub record IsAccepted (d : Decoders) (pems : List Bytes) (w : World) (v : Verifier p)
      (chain : List Bytes) (challenge : Bytes) (key : Option p.Key) (r : AttestationRecord)
      : Type 0 where
    pub roots : AreRoots p pems v.root_pool
    pub strict : IsStrict v.policy
    pub trusted : IsTrusted p d w v chain challenge key r
    pub rooted : p.verify_chain w.verified_at v.root_pool trusted.intermediates trusted.leaf ≡ true

  -- In every environment whose DEV_MODE does not read as true, the verifier that the server builds has
  -- the certificates of the embedded texts, one for each, as its roots, and a strict policy. It returns
  -- a record only for a chain that is trusted under that policy and that leads to those roots; and if
  -- REQUIRE_REVOCATION_CHECK does not read as false, it has a revocation client that answered for each
  -- certificate of the chain that its key is not revoked.
  pub server_verifier-IsTrusted :
      (d : Decoders) (env : Environment) (pems : List Bytes) (w : World) (v : Verifier p)
      (chain : List Bytes) (challenge : Bytes) (key : Option p.Key) (r : AttestationRecord)
      → get_env_bool env (codes "DEV_MODE") false ≡ false
      → server_verifier pems (load_config env) ≡ ok v
      → (verify_attestation p d w v chain challenge key).1 ≡ ok r
      → (a : IsAccepted d pems w v chain challenge key r) × Required
          (get_env_bool env (codes "REQUIRE_REVOCATION_CHECK") true)
          ((c : RevocationStatusClient) × (v.revocations ≡ some c)
            × AllClear p d w.calls 0 (a.trusted.leaf ∷ a.trusted.intermediates) c)
  server_verifier-IsTrusted d env pems w v chain challenge key r off built accepted =
      let b = server_verifier-IsBuilt pems (load_config env) v built in
      let (strict, checked) = server_policy-IsStrict env off in
      let s = subst IsStrict (sym b.policy) strict in
      let t = verify_attestation-IsTrusted p d w v chain challenge key r s.attested accepted in
      (
        record {
          roots = new_google_root_cert_pool-AreRoots p pems v.root_pool b.pool;
          strict = s;
          trusted = t;
          rooted = elim t.rooted [ inl skipped ↦ cc (skipped, s.chained) | inr rooted ↦ rooted ];
        },
        cleared w.calls (t.leaf ∷ t.intermediates) v.revocations _ _
            (ap (λ (q : Policy). q.check_revocation_list) b.policy ∙ checked)
            (load_config-HasClient env v.revocations off
              (server_verifier-HasClient pems (load_config env) v built))
            t.unrevoked,
      )
    where
      cleared :
          (calls : ℕ → Call) (certs : List (Certificate p.Key)) (o : Option RevocationStatusClient)
          (policy required' : Bool)
          → policy ≡ required'
          → Required required' (HasClient o)
          → Required policy (ClearFor p d calls certs o)
          → Required required'
              ((c : RevocationStatusClient) × (o ≡ some c) × AllClear p d calls 0 certs c)
      cleared calls certs o policy required' same (inl off) q = inl off
      cleared calls certs o policy required' same (inr (c, e)) (inl off) = inl (sym same ∙ off)
      cleared calls certs o policy required' same (inr (c, e)) (inr clear) =
          inr (c, e, rw e at clear)
