-- ===== src/Attestation/Revocation/Laws.antt =====
-- What `IsKeyRevoked` answers, and what it leaves of the client.
use mtls_authentication_poc.Prelude.{
  ◌≡◌, refl, ap, ◌∙◌, ◌⊎◌, inl, inr, Bool, true, false, Option, none, some, List, [], ◌∷◌, arith,
  ◌==◌, Bool-cases, Option-cases, ℤ, ◌-ℤ◌, ◌≤ℤ◌, ltb_ℤ, eq_of_==, ℤ_eq, take, Bytes, Text, ℕ_eq,
  text_eq, ok, err,
}
use mtls_authentication_poc.Prelude.Dict.{Dict, insert, lookup-insert}
use mtls_authentication_poc.Platform.{Platform}
use mtls_authentication_poc.Attestation.Revocation.{
  RevocationStatusClient, Call, RevocationError, response, max_list_bytes, is_revoked_status,
  is_listed, to_lower, lower_entries, public_key_fingerprint, fetch_locked, is_stale, refresh,
  is_key_revoked, HttpOutcome, get_failed, keep_entries, read_response, answer, answer_for,
}

in_time : (ttl age : ℤ) → ltb_ℤ ttl age ≡ false → age ≤ℤ ttl
in_time ttl age h = ground arith

insert-is_listed :
    (id k status : Text) (d : Dict Text)
    → (k ≡ id → is_revoked_status status ≡ true)
    → (k ≡ id) ⊎ (is_listed id (some d) ≡ true)
    → is_listed id (some (insert k status d)) ≡ true
insert-is_listed id k status d a h = ground (arith, lookup-insert id k status d, a)

module _ (p : Platform) where
  -- The client has the list of a document that the server answered with.
  pub record IsFetched (w : Call) (c after : RevocationStatusClient) : Type 0 where
    pub body : Bytes
    pub entries : List (Text × Text)
    pub answered : w.outcome c.list_url ≡ response 200 (some body)
    pub parsed : p.parse_status_list (take max_list_bytes body) ≡ some entries
    pub kept : after ≡ record c { entries = some (lower_entries p entries []); fetched = w.done }

  -- The client has a list, which was fetched no longer ago than the time to live.
  pub record IsCurrent (w : Call) (c : RevocationStatusClient) : Type 0 where
    pub entries : Dict Text
    pub cached : c.entries ≡ some entries
    pub age : w.now -ℤ c.fetched ≤ℤ c.ttl

  is_stale-IsCurrent :
      (w : Call) (c : RevocationStatusClient) → is_stale p w.now c ≡ false → IsCurrent w c
  is_stale-IsCurrent w c h = elim (Option-cases c.entries) [
    | inl missing ↦ cc (rw missing at h)
    | inr (es, e) ↦ record {
      entries = es;
      cached = e;
      age = in_time c.ttl (w.now -ℤ c.fetched) (rw e at h);
    }
  ]

  keep_entries-parsed :
      (w : Call) (c : RevocationStatusClient) (o : Option (List (Text × Text)))
      → (keep_entries p w c o).1 ≡ none
      → (es : List (Text × Text)) × (o ≡ some es)
        × ((keep_entries p w c o).0
            ≡ record c { entries = some (lower_entries p es []); fetched = w.done })
  unfolding keep_entries
  keep_entries-parsed w c none h = cc
  keep_entries-parsed w c (some es) h = (es, refl, refl)

  read_response-IsFetched :
      (w : Call) (c : RevocationStatusClient) (o : HttpOutcome)
      → w.outcome c.list_url ≡ o
      → (read_response p w c o).1 ≡ none
      → IsFetched w c (read_response p w c o).0
  unfolding read_response
  read_response-IsFetched w c get_failed e h = cc
  read_response-IsFetched w c (response status none) e h = ground arith
  read_response-IsFetched w c (response status (some body)) e h =
      elim (Bool-cases (status == 200)) [
        | inl good ↦
            let (es, parsed, kept) =
              keep_entries-parsed w c (p.parse_status_list (take max_list_bytes body))
                (rw (good, read_response) at h) in
            record {
              body = body;
              entries = es;
              answered = e ∙ ap (λ n. response n (some body)) (eq_of_== status 200 good);
              parsed = parsed;
              kept = rw good kept;
            }
        | inr bad ↦ ground arith
      ]

  keep_entries_failed :
      (w : Call) (c : RevocationStatusClient) (o : Option (List (Text × Text)))
      (e : RevocationError)
      → (keep_entries p w c o).1 ≡ some e
      → (keep_entries p w c o).0 ≡ c
  unfolding keep_entries
  keep_entries_failed w c none e h = refl
  keep_entries_failed w c (some es) e h = cc

  read_response_failed :
      (w : Call) (c : RevocationStatusClient) (o : HttpOutcome) (e : RevocationError)
      → (read_response p w c o).1 ≡ some e
      → (read_response p w c o).0 ≡ c
  unfolding read_response
  read_response_failed w c get_failed e h = refl
  read_response_failed w c (response status none) e h = ground arith
  read_response_failed w c (response status (some body)) e h =
      ground (arith, keep_entries_failed w c (p.parse_status_list (take max_list_bytes body)) e)

  answer-eq-ok :
      (id : Text) (q : RevocationStatusClient × Option RevocationError) (b : Bool)
      → (answer p id q).1 ≡ ok b
      → (q.1 ≡ none) × (b ≡ is_listed id q.0.entries) × ((answer p id q).0 ≡ q.0)
  answer-eq-ok id (c, none) b h = (refl, cc, refl)
  answer-eq-ok id (c, some e) b h = cc

  pub record IsAnswered (key : Option p.Key) (w : Call) (c after : RevocationStatusClient)
      (b : Bool) : Type 0 where
    pub id : Text
    pub identified : public_key_fingerprint p key ≡ some id
    pub fresh : (IsCurrent w c × (after ≡ c)) ⊎ IsFetched w c after
    pub looked_up : b ≡ is_listed id after.entries

  refresh-fresh :
      (w : Call) (c : RevocationStatusClient)
      → (refresh p w c).1 ≡ none
      → (IsCurrent w c × ((refresh p w c).0 ≡ c)) ⊎ IsFetched w c (refresh p w c).0
  unfolding refresh fetch_locked
  refresh-fresh w c h = elim (Bool-cases (is_stale p w.now c)) [
    | inl stale ↦ inr (rw stale (read_response-IsFetched w c _ refl (rw stale at h)))
    | inr fresh ↦ inl (is_stale-IsCurrent w c fresh, rw fresh)
  ]

  refresh_failed :
      (w : Call) (c : RevocationStatusClient) (e : RevocationError)
      → (refresh p w c).1 ≡ some e
      → (refresh p w c).0 ≡ c
  unfolding refresh fetch_locked
  refresh_failed w c e h = ground (arith, read_response_failed w c (w.outcome c.list_url) e)

  answer_for-IsAnswered :
      (key : Option p.Key) (w : Call) (c : RevocationStatusClient) (b : Bool) (o : Option Text)
      → public_key_fingerprint p key ≡ o
      → (answer_for p o w c).1 ≡ ok b
      → IsAnswered key w c (answer_for p o w c).0 b
  unfolding answer_for
  answer_for-IsAnswered key w c b none e h = cc
  answer_for-IsAnswered key w c b (some id) e h =
      let (none_failed, looked, same) = answer-eq-ok id (refresh p w c) b h in
      record {
        id = id;
        identified = e;
        fresh = rw same (refresh-fresh w c none_failed);
        looked_up = rw same looked;
      }

  -- `IsKeyRevoked` answers by the list that the client has after the call: it had that list
  -- before and fetched it no longer ago than the time to live, or this call fetched it from an answer
  -- with status 200.
  pub is_key_revoked-IsAnswered :
      (key : Option p.Key) (w : Call) (c : RevocationStatusClient) (b : Bool)
      → (is_key_revoked p key w c).1 ≡ ok b
      → IsAnswered key w c (is_key_revoked p key w c).0 b
  unfolding is_key_revoked
  is_key_revoked-IsAnswered key w c b h = answer_for-IsAnswered key w c b _ refl h

  answer_for_failed :
      (w : Call) (c : RevocationStatusClient) (e : RevocationError) (o : Option Text)
      → (answer_for p o w c).1 ≡ err e
      → (answer_for p o w c).0 ≡ c
  unfolding answer_for
  answer_for_failed w c e none h = refl
  answer_for_failed w c e (some id) h = ground (arith, refresh_failed w c e)

  -- A call of `IsKeyRevoked` that fails leaves the client as it was: no failure is cached.
  pub is_key_revoked_failed :
      (key : Option p.Key) (w : Call) (c : RevocationStatusClient) (e : RevocationError)
      → (is_key_revoked p key w c).1 ≡ err e
      → (is_key_revoked p key w c).0 ≡ c
  unfolding is_key_revoked
  is_key_revoked_failed key w c e h = answer_for_failed w c e _ h

  -- Some entry of the document has the identifier, up to case.
  abbrev pub Occurs : Text → List (Text × Text) → Type 0
  Occurs id [] = ⊥
  Occurs id ((i, status) ∷ es) = (to_lower p i ≡ id) ⊎ Occurs id es

  -- Every entry with the identifier, up to case, has a status that means revoked.
  abbrev pub Agree : Text → List (Text × Text) → Type 0
  Agree id [] = Unit
  Agree id ((i, status) ∷ es) = (to_lower p i ≡ id → is_revoked_status status ≡ true) × Agree id es

  lower_entries-is_listed :
      (id : Text) (es : List (Text × Text)) (d : Dict Text)
      → Agree id es
      → Occurs id es ⊎ (is_listed id (some d) ≡ true)
      → is_listed id (some (lower_entries p es d)) ≡ true
  unfolding lower_entries
  lower_entries-is_listed id [] d a (inl o) = absurd o
  lower_entries-is_listed id [] d a (inr h) = h
  lower_entries-is_listed id ((i, status) ∷ es) d (a, k) (inl (inl e)) =
      lower_entries-is_listed id es _ k
        (inr (insert-is_listed id (to_lower p i) status d a (inl e)))
  lower_entries-is_listed id ((i, status) ∷ es) d (a, k) (inl (inr o)) =
      lower_entries-is_listed id es _ k (inl o)
  lower_entries-is_listed id ((i, status) ∷ es) d (a, k) (inr h) =
      lower_entries-is_listed id es _ k
        (inr (insert-is_listed id (to_lower p i) status d a (inr h)))

  -- A key that the status list has as revoked, in any case of the identifier and of the status, is
  -- refused: where the cached list is stale and the server answers 200 with a document that parses,
  -- has an entry for the key's fingerprint, and says revoked in each such entry, `IsKeyRevoked`
  -- answers true.
  pub is_key_revoked-listed :
      (key : Option p.Key) (w : Call) (c : RevocationStatusClient) (id : Text) (body : Bytes)
      (es : List (Text × Text))
      → public_key_fingerprint p key ≡ some id
      → is_stale p w.now c ≡ true
      → w.outcome c.list_url ≡ response 200 (some body)
      → p.parse_status_list (take max_list_bytes body) ≡ some es
      → Occurs id es
      → Agree id es
      → (is_key_revoked p key w c).1 ≡ ok true
  unfolding is_key_revoked answer_for refresh fetch_locked read_response keep_entries ℕ_eq
  is_key_revoked-listed key w c id body es identified stale answered parsed occurs agree =
      rw (identified, stale, answered, parsed)
        (ap ok (lower_entries-is_listed id es [] agree (inl occurs)))
