-- ===== src/Attestation/Revocation.antt =====
-- backend/internal/attestation/revocation.go. The state of the client is a record. What one call meets
-- outside it, the clock and the server's answer, is an argument.
pub mod Fingerprint
pub mod Laws
use mtls_authentication_poc.Prelude.{
  ℕ, ◌+◌, ◌-◌, ◌*◌, ◌/◌, ◌^◌, ◌≡◌, refl, ite, Bool, true, false, not, ◌&&◌, Option, none, some,
  List, [], ◌∷◌, map, arith, ℕ_discrete, ltb, leb, if◌then◌else◌, ◌==◌, pos, ℤ_discrete, ℤ_eq, ◌-ℤ◌,
  ltb_ℤ, take, drop, all, Bytes, Text, codes, text_discrete, ℕ_eq, text_eq, Result, ok, err, ◌>>=◌,
  ◌>>◌,
}
use mtls_authentication_poc.Prelude.Dict.{Dict, lookup, insert}
use mtls_authentication_poc.Platform.{Platform, Time, Duration, hex_encode}

abbrev pub default_revocation_list_url : Text
default_revocation_list_url = codes "https://android.googleapis.com/attestation/status"

-- `entries` is `none` for the nil map.
pub record RevocationStatusClient : Type 0 where
  pub list_url : Text
  pub ttl : Duration
  pub entries : Option (Dict Text)
  pub fetched : Time

unfoldable pub new_revocation_status_client : Text → Duration → RevocationStatusClient
unfolding text_eq
new_revocation_status_client list_url ttl = record {
  list_url = if list_url == [] then default_revocation_list_url else list_url;
  ttl = ttl;
  entries = none;
  fetched = pos 0;
}

-- The outcome of `httpClient.Get` and of reading the body, which `none` says fails.
pub data HttpOutcome : Type 0 where
  get_failed : HttpOutcome
  response : (status : ℕ) → (body : Option Bytes) → HttpOutcome

-- What one call of `IsKeyRevoked` reads of the world: the clock at the staleness test, the answer
-- to the URL that it asks, and the clock after the answer.
pub record Call : Type 0 where
  pub now : Time
  pub outcome : Text → HttpOutcome
  pub done : Time

pub data RevocationError : Type 0 where
  marshal_failed fetch_failed read_failed parse_failed : RevocationError
  bad_status : ℕ → RevocationError

abbrev pub max_list_bytes : ℕ
max_list_bytes = 4 * 2 ^ 20

abbrev lower_byte : ℕ → ℕ
lower_byte c = if leb b'A' c && leb c b'Z' then c + 32 else c

-- `strings.ToLower`: ASCII texts by the byte, other texts by Unicode's tables.
unfoldable pub to_lower : Platform → Text → Text
to_lower p s = if all (λ c. ltb c 0x80) s then map lower_byte s else p.unicode_lower s

abbrev kelvin_sign : Text
kelvin_sign = 0xe2 ∷ 0x84 ∷ 0xaa ∷ []

abbrev long_s : Text
long_s = 0xc5 ∷ 0xbf ∷ []

-- What follows the first character of a text, if that folds to the ASCII character `d`. Beside the
-- ASCII letters, U+017F folds to `s`, and U+212A, the Kelvin sign, to `k`.
unfoldable pub fold_char : Text → ℕ → Option Text
unfolding text_eq ℕ_eq
fold_char [] d = none
fold_char (c ∷ cs) d =
    if lower_byte c == lower_byte d
    then some cs
    else if take 3 (c ∷ cs) == kelvin_sign && lower_byte d == b'k'
    then some (drop 2 cs)
    else if take 2 (c ∷ cs) == long_s && lower_byte d == b's'
    then some (drop 1 cs)
    else none

-- `strings.EqualFold(s, t)` for an ASCII text `t`.
unfoldable pub equal_fold : Text → Text → Bool
unfolding fold_char
equal_fold s [] = elim s [ [] ↦ true | _ ∷ _ ↦ false ]
equal_fold s (d ∷ ds) = elim (fold_char s d) [ none ↦ false | some rest ↦ equal_fold rest ds ]

abbrev pub is_revoked_status : Text → Bool
is_revoked_status status = equal_fold status (codes "REVOKED")

-- `status, present := entries[id]`, then `present && EqualFold(status, "REVOKED")`
abbrev pub is_listed : Text → Option (Dict Text) → Bool
is_listed id none = false
is_listed id (some entries) = elim (lookup id entries) [
  | none ↦ false
  | some status ↦ is_revoked_status status
]

module _ (p : Platform) where
  unfoldable pub public_key_fingerprint : Option p.Key → Option Text
  public_key_fingerprint key = elim (p.marshal_public_key key) [
    | none ↦ none
    | some der ↦ some (hex_encode (p.sha256 der))
  ]

  -- The loop over the parsed entries, in the order of Go's iteration.
  unfoldable pub lower_entries : List (Text × Text) → Dict Text → Dict Text
  lower_entries [] d = d
  lower_entries ((id, status) ∷ es) d = lower_entries es (insert (to_lower p id) status d)

  -- The parsed document, or nothing.
  unfoldable pub keep_entries :
      Call
      → RevocationStatusClient
      → Option (List (Text × Text))
      → RevocationStatusClient × Option RevocationError
  keep_entries w c none = (c, some parse_failed)
  keep_entries w c (some es) =
      (record c { entries = some (lower_entries es []); fetched = w.done }, none)

  unfoldable pub read_response :
      Call → RevocationStatusClient → HttpOutcome → RevocationStatusClient × Option RevocationError
  read_response w c get_failed = (c, some fetch_failed)
  read_response w c (response status none) =
      if not (status == 200) then (c, some (bad_status status)) else (c, some read_failed)
  read_response w c (response status (some body)) =
      if not (status == 200)
      then (c, some (bad_status status))
      else keep_entries w c (p.parse_status_list (take max_list_bytes body))

  unfoldable pub fetch_locked :
      Call → RevocationStatusClient → RevocationStatusClient × Option RevocationError
  fetch_locked w c = read_response w c (w.outcome c.list_url)

  -- `c.entries == nil || time.Since(c.fetched) > c.ttl`
  abbrev pub is_stale : Time → RevocationStatusClient → Bool
  is_stale now c = elim c.entries [ none ↦ true | some _ ↦ ltb_ℤ c.ttl (now -ℤ c.fetched) ]

  unfoldable pub refresh :
      Call → RevocationStatusClient → RevocationStatusClient × Option RevocationError
  refresh w c = if is_stale w.now c then fetch_locked w c else (c, none)

  abbrev pub answer :
      Text
      → RevocationStatusClient × Option RevocationError
      → RevocationStatusClient × Result RevocationError Bool
  answer id (c, some e) = (c, err e)
  answer id (c, none) = (c, ok (is_listed id c.entries))

  unfoldable pub answer_for :
      Option Text
      → Call
      → RevocationStatusClient
      → RevocationStatusClient × Result RevocationError Bool
  answer_for none w c = (c, err marshal_failed)
  answer_for (some id) w c = answer id (refresh w c)

  unfoldable pub is_key_revoked :
      Option p.Key
      → Call
      → RevocationStatusClient
      → RevocationStatusClient × Result RevocationError Bool
  is_key_revoked key w c = answer_for (public_key_fingerprint key) w c

equal_fold_runs :
    (equal_fold (codes "revoKed") (codes "REVOKED") ≡ true)
    × (equal_fold
          (b'r' ∷ b'e' ∷ b'v' ∷ b'o' ∷ 0xe2 ∷ 0x84 ∷ 0xaa ∷ b'e' ∷ b'd' ∷ [])
          (codes "REVOKED")
        ≡ true)
    × (equal_fold (codes "SUSPENDED") (codes "REVOKED") ≡ false)
unfolding equal_fold
equal_fold_runs = (refl, refl, refl)
