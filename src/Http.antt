-- ===== src/Http.antt =====
-- What the handlers of backend/internal/handlers and backend/internal/middleware share: requests,
-- replies, and a chain of steps on the state of the server that may end in `http.Error`.
use mtls_authentication_poc.Prelude.{
  ℕ, String, ◌≡◌, refl, ◌⊎◌, inl, inr, Option, List, ℤ_eq, Bytes, Text, codes, ℕ_eq, text_eq,
  Result, ok, err,
}
use mtls_authentication_poc.Platform.{Certificate}

-- `peer_certificates` is `none` where `r.TLS` is nil.
pub record Request (Key : Type 0) : Type 0 where
  pub method : Text
  pub path : Text
  pub body : Bytes
  pub peer_certificates : Option (List (Certificate Key))

abbrev pub method_get : Text
method_get = codes "GET"

abbrev pub method_post : Text
method_post = codes "POST"

-- `http.Error(w, message, status)`
pub data Failure : Type 0 where
  http_error : ℕ → String → Failure

-- A reply by `http.Error`, or a status with a JSON body.
pub data Reply {ℓ} (A : Type ℓ) : Type ℓ where
  failure : ℕ → String → Reply A
  json : ℕ → A → Reply A

abbrev pub reply_of {ℓ} : {A : Type ℓ} → ℕ → Result Failure A → Reply A
reply_of status (ok a) = json status a
reply_of status (err (http_error code message)) = failure code message

-- A step on a state that may end in a failure, in the state where it stopped.
abbrev pub Step {ℓ κ} : Type ℓ → Type κ → Type (ℓ ⊔ κ)
Step S A = S → S × Result Failure A

abbrev pub continue {ℓ κ μ} :
    {S : Type ℓ} {A : Type κ} {B : Type μ}
    → (A → Step S B)
    → S × Result Failure A
    → S × Result Failure B
continue f (s, ok a) = f a s
continue f (s, err e) = (s, err e)

abbrev pub bind {ℓ κ μ} :
    {S : Type ℓ} {A : Type κ} {B : Type μ} → Step S A → (A → Step S B) → Step S B
bind m f s = continue f (m s)

-- A step that leaves the state.
abbrev pub lift {ℓ κ} : {S : Type ℓ} {A : Type κ} → Result Failure A → Step S A
lift r s = (s, r)

continue-eq-ok {ℓ κ μ} :
    {S : Type ℓ} {A : Type κ} {B : Type μ} (f : A → Step S B) (q : S × Result Failure A) (b : B)
    → (continue f q).1 ≡ ok b
    → (a : A) × (q.1 ≡ ok a) × ((f a q.0).1 ≡ ok b) × ((continue f q).0 ≡ (f a q.0).0)
continue-eq-ok f (s, ok a) b h = (a, refl, h, refl)
continue-eq-ok f (s, err e) b h = cc

-- The states and results of a chain that succeeds.
pub bind-eq-ok {ℓ κ μ} :
    {S : Type ℓ} {A : Type κ} {B : Type μ} (m : Step S A) (f : A → Step S B) (s : S) (b : B)
    → (bind m f s).1 ≡ ok b
    → (a : A) × ((m s).1 ≡ ok a) × ((f a (m s).0).1 ≡ ok b) × ((bind m f s).0 ≡ (f a (m s).0).0)
bind-eq-ok m f s b h = continue-eq-ok f (m s) b h

continue_keeps {ℓ κ μ ν} :
    {S : Type ℓ} {A : Type κ} {B : Type μ} (P : S → Type ν) (f : A → Step S B)
    (q : S × Result Failure A)
    → P q.0
    → ((a : A) → q.1 ≡ ok a → P q.0 → P (f a q.0).0)
    → P (continue f q).0
continue_keeps P f (s, ok a) h k = k a refl h
continue_keeps P f (s, err e) h k = h

-- What holds of the state after a chain, if each part keeps it.
pub bind_keeps {ℓ κ μ ν} :
    {S : Type ℓ} {A : Type κ} {B : Type μ} (P : S → Type ν) (m : Step S A) (f : A → Step S B)
    (s : S)
    → P (m s).0
    → ((a : A) → (m s).1 ≡ ok a → P (m s).0 → P (f a (m s).0).0)
    → P (bind m f s).0
bind_keeps P m f s h k = continue_keeps P f (m s) h k

continue-eq-err {ℓ κ μ} :
    {S : Type ℓ} {A : Type κ} {B : Type μ} (f : A → Step S B) (q : S × Result Failure A)
    (e : Failure)
    → (continue f q).1 ≡ err e
    → ((q.1 ≡ err e) × ((continue f q).0 ≡ q.0))
      ⊎ ((a : A) × (q.1 ≡ ok a) × ((f a q.0).1 ≡ err e) × ((continue f q).0 ≡ (f a q.0).0))
continue-eq-err f (s, ok a) e h = inr (a, refl, h, refl)
continue-eq-err f (s, err e') e h = inl (cc, refl)

-- A chain that fails stops in the state of its first part, or in that of the rest.
pub bind-eq-err {ℓ κ μ} :
    {S : Type ℓ} {A : Type κ} {B : Type μ} (m : Step S A) (f : A → Step S B) (s : S) (e : Failure)
    → (bind m f s).1 ≡ err e
    → (((m s).1 ≡ err e) × ((bind m f s).0 ≡ (m s).0))
      ⊎ ((a : A) × ((m s).1 ≡ ok a)
          × ((f a (m s).0).1 ≡ err e)
          × ((bind m f s).0 ≡ (f a (m s).0).0))
bind-eq-err m f s e h = continue-eq-err f (m s) e h

continue_ok {ℓ κ μ} :
    {S : Type ℓ} {A : Type κ} {B : Type μ} (f : A → Step S B) (q : S × Result Failure A) (a : A)
    → q.1 ≡ ok a
    → continue f q ≡ f a q.0
continue_ok f (s, ok b) a h = cc
continue_ok f (s, err e) a h = cc

-- A chain whose first part succeeds goes on with its result and state.
pub bind_ok {ℓ κ μ} :
    {S : Type ℓ} {A : Type κ} {B : Type μ} (m : Step S A) (f : A → Step S B) (s : S) (a : A)
    → (m s).1 ≡ ok a
    → bind m f s ≡ f a (m s).0
bind_ok m f s a h = continue_ok f (m s) a h
