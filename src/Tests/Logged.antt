-- ===== src/Tests/Logged.antt =====
-- The theorem on the request logger, on a writer that keeps the header and the body.
use mtls_authentication_poc.Prelude.{
  ℕ, ◌≡◌, refl, Option, none, some, [], ◌++◌, arith, ℤ_eq, length, Bytes, ℕ_eq, text_eq,
}
use mtls_authentication_poc.Http.{Reply, failure}
use mtls_authentication_poc.Server.Logging.{
  ResponseWriter, IsWriter, calls_of, serve_calls, request_logger, request_logger-status_of,
}

abbrev Sent : Type 0
Sent = Option ℕ × Bytes

-- The first of two statuses.
abbrev first : Option ℕ → ℕ → Option ℕ
first none status = some status
first (some sent) status = some sent

abbrev writer : ResponseWriter
writer = record {
  State = Sent;
  sent = λ s. s.0;
  write_header = λ status s. (first s.0 status, s.1);
  write = λ bs s. ((first s.0 200, s.1 ++ bs), length bs);
  flush = none;
}

first-none : (status : ℕ) (o : Option ℕ) → o ≡ none → first o status ≡ some status
first-none status none h = refl
first-none status (some sent) h = cc

first-some : (status sent : ℕ) (o : Option ℕ) → o ≡ some sent → first o status ≡ some sent
first-some status sent none h = cc
first-some status sent (some old) h = h

writer-IsWriter : IsWriter writer
writer-IsWriter = record {
  sent-write_header = λ status s final valid h. first-none status s.0 h;
  sent-write = λ bs status s h. first-some 200 status s.0 h;
}

abbrev refusal : Reply (Unit {0})
refusal = failure 403 "device identity is revoked"

request_logger-status_of_example :
    ((request_logger writer (calls_of (λ _. []) refusal) (none, [])).response_writer
      ≡ serve_calls writer (calls_of (λ _. []) refusal) (none, []))
    × ((serve_calls writer (calls_of (λ _. []) refusal) (none, [])).0 ≡ some 403)
    × ((request_logger writer (calls_of (λ _. []) refusal) (none, [])).status_code ≡ 403)
request_logger-status_of_example =
    request_logger-status_of writer (λ _. []) refusal (none, []) writer-IsWriter refl (omega arith)
      (omega arith)
