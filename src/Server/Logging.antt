-- ===== src/Server/Logging.antt =====
-- `responseRecorder` and `requestLogger` of backend/cmd/server/main.go. The `http.ResponseWriter` is a
-- parameter; a handler is the sequence of its calls. Of the two lines that are logged, the status and
-- the size of the second are modelled.
use mtls_authentication_poc.Prelude.{
  ℕ, ◌≡◌, refl, sym, ap, ◌∙◌, ◌≤◌, Option, none, some, List, [], ◌∷◌, ◌++◌, arith, if◌then◌else◌,
  ◌==◌, ℤ, pos, ℤ_eq, ◌+ℤ◌, wrap_int64, Bytes, codes, ℕ_eq, text_eq,
}
use mtls_authentication_poc.Http.{Reply, failure, json}

-- `write` returns the state and the count of the bytes that it took. `flush` is `none` where the writer
-- is no `http.Flusher`. `sent` is the status of the header, if it has been sent.
pub record ResponseWriter : Type 1 where
  pub State : Type 0
  pub sent : State → Option ℕ
  pub write_header : ℕ → State → State
  pub write : Bytes → State → State × ℕ
  pub flush : Option (State → State)

pub data WriterCall : Type 0 where
  header : ℕ → WriterCall
  bytes : Bytes → WriterCall
  flushed : WriterCall

-- The calls of `http.Error`, and of a handler that writes a status and the JSON of its answer.
abbrev pub calls_of {ℓ} : {A : Type ℓ} → (A → Bytes) → Reply A → List WriterCall
calls_of encode (failure status message) = header status ∷ bytes (codes message ++ (10 ∷ [])) ∷ []
calls_of encode (json status a) = header status ∷ bytes (encode a) ∷ []

abbrev pub status_of {ℓ} : {A : Type ℓ} → Reply A → ℕ
status_of (failure status message) = status
status_of (json status a) = status

module _ (w : ResponseWriter) where
  abbrev pub flush_writer : w.State → w.State
  flush_writer s = elim w.flush [ none ↦ s | some f ↦ f s ]

  -- A handler on the writer itself.
  unfoldable pub serve_calls : List WriterCall → w.State → w.State
  serve_calls [] s = s
  serve_calls (header status ∷ calls) s = serve_calls calls (w.write_header status s)
  serve_calls (bytes bs ∷ calls) s = serve_calls calls (w.write bs s).0
  serve_calls (flushed ∷ calls) s = serve_calls calls (flush_writer s)

  pub record ResponseRecorder : Type 0 where
    pub response_writer : w.State
    pub status_code : ℕ
    pub bytes_written : ℤ

  abbrev pub record_header : ℕ → ResponseRecorder → ResponseRecorder
  record_header code rec = record rec {
    status_code = code;
    response_writer = w.write_header code rec.response_writer;
  }

  -- The count is a 64-bit integer.
  abbrev pub record_write : Bytes → ResponseRecorder → ResponseRecorder
  record_write bs rec =
      let q = w.write bs rec.response_writer in
      record {
        response_writer = q.0;
        status_code = if rec.status_code == 0 then 200 else rec.status_code;
        bytes_written = wrap_int64 (rec.bytes_written +ℤ pos q.1);
      }

  -- A handler on the recorder.
  unfoldable pub serve_recorded : List WriterCall → ResponseRecorder → ResponseRecorder
  serve_recorded [] rec = rec
  serve_recorded (header code ∷ calls) rec = serve_recorded calls (record_header code rec)
  serve_recorded (bytes bs ∷ calls) rec = serve_recorded calls (record_write bs rec)
  serve_recorded (flushed ∷ calls) rec =
      serve_recorded calls (record rec { response_writer = flush_writer rec.response_writer })

  -- The recorder after the handler, whose status and count are logged.
  unfoldable pub request_logger : List WriterCall → w.State → ResponseRecorder
  request_logger calls s =
      serve_recorded calls
        (record { response_writer = s; status_code = 200; bytes_written = pos 0 })

  -- What is assumed of net/http: the first header with a final status, which is one from 200 to 999, is
  -- sent, and a later write leaves it.
  pub record IsWriter : Type 0 where
    pub sent-write_header :
        (status : ℕ) (s : w.State)
        → 200 ≤ status
        → status ≤ 999
        → w.sent s ≡ none
        → w.sent (w.write_header status s) ≡ some status
    pub sent-write :
        (bs : Bytes) (status : ℕ) (s : w.State)
        → w.sent s ≡ some status
        → w.sent (w.write bs s).0 ≡ some status

  serve_recorded-serve_calls :
      (calls : List WriterCall) (rec : ResponseRecorder)
      → (serve_recorded calls rec).response_writer ≡ serve_calls calls rec.response_writer
  unfolding serve_recorded serve_calls
  serve_recorded-serve_calls [] rec = refl
  serve_recorded-serve_calls (header code ∷ calls) rec =
      serve_recorded-serve_calls calls (record_header code rec)
  serve_recorded-serve_calls (bytes bs ∷ calls) rec =
      serve_recorded-serve_calls calls (record_write bs rec)
  serve_recorded-serve_calls (flushed ∷ calls) rec =
      serve_recorded-serve_calls calls
        (record rec { response_writer = flush_writer rec.response_writer })

  -- The logger does not change what a handler does to the writer, whatever its calls are.
  request_logger-serve_calls :
      (calls : List WriterCall) (s : w.State)
      → (request_logger calls s).response_writer ≡ serve_calls calls s
  unfolding request_logger
  request_logger-serve_calls calls s =
      serve_recorded-serve_calls calls
        (record { response_writer = s; status_code = 200; bytes_written = pos 0 })

  logged_status :
      (status : ℕ) (body : Bytes) (s : w.State)
      → IsWriter
      → w.sent s ≡ none
      → 200 ≤ status
      → status ≤ 999
      → (w.sent (request_logger (header status ∷ bytes body ∷ []) s).response_writer ≡ some status)
        × ((request_logger (header status ∷ bytes body ∷ []) s).status_code ≡ status)
  unfolding request_logger serve_recorded
  logged_status status body s law fresh final valid = (
    law.sent-write body status _ (law.sent-write_header status s final valid fresh),
    ground arith,
  )

  -- On a writer that behaves as documented and that has sent nothing yet, and for a reply with a final
  -- status, from 200 to 999: under the logger a handler leaves the writer as it does without it, the client gets
  -- the status of the reply, and that status is logged.
  pub request_logger-status_of {ℓ} :
      {A : Type ℓ} (encode : A → Bytes) (reply : Reply A) (s : w.State)
      → IsWriter
      → w.sent s ≡ none
      → 200 ≤ status_of reply
      → status_of reply ≤ 999
      → ((request_logger (calls_of encode reply) s).response_writer
          ≡ serve_calls (calls_of encode reply) s)
        × (w.sent (serve_calls (calls_of encode reply) s) ≡ some (status_of reply))
        × ((request_logger (calls_of encode reply) s).status_code ≡ status_of reply)
  request_logger-status_of encode (failure status message) s law fresh final valid =
      let same = request_logger-serve_calls (calls_of encode (failure status message)) s in
      let (sent, logged) =
        logged_status status (codes message ++ (10 ∷ [])) s law fresh final valid in
      (same, ap w.sent (sym same) ∙ sent, logged)
  request_logger-status_of encode (json status a) s law fresh final valid =
      let same = request_logger-serve_calls (calls_of encode (json status a)) s in
      let (sent, logged) = logged_status status (encode a) s law fresh final valid in
      (same, ap w.sent (sym same) ∙ sent, logged)
