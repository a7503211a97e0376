-- ===== src/Handlers/Ping.antt =====
-- backend/internal/handlers/protected_handler.go
use mtls_authentication_poc.Prelude.{
  String, not, Option, none, some, if◌then◌else◌, ◌==◌, ℤ, ℤ_eq, Text, ℕ_eq, text_eq,
}
use mtls_authentication_poc.Platform.{Platform, Time}
use mtls_authentication_poc.Middleware.{DeviceIdentity}
use mtls_authentication_poc.Http.{Request, Reply, failure, json, method_get}

pub record ProtectedResponse : Type 0 where
  pub status : String
  pub message : String
  pub client_identity : Text
  pub device_label : Text
  pub cert_serial : Text
  pub timestamp : ℤ

module _ (p : Platform) where
  -- The context's identity is `none` where the middleware did not set it. `now` is the clock, which
  -- the response holds in seconds.
  unfoldable pub serve_ping : Time → Option DeviceIdentity → Request p.Key → Reply ProtectedResponse
  serve_ping now none r =
      if not (r.method == method_get)
      then failure 405 "Method not allowed"
      else failure 401 "Unauthorized: missing device context"
  serve_ping now (some id) r =
      if not (r.method == method_get)
      then failure 405 "Method not allowed"
      else json 200 (record {
        status = "ok";
        message = "mTLS handshake verified successfully";
        client_identity = id.identity;
        device_label = id.label;
        cert_serial = id.cert_serial;
        timestamp = p.unix_of now;
      })
