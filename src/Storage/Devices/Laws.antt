-- ===== src/Storage/Devices/Laws.antt =====
-- What the callers of a `DeviceRepo` rely on, in terms of its two observations: the record of an
-- identity, and the set of revoked serials.
use mtls_authentication_poc.Prelude.{
  ◌≡◌, Bool, true, false, not, ◌||◌, none, some, if◌then◌else◌, ◌==◌, ℤ_eq, Text, ℕ_eq, text_eq,
  Result, ok, err,
}
use mtls_authentication_poc.Storage.Devices.{RepoError, DeviceRecord, DeviceRepo}

-- The record after a revocation.
abbrev pub revoked : Result RepoError DeviceRecord → Result RepoError DeviceRecord
revoked (ok r) = ok (record r { is_revoked = true })
revoked (err e) = err e

-- A record that can be read and is not revoked.
abbrev pub is_active : Result RepoError DeviceRecord → Bool
is_active (ok r) = not r.is_revoked
is_active (err e) = false

-- Whether a serial is that of a record.
abbrev pub has_serial : Text → Result RepoError DeviceRecord → Bool
has_serial serial (ok r) = serial == r.cert_serial
has_serial serial (err e) = false

pub record IsLawful (R : DeviceRepo) : Type 0 where
  pub get-register :
      (r : DeviceRecord) (j : Text) (s : R.State)
      → (R.register_device r s).1 ≡ none
      → R.get_device j (R.register_device r s).0
        ≡ (if j == r.identity then ok r else R.get_device j s)
  pub get-register_failed :
      (r : DeviceRecord) (e : RepoError) (j : Text) (s : R.State)
      → (R.register_device r s).1 ≡ some e
      → R.get_device j (R.register_device r s).0 ≡ R.get_device j s
  pub serial-register :
      (r : DeviceRecord) (t : Text) (s : R.State)
      → R.is_serial_revoked t (R.register_device r s).0 ≡ R.is_serial_revoked t s
  pub get-revoke_device :
      (k j : Text) (s : R.State)
      → R.get_device j (R.revoke_device k s).0
        ≡ (if j == k then revoked (R.get_device j s) else R.get_device j s)
  pub serial-revoke_device :
      (k t : Text) (s : R.State)
      → R.is_serial_revoked t (R.revoke_device k s).0
        ≡ (has_serial t (R.get_device k s) || R.is_serial_revoked t s)
  pub get-revoke_serial :
      (t j : Text) (s : R.State) → R.get_device j (R.revoke_serial t s).0 ≡ R.get_device j s
  pub serial-revoke_serial :
      (t u : Text) (s : R.State)
      → R.is_serial_revoked u (R.revoke_serial t s).0 ≡ (u == t || R.is_serial_revoked u s)
  pub active-get : (k : Text) (s : R.State) → R.is_device_active k s ≡ is_active (R.get_device k s)
