-- ===== src/Storage/Devices.antt =====
-- backend/internal/storage/device_repo.go: the interface `DeviceRepo` as a record of operations on an
-- unknown state, and the in-memory implementation. A call that writes returns the state after it. The
-- mutex makes each call one step.
pub mod Laws
pub mod Memory
use mtls_authentication_poc.Prelude.{
  refl, ite, Bool, true, false, not, Option, none, some, [], arith, ℕ_discrete, ℤ_discrete, ℤ_eq,
  Text, text_discrete, ℕ_eq, text_eq, Result, ok, err, ◌>>=◌, ◌>>◌,
}
use mtls_authentication_poc.Prelude.Dict.{Dict, lookup, insert}
use mtls_authentication_poc.Platform.{Time}

-- `other` stands for the errors of implementations that are not in the repository.
pub data RepoError : Type 0 where
  device_not_found device_revoked : RepoError
  other : Text → RepoError

pub record DeviceRecord : Type 0 where
  pub identity : Text
  pub label : Text
  pub cert_serial : Text
  pub enrolled_at : Time
  pub is_revoked : Bool
  pub hardware_security_level : Text

pub record DeviceRepo : Type 1 where
  pub State : Type 0
  pub register_device : DeviceRecord → State → State × Option RepoError
  pub get_device : Text → State → Result RepoError DeviceRecord
  pub revoke_device : Text → State → State × Option RepoError
  pub revoke_serial : Text → State → State × Option RepoError
  pub is_serial_revoked : Text → State → Bool
  pub is_device_active : Text → State → Bool

pub record MemoryDevices : Type 0 where
  pub devices : Dict DeviceRecord
  pub revoked_serials : Dict (Unit {0})

abbrev pub new_memory_devices : MemoryDevices
new_memory_devices = record { devices = []; revoked_serials = [] }

unfoldable pub register_device : DeviceRecord → MemoryDevices → MemoryDevices × Option RepoError
register_device r s = (record s { devices = insert r.identity r s.devices }, none)

unfoldable pub get_device : Text → MemoryDevices → Result RepoError DeviceRecord
get_device identity s = elim (lookup identity s.devices) [
  | none ↦ err device_not_found
  | some r ↦ ok r
]

unfoldable pub revoke_device : Text → MemoryDevices → MemoryDevices × Option RepoError
revoke_device identity s = elim (lookup identity s.devices) [
  | none ↦ (s, some device_not_found)
  | some r ↦ (
    record s {
      devices = insert identity (record r { is_revoked = true }) s.devices;
      revoked_serials = insert r.cert_serial tt s.revoked_serials;
    },
    none,
  )
]

unfoldable pub revoke_serial : Text → MemoryDevices → MemoryDevices × Option RepoError
revoke_serial serial s = (record s { revoked_serials = insert serial tt s.revoked_serials }, none)

unfoldable pub is_serial_revoked : Text → MemoryDevices → Bool
is_serial_revoked serial s = elim (lookup serial s.revoked_serials) [ none ↦ false | some _ ↦ true ]

unfoldable pub is_device_active : Text → MemoryDevices → Bool
is_device_active identity s = elim (lookup identity s.devices) [
  | none ↦ false
  | some r ↦ not r.is_revoked
]

abbrev pub memory_device_repo : DeviceRepo
memory_device_repo = record {
  State = MemoryDevices;
  register_device = register_device;
  get_device = get_device;
  revoke_device = revoke_device;
  revoke_serial = revoke_serial;
  is_serial_revoked = is_serial_revoked;
  is_device_active = is_device_active;
}
