-- ===== src/Storage/Devices/Memory.antt =====
-- `memoryDeviceRepo` meets the laws of the interface, and keeps its own invariant.
use mtls_authentication_poc.Prelude.{
  ◌≡◌, refl, inl, inr, true, ◌||◌, some, arith, if◌then◌else◌, ◌==◌, Option-cases, ℤ_eq, Text, ℕ_eq,
  text_eq, ok,
}
use mtls_authentication_poc.Prelude.Dict.{lookup, lookup-insert}
use mtls_authentication_poc.Storage.Devices.{
  RepoError, DeviceRecord, MemoryDevices, memory_device_repo, register_device, get_device,
  revoke_device, revoke_serial, is_serial_revoked, is_device_active,
}
use mtls_authentication_poc.Storage.Devices.Laws.{IsLawful, revoked, is_active, has_serial}

pub get-register :
    (r : DeviceRecord) (j : Text) (s : MemoryDevices)
    → get_device j (register_device r s).0 ≡ (if j == r.identity then ok r else get_device j s)
unfolding get_device register_device
get-register r j s = ground (arith, lookup-insert j r.identity r s.devices)

pub get-revoke_device :
    (k j : Text) (s : MemoryDevices)
    → get_device j (revoke_device k s).0
      ≡ (if j == k then revoked (get_device j s) else get_device j s)
unfolding get_device revoke_device
get-revoke_device k j s = elim (Option-cases (lookup k s.devices)) [
  | inl e ↦ ground arith
  | inr (r, e) ↦ ground (arith, lookup-insert j k (record r { is_revoked = true }) s.devices)
]

serial-revoke_device :
    (k t : Text) (s : MemoryDevices)
    → is_serial_revoked t (revoke_device k s).0
      ≡ (has_serial t (get_device k s) || is_serial_revoked t s)
unfolding get_device revoke_device is_serial_revoked
serial-revoke_device k t s = elim (Option-cases (lookup k s.devices)) [
  | inl e ↦ ground arith
  | inr (r, e) ↦ ground (arith, lookup-insert t r.cert_serial tt s.revoked_serials)
]

serial-revoke_serial :
    (t u : Text) (s : MemoryDevices)
    → is_serial_revoked u (revoke_serial t s).0 ≡ (u == t || is_serial_revoked u s)
unfolding revoke_serial is_serial_revoked
serial-revoke_serial t u s = ground (arith, lookup-insert u t tt s.revoked_serials)

active-get : (k : Text) (s : MemoryDevices) → is_device_active k s ≡ is_active (get_device k s)
unfolding is_device_active get_device
active-get k s = ground arith

get-register_failed :
    (r : DeviceRecord) (e : RepoError) (j : Text) (s : MemoryDevices)
    → (register_device r s).1 ≡ some e
    → get_device j (register_device r s).0 ≡ get_device j s
unfolding register_device
get-register_failed r e j s h = cc

serial-register :
    (r : DeviceRecord) (t : Text) (s : MemoryDevices)
    → is_serial_revoked t (register_device r s).0 ≡ is_serial_revoked t s
unfolding register_device is_serial_revoked
serial-register r t s = refl

pub get-revoke_serial :
    (t j : Text) (s : MemoryDevices) → get_device j (revoke_serial t s).0 ≡ get_device j s
unfolding revoke_serial get_device
get-revoke_serial t j s = refl

-- The in-memory registry meets every law of the `DeviceRepo` interface: what each call changes of
-- the records and of the revoked serials, and what it leaves.
pub memory_device_repo-IsLawful : IsLawful memory_device_repo
memory_device_repo-IsLawful = record {
  get-register = λ r j s _. get-register r j s;
  get-register_failed = get-register_failed;
  serial-register = serial-register;
  get-revoke_device = get-revoke_device;
  serial-revoke_device = serial-revoke_device;
  get-revoke_serial = get-revoke_serial;
  serial-revoke_serial = serial-revoke_serial;
  active-get = active-get;
}
