-- ===== src/DeviceMgr/Hotplug.antt =====
-- DeviceMgr.cpp: `USBChange`, which takes the list of USB devices into the two tables.
use ctgpr_msc.Base.{
  ℕ, zero, suc, ◌%◌, ◌^◌, List, [], ◌∷◌, Bool, true, false, not, ◌||◌, ◌&&◌, ltb, ◌==◌,
  if◌then◌else◌, Option, none, some, length, set,
}
use ctgpr_msc.Base.Outcome.{Outcome, done, fault, ◌>>=◌, ◌>>◌, assert}
use ctgpr_msc.DeviceMgr.{
  Disk, DeviceHandle, UsbDeviceHandle, State, device_count, with_device, with_world,
}

abbrev pub max_devices : ℕ
max_devices = 32

-- `USB::DeviceEntry`, the members that are read.
pub record DeviceEntry : Type 0 where
  pub dev_id : ℕ
  pub alt_set_count : ℕ

-- `USB::DeviceInfo`, the members that are read.
pub record DeviceInfo : Type 0 where
  pub dev_id : ℕ
  pub if_class : ℕ
  pub if_sub_class : ℕ
  pub if_protocol : ℕ

-- The USB interface: whether a device was attached, its release, the descriptors of an alternate
-- setting where they can be had, and the constructor of `USBStorage`.
pub record UsbHost (W U : Type 0) : Type 0 where
  pub attach : W → ℕ → Bool × W
  pub release : W → ℕ → W
  pub device_info : W → ℕ → ℕ → Option DeviceInfo × W
  pub usb_storage : DeviceInfo → U

-- `ClassCode::MassStorage`, `SubClass::MassStorage_SCSI` and `Protocol::MassStorage_BulkOnly`.
unfoldable pub is_mass_storage : DeviceInfo → Bool
is_mass_storage info =
    (info.if_class == 0x8) && (info.if_sub_class == 0x06) && (info.if_protocol == 0x50)

-- The ids agree in the 16 low bits, the only ones that stay.
unfoldable pub same_id : ℕ → ℕ → Bool
same_id a b = a % 2 ^ 16 == b % 2 ^ 16

-- The first entry with an id, or the number of entries.
unfoldable pub find_entry : ℕ → List DeviceEntry → ℕ
find_entry id [] = 0
find_entry id (entry ∷ entries) = if same_id id entry.dev_id then 0 else suc (find_entry id entries)

-- The first slot that is free, or the number of slots.
unfoldable pub find_free : List UsbDeviceHandle → ℕ
find_free [] = 0
find_free (slot ∷ slots) = if not slot.in_use then 0 else suc (find_free slots)

-- The state of the first loop of `USBChange`: `foundMap`, the USB table and `m_devices`.
pub record Scan (U F : Type 0) : Type 0 where
  pub found : ℕ → Bool
  pub slots : List UsbDeviceHandle
  pub devices : ℕ → DeviceHandle U F

module _ {U F : Type 0} (entries : List DeviceEntry) where
  -- The first loop on one slot.
  unfoldable pub scan_slot :
      UsbDeviceHandle
      → (ℕ → Bool)
      → (ℕ → DeviceHandle U F)
      → UsbDeviceHandle × (ℕ → Bool) × (ℕ → DeviceHandle U F)
  scan_slot slot found devices =
      let errored = ltb slot.int_id device_count && (devices slot.int_id).error in
      let kept = record slot { int_id = if errored then device_count else slot.int_id } in
      let j = find_entry slot.usb_id entries in
      let removed : ℕ → DeviceHandle U F =
        λ i. if i == slot.int_id then record (devices i) { inserted = false } else devices i in
      if not slot.in_use
      then (slot, found, devices)
      else if ltb j (length entries)
      then (kept, (λ i. (i == j) || found i), devices)
      else (
        record kept { in_use = false },
        found,
        if ltb slot.int_id device_count then removed else devices,
      )

  -- The first loop of `USBChange`.
  unfoldable pub scan : List UsbDeviceHandle → (ℕ → Bool) → (ℕ → DeviceHandle U F) → Scan U F
  scan [] found devices = record { found = found; slots = []; devices = devices }
  scan (slot ∷ slots) found devices =
      let r = scan_slot slot found devices in
      let rest = scan slots r.1 r.2 in record rest { slots = r.0 ∷ rest.slots }

module _ {W U : Type 0} (host : UsbHost W U) where
  -- The loop over the alternate settings, from `alt` on and with `left` of them left.
  unfoldable pub find_info : ℕ → ℕ → ℕ → W → Option DeviceInfo × W
  find_info zero alt id w = (none, w)
  find_info (suc left) alt id w =
      let r = host.device_info w id alt in let rest = find_info left (suc alt) id r.1 in next r rest
    where
      next : Option DeviceInfo × W → Option DeviceInfo × W → Option DeviceInfo × W
      next (none, v) rest = rest
      next (some info, v) rest = (some info, v)

module _ {W U F : Type 0} where
  -- The first handle that is not enabled, of the `left` handles from `k` on.
  unfoldable pub find_disabled : ℕ → ℕ → State W U F → Option ℕ
  find_disabled zero k s = none
  find_disabled (suc left) k s =
      let rest = find_disabled left (suc k) s in if not (s.devices k).enabled then some k else rest

module _ {W U F : Type 0} (host : UsbHost W U) where
  unfoldable pub give_up : ℕ → State W U F → State W U F
  give_up id s = with_world (host.release s.world id) s

  -- A storage device in its handle.
  unfoldable pub take_handle : ℕ → DeviceInfo → ℕ → Option ℕ → State W U F → State W U F
  take_handle id info j none s = give_up id s
  take_handle id info j (some k) s =
      record (with_device k
        (λ dev. record {
          disk = Disk.usb_storage (host.usb_storage info);
          enabled = true;
          inserted = true;
          error = false;
          mounted = false;
        })
        s) { usb_devices = set s.usb_devices j (record { in_use = true; usb_id = id; int_id = k }) }

  -- What follows once the descriptors were asked for.
  unfoldable pub add_info : ℕ → ℕ → Option DeviceInfo → State W U F → Outcome (State W U F)
  add_info id j none s = done (give_up id s)
  add_info id j (some info) s =
      assert (info.dev_id == id)
      >> done (
          if not (is_mass_storage info)
          then give_up id s
          else take_handle id info j (find_disabled device_count 0 s) s)

  -- The second loop of `USBChange` on a new device.
  unfoldable pub add_entry : DeviceEntry → State W U F → Outcome (State W U F)
  add_entry entry s =
      let j = find_free s.usb_devices in
      let listed : State W U F = record s {
        usb_devices =
            set s.usb_devices j
              (record { in_use = true; usb_id = entry.dev_id; int_id = device_count });
      } in
      let attached = host.attach s.world entry.dev_id in
      let t = with_world attached.1 listed in
      let asked = find_info host entry.alt_set_count 0 entry.dev_id attached.1 in
      assert (ltb j max_devices)
      >> (if not attached.0
          then done (give_up entry.dev_id t)
          else add_info entry.dev_id j asked.0 (with_world asked.1 t))

  -- The second loop of `USBChange`, from entry `i` on.
  unfoldable pub add_entries :
      (ℕ → Bool) → ℕ → List DeviceEntry → State W U F → Outcome (State W U F)
  add_entries found i [] s = done s
  add_entries found i (entry ∷ entries) s =
      (if found i then done s else add_entry entry s) >>= add_entries found (suc i) entries

  -- `DeviceMgr::USBChange` on the entries that the interface counted; `USBFatal` asserts.
  pub usb_change : List DeviceEntry → State W U F → Outcome (State W U F)
  usb_change entries s =
      let r = scan entries s.usb_devices (λ i. false) s.devices in
      if ltb max_devices (length entries)
      then fault
      else add_entries r.found 0 entries (record s { usb_devices = r.slots; devices = r.devices })
