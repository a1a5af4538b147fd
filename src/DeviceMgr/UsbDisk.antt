-- ===== src/DeviceMgr/UsbDisk.antt =====
-- `DeviceRead` on USB storage, with the operations of USBStorage.cpp as its driver.
use ctgpr_msc.Base.{ℕ, ◌<◌, ◌≡◌, refl, List, true, false, lt→ltb, ==_iff}
use ctgpr_msc.Base.Outcome.{done, value_or}
use ctgpr_msc.Aes.{Engine}
use ctgpr_msc.FatFs.{FatFs}
use ctgpr_msc.DeviceMgr.{
  State, Disk, Drivers, SectorReply, is_refused, checked, with_device, with_world, device_read,
}
use ctgpr_msc.UsbStorage.{UsbBus, UsbStorage, read_sectors, write_sectors}

-- The drivers with `USBStorage::ReadSectors` and `WriteSectors`, their loops held to `fuel` tests.
pub usb_drivers : {W : Type 0} → UsbBus W → ℕ → Drivers W UsbStorage → Drivers W UsbStorage
usb_drivers bus fuel others = record others {
  usb_read_sectors = λ w u sector count buffer.
      value_or (record { good = false; buffer = buffer; disk = u; world = w })
        (read_sectors bus fuel sector count w u buffer);
  usb_write_sectors = λ w u sector count bytes.
      let r =
        value_or (record { good = false; buffer = bytes; disk = u; world = w })
          (write_sectors bus fuel sector count w u bytes) in
      (r.good, r.disk, r.world);
}

-- What a read leaves of the manager's state.
abbrev pub after_read :
    {W F : Type 0} → ℕ → SectorReply W UsbStorage → State W UsbStorage F → State W UsbStorage F
after_read dev_id r s =
    with_device dev_id (λ dev. record dev { disk = Disk.usb_storage r.disk }) (with_world r.world s)

pub is_refused-after_read :
    {W F : Type 0} (dev_id : ℕ) (r : SectorReply W UsbStorage) (s : State W UsbStorage F)
    → is_refused dev_id (after_read dev_id r s) ≡ is_refused dev_id s
unfolding is_refused with_device with_world
is_refused-after_read dev_id r s = rw ((==_iff dev_id dev_id).1 refl) refl

pub device_read-usb_drivers :
    {W F : Type 0} (bus : UsbBus W) (fuel : ℕ) (others : Drivers W UsbStorage)
    (fs : FatFs (State W UsbStorage F) F) (engine : Engine (State W UsbStorage F))
    (blob_fuel dev_id sector count : ℕ) (u : UsbStorage) (buffer : List ℕ)
    (s : State W UsbStorage F) (r : SectorReply W UsbStorage)
    → dev_id < 9
    → is_refused dev_id s ≡ false
    → (s.devices dev_id).disk ≡ Disk.usb_storage u
    → read_sectors bus fuel sector count s.world u buffer ≡ done r
    → r.good ≡ true
    → device_read (usb_drivers bus fuel others) fs engine blob_fuel dev_id sector count buffer s
      ≡ done (record { good = true; buffer = r.buffer; state = after_read dev_id r s })
unfolding device_read usb_drivers checked
device_read-usb_drivers bus fuel others fs engine blob_fuel dev_id sector count u buffer s r hd
      taken is_usb e good =
    rw (lt→ltb dev_id 9 hd, taken, is_usb) (rw (e) (rw (good) refl))
