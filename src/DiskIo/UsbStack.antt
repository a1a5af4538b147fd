-- ===== src/DiskIo/UsbStack.antt =====
-- `disk_read` of USB storage, down to /dev/usb/ven: FatFS.cpp, DeviceMgr.cpp, USBStorage.cpp and
-- USB.cpp together.
use ctgpr_msc.Base.{
  ℕ, ◌+◌, ◌*◌, ◌%◌, ◌^◌, ◌≤◌, ◌<◌, ◌≡◌, refl, ◌∙◌, List, ◌++◌, false, arith, length, drop,
}
use ctgpr_msc.Base.Outcome.{done}
use ctgpr_msc.Aes.{Engine}
use ctgpr_msc.FatFs.{FatFs, slice}
use ctgpr_msc.DeviceMgr.{State, Disk, Drivers, is_refused}
use ctgpr_msc.DeviceMgr.UsbDisk.{
  usb_drivers, after_read, is_refused-after_read, device_read-usb_drivers,
}
use ctgpr_msc.DiskIo.{disk_read, res_ok}
use ctgpr_msc.Usb.{UsbManager}
use ctgpr_msc.UsbStorage.{UsbStorage}
use ctgpr_msc.UsbStorage.Bus.{usb_bus, IsTransport, IsDmaBuffer, IsAttached}
use ctgpr_msc.UsbStorage.Disk.{IsDisk, read_sectors-usb_bus}

module _ {W F : Type 0} (ven : UsbManager W) (usleep : W → ℕ → W) (addr fuel : ℕ)
    (others : Drivers W UsbStorage) (fs : FatFs (State W UsbStorage F) F)
    (engine : Engine (State W UsbStorage F)) (blob_fuel : ℕ) where
  -- FatFs reads sectors of a USB device that the manager does not refuse, the transfers of which the
  -- manager of /dev/usb/ven carries out in full, and which answers READ(10) with the bytes of a disk:
  -- `disk_read` returns RES_OK, with the bytes of the sectors at the start of the buffer and the rest of
  -- it as it was, and the device is not refused afterwards.
  pub disk_read-usb_bus :
      (stream : W → List ℕ) (in_endpoint out_endpoint : ℕ) (answer : W → List ℕ → List ℕ)
      (content : List ℕ) (pdrv sector count : ℕ) (u : UsbStorage) (s : State W UsbStorage F)
      (buff : List ℕ)
      → pdrv < 9
      → is_refused pdrv s ≡ false
      → (s.devices pdrv).disk ≡ Disk.usb_storage u
      → IsDmaBuffer ven usleep addr
      → IsTransport ven usleep addr stream in_endpoint out_endpoint answer
      → IsAttached ven usleep addr in_endpoint out_endpoint u
      → IsDisk content u.block_size answer
      → u.lun ≤ 16
      → count ≤ 65535
      → sector < 2 ^ 32
      → (sector + count) * u.block_size ≤ length content
      → 0 < count * u.block_size
      → count * u.block_size < 2 ^ 32
      → count * u.block_size ≤ length buff
      → count * u.block_size + 16384 ≤ 16384 * fuel
      → (t : State W UsbStorage F) × (disk_read
            (usb_drivers (usb_bus ven usleep addr) fuel others)
            fs
            engine
            blob_fuel
            pdrv
            buff
            sector
            count
            s
          ≡ done (
            res_ok,
            slice content (sector * u.block_size) (count * u.block_size)
                ++ drop (count * u.block_size) buff,
            t,
          ))
        × (is_refused pdrv t ≡ false)
  unfolding disk_read
  disk_read-usb_bus stream in_endpoint out_endpoint answer content pdrv sector count u s buff hp
        taken is_usb h law a disk hl hn hr hc hz hm hx hf =
      let (r, e, good, moved) =
        read_sectors-usb_bus ven usleep addr stream in_endpoint out_endpoint answer content fuel
          sector count s.world u buff h law a disk hl hn hr hc hz hm hx hf in
      let small : sector % 2 ^ 32 ≡ sector = omega arith in
      let run =
        device_read-usb_drivers (usb_bus ven usleep addr) fuel others fs engine blob_fuel pdrv
          sector count u buff s r hp taken is_usb e good in
      (
        after_read pdrv r s,
        rw (small) (rw (run) (rw (moved) refl)),
        is_refused-after_read pdrv r s ∙ taken,
      )
