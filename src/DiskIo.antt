-- ===== src/DiskIo.antt =====
-- ios/Disk/FatFS.cpp: the sector operations that FatFs calls, as answers of the device manager.
pub mod UsbStack
pub mod SdStack
mod Tests
use ctgpr_msc.Base.{ℕ, ◌+◌, ◌≡◌, List, Bool, true, false, ◌==◌, if◌then◌else◌}
use ctgpr_msc.Base.Outcome.{Outcome, done, ◌>>=◌, ◌>>◌, assert}
use ctgpr_msc.Base.{ltb, ◌%◌, ◌^◌, Option, some}
use ctgpr_msc.Aes.{Engine}
use ctgpr_msc.FatFs.{FatFs}
use ctgpr_msc.DeviceMgr.{
  State, Drivers, ReadReply, device_count, is_mounted, device_init, device_read, device_write,
  device_sync,
}

-- `DSTATUS` and `DRESULT` of ios/FAT/diskio.h.
abbrev pub sta_noinit : ℕ
sta_noinit = 1

abbrev pub sta_nodisk : ℕ
sta_nodisk = 2

abbrev pub res_ok : ℕ
res_ok = 0

abbrev pub res_error : ℕ
res_error = 1

abbrev pub res_parerr : ℕ
res_parerr = 4

abbrev pub ctrl_sync : ℕ
ctrl_sync = 0

abbrev pub get_sector_size : ℕ
get_sector_size = 2

module _ {W U F : Type 0} where
  pub disk_status : ℕ → State W U F → Outcome ℕ
  disk_status pdrv s = do
    assert (ltb pdrv device_count)
    done (if is_mounted pdrv s then 0 else sta_nodisk)

  abbrev result_of : ℕ → Bool × State W U F → ℕ × State W U F
  result_of failed r = (if r.0 then 0 else failed, r.1)

module _ {W U F : Type 0} (drivers : Drivers W U) (pdrv : ℕ) where
  pub disk_initialize : State W U F → Outcome (ℕ × State W U F)
  disk_initialize s = device_init drivers pdrv s >>= λ r. done (result_of sta_noinit r)

  pub disk_write : List ℕ → ℕ → ℕ → State W U F → Outcome (ℕ × State W U F)
  disk_write buff sector count s =
      device_write drivers pdrv (sector % 2 ^ 32) count buff s >>= λ r. done (result_of res_error r)

  -- The answer, what the command stores at `buff`, and the state.
  pub disk_ioctl : ℕ → Option ℕ → State W U F → Outcome (ℕ × Option ℕ × State W U F)
  disk_ioctl cmd buff s =
      if cmd == ctrl_sync
      then (device_sync drivers pdrv s >>= λ r. done ((result_of res_error r).0, buff, r.1))
      else if cmd == get_sector_size
      then done (res_ok, some 512, s)
      else done (res_parerr, buff, s)

module _ {W U F : Type 0} (drivers : Drivers W U) (fs : FatFs (State W U F) F)
    (engine : Engine (State W U F)) (fuel pdrv : ℕ) where
  -- The answer, the buffer and the state.
  pub disk_read : List ℕ → ℕ → ℕ → State W U F → Outcome (ℕ × List ℕ × State W U F)
  disk_read buff sector count s =
      device_read drivers fs engine fuel pdrv (sector % 2 ^ 32) count buff s >>= λ r.
      done (if r.good then res_ok else res_error, r.buffer, r.state)
