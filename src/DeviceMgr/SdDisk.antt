-- ===== src/DeviceMgr/SdDisk.antt =====
-- `DeviceRead` and `DeviceWrite` on the SD card, with the class SDCard as their driver.
use ctgpr_msc.Base.{ℕ, ◌<◌, ◌≡◌, refl, List, true, false, lt→ltb}
use ctgpr_msc.Base.Int.{pos, negsuc, eq_ℤ}
use ctgpr_msc.Base.Outcome.{done, value_or}
use ctgpr_msc.Aes.{Engine}
use ctgpr_msc.FatFs.{FatFs}
use ctgpr_msc.DeviceMgr.{
  State, Disk, Drivers, is_refused, checked, with_world, device_read, device_write,
}
use ctgpr_msc.SdCard.{Sdio, Sd}
use ctgpr_msc.SdCard.Startup.{open_card, startup, is_inserted}
use ctgpr_msc.SdCard.Sectors.{Moved, read_sectors, write_sectors}

module _ {W U : Type 0} (ios : Sdio W) (fuel addr : ℕ) (others : Drivers (Sd W) U) where
  -- The drivers with the class SDCard, whose statics are their world; the caller's buffer is at `addr`.
  pub sd_drivers : Drivers (Sd W) U
  sd_drivers = record others {
    sd_open = λ s. open_card ios s;
    sd_startup = λ s. value_or (false, s) (startup ios s);
    sd_is_inserted = λ s. is_inserted ios s;
    sd_read_sectors = λ s sector count bytes.
        let m =
          value_or (record { ret = negsuc 0; bytes = bytes; sd = s })
            (read_sectors ios fuel sector count addr bytes s) in
        record { good = eq_ℤ m.ret (pos 0); buffer = m.bytes; disk = tt; world = m.sd };
    sd_write_sectors = λ s sector count bytes.
        let m =
          value_or (record { ret = negsuc 0; bytes = bytes; sd = s })
            (write_sectors ios fuel sector count addr bytes s) in
        (eq_ℤ m.ret (pos 0), m.sd);
  }

  pub device_read-sd_drivers :
      {F : Type 0} (fs : FatFs (State (Sd W) U F) F) (engine : Engine (State (Sd W) U F))
      (blob_fuel dev_id sector count : ℕ) (bytes : List ℕ) (s : State (Sd W) U F) (m : Moved W)
      → dev_id < 9
      → is_refused dev_id s ≡ false
      → (s.devices dev_id).disk ≡ Disk.sd_card
      → read_sectors ios fuel sector count addr bytes s.world ≡ done m
      → m.ret ≡ pos 0
      → device_read sd_drivers fs engine blob_fuel dev_id sector count bytes s
        ≡ done (record { good = true; buffer = m.bytes; state = with_world m.sd s })
  unfolding device_read sd_drivers checked
  device_read-sd_drivers fs engine blob_fuel dev_id sector count bytes s m hd taken is_sd e
        zero_code =
      rw (lt→ltb dev_id 9 hd, taken, is_sd) (rw (e) (rw (zero_code) refl))

  pub device_write-sd_drivers :
      {F : Type 0} (dev_id sector count : ℕ) (bytes : List ℕ) (s : State (Sd W) U F) (m : Moved W)
      → dev_id < 9
      → is_refused dev_id s ≡ false
      → (s.devices dev_id).disk ≡ Disk.sd_card
      → write_sectors ios fuel sector count addr bytes s.world ≡ done m
      → m.ret ≡ pos 0
      → device_write sd_drivers dev_id sector count bytes s ≡ done (true, with_world m.sd s)
  unfolding device_write sd_drivers checked
  device_write-sd_drivers dev_id sector count bytes s m hd taken is_sd e zero_code =
      rw (lt→ltb dev_id 9 hd, taken, is_sd) (rw (e) (rw (zero_code) refl))
