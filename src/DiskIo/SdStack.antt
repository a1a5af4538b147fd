-- ===== src/DiskIo/SdStack.antt =====
-- `disk_write` and `disk_read` on the SD card: FatFS.cpp, DeviceMgr.cpp and SDCard.cpp together.
use ctgpr_msc.Base.{
  ℕ, ◌+◌, ◌*◌, ◌%◌, ◌^◌, ◌≤◌, ◌<◌, ◌≡◌, ◌≢◌, refl, ap, ◌∙◌, List, ◌++◌, false, arith, length,
  length-take, take, drop,
}
use ctgpr_msc.Base.Outcome.{done}
use ctgpr_msc.Aes.{Engine}
use ctgpr_msc.FatFs.{FatFs}
use ctgpr_msc.DeviceMgr.{State, Disk, Drivers, is_refused, with_world}
use ctgpr_msc.DeviceMgr.SdDisk.{sd_drivers, device_read-sd_drivers, device_write-sd_drivers}
use ctgpr_msc.DiskIo.{disk_read, disk_write, res_ok}
use ctgpr_msc.SdCard.{Sdio, Sd}
use ctgpr_msc.SdCard.Card.{IsCard, IsInRange, IsReady, AnswersZero, splice}
use ctgpr_msc.SdCard.Ranges.{contents}
use ctgpr_msc.SdCard.Reads.{read_sectors_refines}
use ctgpr_msc.SdCard.Writes.{write_sectors_refines}
use ctgpr_msc.SdCard.Splices.{length-splice}
use ctgpr_msc.SdCard.RoundTrip.{contents-splice}

module _ {W U F : Type 0} (ios : Sdio W) (disk : W → List ℕ) (sdhc : ℕ) (law : IsCard ios disk sdhc)
    (answers : AnswersZero ios) (fuel : ℕ) (others : Drivers (Sd W) U) where
  -- What a transfer of some sectors from or to a buffer at an address asks of the card and the table.
  pub record IsTransfer (pdrv sector count addr : ℕ) (bytes : List ℕ) (s : State (Sd W) U F)
      : Type 0 where
    pub device : pdrv < 9
    pub usable : is_refused pdrv s ≡ false
    pub is_sd : (s.devices pdrv).disk ≡ Disk.sd_card
    pub some_sectors : 0 < count
    pub rounds : count + 8 ≤ 8 * fuel
    pub some_buffer : addr ≢ 0
    pub small : 512 * count < 2 ^ 32
    pub range : IsInRange sdhc sector count
    pub word : sector < 2 ^ 32
    pub inside : 512 * (sector + count) ≤ length (disk s.world.world)
    pub room : 512 * count ≤ length bytes
    pub ready : IsReady sdhc s.world

  disk_write-sd_drivers :
      (pdrv sector count addr : ℕ) (bytes : List ℕ) (s : State (Sd W) U F)
      → IsTransfer pdrv sector count addr bytes s
      → (c : Sd W) × (disk_write (sd_drivers ios fuel addr others) pdrv bytes sector count s
          ≡ done (res_ok, with_world c s))
        × (disk c.world ≡ splice (512 * sector) (take (512 * count) bytes) (disk s.world.world))
        × IsReady sdhc c
  unfolding disk_write
  disk_write-sd_drivers pdrv sector count addr bytes s h =
      let (m, e, ((good, written), ends), kept) =
        write_sectors_refines ios disk sdhc law fuel sector count addr bytes s.world h.rounds
          h.some_buffer h.small h.range h.inside h.room h.ready in
      let same : sector % 2 ^ 32 ≡ sector = omega (arith, h.word) in
      let run =
        device_write-sd_drivers ios fuel addr others pdrv sector count bytes s m h.device h.usable
          h.is_sd e (ends answers h.some_sectors) in
      (m.sd, rw (same) (rw (run) refl), written, kept)

  disk_read-sd_drivers :
      (fs : FatFs (State (Sd W) U F) F) (engine : Engine (State (Sd W) U F))
      (blob_fuel pdrv sector count addr : ℕ) (bytes : List ℕ) (s : State (Sd W) U F)
      → IsTransfer pdrv sector count addr bytes s
      → (c : Sd W) × (disk_read
            (sd_drivers ios fuel addr others)
            fs
            engine
            blob_fuel
            pdrv
            bytes
            sector
            count
            s
          ≡ done (
            res_ok,
            contents sector count (disk s.world.world) ++ drop (512 * count) bytes,
            with_world c s,
          ))
        × (disk c.world ≡ disk s.world.world)
        × IsReady sdhc c
  unfolding disk_read
  disk_read-sd_drivers fs engine blob_fuel pdrv sector count addr bytes s h =
      let (m, e, ((good, got, kept_disk), ends), kept) =
        read_sectors_refines ios disk sdhc law fuel sector count addr bytes s.world h.rounds
          h.some_buffer h.small h.range h.inside h.room h.ready in
      let same : sector % 2 ^ 32 ≡ sector = omega (arith, h.word) in
      let run =
        device_read-sd_drivers ios fuel addr others fs engine blob_fuel pdrv sector count bytes s m
          h.device h.usable h.is_sd e (ends answers h.some_sectors) in
      (m.sd, rw (same) (rw (run) (rw (got) refl)), kept_disk, kept)

  -- FatFs writes sectors of the SD card from one buffer and reads them into another, whatever the
  -- alignments of the two, through the device manager and the class SDCard, where IOS answers what
  -- succeeds with 0: both calls return RES_OK, the second buffer begins with the bytes that the first
  -- began with, the card holds them in those sectors and is as it was everywhere else, and the device
  -- is not refused afterwards.
  pub disk_read-disk_write :
      (fs : FatFs (State (Sd W) U F) F) (engine : Engine (State (Sd W) U F))
      (blob_fuel pdrv sector count from to : ℕ) (xs ys : List ℕ) (s : State (Sd W) U F)
      → IsTransfer pdrv sector count from xs s
      → to ≢ 0
      → 512 * count ≤ length ys
      → (t : State (Sd W) U F) × (u : State (Sd W) U F) × (disk_write
            (sd_drivers ios fuel from others)
            pdrv
            xs
            sector
            count
            s
          ≡ done (res_ok, t))
        × (disk_read (sd_drivers ios fuel to others) fs engine blob_fuel pdrv ys sector count t
            ≡ done (res_ok, take (512 * count) xs ++ drop (512 * count) ys, u))
        × (disk u.world.world ≡ splice (512 * sector) (take (512 * count) xs) (disk s.world.world))
        × (is_refused pdrv u ≡ false)
  unfolding with_world is_refused
  disk_read-disk_write fs engine blob_fuel pdrv sector count from to xs ys s h some_to room_y =
      let zs = take (512 * count) xs in
      let size : length zs ≡ 512 * count = omega (arith, length-take (512 * count) xs, h.room) in
      let (c, wrote, written, kept) = disk_write-sd_drivers pdrv sector count from xs s h in
      let same_size : length (disk c.world) ≡ length (disk s.world.world) =
        ap length written
        ∙ length-splice (512 * sector) zs (disk s.world.world) (omega (arith, size, h.inside)) in
      let (d, read, same, still) =
        disk_read-sd_drivers fs engine blob_fuel pdrv sector count to ys (with_world c s) (record {
          device = h.device;
          usable = h.usable;
          is_sd = h.is_sd;
          some_sectors = h.some_sectors;
          rounds = h.rounds;
          some_buffer = some_to;
          small = h.small;
          range = h.range;
          word = h.word;
          inside = omega (arith, same_size, h.inside);
          room = room_y;
          ready = kept;
        }) in
      let back : contents sector count (disk c.world) ≡ zs =
        ap (contents sector count) written
        ∙ contents-splice sector count zs (disk s.world.world) size h.inside in
      (
        with_world c s,
        with_world d s,
        wrote,
        read ∙ ap (λ ws. done (res_ok, ws ++ drop (512 * count) ys, with_world d s)) back,
        same ∙ written,
        h.usable,
      )
