-- ===== src/UsbStorage/Disk.antt =====
-- `USBStorage::ReadSectors` through /dev/usb/ven on an abstract disk, a sequence of bytes.
use ctgpr_msc.Base.{
  ℕ, ◌+◌, ◌*◌, ◌^◌, ◌≤◌, ◌<◌, ◌≡◌, refl, ◌∙◌, List, [], ◌∷◌, ◌++◌, true, false, arith, length, drop,
  le→leb, some, length-take, length-drop,
}
use ctgpr_msc.Base.Words.{add_u32, mul_u32}
use ctgpr_msc.Base.Outcome.{done}
use ctgpr_msc.FatFs.{slice}
use ctgpr_msc.Usb.{UsbManager}
use ctgpr_msc.UsbStorage.{
  UsbBus, UsbStorage, Result, scsi_transfer, bytes_le32, command_block, is_good_status,
  sector_command, transfer_sectors, read_sectors,
}
use ctgpr_msc.UsbStorage.Command.{IsCommand, command_block-IsCommand, length-sector_command}
use ctgpr_msc.UsbStorage.Bus.{usb_bus, IsTransport, IsDmaBuffer, IsAttached, scsi_transfer-usb_bus}

-- The status block of a command that succeeded.
abbrev pub good_status : ℕ → List ℕ
good_status tag = bytes_le32 0x53425355 ++ (bytes_le32 tag ++ (0 ∷ 0 ∷ 0 ∷ 0 ∷ 0 ∷ []))

good_status_lem : (tag : ℕ) → tag < 2 ^ 32 → is_good_status tag (good_status tag) ≡ true
unfolding is_good_status
good_status_lem tag h = ground arith

-- A device that answers READ(10) with the bytes of the sectors and a good status block.
pub record IsDisk {W : Type 0} (content : List ℕ) (block_size : ℕ) (answer : W → List ℕ → List ℕ)
    : Type 0 where
  pub reads :
      (w : W) (block : List ℕ) (tag lun first n : ℕ)
      → IsCommand 128 0x28 tag (n * block_size) lun first n block
      → (first + n) * block_size ≤ length content
      → answer w block ≡ slice content (first * block_size) (n * block_size) ++ good_status tag

-- The read is its SCSI transfer where that succeeds.
read_sectors-scsi_transfer :
    {W : Type 0} (bus : UsbBus W) (fuel first n : ℕ) (w : W) (s : UsbStorage) (xs : List ℕ)
    (r : Result bus)
    → n ≤ 65535
    → n * s.block_size < 2 ^ 32
    → scsi_transfer bus fuel false
        (n * s.block_size)
        s.lun
        (sector_command 0x28 first n)
        w
        s
        (some xs)
      ≡ done r
    → r.good ≡ true
    → read_sectors bus fuel first n w s xs ≡ done r
unfolding read_sectors transfer_sectors
read_sectors-scsi_transfer bus fuel first n w s xs r hn hm e good =
    let amount : mul_u32 n s.block_size ≡ n * s.block_size = omega arith in
    rw (le→leb n 65535 hn, amount) (rw (e) (rw (good) refl))

-- `ReadSectors` through /dev/usb/ven, with an aligned buffer of 16 KiB and a manager that moves all bytes of each bulk transfer, of up to 65535 sectors and less
-- than 4 GiB of a disk that answers well: it returns and succeeds, with the bytes of the sectors at the
-- start of the caller's memory and the rest of it as it was.
pub read_sectors-usb_bus :
    {W : Type 0} (ven : UsbManager W) (usleep : W → ℕ → W) (addr : ℕ) (stream : W → List ℕ)
    (in_endpoint out_endpoint : ℕ) (answer : W → List ℕ → List ℕ) (content : List ℕ)
    (fuel first n : ℕ) (w : W) (s : UsbStorage) (xs : List ℕ)
    → IsDmaBuffer ven usleep addr
    → IsTransport ven usleep addr stream in_endpoint out_endpoint answer
    → IsAttached ven usleep addr in_endpoint out_endpoint s
    → IsDisk content s.block_size answer
    → s.lun ≤ 16
    → n ≤ 65535
    → first < 2 ^ 32
    → (first + n) * s.block_size ≤ length content
    → 0 < n * s.block_size
    → n * s.block_size < 2 ^ 32
    → n * s.block_size ≤ length xs
    → n * s.block_size + 16384 ≤ 16384 * fuel
    → (r : Result (usb_bus ven usleep addr)) × (read_sectors
          (usb_bus ven usleep addr)
          fuel
          first
          n
          w
          s
          xs
        ≡ done r)
      × (r.good ≡ true)
      × (r.buffer
          ≡ slice content (first * s.block_size) (n * s.block_size) ++ drop (n * s.block_size) xs)
read_sectors-usb_bus ven usleep addr stream in_endpoint out_endpoint answer content fuel first n w s
      xs h law a disk hl hn hr hc hz hm hx hf =
    let tag = add_u32 s.tag 1 in
    let bytes = slice content (first * s.block_size) (n * s.block_size) in
    let cb = sector_command 0x28 first n in
    let ten = length-sector_command 0x28 first n in
    let (r, e, good, moved) =
      scsi_transfer-usb_bus ven usleep addr stream in_endpoint out_endpoint answer fuel
        (n * s.block_size) s.lun cb w s xs bytes (good_status tag) h law a hf hz hx hl
        (omega (arith, ten)) (omega (arith, ten))
        (disk.reads w (command_block false tag (n * s.block_size) s.lun cb) tag s.lun first n
          (command_block-IsCommand false 0x28 tag (n * s.block_size) s.lun first n (omega arith) hm
            hr hn)
          hc)
        (omega (
          arith,
          length-take (n * s.block_size) (drop (first * s.block_size) content),
          length-drop (first * s.block_size) content,
        ))
        refl in
    let well = good ∙ good_status_lem tag (omega arith) in
    (
      r,
      read_sectors-scsi_transfer (usb_bus ven usleep addr) fuel first n w s xs r hn hm e well,
      well,
      moved,
    )
