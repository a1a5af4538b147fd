-- ===== src/UsbStorage.antt =====
-- ios/Disk/USBStorage.cpp: USB mass storage, bulk only, with SCSI commands.
pub mod Transfer
pub mod Phases
pub mod Command
pub mod Scsi
pub mod Sink
pub mod Bus
pub mod Disk
pub mod Store
pub mod Init
pub mod Tests
use ctgpr_msc.Base.{
  ℕ, zero, suc, ◌+◌, ◌-◌, ◌*◌, ◌/◌, ◌%◌, ◌^◌, ◌≡◌, List, [], ◌∷◌, ◌++◌, Bool, true, false, not,
  ◌||◌, ◌&&◌, ltb, leb, ◌==◌, min, if◌then◌else◌, Option, none, some, length, take, drop, replicate,
  get_or,
}
use ctgpr_msc.Base.Words.{mul_u32, add_u32, low_bits, shr, word_be32}
use ctgpr_msc.Base.Outcome.{Outcome, done, fault, stuck, ◌>>=◌, ◌>>◌, assert}
use ctgpr_msc.DeviceMgr.{SectorReply}

abbrev pub csw_size : ℕ
csw_size = 0x1f

abbrev pub cbw_size : ℕ
cbw_size = 0xd

abbrev pub max_chunk : ℕ
max_chunk = 0x4000

-- The transfers of the USB interface on the caller's bytes: whether the transfer succeeded, the bytes
-- after it, and the world.
pub record UsbBus (W : Type 0) : Type 0 where
  pub bulk : W → ℕ → ℕ → List ℕ → Bool × List ℕ × W
  pub ctrl : W → ℕ → ℕ → ℕ → ℕ → ℕ → List ℕ → Bool × List ℕ × W
  pub sleep : W → ℕ → W

-- The members of `USBStorage` that the transfers use.
pub record UsbStorage : Type 0 where
  pub id : ℕ
  pub out_endpoint : ℕ
  pub in_endpoint : ℕ
  pub tag : ℕ
  pub lun : ℕ
  pub block_size : ℕ
  pub max_packet_size : ℕ
  pub valid : Bool
  pub buffer : List ℕ

-- `write32_le` and `read32_le`.
abbrev pub bytes_le32 : ℕ → List ℕ
bytes_le32 w =
    low_bits w 8 ∷ low_bits (shr w 8) 8 ∷ low_bits (shr w 16) 8 ∷ low_bits (shr w 24) 8 ∷ []

abbrev pub word_le32 : List ℕ → ℕ → ℕ
word_le32 bytes at =
    get_or bytes at 0
    + 256
      * (get_or bytes (at + 1) 0 + 256 * (get_or bytes (at + 2) 0 + 256 * get_or bytes (at + 3) 0))

-- The command block that `SCSITransfer` sends.
unfoldable pub command_block : Bool → ℕ → ℕ → ℕ → List ℕ → List ℕ
command_block is_write tag size lun cb =
    bytes_le32 0x43425355
    ++ (bytes_le32 tag
        ++ (bytes_le32 size
            ++ ((if is_write then 0 else 0x80)
                ∷ lun
                ∷ length cb
                ∷ (cb ++ replicate (16 - length cb) 0))))

-- The tests that `SCSITransfer` makes of the status block.
unfoldable pub is_good_status : ℕ → List ℕ → Bool
is_good_status tag bytes =
    (word_le32 bytes 0 == 0x53425355)
    && ((word_le32 bytes 4 == tag) && ((word_le32 bytes 8 == 0) && (get_or bytes 12 0 == 0)))

-- The command of a sector transfer: the sector and the count, most significant byte first.
unfoldable pub sector_command : ℕ → ℕ → ℕ → List ℕ
sector_command code first_sector sector_count =
    code
    ∷ 0
    ∷ low_bits (shr first_sector 24) 8
    ∷ low_bits (shr first_sector 16) 8
    ∷ low_bits (shr first_sector 8) 8
    ∷ low_bits first_sector 8
    ∷ 0
    ∷ low_bits (shr sector_count 8) 8
    ∷ low_bits sector_count 8
    ∷ 0
    ∷ []

-- What a step leaves: whether it succeeded, the caller's data from the pointer on, the object and the
-- world.
module _ {W : Type 0} (bus : UsbBus W) where
  abbrev pub Result : Type 0
  Result = SectorReply W UsbStorage

  -- `WriteBulkMsg` with the first `n` bytes of `m_buffer`.
  unfoldable pub bulk_msg : ℕ → ℕ → W → UsbStorage → Bool × UsbStorage × W
  bulk_msg endpoint n w s =
      let r = bus.bulk w s.id endpoint (take n s.buffer) in
      (r.0, record s { buffer = r.1 ++ drop (length r.1) s.buffer }, r.2)

  -- `memcpy(m_buffer, data, n)`
  unfoldable pub fill : List ℕ → UsbStorage → UsbStorage
  fill bytes s = record s { buffer = bytes ++ drop (length bytes) s.buffer }

  -- One chunk of `n` bytes, to the device or from it.
  unfoldable pub transfer_chunk : Bool → ℕ → W → UsbStorage → List ℕ → Result
  transfer_chunk is_write n w s xs =
      let r =
        bulk_msg (if is_write then s.out_endpoint else s.in_endpoint) n w
          (if is_write then fill (take n xs) s else s) in
      record {
        good = r.0;
        buffer = if r.0 && not is_write then take n r.1.buffer else take n xs;
        disk = r.1;
        world = r.2;
      }

  -- The loop of `SCSITransfer` over chunks of 16 KiB, held to `fuel` tests.
  pub transfer_loop : ℕ → Bool → ℕ → W → UsbStorage → List ℕ → Outcome Result
  transfer_loop zero is_write remaining w s xs = stuck
  transfer_loop (suc fuel) is_write remaining w s xs = elim (ltb 0 remaining) [
    | false ↦ done (record { good = true; buffer = xs; disk = s; world = w })
    | true ↦
        let n = min remaining max_chunk in
        let r = transfer_chunk is_write n w s xs in
        assert (leb n (length xs)) >> elim r.good [
          | false ↦ done (record r { buffer = r.buffer ++ drop n xs })
          | true ↦ do
            rest ← transfer_loop fuel is_write (remaining - n) r.world r.disk (drop n xs)
            done (record rest { buffer = r.buffer ++ rest.buffer })
        ]
  ]

  -- The end of `SCSITransfer`: the status block.
  unfoldable pub read_status : Result → Result
  read_status t =
      let r = bulk_msg t.disk.in_endpoint cbw_size t.world (fill (replicate cbw_size 0) t.disk) in
      record {
        good = r.0 && is_good_status t.disk.tag r.1.buffer;
        buffer = t.buffer;
        disk = r.1;
        world = r.2;
      }

  -- `USBStorage::SCSITransfer`; a null pointer is `none`.
  pub scsi_transfer : ℕ → Bool → ℕ → ℕ → List ℕ → W → UsbStorage → Option (List ℕ) → Outcome Result
  scsi_transfer fuel is_write size lun cb w s xs =
      let bytes = bytes_of xs in
      let tagged = record s { tag = add_u32 s.tag 1 } in
      let sent =
        bulk_msg s.out_endpoint csw_size w
          (fill (command_block is_write tagged.tag size lun cb) tagged) in
      assert (same (size == 0) (is_null xs))
      >> (assert (leb lun 16)
          >> (assert (leb 1 (length cb) && leb (length cb) 16)
              >> (if not sent.0
                  then done (record { good = false; buffer = bytes; disk = sent.1; world = sent.2 })
                  else (transfer_loop fuel is_write size sent.2 sent.1 bytes >>= λ t.
                      done (if t.good then read_status t else t)))))
    where
      bytes_of : Option (List ℕ) → List ℕ
      bytes_of none = []
      bytes_of (some bytes) = bytes

      is_null : Option (List ℕ) → Bool
      is_null none = true
      is_null (some bytes) = false

      same : Bool → Bool → Bool
      same true b = b
      same false b = not b

  -- `USBStorage::TestUnitReady`
  pub test_unit_ready : ℕ → ℕ → W → UsbStorage → Outcome Result
  test_unit_ready fuel lun w s =
      scsi_transfer fuel false 0 lun (0 ∷ 0 ∷ 0 ∷ 0 ∷ 0 ∷ 0 ∷ []) w s none

  -- `USBStorage::Inquiry`: the type is read from the response where the transfer succeeded.
  pub inquiry : ℕ → ℕ → W → UsbStorage → Outcome (Result × ℕ)
  inquiry fuel lun w s = do
    r ←
        scsi_transfer fuel false 36 lun (0x12 ∷ low_bits (lun * 32) 8 ∷ 0 ∷ 0 ∷ 36 ∷ 0 ∷ []) w s
          (some (replicate 36 0))
    done (r, get_or r.buffer 0 0 % 32)

  -- `USBStorage::InitLun`
  pub init_lun : ℕ → ℕ → W → UsbStorage → Outcome Result
  init_lun fuel lun w s = do
    ready ← test_unit_ready fuel lun w s
    (if not ready.good
        then done ready
        else (inquiry fuel lun ready.world ready.disk >>= λ asked.
            done (if not asked.0.good then asked.0 else record asked.0 { good = asked.1 == 0 })))

  -- `USBStorage::RequestSense`
  pub request_sense : ℕ → ℕ → W → UsbStorage → Outcome Result
  request_sense fuel lun w s =
      scsi_transfer fuel false 18 lun (0x03 ∷ 0 ∷ 0 ∷ 0 ∷ 18 ∷ 0 ∷ []) w s (some (replicate 18 0))

  -- `USBStorage::ReadCapacity`, with the block size where the transfer succeeded.
  pub read_capacity : ℕ → ℕ → W → UsbStorage → Outcome Result
  read_capacity fuel lun w s = do
    r ← scsi_transfer fuel false 8 lun (0x25 ∷ replicate 9 0) w s (some (replicate 8 0))
    done (
        if r.good
        then record r { disk = record r.disk { block_size = word_be32 (drop 4 r.buffer) } }
        else r)

  -- `USBStorage::ReadSectors` and `WriteSectors`: a loop of one round.
  unfoldable pub transfer_sectors : ℕ → Bool → ℕ → ℕ → W → UsbStorage → List ℕ → Outcome Result
  transfer_sectors fuel is_write first_sector sector_count w s xs = do
    assert (leb sector_count 65535)
    r ←
        scsi_transfer fuel is_write (mul_u32 sector_count s.block_size) s.lun
          (sector_command (if is_write then 0x2a else 0x28) first_sector sector_count) w s (some xs)
    done (if r.good then r else record r { world = bus.sleep r.world 0 })

  pub read_sectors : ℕ → ℕ → ℕ → W → UsbStorage → List ℕ → Outcome Result
  read_sectors fuel first_sector sector_count w s xs =
      transfer_sectors fuel false first_sector sector_count w s xs

  pub write_sectors : ℕ → ℕ → ℕ → W → UsbStorage → List ℕ → Outcome Result
  write_sectors fuel first_sector sector_count w s xs =
      transfer_sectors fuel true first_sector sector_count w s xs

  -- `USBStorage::Sync`
  pub sync : ℕ → W → UsbStorage → Outcome Result
  sync fuel w s = scsi_transfer fuel false 0 s.lun (0x35 ∷ replicate 9 0) w s none
