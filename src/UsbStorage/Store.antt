-- ===== src/UsbStorage/Store.antt =====
-- `USBStorage::WriteSectors` through /dev/usb/ven.
use ctgpr_msc.Base.{
  ℕ, ◌+◌, ◌*◌, ◌^◌, ◌≤◌, ◌<◌, ◌≡◌, refl, ap, ◌∙◌, List, ◌++◌, true, Bool-cases, inl, inr, arith,
  length, take, some, le→leb, if◌then◌else◌,
}
use ctgpr_msc.Base.Words.{add_u32, mul_u32}
use ctgpr_msc.Base.Outcome.{done}
use ctgpr_msc.Base.Int.{pos}
use ctgpr_msc.Usb.{UsbManager, bulk_transfer}
use ctgpr_msc.Usb.Transfers.{bulk_answer}
use ctgpr_msc.UsbStorage.{
  UsbBus, UsbStorage, Result, command_block, is_good_status, sector_command, scsi_transfer,
  transfer_sectors, write_sectors,
}
use ctgpr_msc.UsbStorage.Bus.{usb_bus, IsDmaBuffer, IsAttached, bulk-usb_bus, sleep-usb_bus}
use ctgpr_msc.UsbStorage.Sink.{IsSink, scsi_transfer-IsSink}
use ctgpr_msc.UsbStorage.Command.{IsCommand, command_block-IsCommand, length-sector_command}

module _ {W : Type 0} (ven : UsbManager W) (usleep : W → ℕ → W) (addr : ℕ) where
  -- What the manager answers to bulk transfers to and from a device that keeps the bytes that it is
  -- sent on one endpoint, and tells the status that they lead to on the other.
  pub record IsRecorder (received : W → List ℕ) (in_endpoint out_endpoint : ℕ)
      (status : List ℕ → List ℕ) : Type 0 where
    pub takes :
        (w : W) (id : ℕ) (xs : List ℕ)
        → 0 < length xs
        → length xs ≤ 16384
        → let r = bulk_answer ven id bulk_transfer out_endpoint (length xs) addr xs w in
          (r.ret ≡ pos (length xs)) × (r.bytes ≡ xs) × (received r.world ≡ received w ++ xs)
    pub tells :
        (w : W) (id : ℕ) (xs : List ℕ)
        → length xs ≡ 13
        → let r = bulk_answer ven id bulk_transfer in_endpoint (length xs) addr xs w in
          (r.ret ≡ pos (length xs))
          × (r.bytes ≡ status (received w))
          × (received r.world ≡ received w)
    pub status_length : (log : List ℕ) → length (status log) ≡ 13
    pub sleeps : (w : W) (n : ℕ) → received (usleep w n) ≡ received w

  usb_bus-IsSink :
      (received : W → List ℕ) (in_endpoint out_endpoint : ℕ) (status : List ℕ → List ℕ)
      → IsDmaBuffer ven usleep addr
      → IsRecorder received in_endpoint out_endpoint status
      → IsSink (usb_bus ven usleep addr) received in_endpoint out_endpoint status
  usb_bus-IsSink received in_endpoint out_endpoint status h law =
      let bus = usb_bus ven usleep addr in
      let taken : (w : W) (id : ℕ) (xs : List ℕ)
          → 0 < length xs
          → length xs ≤ 16384
          → let r = bulk_answer ven id bulk_transfer out_endpoint (length xs) addr xs w in
            bus.bulk w id out_endpoint xs ≡ (true, r.bytes, r.world) =
        λ w id xs a b.
          bulk-usb_bus ven usleep addr w id out_endpoint xs h a (law.takes w id xs a b).0 in
      let told : (w : W) (id : ℕ) (xs : List ℕ)
          → length xs ≡ 13
          → let r = bulk_answer ven id bulk_transfer in_endpoint (length xs) addr xs w in
            bus.bulk w id in_endpoint xs ≡ (true, r.bytes, r.world) =
        λ w id xs long.
          bulk-usb_bus ven usleep addr w id in_endpoint xs h (omega (arith, long))
            (law.tells w id xs long).0 in
      record {
        good = λ w id xs a b. ap (λ r. r.0) (taken w id xs a b);
        kept = λ w id xs a b. ap (λ r. r.1) (taken w id xs a b) ∙ (law.takes w id xs a b).1;
        logged =
            λ w id xs a b. ap (λ r. received r.2) (taken w id xs a b) ∙ (law.takes w id xs a b).2;
        tells = λ w id xs a. (
          ap (λ r. r.0) (told w id xs a),
          ap (λ r. r.1) (told w id xs a) ∙ (law.tells w id xs a).1,
          ap (λ r. received r.2) (told w id xs a) ∙ (law.tells w id xs a).2,
        );
      }

-- The write is its SCSI transfer, and a pause where that fails.
write_sectors-scsi_transfer :
    {W : Type 0} (bus : UsbBus W) (fuel first n : ℕ) (w : W) (s : UsbStorage) (xs : List ℕ)
    (r : Result bus)
    → n ≤ 65535
    → n * s.block_size < 2 ^ 32
    → scsi_transfer bus fuel true
        (n * s.block_size)
        s.lun
        (sector_command 0x2a first n)
        w
        s
        (some xs)
      ≡ done r
    → write_sectors bus fuel first n w s xs
      ≡ done (if r.good then r else record r { world = bus.sleep r.world 0 })
unfolding write_sectors transfer_sectors
write_sectors-scsi_transfer bus fuel first n w s xs r hn hm e =
    let amount : mul_u32 n s.block_size ≡ n * s.block_size = omega arith in
    rw (le→leb n 65535 hn, amount) (rw (e) refl)

-- The pause changes neither the outcome nor what the device has got.
pause_lem :
    {W : Type 0} (bus : UsbBus W) (received : W → List ℕ) (r : Result bus)
    → ((w : W) (n : ℕ) → received (bus.sleep w n) ≡ received w)
    → let p : Result bus = if r.good then r else record r { world = bus.sleep r.world 0 } in
      (received p.world ≡ received r.world) × (p.good ≡ r.good) × (p.buffer ≡ r.buffer)
pause_lem bus received r law = elim (Bool-cases r.good) [
  | inl good ↦ rw (good) (refl, refl, refl)
  | inr failed ↦ rw (failed) (law r.world 0, refl, refl)
]

-- `WriteSectors` through /dev/usb/ven, with an aligned buffer of 16 KiB and a manager that moves all bytes of each bulk transfer, of up to 65535 sectors and less
-- than 4 GiB, to a device that keeps what it is sent and tells a status block of 13 bytes: it returns,
-- the device has got the block of WRITE(10) and the caller's bytes, in this order and nothing else, and
-- the caller's bytes stay. It succeeds exactly where the status block is a good one for the block's tag.
pub write_sectors-usb_bus :
    {W : Type 0} (ven : UsbManager W) (usleep : W → ℕ → W) (addr : ℕ) (received : W → List ℕ)
    (in_endpoint out_endpoint : ℕ) (status : List ℕ → List ℕ) (fuel first n : ℕ) (w : W)
    (s : UsbStorage) (xs : List ℕ)
    → IsDmaBuffer ven usleep addr
    → IsRecorder ven usleep addr received in_endpoint out_endpoint status
    → IsAttached ven usleep addr in_endpoint out_endpoint s
    → s.lun ≤ 16
    → n ≤ 65535
    → first < 2 ^ 32
    → 0 < n * s.block_size
    → n * s.block_size < 2 ^ 32
    → n * s.block_size ≤ length xs
    → n * s.block_size + 16384 ≤ 16384 * fuel
    → (block : List ℕ) × (r : Result (usb_bus ven usleep addr)) × IsCommand 0 0x2a
        (add_u32 s.tag 1)
        (n * s.block_size)
        s.lun
        first
        n
        block
      × (write_sectors (usb_bus ven usleep addr) fuel first n w s xs ≡ done r)
      × (received r.world ≡ received w ++ (block ++ take (n * s.block_size) xs))
      × (r.good
          ≡ is_good_status
              (add_u32 s.tag 1)
              (status (received w ++ (block ++ take (n * s.block_size) xs))))
      × (r.buffer ≡ xs)
write_sectors-usb_bus ven usleep addr received in_endpoint out_endpoint status fuel first n w s xs h
      law a hl hn hf32 hz hm hx hf =
    let bus = usb_bus ven usleep addr in
    let tag = add_u32 s.tag 1 in
    let cb = sector_command 0x2a first n in
    let ten = length-sector_command 0x2a first n in
    let (r, e, log, good, kept) =
      scsi_transfer-IsSink bus received in_endpoint out_endpoint status
        (usb_bus-IsSink ven usleep addr received in_endpoint out_endpoint status h law) fuel
        (n * s.block_size) s.lun cb w s xs hf hz hx hl (omega (arith, ten)) (omega (arith, ten)) a
        (law.status_length _) in
    let (same_log, same_good, same_bytes) =
      pause_lem bus received r
        (λ v k. ap received (sleep-usb_bus ven usleep addr v k) ∙ law.sleeps v k) in
    (
      command_block true tag (n * s.block_size) s.lun cb,
      if r.good then r else record r { world = bus.sleep r.world 0 },
      command_block-IsCommand true 0x2a tag (n * s.block_size) s.lun first n (omega arith) hm hf32
          hn,
      write_sectors-scsi_transfer bus fuel first n w s xs r hn hm e,
      same_log ∙ log,
      same_good ∙ good,
      same_bytes ∙ kept,
    )
