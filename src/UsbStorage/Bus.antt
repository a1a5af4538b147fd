-- ===== src/UsbStorage/Bus.antt =====
-- `WriteBulkMsg` and `WriteCtrlMsg` of ios/Disk/USB.hpp on the buffer of USBStorage.cpp: the transfers
-- of a storage device, made through /dev/usb/ven.
use ctgpr_msc.Base.{
  ℕ, ◌+◌, ◌*◌, ◌≤◌, ◌<◌, ◌≡◌, refl, ap, ◌∙◌, List, ◌++◌, Bool, true, false, arith, length, take,
  drop, some, ==_iff,
}
use ctgpr_msc.Base.Int.{pos, eq_ℤ}
use ctgpr_msc.Base.Words.{add_u32, aligned}
use ctgpr_msc.Base.Outcome.{done}
use ctgpr_msc.Usb.{
  UsbManager, Transferred, usb_ok, is_bad_buffer, result_of, ctrl_msg, intr_bulk_msg, bulk_transfer,
}
use ctgpr_msc.Usb.Transfers.{bulk_answer}
use ctgpr_msc.UsbStorage.{UsbBus, UsbStorage, Result, command_block, is_good_status, scsi_transfer}
use ctgpr_msc.UsbStorage.Scsi.{IsTarget, scsi_transfer_lem}

-- Whether a transfer returned `USBError::OK`, the bytes and the world after it.
succeeded : {W : Type 0} → Transferred W → Bool × List ℕ × W
succeeded r = (eq_ℤ r.ret usb_ok, r.bytes, r.world)

module _ {W : Type 0} (ven : UsbManager W) (usleep : W → ℕ → W) (addr : ℕ) where
  -- The transfers from and to the buffer at `addr`.
  pub usb_bus : UsbBus W
  usb_bus = record {
    bulk = λ w id endpoint bytes.
        succeeded (intr_bulk_msg ven id bulk_transfer endpoint (length bytes) addr bytes w);
    ctrl = λ w id request_type request value index bytes.
        succeeded (ctrl_msg ven id request_type request value index (length bytes) addr bytes w);
    sleep = usleep;
  }

  -- What the manager answers to bulk transfers from and to a device that takes commands of 31 bytes on
  -- one endpoint and sends its answers on the other.
  pub record IsTransport (stream : W → List ℕ) (in_endpoint out_endpoint : ℕ)
      (answer : W → List ℕ → List ℕ) : Type 0 where
    pub sends :
        (w : W) (id : ℕ) (xs : List ℕ)
        → 0 < length xs
        → length xs ≤ 16384
        → length xs ≤ length (stream w)
        → let r = bulk_answer ven id bulk_transfer in_endpoint (length xs) addr xs w in
          (r.ret ≡ pos (length xs))
          × (r.bytes ≡ take (length xs) (stream w))
          × (stream r.world ≡ drop (length xs) (stream w))
    pub takes :
        (w : W) (id : ℕ) (xs : List ℕ)
        → length xs ≡ 31
        → let r = bulk_answer ven id bulk_transfer out_endpoint (length xs) addr xs w in
          (r.ret ≡ pos (length xs)) × (r.bytes ≡ xs) × (stream r.world ≡ answer w xs)

  -- The buffer is aligned and not the null pointer.
  abbrev pub IsDmaBuffer : Type 0
  IsDmaBuffer = (0 < addr) × (aligned addr 32 ≡ true)

  fits : (n : ℕ) → IsDmaBuffer → 0 < n → is_bad_buffer addr n ≡ false
  unfolding is_bad_buffer
  fits n (some_where, even) h = rw even (ground arith)

  -- A transfer of some bytes that the manager answers with their number.
  pub bulk-usb_bus :
      (w : W) (id endpoint : ℕ) (xs : List ℕ)
      → IsDmaBuffer
      → 0 < length xs
      → let r = bulk_answer ven id bulk_transfer endpoint (length xs) addr xs w in
        r.ret ≡ pos (length xs) → usb_bus.bulk w id endpoint xs ≡ (true, r.bytes, r.world)
  unfolding usb_bus succeeded intr_bulk_msg result_of
  bulk-usb_bus w id endpoint xs h some_bytes e =
      rw (fits (length xs) h some_bytes, e, (==_iff (length xs) (length xs)).1 refl) refl

  -- The pause of the bus is the caller's.
  pub sleep-usb_bus : (w : W) (n : ℕ) → usb_bus.sleep w n ≡ usleep w n
  unfolding usb_bus
  sleep-usb_bus w n = refl

  usb_bus-IsTarget :
      (stream : W → List ℕ) (in_endpoint out_endpoint : ℕ) (answer : W → List ℕ → List ℕ)
      → IsDmaBuffer
      → IsTransport stream in_endpoint out_endpoint answer
      → IsTarget usb_bus stream in_endpoint out_endpoint answer
  usb_bus-IsTarget stream in_endpoint out_endpoint answer h law =
      let received : (w : W) (id : ℕ) (xs : List ℕ)
          → 0 < length xs
          → length xs ≤ 16384
          → length xs ≤ length (stream w)
          → let r = bulk_answer ven id bulk_transfer in_endpoint (length xs) addr xs w in
            usb_bus.bulk w id in_endpoint xs ≡ (true, r.bytes, r.world) =
        λ w id xs some_bytes small enough.
          bulk-usb_bus w id in_endpoint xs h some_bytes
            (law.sends w id xs some_bytes small enough).0 in
      let taken : (w : W) (id : ℕ) (xs : List ℕ)
          → length xs ≡ 31
          → let r = bulk_answer ven id bulk_transfer out_endpoint (length xs) addr xs w in
            usb_bus.bulk w id out_endpoint xs ≡ (true, r.bytes, r.world) =
        λ w id xs long.
          bulk-usb_bus w id out_endpoint xs h (omega (arith, long)) (law.takes w id xs long).0 in
      record {
        sends = record {
          good = λ w id xs a b c. ap (λ r. r.0) (received w id xs a b c);
          sent =
              λ w id xs a b c. ap (λ r. r.1) (received w id xs a b c) ∙ (law.sends w id xs a b c).1;
          rest = λ w id xs a b c.
              ap (λ r. stream r.2) (received w id xs a b c) ∙ (law.sends w id xs a b c).2;
        };
        good = λ w id xs a. ap (λ r. r.0) (taken w id xs a);
        kept = λ w id xs a. ap (λ r. r.1) (taken w id xs a) ∙ (law.takes w id xs a).1;
        answers = λ w id xs a. ap (λ r. stream r.2) (taken w id xs a) ∙ (law.takes w id xs a).2;
      }

  -- The object uses the two endpoints, through a buffer of 16 KiB.
  abbrev pub IsAttached : ℕ → ℕ → UsbStorage → Type 0
  IsAttached in_endpoint out_endpoint s =
      (s.in_endpoint ≡ in_endpoint) × (length s.buffer ≡ 16384) × (s.out_endpoint ≡ out_endpoint)

  -- `SCSITransfer` through /dev/usb/ven, with an aligned buffer of 16 KiB and a manager that moves all bytes of each bulk transfer: where the device answers the
  -- command with `size` bytes, at least one, and a status block of 13 bytes, the read returns, with
  -- those bytes at the start of the caller's memory and the rest of it as it was. It succeeds exactly
  -- where the status block is a good one for the command's tag.
  pub scsi_transfer-usb_bus :
      (stream : W → List ℕ) (in_endpoint out_endpoint : ℕ) (answer : W → List ℕ → List ℕ)
      (fuel size lun : ℕ) (cb : List ℕ) (w : W) (s : UsbStorage) (xs bytes status : List ℕ)
      → IsDmaBuffer
      → IsTransport stream in_endpoint out_endpoint answer
      → IsAttached in_endpoint out_endpoint s
      → size + 16384 ≤ 16384 * fuel
      → 0 < size
      → size ≤ length xs
      → lun ≤ 16
      → 0 < length cb
      → length cb ≤ 16
      → answer w (command_block false (add_u32 s.tag 1) size lun cb) ≡ bytes ++ status
      → length bytes ≡ size
      → length status ≡ 13
      → (r : Result usb_bus) × (scsi_transfer usb_bus fuel false size lun cb w s (some xs) ≡ done r)
        × (r.good ≡ is_good_status (add_u32 s.tag 1) status)
        × (r.buffer ≡ bytes ++ drop size xs)
  scsi_transfer-usb_bus stream in_endpoint out_endpoint answer fuel size lun cb w s xs bytes status
        h law a hf hz hx hl hc hd e hb hs =
      scsi_transfer_lem usb_bus stream in_endpoint out_endpoint answer
        (usb_bus-IsTarget stream in_endpoint out_endpoint answer h law) fuel size lun cb w s xs
        bytes status hf hz hx hl hc hd ((a.0, a.1), a.2) e hb hs
