-- ===== src/UsbStorage/Scsi.antt =====
-- `SCSITransfer` as a whole, on a device that answers a command with data and a status block.
use ctgpr_msc.Base.{
  ℕ, ◌+◌, ◌*◌, ◌≤◌, ◌<◌, ◌≡◌, refl, ap, ◌∙◌, List, ◌++◌, true, false, arith, le→leb, length, take,
  drop, replicate, length-append, take-append, drop-append, some, ◌==◌, take-length,
}
use ctgpr_msc.Base.Words.{add_u32}
use ctgpr_msc.Base.Outcome.{done}
use ctgpr_msc.UsbStorage.{
  UsbBus, UsbStorage, Result, bulk_msg, fill, command_block, is_good_status, read_status,
  scsi_transfer,
}
use ctgpr_msc.UsbStorage.Transfer.{IsStream, IsOpen, transfer_loop_lem}
use ctgpr_msc.UsbStorage.Phases.{
  length-command_block, bulk_msg-IsSent, read_status_lem, read_status-buffer,
}

-- A device that takes commands of 31 bytes on one endpoint, and then has its answer to the command
-- to send on the other.
pub record IsTarget {W : Type 0} (bus : UsbBus W) (stream : W → List ℕ)
    (in_endpoint out_endpoint : ℕ) (answer : W → List ℕ → List ℕ) : Type 0 where
  pub sends : IsStream bus stream in_endpoint
  pub good :
      (w : W) (id : ℕ) (xs : List ℕ) → length xs ≡ 31 → (bus.bulk w id out_endpoint xs).0 ≡ true
  pub kept :
      (w : W) (id : ℕ) (xs : List ℕ) → length xs ≡ 31 → (bus.bulk w id out_endpoint xs).1 ≡ xs
  pub answers :
      (w : W) (id : ℕ) (xs : List ℕ)
      → length xs ≡ 31
      → stream (bus.bulk w id out_endpoint xs).2 ≡ answer w xs

module _ {W : Type 0} (bus : UsbBus W) (stream : W → List ℕ) (in_endpoint out_endpoint : ℕ)
    (answer : W → List ℕ → List ℕ) (law : IsTarget bus stream in_endpoint out_endpoint answer) where
  -- The object uses the two endpoints, through a buffer of 16 KiB.
  abbrev pub IsConnected : UsbStorage → Type 0
  IsConnected s = IsOpen bus stream in_endpoint law.sends s × (s.out_endpoint ≡ out_endpoint)

  -- The command that a transfer sends, with the next tag.
  abbrev pub command : UsbStorage → ℕ → ℕ → List ℕ → List ℕ
  command s size lun cb = command_block false (add_u32 s.tag 1) size lun cb

  -- A device that answers the command of a read with `size` bytes and a status block of 13 bytes: the
  -- read returns, with the bytes at the start of the caller's memory and the rest of it as it was, and
  -- it succeeds exactly where the status block is a good one for the command's tag.
  pub scsi_transfer_lem :
      (fuel size lun : ℕ) (cb : List ℕ) (w : W) (s : UsbStorage) (xs bytes status : List ℕ)
      → size + 16384 ≤ 16384 * fuel
      → 0 < size
      → size ≤ length xs
      → lun ≤ 16
      → 0 < length cb
      → length cb ≤ 16
      → IsConnected s
      → answer w (command s size lun cb) ≡ bytes ++ status
      → length bytes ≡ size
      → length status ≡ 13
      → (r : Result bus) × (scsi_transfer bus fuel false size lun cb w s (some xs) ≡ done r)
        × (r.good ≡ is_good_status (add_u32 s.tag 1) status)
        × (r.buffer ≡ bytes ++ drop size xs)
  unfolding scsi_transfer
  scsi_transfer_lem fuel size lun cb w s xs bytes status hf hz hx hl hc hd h e hb hs =
      let block = command s size lun cb in
      let tagged : UsbStorage = record s { tag = add_u32 s.tag 1 } in
      let sent = bulk_msg bus s.out_endpoint 31 w (fill bus block tagged) in
      let long = length-command_block false (add_u32 s.tag 1) size lun cb hd in
      let taken : ((bus.bulk w s.id s.out_endpoint block).0 ≡ true)
          × ((bus.bulk w s.id s.out_endpoint block).1 ≡ block)
          × (stream (bus.bulk w s.id s.out_endpoint block).2 ≡ answer w block) =
        rw h.1
          (law.good w s.id block long, law.kept w s.id block long, law.answers w s.id block long) in
      let phase = bulk_msg-IsSent bus 31 block w tagged long (omega arith) h.0.1 taken.0 taken.1 in
      let opened : IsOpen bus stream in_endpoint law.sends sent.1 =
        (phase.same_in ∙ h.0.0, phase.size) in
      let reply : stream sent.2 ≡ bytes ++ status = ap stream phase.after ∙ taken.2 ∙ e in
      let (t, run, good, moved, left, still_open, same_tag) =
        transfer_loop_lem bus stream in_endpoint law.sends fuel size sent.2 sent.1 xs hf
          (omega (arith, ap length reply, length-append bytes status)) hx opened in
      let rest : stream t.world ≡ status =
        left ∙ ap (drop size) reply ∙ drop-append size bytes status hb in
      let zeros : List ℕ = replicate 13 0 in
      let enough : length zeros ≤ length (stream t.world) = omega (arith, ap length rest) in
      let tests : (size == 0) ≡ false = ground arith in
      (
        read_status bus t,
        rw (tests, le→leb lun 16 hl, le→leb 1 (length cb) hc, le→leb (length cb) 16 hd)
            (rw (phase.good) (rw (run, good) refl)),
        read_status_lem bus t status
              (rw still_open.0
                (law.sends.good t.world t.disk.id zeros (omega arith) (omega arith) enough))
              (rw still_open.0 (
                law.sends.sent t.world t.disk.id zeros (omega arith) (omega arith) enough
                ∙ ap (take 13) rest
                ∙ take-length 13 status (omega arith)))
              hs
            ∙ ap (λ k. is_good_status k status) (same_tag ∙ phase.same_tag),
        read_status-buffer bus t
            ∙ moved
            ∙ ap (λ ys. take size ys ++ drop size xs) reply
            ∙ ap (λ ys. ys ++ drop size xs) (take-append size bytes status hb),
      )
