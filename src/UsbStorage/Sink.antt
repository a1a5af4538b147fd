-- ===== src/UsbStorage/Sink.antt =====
-- `SCSITransfer` of a write: the device gets the command and then the caller's bytes.
use ctgpr_msc.Base.{
  ℕ, zero, suc, ◌+◌, ◌-◌, ◌*◌, ◌≤◌, ◌<◌, ◌≡◌, refl, sym, ap, ◌∙◌, List, ◌++◌, append_assoc,
  append-nil, true, false, inl, ◌==◌, inr, arith, min, ltb, ltb→lt, ltb→le, le→leb, Bool-cases,
  length, take, drop, replicate, some, length-take, length-drop, take_add, take-append-drop,
}
use ctgpr_msc.Base.Words.{add_u32}
use ctgpr_msc.Base.Outcome.{done}
use ctgpr_msc.UsbStorage.{
  UsbBus, UsbStorage, Result, bulk_msg, fill, transfer_chunk, transfer_loop, command_block,
  is_good_status, read_status, scsi_transfer,
}
use ctgpr_msc.UsbStorage.Phases.{
  length-command_block, bulk_msg-IsSent, read_status_lem, read_status-buffer, read_status-world,
}

-- A device that keeps the bytes that it is sent on one endpoint, in transfers of at least a byte and at
-- most 16 KiB, and tells the status that they lead to
-- on the other.
pub record IsSink {W : Type 0} (bus : UsbBus W) (received : W → List ℕ)
    (in_endpoint out_endpoint : ℕ) (status : List ℕ → List ℕ) : Type 0 where
  pub good :
      (w : W) (id : ℕ) (xs : List ℕ)
      → 0 < length xs
      → length xs ≤ 16384
      → (bus.bulk w id out_endpoint xs).0 ≡ true
  pub kept :
      (w : W) (id : ℕ) (xs : List ℕ)
      → 0 < length xs
      → length xs ≤ 16384
      → (bus.bulk w id out_endpoint xs).1 ≡ xs
  pub logged :
      (w : W) (id : ℕ) (xs : List ℕ)
      → 0 < length xs
      → length xs ≤ 16384
      → received (bus.bulk w id out_endpoint xs).2 ≡ received w ++ xs
  pub tells :
      (w : W) (id : ℕ) (xs : List ℕ)
      → length xs ≡ 13
      → ((bus.bulk w id in_endpoint xs).0 ≡ true)
        × ((bus.bulk w id in_endpoint xs).1 ≡ status (received w))
        × (received (bus.bulk w id in_endpoint xs).2 ≡ received w)

module _ {W : Type 0} (bus : UsbBus W) (received : W → List ℕ) (in_endpoint out_endpoint : ℕ)
    (status : List ℕ → List ℕ) (law : IsSink bus received in_endpoint out_endpoint status) where
  -- The object uses the two endpoints, through a buffer of 16 KiB.
  abbrev pub IsWired : UsbStorage → Type 0
  IsWired s =
      (s.in_endpoint ≡ in_endpoint) × (length s.buffer ≡ 16384) × (s.out_endpoint ≡ out_endpoint)

  -- The device has got `xs`, and the object is as it was.
  record IsTaken (xs : List ℕ) (w : W) (s : UsbStorage) (r : Result bus) : Type 0 where
    good : r.good ≡ true
    log : received r.world ≡ received w ++ xs
    wired : IsWired r.disk
    same_tag : r.disk.tag ≡ s.tag

  -- A transfer from the buffer.
  sent_lem :
      (n : ℕ) (block : List ℕ) (w : W) (s : UsbStorage)
      → length block ≡ n
      → 0 < n
      → n ≤ 16384
      → IsWired s
      → let r = bulk_msg bus s.out_endpoint n w (fill bus block s) in
        IsTaken block w s (record { good = r.0; buffer = block; disk = r.1; world = r.2 })
  sent_lem n block w s long some_bytes small h =
      let at : (e : ℕ)
          → e ≡ out_endpoint
          → ((bus.bulk w s.id e block).0 ≡ true)
            × ((bus.bulk w s.id e block).1 ≡ block)
            × (received (bus.bulk w s.id e block).2 ≡ received w ++ block) =
        λ e same. rw (same) (
          law.good w s.id block (omega arith) (omega arith),
          law.kept w s.id block (omega arith) (omega arith),
          law.logged w s.id block (omega arith) (omega arith),
        ) in
      let (good, kept, logged) = at s.out_endpoint h.2 in
      let sent = bulk_msg-IsSent bus n block w s long small h.1 good kept in
      record {
        good = sent.good;
        log = ap received sent.after ∙ logged;
        wired = (sent.same_in ∙ h.0, sent.size, sent.same_out ∙ h.2);
        same_tag = sent.same_tag;
      }

  transfer_chunk-IsTaken :
      (n : ℕ) (w : W) (s : UsbStorage) (xs : List ℕ)
      → 0 < n
      → n ≤ 16384
      → n ≤ length xs
      → IsWired s
      → IsTaken (take n xs) w s (transfer_chunk bus true n w s xs)
        × ((transfer_chunk bus true n w s xs).buffer ≡ take n xs)
  unfolding transfer_chunk
  transfer_chunk-IsTaken n w s xs some_bytes small enough h =
      let sent = sent_lem n (take n xs) w s (omega (arith, length-take n xs)) some_bytes small h in
      (
        record { good = sent.good; log = sent.log; wired = sent.wired; same_tag = sent.same_tag },
        rw (sent.good) refl,
      )

  -- The chunks of a write send the first bytes of the caller's memory, in order, and leave it.
  transfer_loop-IsTaken :
      (fuel remaining : ℕ) (w : W) (s : UsbStorage) (xs : List ℕ)
      → remaining + 16384 ≤ 16384 * fuel
      → remaining ≤ length xs
      → IsWired s
      → (r : Result bus) × (transfer_loop bus fuel true remaining w s xs ≡ done r)
        × (r.buffer ≡ xs)
        × IsTaken (take remaining xs) w s r
  unfolding transfer_loop
  transfer_loop-IsTaken zero remaining w s xs hf hx h = absurd (omega arith)
  transfer_loop-IsTaken (suc fuel) remaining w s xs hf hx h = elim (Bool-cases (ltb 0 remaining)) [
    | inr none_left ↦
        let e : remaining ≡ 0 = omega (arith, ltb→le 0 remaining none_left) in
        (
          record { good = true; buffer = xs; disk = s; world = w },
          rw (none_left, transfer_loop),
          refl,
          record {
            good = refl;
            log = rw (e) (sym (append-nil (received w)));
            wired = h;
            same_tag = refl;
          },
        )
    | inl more ↦
        let n = min remaining 16384 in
        let c = transfer_chunk bus true n w s xs in
        let positive = ltb→lt 0 remaining more in
        let (chunk, bytes) =
          transfer_chunk-IsTaken n w s xs (omega (arith, positive)) (omega arith) (omega arith) h in
        let (r, e, left, all) =
          transfer_loop-IsTaken fuel (remaining - n) c.world c.disk (drop n xs)
            (omega (arith, positive)) (omega (arith, length-drop n xs)) chunk.wired in
        (
          record r { buffer = c.buffer ++ r.buffer },
          rw (more, transfer_loop) (rw (le→leb n (length xs) (omega arith), chunk.good) (rw e)),
          rw (bytes, left) (take-append-drop n xs),
          record {
            good = all.good;
            log =
                all.log
                ∙ ap (λ ys. ys ++ take (remaining - n) (drop n xs)) chunk.log
                ∙ append_assoc (received w) (take n xs) (take (remaining - n) (drop n xs))
                ∙ ap (λ ys. received w ++ ys)
                    (take_add n (remaining - n) remaining xs (omega arith));
            wired = all.wired;
            same_tag = all.same_tag ∙ chunk.same_tag;
          },
        )
  ]

  -- What a write of `size` bytes sends: the command with the next tag, and the bytes.
  abbrev pub message : UsbStorage → ℕ → ℕ → List ℕ → List ℕ → List ℕ
  message s size lun cb xs = command_block true (add_u32 s.tag 1) size lun cb ++ take size xs

  -- A write to a device that keeps what it is sent and tells a status block of 13 bytes.
  pub scsi_transfer-IsSink :
      (fuel size lun : ℕ) (cb : List ℕ) (w : W) (s : UsbStorage) (xs : List ℕ)
      → size + 16384 ≤ 16384 * fuel
      → 0 < size
      → size ≤ length xs
      → lun ≤ 16
      → 0 < length cb
      → length cb ≤ 16
      → IsWired s
      → length (status (received w ++ message s size lun cb xs)) ≡ 13
      → (r : Result bus) × (scsi_transfer bus fuel true size lun cb w s (some xs) ≡ done r)
        × (received r.world ≡ received w ++ message s size lun cb xs)
        × (r.good
            ≡ is_good_status (add_u32 s.tag 1) (status (received w ++ message s size lun cb xs)))
        × (r.buffer ≡ xs)
  unfolding scsi_transfer
  scsi_transfer-IsSink fuel size lun cb w s xs hf hz hx hl hc hd h hs =
      let block = command_block true (add_u32 s.tag 1) size lun cb in
      let tagged : UsbStorage = record s { tag = add_u32 s.tag 1 } in
      let sent = bulk_msg bus s.out_endpoint 31 w (fill bus block tagged) in
      let phase =
        sent_lem 31 block w tagged (length-command_block true (add_u32 s.tag 1) size lun cb hd)
          (omega arith) (omega arith) h in
      let (t, run, moved, all) =
        transfer_loop-IsTaken fuel size sent.2 sent.1 xs hf hx phase.wired in
      let log : received t.world ≡ received w ++ message s size lun cb xs =
        all.log
        ∙ ap (λ ys. ys ++ take size xs) phase.log
        ∙ append_assoc (received w) block (take size xs) in
      let told = law.tells t.world t.disk.id (replicate 13 0) refl in
      let tests : (size == 0) ≡ false = ground arith in
      (
        read_status bus t,
        rw (tests, le→leb lun 16 hl, le→leb 1 (length cb) hc, le→leb (length cb) 16 hd)
            (rw (phase.good) (rw (run, all.good) refl)),
        ap received (read_status-world bus t) ∙ rw all.wired.0 told.2 ∙ log,
        read_status_lem bus t (status (received w ++ message s size lun cb xs))
              (rw all.wired.0 told.0) (rw all.wired.0 (told.1 ∙ ap status log)) hs
            ∙ ap (λ k. is_good_status k (status (received w ++ message s size lun cb xs)))
                (all.same_tag ∙ phase.same_tag),
        read_status-buffer bus t ∙ moved,
      )
