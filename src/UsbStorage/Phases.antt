-- ===== src/UsbStorage/Phases.antt =====
-- The command phase and the status phase of `SCSITransfer`.
use ctgpr_msc.Base.{
  ℕ, ◌+◌, ◌-◌, ◌≤◌, ◌<◌, ◌≡◌, refl, List, ◌++◌, true, arith, Bool, length, drop, replicate,
  length-append, length-drop, length-replicate, take-append, get_or-append,
}
use ctgpr_msc.UsbStorage.{
  UsbBus, UsbStorage, Result, bulk_msg, fill, command_block, is_good_status, word_le32, read_status,
}

pub length-command_block :
    (is_write : Bool) (tag size lun : ℕ) (cb : List ℕ)
    → length cb ≤ 16
    → length (command_block is_write tag size lun cb) ≡ 31
unfolding command_block
length-command_block is_write tag size lun cb h = omega (
  arith,
  length-append cb (replicate (16 - length cb) 0),
  length-replicate {A = ℕ} (16 - length cb) 0,
)

-- The tests of the status block read its 13 bytes only.
word_le32-append :
    (xs ys : List ℕ) (at : ℕ) → at + 3 < length xs → word_le32 (xs ++ ys) at ≡ word_le32 xs at
word_le32-append xs ys at h =
    rw
      (
        get_or-append xs ys at 0 (omega arith),
        get_or-append xs ys (at + 1) 0 (omega arith),
        get_or-append xs ys (at + 2) 0 (omega arith),
        get_or-append xs ys (at + 3) 0 (omega arith),
      )
      refl

is_good_status-append :
    (tag : ℕ) (xs ys : List ℕ)
    → length xs ≡ 13
    → is_good_status tag (xs ++ ys) ≡ is_good_status tag xs
unfolding is_good_status
is_good_status-append tag xs ys h =
    rw
      (
        word_le32-append xs ys 0 (omega arith),
        word_le32-append xs ys 4 (omega arith),
        word_le32-append xs ys 8 (omega arith),
        get_or-append xs ys 12 0 (omega arith),
      )
      refl

module _ {W : Type 0} (bus : UsbBus W) where
  -- What the command phase leaves.
  pub record IsSent (block : List ℕ) (w : W) (s : UsbStorage) (r : Bool × UsbStorage × W)
      : Type 0 where
    pub good : r.0 ≡ true
    pub size : length r.1.buffer ≡ 16384
    pub same_tag : r.1.tag ≡ s.tag
    pub same_in : r.1.in_endpoint ≡ s.in_endpoint
    pub same_out : r.1.out_endpoint ≡ s.out_endpoint
    pub after : r.2 ≡ (bus.bulk w s.id s.out_endpoint block).2

  -- A transfer from the buffer that succeeds and leaves the buffer.
  pub bulk_msg-IsSent :
      (n : ℕ) (block : List ℕ) (w : W) (s : UsbStorage)
      → length block ≡ n
      → n ≤ 16384
      → length s.buffer ≡ 16384
      → (bus.bulk w s.id s.out_endpoint block).0 ≡ true
      → (bus.bulk w s.id s.out_endpoint block).1 ≡ block
      → IsSent block w s (bulk_msg bus s.out_endpoint n w (fill bus block s))
  unfolding bulk_msg fill
  bulk_msg-IsSent n block w s long small size good kept =
      rw (take-append n block (drop (length block) s.buffer) long) record {
        good = good;
        size = rw (kept) (
            omega (
              arith,
              long,
              length-append block (drop (length block) (block ++ drop (length block) s.buffer)),
              length-drop (length block) (block ++ drop (length block) s.buffer),
              length-append block (drop (length block) s.buffer),
              length-drop (length block) s.buffer,
              size,
            ));
        same_tag = refl;
        same_in = refl;
        same_out = refl;
        after = refl;
      }

  pub read_status_lem :
      (t : Result bus) (status : List ℕ)
      → (bus.bulk t.world t.disk.id t.disk.in_endpoint (replicate 13 0)).0 ≡ true
      → (bus.bulk t.world t.disk.id t.disk.in_endpoint (replicate 13 0)).1 ≡ status
      → length status ≡ 13
      → (read_status bus t).good ≡ is_good_status t.disk.tag status
  unfolding read_status bulk_msg fill
  read_status_lem t status good sent size =
      let zeros : List ℕ = replicate 13 0 in
      rw (take-append 13 zeros (drop 13 t.disk.buffer) refl, good, sent)
        (is_good_status-append t.disk.tag status _ size)

  pub read_status-buffer : (t : Result bus) → (read_status bus t).buffer ≡ t.buffer
  unfolding read_status
  read_status-buffer t = refl

  pub read_status-world :
      (t : Result bus)
      → (read_status bus t).world
        ≡ (bus.bulk t.world t.disk.id t.disk.in_endpoint (replicate 13 0)).2
  unfolding read_status bulk_msg fill
  read_status-world t = refl
