-- ===== src/UsbStorage/Transfer.antt =====
-- The data phase of `SCSITransfer`: reading chunk by chunk is reading all at once.
use ctgpr_msc.Base.{
  ℕ, zero, suc, ◌+◌, ◌-◌, ◌*◌, ◌≤◌, ◌<◌, ◌≡◌, refl, ap, ◌∙◌, List, ◌++◌, append_assoc, true, false,
  inl, inr, arith, min, ltb, ltb→lt, ltb→le, le→leb, Bool-cases, length, take, drop, length-append,
  length-take, length-drop, take_add, drop-drop, take-append,
}
use ctgpr_msc.Base.Outcome.{done}
use ctgpr_msc.DeviceMgr.{SectorReply}
use ctgpr_msc.UsbStorage.{UsbBus, UsbStorage, bulk_msg, transfer_chunk, transfer_loop}

-- A device that sends the bytes of a stream on an endpoint, without an error, in transfers of at
-- least a byte and at most 16 KiB.
pub record IsStream {W : Type 0} (bus : UsbBus W) (stream : W → List ℕ) (endpoint : ℕ)
    : Type 0 where
  pub good :
      (w : W) (id : ℕ) (xs : List ℕ)
      → 0 < length xs
      → length xs ≤ 16384
      → length xs ≤ length (stream w)
      → (bus.bulk w id endpoint xs).0 ≡ true
  pub sent :
      (w : W) (id : ℕ) (xs : List ℕ)
      → 0 < length xs
      → length xs ≤ 16384
      → length xs ≤ length (stream w)
      → (bus.bulk w id endpoint xs).1 ≡ take (length xs) (stream w)
  pub rest :
      (w : W) (id : ℕ) (xs : List ℕ)
      → 0 < length xs
      → length xs ≤ 16384
      → length xs ≤ length (stream w)
      → stream (bus.bulk w id endpoint xs).2 ≡ drop (length xs) (stream w)

module _ {W : Type 0} (bus : UsbBus W) (stream : W → List ℕ) (endpoint : ℕ)
    (law : IsStream bus stream endpoint) where
  -- The object reads from the endpoint through a buffer of 16 KiB.
  abbrev pub IsOpen : UsbStorage → Type 0
  IsOpen s = (s.in_endpoint ≡ endpoint) × (length s.buffer ≡ 16384)

  -- What one chunk leaves.
  record IsChunk (n : ℕ) (w : W) (s : UsbStorage) (r : SectorReply W UsbStorage) : Type 0 where
    good : r.good ≡ true
    bytes : r.buffer ≡ take n (stream w)
    left : stream r.world ≡ drop n (stream w)
    still_open : IsOpen r.disk
    same_tag : r.disk.tag ≡ s.tag

  transfer_chunk-IsChunk :
      (n : ℕ) (w : W) (s : UsbStorage) (xs : List ℕ)
      → 0 < n
      → n ≤ 16384
      → n ≤ length (stream w)
      → IsOpen s
      → IsChunk n w s (transfer_chunk bus false n w s xs)
  unfolding transfer_chunk bulk_msg
  transfer_chunk-IsChunk n w s xs some_bytes small enough h =
      let full : length (take n s.buffer) ≡ n = omega (arith, length-take n s.buffer) in
      let good =
        ap (λ e. (bus.bulk w s.id e (take n s.buffer)).0) h.0
        ∙ law.good w s.id (take n s.buffer) (omega arith) (omega arith) (omega arith) in
      let sent : (bus.bulk w s.id s.in_endpoint (take n s.buffer)).1 ≡ take n (stream w) =
        ap (λ e. (bus.bulk w s.id e (take n s.buffer)).1) h.0
        ∙ law.sent w s.id (take n s.buffer) (omega arith) (omega arith) (omega arith)
        ∙ ap (λ k. take k (stream w)) full in
      let left : stream (bus.bulk w s.id s.in_endpoint (take n s.buffer)).2 ≡ drop n (stream w) =
        ap (λ e. stream (bus.bulk w s.id e (take n s.buffer)).2) h.0
        ∙ law.rest w s.id (take n s.buffer) (omega arith) (omega arith) (omega arith)
        ∙ ap (λ k. drop k (stream w)) full in
      let size : length (take n (stream w)) ≡ n = omega (arith, length-take n (stream w)) in
      record {
        good = good;
        bytes = rw (good, sent) (take-append n (take n (stream w)) _ size);
        left = left;
        still_open = (
          h.0,
          rw (sent) (
              omega (
                arith,
                size,
                length-append (take n (stream w)) (drop (length (take n (stream w))) s.buffer),
                length-drop (length (take n (stream w))) s.buffer,
              )),
        );
        same_tag = refl;
      }

  -- A read of `remaining` bytes from a device that sends a stream returns, and has put the next
  -- `remaining` bytes of the stream at the start of the caller's memory and left the rest of it as it
  -- was. A round takes 16 KiB at most, and one test more ends the loop.
  pub transfer_loop_lem :
      (fuel remaining : ℕ) (w : W) (s : UsbStorage) (xs : List ℕ)
      → remaining + 16384 ≤ 16384 * fuel
      → remaining ≤ length (stream w)
      → remaining ≤ length xs
      → IsOpen s
      → (r : SectorReply W UsbStorage) × (transfer_loop bus fuel false remaining w s xs ≡ done r)
        × (r.good ≡ true)
        × (r.buffer ≡ take remaining (stream w) ++ drop remaining xs)
        × (stream r.world ≡ drop remaining (stream w))
        × IsOpen r.disk
        × (r.disk.tag ≡ s.tag)
  unfolding transfer_loop
  transfer_loop_lem zero remaining w s xs hf hs hx h = absurd (omega arith)
  transfer_loop_lem (suc fuel) remaining w s xs hf hs hx h = elim (Bool-cases (ltb 0 remaining)) [
    | inr none_left ↦
        let e : remaining ≡ 0 = omega (arith, ltb→le 0 remaining none_left) in
        (
          record { good = true; buffer = xs; disk = s; world = w },
          rw (none_left, transfer_loop),
          refl,
          rw e,
          rw e,
          h,
          refl,
        )
    | inl more ↦
        let n = min remaining 16384 in
        let c = transfer_chunk bus false n w s xs in
        let positive = ltb→lt 0 remaining more in
        let chunk =
          transfer_chunk-IsChunk n w s xs (omega (arith, positive)) (omega arith) (omega arith) h in
        let (r, e, good, bytes, left, still_open, same_tag) =
          transfer_loop_lem fuel (remaining - n) c.world c.disk (drop n xs)
            (omega (arith, positive))
            (omega (arith, ap length chunk.left, length-drop n (stream w)))
            (omega (arith, length-drop n xs)) chunk.still_open in
        (
          record r { buffer = c.buffer ++ r.buffer },
          rw (more, transfer_loop) (rw (le→leb n (length xs) (omega arith), chunk.good) (rw e)),
          good,
          rw
              (
                chunk.bytes,
                bytes,
                chunk.left,
                drop-drop (remaining - n) n remaining xs (omega arith),
                ← take_add n (remaining - n) remaining (stream w) (omega arith),
              )
              (rw (append_assoc (take n (stream w)))),
          left
              ∙ ap (drop (remaining - n)) chunk.left
              ∙ drop-drop (remaining - n) n remaining (stream w) (omega arith),
          still_open,
          same_tag ∙ chunk.same_tag,
        )
  ]
