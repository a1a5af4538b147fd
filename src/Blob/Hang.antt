-- ===== src/Blob/Hang.antt =====
-- `Blob::ReadSectors` on more than 64 sectors from the start of a block: the loop stands still at the
-- end of the first block.
use ctgpr_msc.Base.{
  ℕ, zero, suc, ◌+◌, ◌*◌, ◌%◌, ◌^◌, ◌≤◌, ◌<◌, ◌≡◌, refl, ◌∙◌, List, arith, lt→ltb, le→leb, length,
  drop, take-append-drop, ==_iff,
}
use ctgpr_msc.Base.Words.{mul_u32}
use ctgpr_msc.Base.Outcome.{stuck}
use ctgpr_msc.Aes.{Engine}
use ctgpr_msc.Blob.{IvCache, decrypt_count, read_loop}
use ctgpr_msc.Blob.Cipher.{blob_decrypt_none}
use mathlib.Core.Path.{ap₂}
use ctgpr_msc.Aes.Cbc.{IsCbc, KeepsBlocks}
use ctgpr_msc.FatFs.{FatFs, IsReadable, slice, fr_ok}
use ctgpr_msc.Blob.{blob_key, seek_iv, read_from, read_sectors}
use ctgpr_msc.Blob.Sectors.{iv_before}
use ctgpr_msc.Blob.Loop.{read_loop_round, length-buffer_at}
use ctgpr_msc.Blob.Rounds.{start_of_loop}
use ctgpr_msc.Blob.Read.{Works, seek_iv-ok}
use ctgpr_msc.Blob.Seek.{IsCacheOf, seek_iv-IsSought, read_filled}

module _ {W : Type 0} (engine : Engine W) (sector count : ℕ) where
  -- What keeps the loop where it is.
  abbrev IsPast : List ℕ → Type 0
  IsPast buffer =
      (sector % 64 ≡ 0) × (64 < count) × (sector + count < 2 ^ 32) × (length buffer ≡ 512 * count)

  no_progress : (buffer : List ℕ) → IsPast buffer → decrypt_count sector count 64 ≡ 0
  unfolding decrypt_count
  no_progress buffer h = ground arith

  -- Every round at the end of the first block leaves the buffer as it was and `s` at 64.
  read_loop_still :
      (fuel : ℕ) (w : W) (buffer iv : List ℕ) (cache : IvCache)
      → IsPast buffer
      → read_loop engine sector count fuel w buffer iv cache 64 ≡ stuck
  unfolding read_loop
  read_loop_still zero w buffer iv cache h = refl
  read_loop_still (suc fuel) w buffer iv cache h =
      rw (lt→ltb 64 count h.1, read_loop)
        (rw
          (
            no_progress buffer h,
            le→leb 32768 (length buffer) (omega arith),
            blob_decrypt_none engine 0 w (drop 32768 buffer) iv,
            take-append-drop 32768 buffer,
          )
          (read_loop_still fuel w buffer _ _ h))

first_block :
    (sector count : ℕ)
    → sector % 64 ≡ 0
    → 64 < count
    → sector + count < 2 ^ 32
    → decrypt_count sector count 0 ≡ 64
unfolding decrypt_count
first_block sector count start long small = ground arith

module _ {W F : Type 0} (fs : FatFs W F) (Holds : W → F → List ℕ → ℕ → Type 0)
    (file : IsReadable fs Holds) (engine : Engine W) (block : List ℕ → List ℕ)
    (law : IsCbc engine blob_key block) (keeps : KeepsBlocks block) (content : List ℕ)
    (sector count : ℕ) where
  -- More than 64 sectors from the start of a block.
  abbrev IsLong : Type 0
  IsLong =
      (sector % 64 ≡ 0)
      × (64 < count)
      × (512 * (sector + count) < 2 ^ 32)
      × (512 * (sector + count) ≤ length content)

  read_loop_hangs :
      (fuel : ℕ) (w : W) (cache : IvCache)
      → IsLong
      → read_loop engine sector count fuel w
          (slice content (512 * sector) (512 * count))
          (iv_before content sector)
          cache
          0
        ≡ stuck
  unfolding read_loop
  read_loop_hangs zero w cache h = refl
  read_loop_hangs (suc fuel) w cache h =
      let here : sector ≡ sector + 0 = omega arith in
      let first : decrypt_count sector count 0 ≡ 64 =
        first_block sector count h.0 h.1 (omega arith) in
      ap₂ (λ b k. read_loop engine sector count (suc fuel) w b (iv_before content k) cache 0)
        (start_of_loop engine block law keeps content sector count h.2 h.3) here
      ∙ read_loop_round engine block law keeps content sector count h.2 h.3 fuel w cache 0 64 first
          (omega arith) (omega arith) (omega arith)
      ∙ read_loop_still engine sector count fuel w _ _ _ (
        h.0,
        h.1,
        omega arith,
        length-buffer_at engine block law keeps content sector count h.2 h.3 64 (omega arith),
      )

  -- A read of more than 64 sectors from the start of a block never returns, however many tests its
  -- loop is given, where every seek and read of the library succeeds, the engine chains, and the
  -- sectors lie inside the image and below 2^32 bytes: after the first block
  -- each round deciphers 0 sectors.
  pub read_sectors_hangs :
      (fuel : ℕ) (w : W) (fil : F) (cache : IvCache) (buffer : List ℕ) (at : ℕ)
      → IsLong
      → length buffer ≡ 512 * count
      → IsCacheOf content cache
      → Holds w fil content at
      → Works fs Holds file engine block law keeps content sector count
      → read_sectors fs engine sector count fuel w fil cache buffer ≡ stuck
  unfolding read_sectors read_from
  read_sectors_hangs fuel w fil cache buffer at long size cached held works =
      let iv = seek_iv fs sector w fil cache in
      let ok =
        seek_iv-ok fs Holds file engine block law keeps content sector count works w fil cache in
      let sought =
        seek_iv-IsSought fs Holds file content sector w fil cache at held (omega arith)
          (omega arith) cached ok in
      let amount : mul_u32 512 count ≡ 512 * count = omega arith in
      let read = works.1 iv.world iv.fil (512 * count) in
      let all = read_filled fs Holds file content sector count iv buffer long.3 size sought read in
      rw ((==_iff iv.ret fr_ok).1 ok) (
        rw (amount, le→leb (512 * count) (length buffer) (omega arith), (==_iff _ fr_ok).1 read)
          (rw (all, sought.iv_is) (rw (read_loop_hangs fuel _ cache long))))
