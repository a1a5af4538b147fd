-- ===== src/Blob/Rounds.antt =====
-- The whole loop of `Blob::ReadSectors` on up to 64 sectors: one round or two.
use ctgpr_msc.Base.{
  ℕ, suc, ◌+◌, ◌-◌, ◌*◌, ◌%◌, ◌^◌, ◌≤◌, ◌<◌, ◌≡◌, refl, ◌∙◌, List, append-nil, inl, inr, arith, ltb,
  ltb→lt, ltb→le, lt→ltb, le→ltb, Bool-cases, length,
}
use mathlib.Core.Path.{ap₂}
use ctgpr_msc.Base.Outcome.{done}
use ctgpr_msc.Aes.{Engine}
use ctgpr_msc.Aes.Cbc.{IsCbc, KeepsBlocks}
use ctgpr_msc.FatFs.{slice}
use ctgpr_msc.Blob.{IvCache, blob_key, decrypt_count, read_loop}
use ctgpr_msc.Blob.Sectors.{iv_before, iv_before_start, plain_sectors}
use ctgpr_msc.Blob.Loop.{buffer_at, cache_at, read_loop_round}

-- `decryptCount` of a read inside a block, and of the two rounds of a read across one boundary.
decrypt_count_one :
    (sector count : ℕ)
    → sector % 64 + count ≤ 64
    → sector + count < 2 ^ 32
    → decrypt_count sector count 0 ≡ count
unfolding decrypt_count
decrypt_count_one sector count h small = ground arith

decrypt_count_first :
    (sector count : ℕ)
    → 64 < sector % 64 + count
    → sector + count < 2 ^ 32
    → decrypt_count sector count 0 ≡ 64 - sector % 64
unfolding decrypt_count
decrypt_count_first sector count h small = ground arith

decrypt_count_rest :
    (sector count n : ℕ)
    → 64 < sector % 64 + count
    → count ≤ 64
    → n ≡ 64 - sector % 64
    → sector + count < 2 ^ 32
    → decrypt_count sector count n ≡ count - n
unfolding decrypt_count
decrypt_count_rest sector count n h h64 hn small = ground arith

module _ {W : Type 0} (engine : Engine W) (block : List ℕ → List ℕ)
    (law : IsCbc engine blob_key block) (keeps : KeepsBlocks block) (content : List ℕ)
    (sector count : ℕ) (small : 512 * (sector + count) < 2 ^ 32)
    (enough : 512 * (sector + count) ≤ length content) where
  abbrev buffer : ℕ → List ℕ
  buffer = buffer_at engine block law keeps content sector count small enough

  abbrev cache_after : ℕ → IvCache
  cache_after = cache_at engine block law keeps content sector count small enough

  read_loop_end :
      (fuel : ℕ) (w : W) (iv : List ℕ) (cache : IvCache)
      → read_loop engine sector count (suc fuel) w (buffer count) iv cache count
        ≡ done (plain_sectors block content sector count, cache, w)
  unfolding read_loop
  read_loop_end fuel w iv cache =
      let none_left : 512 * (count - count) ≡ 0 = omega arith in
      rw (le→ltb count count (omega arith), read_loop)
        (rw (none_left, append-nil (plain_sectors block content sector count)))

  -- All that is left lies in one block.
  read_loop_one :
      (fuel : ℕ) (w : W) (cache : IvCache) (s n : ℕ)
      → n ≡ count - s
      → decrypt_count sector count s ≡ n
      → s < count
      → (sector + s) % 64 + n ≤ 64
      → read_loop engine sector count
          (suc (suc fuel))
          w
          (buffer s)
          (iv_before content (sector + s))
          cache
          s
        ≡ done (plain_sectors block content sector count, cache_after count, w)
  read_loop_one fuel w cache s n e hn h hrun =
      let ends : s + n ≡ count = omega arith in
      read_loop_round engine block law keeps content sector count small enough (suc fuel) w cache s
        n hn (omega arith) (omega arith) hrun
      ∙ rw ends (read_loop_end fuel w _ (cache_after count))

  pub start_of_loop : slice content (512 * sector) (512 * count) ≡ buffer 0
  unfolding plain_sectors
  start_of_loop =
      let at : 512 * sector ≡ 512 * (sector + 0) = omega arith in
      let size : 512 * count ≡ 512 * (count - 0) = omega arith in ap₂ (slice content) at size

  -- The rest of the first block, and then what is left.
  read_loop_two :
      (fuel : ℕ) (w : W) (cache : IvCache)
      → count ≤ 64
      → 64 < sector % 64 + count
      → read_loop engine sector count
          (suc (suc (suc fuel)))
          w
          (buffer 0)
          (iv_before content (sector + 0))
          cache
          0
        ≡ done (plain_sectors block content sector count, cache_after count, w)
  read_loop_two fuel w cache h64 two =
      let n = 64 - sector % 64 in
      let first : decrypt_count sector count 0 ≡ n =
        decrypt_count_first sector count two (omega arith) in
      let rest : decrypt_count sector count n ≡ count - n =
        decrypt_count_rest sector count n two h64 refl (omega arith) in
      let opens = iv_before_start content (sector + n) (omega arith) in
      let reached : 0 + n ≡ n = omega arith in
      read_loop_round engine block law keeps content sector count small enough (suc (suc fuel)) w
        cache 0 n first (omega arith) (omega arith) (omega arith)
      ∙ rw (reached, lt→ltb n count (omega arith), ← opens)
          (read_loop_one fuel w (cache_after n) n (count - n) refl rest (omega arith) (omega arith))

  -- At most 64 sectors are deciphered in at most two rounds.
  pub read_loop_lem :
      (fuel : ℕ) (w : W) (cache : IvCache)
      → 0 < count
      → count ≤ 64
      → read_loop engine sector count
          (suc (suc (suc fuel)))
          w
          (slice content (512 * sector) (512 * count))
          (iv_before content sector)
          cache
          0
        ≡ done (plain_sectors block content sector count, cache_after count, w)
  read_loop_lem fuel w cache h0 h64 =
      let here : sector ≡ sector + 0 = omega arith in
      ap₂
        (λ b k.
          read_loop engine sector count (suc (suc (suc fuel))) w b (iv_before content k) cache 0)
        start_of_loop here
      ∙ elim (Bool-cases (ltb 64 (sector % 64 + count))) [
        | inr one ↦
            let within = ltb→le 64 (sector % 64 + count) one in
            read_loop_one (suc fuel) w cache 0 count (omega arith)
              (decrypt_count_one sector count within (omega arith)) h0 (omega arith)
        | inl two ↦ read_loop_two fuel w cache h64 (ltb→lt 64 (sector % 64 + count) two)
      ]
