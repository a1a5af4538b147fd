-- ===== src/Blob/Loop.antt =====
-- One round of the loop of `Blob::ReadSectors`.
use ctgpr_msc.Base.{
  ℕ, suc, ◌+◌, ◌-◌, ◌*◌, ◌%◌, ◌^◌, ◌≤◌, ◌<◌, ◌≡◌, refl, ap, ◌∙◌, List, ◌++◌, append_assoc, arith,
  ltb, lt→ltb, le→leb, if◌then◌else◌, length, take, drop, length-append, take-append, drop-append,
  drop-drop, drop-take, take-take, drop_append-ge,
}
use ctgpr_msc.Base.Words.{add_u32, sub_u32, mul_u32}
use ctgpr_msc.Base.Outcome.{done}
use ctgpr_msc.Aes.{Engine}
use ctgpr_msc.Aes.Cbc.{last_block, IsCbc, KeepsBlocks}
use ctgpr_msc.FatFs.{slice}
use ctgpr_msc.Blob.{
  IvCache, Deciphered, blob_key, blob_encode_iv, decrypt_count, blob_decrypt, read_loop,
}
use ctgpr_msc.Blob.Cipher.{in_place, blob_decrypt_lem}
use ctgpr_msc.Blob.Sectors.{
  length-slice, iv_before, plain_sectors, plain_sectors_add, cbc-run, length-iv_before,
  length-plain_sectors,
}

module _ {W : Type 0} (engine : Engine W) (block : List ℕ → List ℕ)
    (law : IsCbc engine blob_key block) (keeps : KeepsBlocks block) (content : List ℕ)
    (sector count : ℕ) (small : 512 * (sector + count) < 2 ^ 32)
    (enough : 512 * (sector + count) ≤ length content) where
  -- The buffer when the sectors before `s` are deciphered.
  abbrev pub buffer_at : ℕ → List ℕ
  buffer_at s =
      plain_sectors block content sector s ++ slice content (512 * (sector + s)) (512 * (count - s))

  -- The cache once the sectors before `s` are deciphered.
  abbrev pub cache_at : ℕ → IvCache
  cache_at s = record { iv = slice content (512 * (sector + s) - 16) 16; sector = sector + s }

  abbrev cipher_at : ℕ → List ℕ
  cipher_at s = slice content (512 * (sector + s)) (512 * (count - s))

  length-cipher_at : (s : ℕ) → s ≤ count → length (cipher_at s) ≡ 512 * (count - s)
  length-cipher_at s h = length-slice content _ _ (omega arith)

  take-cipher_at :
      (s n : ℕ)
      → s + n ≤ count
      → take (512 * n) (cipher_at s) ≡ slice content (512 * (sector + s)) (512 * n)
  take-cipher_at s n h = take-take (512 * n) (512 * (count - s)) _ (omega arith)

  drop-cipher_at : (s n : ℕ) → s + n ≤ count → drop (512 * n) (cipher_at s) ≡ cipher_at (s + n)
  drop-cipher_at s n h =
      drop-take (512 * n) (512 * (count - (s + n))) (512 * (count - s)) _ (omega arith)
      ∙ ap (take (512 * (count - (s + n)))) (
          drop-drop (512 * n) (512 * (sector + s)) (512 * (sector + (s + n))) content (omega arith))

  -- The 16 bytes that a round of `n` sectors keeps for a later call.
  kept_iv :
      (s n : ℕ)
      → 0 < n
      → s + n ≤ count
      → length (plain_sectors block content sector s) ≡ 512 * s
      → take 16 (drop (512 * (s + n) - 16) (buffer_at s)) ≡ (cache_at (s + n)).iv
  kept_iv s n h0 h hp =
      ap (take 16) (
        drop_append-ge (512 * (s + n) - 16) (512 * n - 16) (plain_sectors block content sector s)
          (cipher_at s) (omega arith))
      ∙ ap (take 16) (
          drop-take (512 * n - 16) (512 * (count - s) - (512 * n - 16)) (512 * (count - s)) _
            (omega arith))
      ∙ take-take 16 (512 * (count - s) - (512 * n - 16)) _ (omega arith)
      ∙ ap (take 16) (
          drop-drop (512 * n - 16) (512 * (sector + s)) (512 * (sector + (s + n)) - 16) content
            (omega arith))

  -- A round that deciphers `n` sectors in bounds, with the words that do not wrap written as numbers.
  read_loop_step :
      (fuel : ℕ) (w : W) (buffer iv : List ℕ) (cache : IvCache) (s n : ℕ) (r : Deciphered W)
      → decrypt_count sector count s ≡ n
      → 0 < n
      → s + n ≤ count
      → length buffer ≡ 512 * count
      → blob_decrypt engine (suc n) w (drop (512 * s) buffer) iv n ≡ done r
      → read_loop engine sector count (suc fuel) w buffer iv cache s
        ≡ read_loop engine sector count fuel r.world
            (take (512 * s) buffer ++ r.bytes)
            (if ltb (s + n) count then blob_encode_iv (sector + (s + n)) else r.iv)
            (record { iv = take 16 (drop (512 * (s + n) - 16) buffer); sector = sector + (s + n) })
            (s + n)
  unfolding read_loop
  read_loop_step fuel w buffer iv cache s n r hn h0 hle hb hr =
      let reached : add_u32 s n ≡ s + n = omega arith in
      let tail : sub_u32 (mul_u32 (s + n) 512) 16 ≡ 512 * (s + n) - 16 = omega arith in
      let start : mul_u32 s 512 ≡ 512 * s = omega arith in
      let next : add_u32 sector (s + n) ≡ sector + (s + n) = omega arith in
      let next' : add_u32 (add_u32 sector s) n ≡ sector + (s + n) = omega arith in
      rw (lt→ltb s count (omega arith), read_loop)
        (rw (
          hn,
          reached,
          tail,
          start,
          next,
          next',
          le→leb (512 * (s + n) - 16 + 16) (length buffer) (omega arith),
          le→leb (512 * s) (length buffer) (omega arith),
          hr,
        ))

  pub length-buffer_at : (s : ℕ) → s ≤ count → length (buffer_at s) ≡ 512 * count
  length-buffer_at s h = omega (
    arith,
    length-append (plain_sectors block content sector s) (cipher_at s),
    length-plain_sectors block keeps content sector s (omega arith),
    length-cipher_at s h,
  )

  abbrev pub next_iv : ℕ → ℕ → List ℕ
  next_iv s n =
      if ltb (s + n) count
      then blob_encode_iv (sector + (s + n))
      else last_block (slice content (512 * (sector + s)) (512 * n))

  -- A round of `n` sectors of one block moves the loop from one good buffer to the next.
  pub read_loop_round :
      (fuel : ℕ) (w : W) (cache : IvCache) (s n : ℕ)
      → decrypt_count sector count s ≡ n
      → 0 < n
      → s + n ≤ count
      → (sector + s) % 64 + n ≤ 64
      → read_loop engine sector count
          (suc fuel)
          w
          (buffer_at s)
          (iv_before content (sector + s))
          cache
          s
        ≡ read_loop engine sector count fuel w
            (buffer_at (s + n))
            (next_iv s n)
            (cache_at (s + n))
            (s + n)
  read_loop_round fuel w cache s n hn h0 hle hrun =
      let plain_size = length-plain_sectors block keeps content sector s (omega arith) in
      let front =
        take-append (512 * s) (plain_sectors block content sector s) (cipher_at s) plain_size in
      let back =
        drop-append (512 * s) (plain_sectors block content sector s) (cipher_at s) plain_size in
      let run = cbc-run block content (sector + s) n hrun (omega arith) in
      let all = plain_sectors_add block content sector s n (s + n) refl in
      let deciphers =
        blob_decrypt_lem engine block law keeps (suc n) w (cipher_at s)
          (iv_before content (sector + s)) n (length-iv_before content (sector + s) (omega arith))
          h0 (omega arith) (omega (arith, length-cipher_at s (omega arith))) in
      read_loop_step fuel w (buffer_at s) (iv_before content (sector + s)) cache s n
        (in_place engine block law keeps w (cipher_at s) (iv_before content (sector + s)) (512 * n))
        hn h0 hle (length-buffer_at s (omega arith)) (rw back deciphers)
      ∙ rw
          (
            front,
            kept_iv s n h0 hle plain_size,
            take-cipher_at s n hle,
            drop-cipher_at s n hle,
            run,
          )
          (rw (← all, append_assoc (plain_sectors block content sector s)))
