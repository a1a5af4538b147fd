-- ===== src/Blob/Sectors.antt =====
-- The format of the image: what a sector of it deciphers to, by itself and in a run.
use ctgpr_msc.Base.{
  ℕ, zero, suc, ◌+◌, ◌-◌, ◌*◌, ◌%◌, ◌≤◌, ◌<◌, ◌≡◌, ◌≢◌, refl, sym, ap, ◌∙◌, List, [], ◌++◌,
  append-nil, append_assoc, inl, inr, arith, ◌==◌, Bool-cases, if◌then◌else◌, length, take, drop,
  length-append, length-take, length-drop, take_add, drop-drop, drop-take,
}
use mathlib.Core.Path.{ap₂}
use ctgpr_msc.Aes.Cbc.{
  KeepsBlocks, length-cbc, cbc, cbc-append, cbc-nil, last_block, last_block_lem, IsBlocks,
}
use ctgpr_msc.FatFs.{slice}
use ctgpr_msc.Blob.{blob_encode_iv}

pub slice_add :
    (content : List ℕ) (at m n k : ℕ)
    → m + n ≡ k
    → slice content at m ++ slice content (at + m) n ≡ slice content at k
slice_add content at m n k h =
    rw (← drop-drop m at (at + m) content refl) (take_add m n k (drop at content) h)

pub length-slice :
    (content : List ℕ) (at n : ℕ) → at + n ≤ length content → length (slice content at n) ≡ n
length-slice content at n h = omega (arith, length-take n (drop at content), length-drop at content)

-- The IV of sector `i`: that of the block it opens, or the ciphertext just before it.
unfoldable pub iv_before : List ℕ → ℕ → List ℕ
iv_before content i = if i % 64 == 0 then blob_encode_iv i else slice content (512 * i - 16) 16

pub iv_before_start :
    (content : List ℕ) (i : ℕ) → i % 64 ≡ 0 → iv_before content i ≡ blob_encode_iv i
unfolding iv_before
iv_before_start content i h = rw h

pub iv_before_other :
    (content : List ℕ) (i : ℕ) → i % 64 ≢ 0 → iv_before content i ≡ slice content (512 * i - 16) 16
unfolding iv_before
iv_before_other content i h = ground arith

-- Past the first sector of a block the IV is the ciphertext before.
iv_before_inside :
    (content : List ℕ) (i : ℕ)
    → i % 64 + 1 < 64
    → iv_before content (i + 1) ≡ slice content (512 * (i + 1) - 16) 16
unfolding iv_before
iv_before_inside content i h = ground arith

module _ (block : List ℕ → List ℕ) (content : List ℕ) where
  -- The sector deciphered.
  unfoldable pub sector_plain : ℕ → List ℕ
  sector_plain i = cbc block (iv_before content i) (slice content (512 * i) 512)

  -- `n` sectors deciphered one by one, from sector `i` on.
  unfoldable pub plain_sectors : ℕ → ℕ → List ℕ
  plain_sectors i zero = []
  plain_sectors i (suc n) = sector_plain i ++ plain_sectors (i + 1) n

  last_block-sector :
      (i : ℕ)
      → 512 * (i + 1) ≤ length content
      → last_block (slice content (512 * i) 512) ≡ slice content (512 * (i + 1) - 16) 16
  last_block-sector i h =
      let at : 512 * i + 496 ≡ 512 * (i + 1) - 16 = omega arith in
      last_block_lem 496 (slice content (512 * i) 512)
        (length-slice content (512 * i) 512 (omega arith))
      ∙ drop-take 496 16 512 (drop (512 * i) content) refl
      ∙ ap (take 16) (drop-drop 496 (512 * i) (512 * (i + 1) - 16) content at)

  -- A run inside one block deciphers as one chain.
  pub cbc-run :
      (i n : ℕ)
      → i % 64 + n ≤ 64
      → 512 * (i + n) ≤ length content
      → cbc block (iv_before content i) (slice content (512 * i) (512 * n)) ≡ plain_sectors i n
  unfolding plain_sectors sector_plain
  cbc-run i zero hi hc = cbc-nil block (iv_before content i)
  cbc-run i (suc zero) hi hc = sym (append-nil (sector_plain i))
  cbc-run i (suc (suc n)) hi hc =
      let first : IsBlocks (slice content (512 * i) 512) =
        omega (arith, length-slice content (512 * i) 512 (omega arith)) in
      let next : 512 * i + 512 ≡ 512 * (i + 1) = omega arith in
      rw
        (
          ← slice_add content (512 * i) 512 (512 * suc n) (512 * suc (suc n)) (omega arith),
          next,
          cbc-append block (iv_before content i) (slice content (512 * i) 512)
              (slice content (512 * (i + 1)) (512 * suc n)) first,
          last_block-sector i (omega arith),
          ← iv_before_inside content i (omega arith),
        )
        (ap (◌++◌ (sector_plain i)) (cbc-run (i + 1) (suc n) (omega arith) (omega arith)))

  pub plain_sectors_add :
      (i m n k : ℕ) → m + n ≡ k → plain_sectors i m ++ plain_sectors (i + m) n ≡ plain_sectors i k
  unfolding plain_sectors
  plain_sectors_add i zero n k h = ap₂ plain_sectors (omega arith) (omega arith)
  plain_sectors_add i (suc m) n zero h = absurd (omega arith)
  plain_sectors_add i (suc m) n (suc k) h =
      let at : i + suc m ≡ i + 1 + m = omega arith in
      rw (append_assoc (sector_plain i), at)
        (ap (◌++◌ (sector_plain i)) (plain_sectors_add (i + 1) m n k (omega arith)))

pub length-iv_before :
    (content : List ℕ) (i : ℕ) → 512 * i ≤ length content → length (iv_before content i) ≡ 16
unfolding iv_before blob_encode_iv
length-iv_before content i h = elim (Bool-cases (i % 64 == 0)) [
  | inl start ↦ rw start refl
  | inr inside ↦ rw inside (length-slice content (512 * i - 16) 16 (ground arith))
]

module _ (block : List ℕ → List ℕ) (keeps : KeepsBlocks block) (content : List ℕ) where
  pub length-plain_sectors :
      (i n : ℕ)
      → 512 * (i + n) ≤ length content
      → length (plain_sectors block content i n) ≡ 512 * n
  unfolding plain_sectors sector_plain
  length-plain_sectors i zero h = refl
  length-plain_sectors i (suc n) h =
      let size = length-slice content (512 * i) 512 (omega arith) in
      omega (
        arith,
        length-append (sector_plain block content i) (plain_sectors block content (i + 1) n),
        length-cbc block (iv_before content i) (slice content (512 * i) 512) keeps
            (length-iv_before content i (omega arith)) (omega arith),
        size,
        length-plain_sectors (i + 1) n (omega arith),
      )
