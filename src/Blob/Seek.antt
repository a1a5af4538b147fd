-- ===== src/Blob/Seek.antt =====
-- `Blob::ReadSectors` up to the read: the sector's IV, where the file stands, and the bytes that the read gets.
use ctgpr_msc.Base.{
  ℕ, ◌+◌, ◌-◌, ◌*◌, ◌%◌, ◌^◌, ◌≤◌, ◌<◌, ◌≡◌, ◌≢◌, refl, sym, ap, ◌∙◌, List, ◌++◌, append-nil, inl,
  inr, ◌⊎◌, arith, ◌==◌, ==_iff, Bool-cases, length, drop, replicate, drop-length,
}
use ctgpr_msc.Base.Words.{sub_u32, mul_u32}
use ctgpr_msc.FatFs.{FatFs, FileReply, IsReadable, slice, fr_ok}
use ctgpr_msc.Blob.{IvCache, IvReply, seek_with, seek_iv}
use ctgpr_msc.Blob.Sectors.{length-slice, iv_before, iv_before_start, iv_before_other}

-- The cache holds the ciphertext before the sector that it names, or names none that can be read.
abbrev pub IsCacheOf : List ℕ → IvCache → Type 0
IsCacheOf content cache =
    (2 ^ 32 ≤ 512 * cache.sector) ⊎ (cache.iv ≡ slice content (512 * cache.sector - 16) 16)

module _ {W F : Type 0} (fs : FatFs W F) (Holds : W → F → List ℕ → ℕ → Type 0)
    (file : IsReadable fs Holds) (content : List ℕ) (sector : ℕ) where
  -- The IV is the sector's, and the file stands at the sector.
  pub record IsSought (r : IvReply W F) : Type 0 where
    pub iv_is : r.iv ≡ iv_before content sector
    pub stands : Holds r.world r.fil content (512 * sector)

  seek_with-IsSought :
      (w : W) (fil : F) (iv : List ℕ) (at : ℕ)
      → Holds w fil content at
      → 512 * sector < 2 ^ 32
      → iv ≡ iv_before content sector
      → (seek_with fs sector w fil iv).ret ≡ fr_ok
      → IsSought (seek_with fs sector w fil iv)
  unfolding seek_with
  seek_with-IsSought w fil iv at h small e ok =
      let here : mul_u32 sector 512 ≡ 512 * sector = omega arith in
      record {
        iv_is = e;
        stands = rw (← here) (file.seeks w fil content at (mul_u32 sector 512) h ok);
      }

  chained-IsSought :
      (w : W) (fil : F) (at : ℕ)
      → Holds w fil content at
      → 512 * sector < 2 ^ 32
      → 512 * sector ≤ length content
      → sector % 64 ≢ 0
      → let before = fs.f_lseek w fil (sub_u32 (mul_u32 sector 512) 16) in
        let chained = fs.f_read before.world before.fil 16 in
        before.ret ≡ fr_ok
        → chained.ret ≡ fr_ok
        → IsSought (record {
          ret = chained.ret;
          iv = chained.bytes ++ drop (length chained.bytes) (replicate 16 0);
          fil = chained.fil;
          world = chained.world;
        })
  chained-IsSought w fil at h small enough inside sought read =
      let back : sub_u32 (mul_u32 sector 512) 16 ≡ 512 * sector - 16 = omega arith in
      let before = fs.f_lseek w fil (sub_u32 (mul_u32 sector 512) 16) in
      let held = file.seeks w fil content at (sub_u32 (mul_u32 sector 512) 16) h sought in
      let got =
        file.reads before.world before.fil content (sub_u32 (mul_u32 sector 512) 16) 16 held read in
      let size = length-slice content (512 * sector - 16) 16 (omega arith) in
      let bytes = (fs.f_read before.world before.fil 16).bytes in
      let bytes_are : bytes ≡ slice content (512 * sector - 16) 16 =
        got.0 ∙ ap (λ k. slice content k 16) back in
      let full : length bytes ≡ 16 = ap length bytes_are ∙ size in
      let reached : sub_u32 (mul_u32 sector 512) 16
            + length (slice content (sub_u32 (mul_u32 sector 512) 16) 16)
          ≡ 512 * sector =
        omega (arith, ap length got.0) in
      record {
        iv_is =
            rw (full, append-nil bytes) (bytes_are ∙ sym (iv_before_other content sector inside));
        stands = rw (← reached) got.1;
      }

  cached_iv :
      (cache : IvCache)
      → 512 * sector < 2 ^ 32
      → sector % 64 ≢ 0
      → sector ≡ cache.sector
      → IsCacheOf content cache
      → cache.iv ≡ iv_before content sector
  cached_iv cache small inside same (inl far) = absurd (omega arith)
  cached_iv cache small inside same (inr cached) =
      cached
      ∙ ap (λ k. slice content (512 * k - 16) 16) (sym same)
      ∙ sym (iv_before_other content sector inside)

  pub seek_iv-IsSought :
      (w : W) (fil : F) (cache : IvCache) (at : ℕ)
      → Holds w fil content at
      → 512 * sector < 2 ^ 32
      → 512 * sector ≤ length content
      → IsCacheOf content cache
      → (seek_iv fs sector w fil cache).ret ≡ fr_ok
      → IsSought (seek_iv fs sector w fil cache)
  unfolding seek_iv
  seek_iv-IsSought w fil cache at h small enough cached =
      let before = fs.f_lseek w fil (sub_u32 (mul_u32 sector 512) 16) in
      elim (Bool-cases (sector % 64 == 0)) [
        | inl start ↦ rw start (
            seek_with-IsSought w fil _ at h small
              (sym (iv_before_start content sector ((==_iff _ _).0 start))))
        | inr inside ↦ rw inside (elim (Bool-cases (sector == cache.sector)) [
          | inl same ↦ rw same (
              seek_with-IsSought w fil cache.iv at h small
                (cached_iv cache small (ground arith) ((==_iff _ _).0 same) cached))
          | inr other ↦ rw other (elim (Bool-cases (before.ret == fr_ok)) [
            | inl sought ↦
                rw sought (chained-IsSought w fil at h small enough (ground arith) (ground arith))
            | inr failed ↦ rw failed (λ e. absurd (ground arith))
          ])
        ])
      ]

module _ {W F : Type 0} (fs : FatFs W F) (sector : ℕ) (w : W) (fil : F) (cache : IvCache) where
  abbrev iv_seek : FileReply W F
  iv_seek = fs.f_lseek w fil (sub_u32 (mul_u32 sector 512) 16)

  -- The call of the library that failed in a read of `count` sectors, with the code that it returned:
  -- the seek to the sector, the one to the ciphertext before it, the read of that, or the read of the
  -- sectors, which is only made once the IV is there.
  pub data IsFailure (count ret : ℕ) : Type 0 where
    at_sector : (fs.f_lseek w fil (mul_u32 sector 512)).ret ≡ ret → IsFailure count ret
    at_iv : iv_seek.ret ≡ ret → IsFailure count ret
    of_iv :
        iv_seek.ret ≡ fr_ok
        → (fs.f_read iv_seek.world iv_seek.fil 16).ret ≡ ret
        → IsFailure count ret
    of_sectors :
        (seek_iv fs sector w fil cache).ret ≡ fr_ok
        → (fs.f_read
            (seek_iv fs sector w fil cache).world
            (seek_iv fs sector w fil cache).fil
            (512 * count)).ret
          ≡ ret
        → IsFailure count ret

  code-IsFailure : (count ret : ℕ) → (seek_iv fs sector w fil cache).ret ≡ ret → IsFailure count ret
  unfolding seek_iv seek_with
  code-IsFailure count ret =
      let before = fs.f_lseek w fil (sub_u32 (mul_u32 sector 512) 16) in
      elim (Bool-cases (sector % 64 == 0)) [
        | inl start ↦ rw start (λ e. IsFailure.at_sector e)
        | inr inside ↦ rw inside (elim (Bool-cases (sector == cache.sector)) [
          | inl same ↦ rw same (λ e. IsFailure.at_sector e)
          | inr other ↦ rw other (elim (Bool-cases (before.ret == fr_ok)) [
            | inl sought ↦ rw sought (λ e. IsFailure.of_iv ((==_iff before.ret fr_ok).0 sought) e)
            | inr bad ↦ rw bad (λ e. IsFailure.at_iv e)
          ])
        ])
      ]

  -- Where the IV cannot be had, the code is that of the call that failed.
  pub seek_iv-IsFailure : (count : ℕ) → IsFailure count (seek_iv fs sector w fil cache).ret
  seek_iv-IsFailure count = code-IsFailure count _ refl

-- A read that succeeds fills the buffer with the ciphertext of the sectors.
pub read_filled :
    {W F : Type 0} (fs : FatFs W F) (Holds : W → F → List ℕ → ℕ → Type 0)
    (file : IsReadable fs Holds) (content : List ℕ) (sector count : ℕ) (at : IvReply W F)
    (buffer : List ℕ)
    → 512 * (sector + count) ≤ length content
    → length buffer ≡ 512 * count
    → IsSought fs Holds file content sector at
    → (fs.f_read at.world at.fil (512 * count)).ret ≡ fr_ok
    → (fs.f_read at.world at.fil (512 * count)).bytes
        ++ drop (length (fs.f_read at.world at.fil (512 * count)).bytes) buffer
      ≡ slice content (512 * sector) (512 * count)
read_filled fs Holds file content sector count at buffer enough size sought ok =
    let got = fs.f_read at.world at.fil (512 * count) in
    let bytes_are =
      (file.reads at.world at.fil content (512 * sector) (512 * count) sought.stands ok).0 in
    let full : length got.bytes ≡ 512 * count = omega (
      arith,
      ap length bytes_are,
      length-slice content (512 * sector) (512 * count) (omega arith),
    ) in
    rw (drop-length (length got.bytes) buffer (omega arith)) (append-nil got.bytes ∙ bytes_are)
