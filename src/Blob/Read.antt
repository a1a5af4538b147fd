-- ===== src/Blob/Read.antt =====
-- `Blob::ReadSectors` returns the plaintext of the image.
use ctgpr_msc.Base.{
  ℕ, suc, ◌+◌, ◌*◌, ◌^◌, ◌≤◌, ◌<◌, ◌≡◌, ◌≢◌, refl, sym, ◌∙◌, List, ◌++◌, inl, inr, ◌⊎◌, arith, ◌==◌,
  ==_iff, le→leb, Bool-cases, length, drop,
}
use ctgpr_msc.Base.Words.{sub_u32, mul_u32}
use ctgpr_msc.Base.Outcome.{done}
use ctgpr_msc.Aes.{Engine}
use ctgpr_msc.Aes.Cbc.{IsCbc, KeepsBlocks}
use ctgpr_msc.FatFs.{FatFs, IsReadable, fr_ok}
use ctgpr_msc.Blob.{
  IvCache, IvReply, ReadResult, blob_key, seek_with, seek_iv, read_from, read_sectors,
}
use ctgpr_msc.Blob.Sectors.{plain_sectors}
use ctgpr_msc.Blob.Loop.{cache_at}
use ctgpr_msc.Blob.Rounds.{read_loop_lem}
use ctgpr_msc.Blob.Seek.{
  IsCacheOf, IsSought, IsFailure, read_filled, seek_iv-IsFailure, seek_iv-IsSought,
}

module _ {W F : Type 0} (fs : FatFs W F) (Holds : W → F → List ℕ → ℕ → Type 0)
    (file : IsReadable fs Holds) (engine : Engine W) (block : List ℕ → List ℕ)
    (law : IsCbc engine blob_key block) (keeps : KeepsBlocks block) (content : List ℕ)
    (sector count : ℕ) where
  -- A read that failed as it may, or one that is OK and whose buffer holds the plaintext; the cache is
  -- right in both cases.
  abbrev pub Delivers : (ℕ → Type 0) → ReadResult W F → Type 0
  Delivers Failed r =
      (((r.ret ≢ fr_ok) × Failed r.ret)
        ⊎ ((r.ret ≡ fr_ok) × (r.buffer ≡ plain_sectors block content sector count)))
      × IsCacheOf content r.cache

  -- The sectors that a read may ask for.
  abbrev pub IsRange : Type 0
  IsRange =
      (0 < count)
      × (count ≤ 64)
      × (512 * (sector + count) < 2 ^ 32)
      × (512 * (sector + count) ≤ length content)

  read_from_lem :
      (Failed : ℕ → Type 0) (fuel : ℕ) (at : IvReply W F) (cache : IvCache) (buffer : List ℕ)
      → Failed (fs.f_read at.world at.fil (512 * count)).ret
      → IsRange
      → length buffer ≡ 512 * count
      → IsCacheOf content cache
      → IsSought fs Holds file content sector at
      → (r : ReadResult W F) × (read_from fs engine sector count
            (suc (suc (suc fuel)))
            at
            cache
            buffer
          ≡ done r)
        × (r.ret ≡ (fs.f_read at.world at.fil (512 * count)).ret)
        × Delivers Failed r
  unfolding read_from
  read_from_lem Failed fuel at cache buffer fails range size cached sought =
      let amount : mul_u32 512 count ≡ 512 * count = omega arith in
      let got = fs.f_read at.world at.fil (512 * count) in
      let fits = le→leb (512 * count) (length buffer) (omega arith) in
      elim (Bool-cases (got.ret == fr_ok)) [
        | inr failed ↦ (
          record {
            ret = got.ret;
            buffer = got.bytes ++ drop (length got.bytes) buffer;
            fil = got.fil;
            cache = cache;
            world = got.world;
          },
          rw (amount, fits, failed),
          refl,
          (inl (ground arith, fails), cached),
        )
        | inl read ↦
            let all =
              read_filled fs Holds file content sector count at buffer range.3 size sought
                ((==_iff _ _).0 read) in
            (
              record {
                ret = fr_ok;
                buffer = plain_sectors block content sector count;
                fil = got.fil;
                cache = cache_at engine block law keeps content sector count range.2 range.3 count;
                world = got.world;
              },
              rw (amount, fits, read)
                  (rw (
                    all,
                    sought.iv_is,
                    read_loop_lem engine block law keeps content sector count range.2 range.3 fuel
                        got.world cache range.0 range.1,
                  )),
              sym ((==_iff _ _).0 read),
              (inr (refl, refl), inr refl),
            )
      ]

  -- A read of up to 64 sectors inside the image, with an engine that chains and an open file, returns
  -- within three tests of its loop, whichever library calls fail.
  -- Either the code is not OK and is that of the seek or read of the library that failed in it, or it is
  -- OK and the buffer holds the plaintext of the
  -- sectors, each deciphered under its own IV. The cache is right afterwards in both cases.
  pub read_sectors_lem :
      (fuel : ℕ) (w : W) (fil : F) (cache : IvCache) (buffer : List ℕ) (at : ℕ)
      → IsRange
      → length buffer ≡ 512 * count
      → IsCacheOf content cache
      → Holds w fil content at
      → (r : ReadResult W F) × (read_sectors fs engine sector count
            (suc (suc (suc fuel)))
            w
            fil
            cache
            buffer
          ≡ done r)
        × Delivers (IsFailure fs sector w fil cache count) r
  unfolding read_sectors
  read_sectors_lem fuel w fil cache buffer at range size cached held =
      let iv = seek_iv fs sector w fil cache in
      elim (Bool-cases (iv.ret == fr_ok)) [
        | inr failed ↦ (
          record { ret = iv.ret; buffer = buffer; fil = iv.fil; cache = cache; world = iv.world },
          rw failed,
          (inl (ground arith, seek_iv-IsFailure fs sector w fil cache count), cached),
        )
        | inl sought ↦
            let (r, e, code, good) =
              read_from_lem (IsFailure fs sector w fil cache count) fuel iv cache buffer
                (IsFailure.of_sectors ((==_iff _ _).0 sought) refl) range size cached
                (seek_iv-IsSought fs Holds file content sector w fil cache at held (omega arith)
                  (omega arith) cached ((==_iff _ _).0 sought)) in
            (r, rw sought e, good)
      ]

  -- A library none of whose seeks and reads fails.
  abbrev pub Works : Type 0
  Works =
      ((w : W) (f : F) (n : ℕ) → (fs.f_lseek w f n).ret ≡ fr_ok)
      × ((w : W) (f : F) (n : ℕ) → (fs.f_read w f n).ret ≡ fr_ok)

  pub seek_iv-ok :
      Works → (w : W) (fil : F) (cache : IvCache) → (seek_iv fs sector w fil cache).ret ≡ fr_ok
  unfolding seek_iv seek_with
  seek_iv-ok works w fil cache =
      let before = fs.f_lseek w fil (sub_u32 (mul_u32 sector 512) 16) in
      ground (
        arith,
        works.0 w fil (mul_u32 sector 512),
        works.0 w fil (sub_u32 (mul_u32 sector 512) 16),
        works.1 before.world before.fil 16,
      )

  -- Where no library call fails, the read returns OK with the plaintext.
  pub read_sectors-Works :
      (fuel : ℕ) (w : W) (fil : F) (cache : IvCache) (buffer : List ℕ) (at : ℕ)
      → IsRange
      → length buffer ≡ 512 * count
      → IsCacheOf content cache
      → Holds w fil content at
      → Works
      → (r : ReadResult W F) × (read_sectors fs engine sector count
            (suc (suc (suc fuel)))
            w
            fil
            cache
            buffer
          ≡ done r)
        × (r.ret ≡ fr_ok)
        × (r.buffer ≡ plain_sectors block content sector count)
  unfolding read_sectors
  read_sectors-Works fuel w fil cache buffer at range size cached held works =
      let iv = seek_iv fs sector w fil cache in
      let sought = seek_iv-ok works w fil cache in
      let (r, e, code, good) =
        read_from_lem (λ ret. Unit {0}) fuel iv cache buffer tt range size cached
          (seek_iv-IsSought fs Holds file content sector w fil cache at held (omega arith)
            (omega arith) cached sought) in
      let done_well = code ∙ works.1 iv.world iv.fil (512 * count) in
      (r, rw ((==_iff iv.ret fr_ok).1 sought) e, done_well, plain_of r done_well good.0)
    where
      plain_of :
          (r : ReadResult W F)
          → r.ret ≡ fr_ok
          → ((r.ret ≢ fr_ok) × Unit {0})
            ⊎ ((r.ret ≡ fr_ok) × (r.buffer ≡ plain_sectors block content sector count))
          → r.buffer ≡ plain_sectors block content sector count
      plain_of r h (inl failed) = absurd (failed.0 h)
      plain_of r h (inr good) = good.1
