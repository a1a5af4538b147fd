-- ===== src/Blob.antt =====
-- ios/CTGP/Blob.cpp: the encrypted image /ctgpr/blob.bin on a storage device, read by sectors of 512
-- bytes. A block of 64 sectors is chained under an IV that names its first sector.
pub mod Cipher
pub mod Sectors
pub mod Loop
pub mod Rounds
pub mod Seek
pub mod Read
pub mod Mount
pub mod Launch
pub mod Image
pub mod Handover
mod Hang
mod Tests
mod LaunchTests
use Prim.Native.String.{String}
use ctgpr_msc.Base.{
  ℕ, zero, suc, ◌+◌, ◌-◌, ◌*◌, ◌%◌, ◌≡◌, List, [], ◌∷◌, ◌++◌, Bool, true, false, not, ◌||◌, ltb,
  leb, ◌==◌, if◌then◌else◌, length, take, drop, replicate,
}
use ctgpr_msc.Base.Int.{ℤ, pos, negsuc, eq_ℤ}
use ctgpr_msc.Base.Words.{add_u32, sub_u32, mul_u32, bytes_be32, u32_mod, drive_path}
use ctgpr_msc.Base.Outcome.{Outcome, done, fault, stuck, ◌>>=◌, ◌>>◌, assert}
use ctgpr_msc.Aes
use ctgpr_msc.Aes.{Engine}
use ctgpr_msc.FatFs.{FatFs, FileReply, fr_ok, fr_no_file, fr_no_path, fa_read}

abbrev pub blob_key : List ℕ
blob_key =
    0x90 ∷ 0x83 ∷ 0x00 ∷ 0x04 ∷ 0x90 ∷ 0xA3 ∷ 0x00 ∷ 0x08 ∷ 0x90 ∷ 0xC3 ∷ 0x00 ∷ 0x0C ∷ 0x4E ∷ 0x80
    ∷ 0x00 ∷ 0x20 ∷ []

abbrev pub sector_size : ℕ
sector_size = 512

abbrev pub block_size_sec : ℕ
block_size_sec = 64

pub data MountError : Type 0 where
  ok file_not_found disk_error : MountError

-- The class `Blob`; `m_mounted` is used nowhere.
pub record Blob (F : Type 0) : Type 0 where
  pub fil : F
  pub dev_id : ℤ
  pub opened : Bool

-- The static `nextIv` and `nextIvSector` of `ReadSectors`.
pub record IvCache : Type 0 where
  pub iv : List ℕ
  pub sector : ℕ

abbrev pub initial_cache : IvCache
initial_cache = record { iv = replicate 16 0; sector = u32_mod - 1 }

-- `blobEncodeIv`: `BlobIv` with the sector number in its bytes 8 to 11.
unfoldable pub blob_encode_iv : ℕ → List ℕ
blob_encode_iv sector =
    0x80
    ∷ 0x63
    ∷ 0x00
    ∷ 0x04
    ∷ 0x90
    ∷ 0x83
    ∷ 0x00
    ∷ 0x04
    ∷ (bytes_be32 sector ++ (0x4E ∷ 0x80 ∷ 0x00 ∷ 0x20 ∷ []))

module _ {W F : Type 0} (fs : FatFs W F) where
  open_blob : W → Blob F → ℕ → MountError × Blob F × W
  open_blob w blob dev_id =
      let r = fs.f_open w blob.fil (drive_path dev_id ":/ctgpr/blob.bin") fa_read in
      if not (r.ret == fr_ok)
      then (
        if r.ret == fr_no_file || r.ret == fr_no_path
            then MountError.file_not_found
            else MountError.disk_error,
        record blob { fil = r.fil },
        r.world,
      )
      else (MountError.ok, record { fil = r.fil; dev_id = pos dev_id; opened = true }, r.world)

  -- `Blob::Mount`
  pub mount : W → Blob F → ℕ → MountError × Blob F × W
  mount w blob dev_id =
      let r = fs.f_close w blob.fil in
      if blob.opened
      then (if not (r.ret == fr_ok)
          then (MountError.disk_error, record blob { fil = r.fil }, r.world)
          else open_blob r.world (record { fil = r.fil; dev_id = negsuc 0; opened = false }) dev_id)
      else open_blob w blob dev_id

  -- `Blob::Reset`
  unfoldable pub reset : Blob F → Blob F
  reset blob = record { fil = fs.empty_fil; dev_id = negsuc 0; opened = false }

-- The buffer from the pointer on, the IV and the world after `BlobDecrypt`.
pub record Deciphered (W : Type 0) : Type 0 where
  pub bytes : List ℕ
  pub iv : List ℕ
  pub world : W

module _ {W : Type 0} (engine : Engine W) where
  -- One use of `cryptBuffer`: the first `n` bytes are deciphered in place. The engine takes them in
  -- one call, since `n` is at most 8 sectors.
  pub decrypt_chunk : W → List ℕ → List ℕ → ℕ → Outcome (Deciphered W)
  decrypt_chunk w bytes iv n = do
    assert (leb n (length bytes))
    r ← Aes.decrypt engine blob_key 1 w iv (take n bytes)
    assert (eq_ℤ r.ret (pos 0))
    done (record { bytes = r.output ++ drop n bytes; iv = r.iv; world = r.world })

  -- `BlobDecrypt`, its loop held to `fuel` tests.
  pub blob_decrypt : ℕ → W → List ℕ → List ℕ → ℕ → Outcome (Deciphered W)
  blob_decrypt zero w bytes iv count = stuck
  blob_decrypt (suc fuel) w bytes iv count = elim (ltb 0 count) [
    | false ↦ done (record { bytes = bytes; iv = iv; world = w })
    | true ↦ elim (leb 8 count) [
      | true ↦ do
        r ← decrypt_chunk w bytes iv (8 * sector_size)
        rest ← blob_decrypt fuel r.world (drop (8 * sector_size) r.bytes) r.iv (count - 8)
        done (record rest { bytes = take (8 * sector_size) r.bytes ++ rest.bytes })
      | false ↦ decrypt_chunk w bytes iv (count * sector_size)
    ]
  ]

-- What `ReadSectors` leaves: its code, the caller's buffer, the file, the cache and the world.
pub record ReadResult (W F : Type 0) : Type 0 where
  pub ret : ℕ
  pub buffer : List ℕ
  pub fil : F
  pub cache : IvCache
  pub world : W

-- `decryptCount` in the round at `s`.
pub decrypt_count : ℕ → ℕ → ℕ → ℕ
decrypt_count sector count s =
    let block_end = block_size_sec - add_u32 sector s % block_size_sec in
    if ltb count block_end then sub_u32 count s else sub_u32 block_end s

module _ {W : Type 0} (engine : Engine W) (sector count : ℕ) where
  -- The loop of `ReadSectors` at `s`, held to `fuel` tests: the buffer, the cache and the world.
  pub read_loop : ℕ → W → List ℕ → List ℕ → IvCache → ℕ → Outcome (List ℕ × IvCache × W)
  read_loop zero w buffer iv cache s = stuck
  read_loop (suc fuel) w buffer iv cache s = elim (ltb s count) [
    | false ↦ done (buffer, cache, w)
    | true ↦
        let n = decrypt_count sector count s in
        let tail = sub_u32 (mul_u32 (add_u32 s n) sector_size) 16 in
        let s' = add_u32 s n in
        do
          assert (leb (tail + 16) (length buffer))
          assert (leb (mul_u32 s sector_size) (length buffer))
          r ← blob_decrypt engine (suc n) w (drop (mul_u32 s sector_size) buffer) iv n
          read_loop fuel r.world (take (mul_u32 s sector_size) buffer ++ r.bytes)
              (if ltb s' count then blob_encode_iv (add_u32 sector s') else r.iv)
              (record { iv = take 16 (drop tail buffer); sector = add_u32 (add_u32 sector s) n }) s'
  ]

-- What the first part of `ReadSectors` leaves: the code of the call that failed, or OK, and the IV.
pub record IvReply (W F : Type 0) : Type 0 where
  pub ret : ℕ
  pub iv : List ℕ
  pub fil : F
  pub world : W

module _ {W F : Type 0} (fs : FatFs W F) (sector : ℕ) where
  seek_with : W → F → List ℕ → IvReply W F
  seek_with w fil iv =
      let r = fs.f_lseek w fil (mul_u32 sector 512) in
      record { ret = r.ret; iv = iv; fil = r.fil; world = r.world }

  -- The IV is the block's, or the 16 bytes before the sector, or those kept from the last call. The
  -- file then stands at the sector.
  pub seek_iv : W → F → IvCache → IvReply W F
  unfolding seek_with
  seek_iv w fil cache =
      let before = fs.f_lseek w fil (sub_u32 (mul_u32 sector 512) 16) in
      let chained = fs.f_read before.world before.fil 16 in
      if sector % block_size_sec == 0
      then seek_with w fil (blob_encode_iv sector)
      else if not (sector == cache.sector)
      then (if not (before.ret == fr_ok)
          then record { ret = before.ret; iv = []; fil = before.fil; world = before.world }
          else record {
            ret = chained.ret;
            iv = chained.bytes ++ drop (length chained.bytes) (replicate 16 0);
            fil = chained.fil;
            world = chained.world;
          })
      else seek_with w fil cache.iv

module _ {W F : Type 0} (fs : FatFs W F) (engine : Engine W) (sector count : ℕ) where
  -- The read of the ciphertext and the loop over it.
  pub read_from : ℕ → IvReply W F → IvCache → List ℕ → Outcome (ReadResult W F)
  read_from fuel at cache buffer =
      let r = fs.f_read at.world at.fil (mul_u32 sector_size count) in
      let filled = r.bytes ++ drop (length r.bytes) buffer in
      let failed : ReadResult W F = record {
        ret = r.ret;
        buffer = filled;
        fil = r.fil;
        cache = cache;
        world = r.world;
      } in
      let finish : List ℕ × IvCache × W → Outcome (ReadResult W F) =
        λ t. done (record { ret = fr_ok; buffer = t.0; fil = r.fil; cache = t.1; world = t.2 }) in
      let looped = read_loop engine sector count fuel r.world filled at.iv cache 0 >>= finish in
      assert (leb (mul_u32 sector_size count) (length buffer))
      >> (if not (r.ret == fr_ok) then done failed else looped)

  -- `Blob::ReadSectors`, its loop held to `fuel` tests.
  pub read_sectors : ℕ → W → F → IvCache → List ℕ → Outcome (ReadResult W F)
  read_sectors fuel w fil cache buffer =
      let at = seek_iv fs sector w fil cache in
      let failed : ReadResult W F = record {
        ret = at.ret;
        buffer = buffer;
        fil = at.fil;
        cache = cache;
        world = at.world;
      } in
      if not (at.ret == fr_ok) then done failed else read_from fuel at cache buffer
