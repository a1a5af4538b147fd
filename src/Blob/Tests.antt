-- ===== src/Blob/Tests.antt =====
-- A file in memory, an engine over a toy block cipher, and instances of the theorems on the blob.
use ctgpr_msc.Base.{
  ℕ, ◌+◌, ◌*◌, ◌≡◌, refl, List, [], inl, arith, length, replicate, length-replicate, true,
}
use ctgpr_msc.Base.Int.{pos}
use ctgpr_msc.Base.Outcome.{done, stuck}
use ctgpr_msc.Aes.{Engine}
use ctgpr_msc.Aes.Cbc.{cbc, last_block, IsCbc, KeepsBlocks}
use ctgpr_msc.FatFs.{FatFs, IsReadable, slice, fr_ok}
use ctgpr_msc.Blob.{ReadResult, blob_key, initial_cache, blob_decrypt, read_sectors, mount}
use ctgpr_msc.Blob.Cipher.{in_place, blob_decrypt_lem}
use ctgpr_msc.Blob.Sectors.{plain_sectors}
use ctgpr_msc.Blob.Seek.{IsCacheOf, IsFailure}
use ctgpr_msc.Blob.Read.{Delivers, read_sectors_lem, read_sectors-Works}
use ctgpr_msc.Blob.Hang.{read_sectors_hangs}
use ctgpr_msc.Blob.Mount.{IsMountResult, mount_lem}

abbrev plain : List ℕ → List ℕ
plain x = x

abbrev chaining : Engine (Unit {0})
chaining = record {
  encrypt = λ w key iv xs. record { ret = pos 0; output = xs; iv = iv; world = w };
  decrypt = λ w key iv xs. record {
    ret = pos 0;
    output = cbc plain iv xs;
    iv = last_block xs;
    world = w;
  };
}

chaining-IsCbc : IsCbc chaining blob_key plain
chaining-IsCbc = record { deciphers = λ w iv xs h. refl }

keeps : KeepsBlocks plain
keeps = λ x h. h

-- A file is its content and its position; nothing fails.
abbrev pub memory : FatFs (Unit {0}) (List ℕ × ℕ)
memory = record {
  empty_fil = ([], 0);
  f_open = λ w f path mode. record { ret = 0; fil = f; world = w };
  f_close = λ w f. record { ret = 0; fil = f; world = w };
  f_lseek = λ w f to. record { ret = 0; fil = (f.0, to); world = w };
  f_read = λ w f n. record {
    ret = 0;
    bytes = slice f.0 f.1 n;
    fil = (f.0, f.1 + length (slice f.0 f.1 n));
    world = w;
  };
  f_write = λ w f xs. record { ret = 0; fil = f; world = w };
  f_sync = λ w f. record { ret = 0; fil = f; world = w };
  f_mount = λ w path. (0, w);
  f_unmount = λ w path. (0, w);
}

abbrev pub Holds : Unit {0} → List ℕ × ℕ → List ℕ → ℕ → Type 0
Holds w f content at = (f.0 ≡ content) × (f.1 ≡ at)

pub memory-IsReadable : IsReadable memory Holds
memory-IsReadable = record {
  seeks = λ w f content at to h ok. (h.0, refl);
  reads = λ w f content at n h ok. (rw (h.0, h.1), (h.0, rw (h.0, h.1)));
}

abbrev image : List ℕ
image = replicate 65536 7

image-size : length image ≡ 65536
image-size = length-replicate {A = ℕ} 65536 7

abbrev sectors : ℕ → List ℕ
sectors n = replicate (512 * n) 0

nothing_cached : IsCacheOf image initial_cache
nothing_cached = inl (omega arith)

read_sectors_lem_example :
    (r : ReadResult (Unit {0}) (List ℕ × ℕ)) × (read_sectors memory chaining 60 8 3 tt
        (image, 0)
        initial_cache
        (sectors 8)
      ≡ done r)
    × Delivers memory Holds memory-IsReadable chaining plain chaining-IsCbc keeps image 60 8
        (IsFailure memory 60 tt (image, 0) initial_cache 8)
        r
read_sectors_lem_example =
    read_sectors_lem memory Holds memory-IsReadable chaining plain chaining-IsCbc keeps image 60 8 0
      tt (image, 0) initial_cache (sectors 8) 0 (omega (arith, image-size))
      (length-replicate {A = ℕ} (512 * 8) 0) nothing_cached (refl, refl)

read_sectors-Works_example :
    (r : ReadResult (Unit {0}) (List ℕ × ℕ)) × (read_sectors memory chaining 3 64 3 tt
        (image, 0)
        initial_cache
        (sectors 64)
      ≡ done r)
    × (r.ret ≡ fr_ok)
    × (r.buffer ≡ plain_sectors plain image 3 64)
read_sectors-Works_example =
    read_sectors-Works memory Holds memory-IsReadable chaining plain chaining-IsCbc keeps image 3 64
      0 tt (image, 0) initial_cache (sectors 64) 0 (omega (arith, image-size))
      (length-replicate {A = ℕ} (512 * 64) 0) nothing_cached (refl, refl)
      ((λ w f n. refl), (λ w f n. refl))

read_sectors_hangs_example :
    read_sectors memory chaining 0 65 1000 tt (image, 0) initial_cache (sectors 65) ≡ stuck
read_sectors_hangs_example =
    read_sectors_hangs memory Holds memory-IsReadable chaining plain chaining-IsCbc keeps image 0 65
      1000 tt (image, 0) initial_cache (sectors 65) 0 (omega (arith, image-size))
      (length-replicate {A = ℕ} (512 * 65) 0) nothing_cached (refl, refl)
      ((λ w f n. refl), (λ w f n. refl))

blob_decrypt_lem_example :
    blob_decrypt chaining 6 tt (sectors 41) (replicate 16 1) 41
    ≡ done (in_place chaining plain chaining-IsCbc keeps tt (sectors 41) (replicate 16 1) 20992)
blob_decrypt_lem_example =
    blob_decrypt_lem chaining plain chaining-IsCbc keeps 6 tt (sectors 41) (replicate 16 1) 41 refl
      (omega arith) (omega arith) (omega (arith, length-replicate {A = ℕ} (512 * 41) 0))

mount_lem_example :
    IsMountResult memory tt
      (record { fil = ([], 0); dev_id = pos 3; opened = true })
      1
      (mount memory tt (record { fil = ([], 0); dev_id = pos 3; opened = true }) 1)
mount_lem_example = mount_lem memory tt (record { fil = ([], 0); dev_id = pos 3; opened = true }) 1
