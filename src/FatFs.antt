-- ===== src/FatFs.antt =====
-- The FatFs library (ios/FAT) as the program calls it: its functions, with the `FRESULT` that each
-- returns, are parameters. `W` stands for the disks and `F` for the file object `FIL`.
use ctgpr_msc.Base.{ℕ, ◌+◌, ◌≡◌, List, length, take, drop}

-- A call on an open file: the code, the file object and the world after it.
pub record FileReply (W F : Type 0) : Type 0 where
  pub ret : ℕ
  pub fil : F
  pub world : W

-- `f_read` also fills the start of the caller's buffer with the bytes read.
pub record ReadReply (W F : Type 0) : Type 0 where
  pub ret : ℕ
  pub bytes : List ℕ
  pub fil : F
  pub world : W

pub record FatFs (W F : Type 0) : Type 0 where
  pub empty_fil : F
  pub f_open : W → F → List ℕ → ℕ → FileReply W F
  pub f_close : W → F → FileReply W F
  pub f_lseek : W → F → ℕ → FileReply W F
  pub f_read : W → F → ℕ → ReadReply W F
  pub f_write : W → F → List ℕ → FileReply W F
  pub f_sync : W → F → FileReply W F
  pub f_mount : W → List ℕ → ℕ × W
  pub f_unmount : W → List ℕ → ℕ × W

abbrev pub fr_ok : ℕ
fr_ok = 0

abbrev pub fr_no_file : ℕ
fr_no_file = 4

abbrev pub fr_no_path : ℕ
fr_no_path = 5

abbrev pub fa_read : ℕ
fa_read = 1

abbrev pub fa_write : ℕ
fa_write = 2

abbrev pub fa_create_always : ℕ
fa_create_always = 8

-- `length` bytes of a file from an offset on.
abbrev pub slice : List ℕ → ℕ → ℕ → List ℕ
slice content offset n = take n (drop offset content)

-- What the library documents of seeking and reading: an open file that holds `content` keeps it, a
-- successful seek moves to the offset, and a successful read returns the bytes from the position on,
-- short at the end of the file only. `Holds w f content at` is said of a file at a position.
pub record IsReadable {W F : Type 0} (fs : FatFs W F) (Holds : W → F → List ℕ → ℕ → Type 0)
    : Type 0 where
  pub seeks :
      (w : W) (f : F) (content : List ℕ) (at to : ℕ)
      → Holds w f content at
      → (fs.f_lseek w f to).ret ≡ fr_ok
      → Holds (fs.f_lseek w f to).world (fs.f_lseek w f to).fil content to
  pub reads :
      (w : W) (f : F) (content : List ℕ) (at n : ℕ)
      → Holds w f content at
      → (fs.f_read w f n).ret ≡ fr_ok
      → ((fs.f_read w f n).bytes ≡ slice content at n)
        × Holds
            (fs.f_read w f n).world
            (fs.f_read w f n).fil
            content
            (at + length (slice content at n))
