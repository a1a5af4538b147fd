-- ===== src/Blob/Mount.antt =====
-- `Blob::Mount`: what it returns and where it leaves the object.
use ctgpr_msc.Base.{ℕ, ◌≡◌, ◌≢◌, List, arith, true, false, inl, inr, ◌⊎◌, ◌==◌, ==_iff, Bool-cases}
use ctgpr_msc.Base.Int.{pos, negsuc}
use ctgpr_msc.Base.Words.{drive_path}
use ctgpr_msc.FatFs.{FatFs, FileReply, fr_ok, fr_no_file, fr_no_path, fa_read}
use ctgpr_msc.Blob.{Blob, MountError, open_blob, mount}

module _ {W F : Type 0} (fs : FatFs W F) where
  -- The call of `f_open` for the image, and the call of `f_close` before it.
  abbrev pub opening : ℕ → Blob F → W → FileReply W F
  opening dev_id blob w = fs.f_open w blob.fil (drive_path dev_id ":/ctgpr/blob.bin") fa_read

  abbrev pub closing : Blob F → W → FileReply W F
  closing blob w = fs.f_close w blob.fil

  -- The object and the world that the image is opened with: an image that is open is closed first, with
  -- success, which leaves the object with no device.
  pub data IsClosed (w : W) (blob : Blob F) : Blob F → W → Type 0 where
    never_open : blob.opened ≡ false → IsClosed w blob blob w
    shut :
        blob.opened ≡ true
        → (closing blob w).ret ≡ fr_ok
        → IsClosed w blob
            (record { fil = (closing blob w).fil; dev_id = negsuc 0; opened = false })
            (closing blob w).world

  -- How a mount ends: the image of the device was opened for reading, with success; or it could not be
  -- opened, and the result tells whether it is missing; or the image from before could not be closed.
  pub data IsMountResult (w : W) (blob : Blob F) (dev_id : ℕ)
      : MountError × Blob F × W → Type 0 where
    mounted :
        (c : Blob F) (v : W)
        → IsClosed w blob c v
        → (opening dev_id c v).ret ≡ fr_ok
        → IsMountResult w blob dev_id (
          MountError.ok,
          record { fil = (opening dev_id c v).fil; dev_id = pos dev_id; opened = true },
          (opening dev_id c v).world,
        )
    missing :
        (c : Blob F) (v : W)
        → IsClosed w blob c v
        → ((opening dev_id c v).ret ≡ fr_no_file) ⊎ ((opening dev_id c v).ret ≡ fr_no_path)
        → IsMountResult w blob dev_id (
          MountError.file_not_found,
          record c { fil = (opening dev_id c v).fil },
          (opening dev_id c v).world,
        )
    not_opened :
        (c : Blob F) (v : W)
        → IsClosed w blob c v
        → (opening dev_id c v).ret ≢ fr_ok
        → (opening dev_id c v).ret ≢ fr_no_file
        → (opening dev_id c v).ret ≢ fr_no_path
        → IsMountResult w blob dev_id (
          MountError.disk_error,
          record c { fil = (opening dev_id c v).fil },
          (opening dev_id c v).world,
        )
    not_closed :
        blob.opened ≡ true
        → (closing blob w).ret ≢ fr_ok
        → IsMountResult w blob dev_id (
          MountError.disk_error,
          record { fil = (closing blob w).fil; dev_id = blob.dev_id; opened = true },
          (closing blob w).world,
        )

  open_blob_lem :
      (w : W) (blob : Blob F) (dev_id : ℕ) (c : Blob F) (v : W)
      → IsClosed w blob c v
      → IsMountResult w blob dev_id (open_blob fs v c dev_id)
  unfolding open_blob
  open_blob_lem w blob dev_id c v closed =
      let r = opening dev_id c v in
      elim (Bool-cases (r.ret == fr_ok)) [
        | inl good ↦ rw good (IsMountResult.mounted c v closed ((==_iff r.ret fr_ok).0 good))
        | inr bad ↦ elim (Bool-cases (r.ret == fr_no_file)) [
          | inl no_file ↦
              rw (bad, no_file)
                (IsMountResult.missing c v closed (inl ((==_iff r.ret fr_no_file).0 no_file)))
          | inr there ↦ elim (Bool-cases (r.ret == fr_no_path)) [
            | inl no_path ↦
                rw (bad, there, no_path)
                  (IsMountResult.missing c v closed (inr ((==_iff r.ret fr_no_path).0 no_path)))
            | inr other ↦
                rw (bad, there, other)
                  (IsMountResult.not_opened c v closed (ground arith) (ground arith) (ground arith))
          ]
        ]
      ]

  -- `Blob::Mount` closes an image that is open and opens the one of the device for reading. It returns
  -- OK with the object on that file and device, or an error: the image is missing, or cannot be
  -- opened, and the object keeps no device, or the one from before if it was not open; or the image from
  -- before cannot be closed, and the object keeps its device.
  pub mount_lem :
      (w : W) (blob : Blob F) (dev_id : ℕ) → IsMountResult w blob dev_id (mount fs w blob dev_id)
  unfolding mount
  mount_lem w blob dev_id =
      let r = closing blob w in
      elim (Bool-cases blob.opened) [
        | inr closed ↦
            simp (closed) (open_blob_lem w blob dev_id blob w (IsClosed.never_open closed))
        | inl opened ↦ simp (opened) (elim (Bool-cases (r.ret == fr_ok)) [
          | inr bad ↦ rw bad (IsMountResult.not_closed opened (ground arith))
          | inl good ↦ rw good (
              open_blob_lem w blob dev_id _ r.world
                (IsClosed.shut opened ((==_iff r.ret fr_ok).0 good)))
        ])
      ]

  module _ (Rel : W → W → Type 0) (trans : (a b c : W) → Rel a b → Rel b c → Rel a c)
      (closes : (a : W) (f : F) → Rel a (fs.f_close a f).world)
      (opens : (a : W) (f : F) (path : List ℕ) (mode : ℕ)
        → Rel a (fs.f_open a f path mode).world) where
    open_blob-world : (w : W) (blob : Blob F) (dev_id : ℕ) → Rel w (open_blob fs w blob dev_id).2
    unfolding open_blob
    open_blob-world w blob dev_id =
        let r = fs.f_open w blob.fil (drive_path dev_id ":/ctgpr/blob.bin") fa_read in
        elim (Bool-cases (r.ret == fr_ok)) [
          | inl opened ↦ rw opened (opens w blob.fil (drive_path dev_id ":/ctgpr/blob.bin") fa_read)
          | inr bad ↦ rw bad (opens w blob.fil (drive_path dev_id ":/ctgpr/blob.bin") fa_read)
        ]

    -- What closing and opening keep of the world, mounting keeps.
    pub mount-world : (w : W) (blob : Blob F) (dev_id : ℕ) → Rel w (mount fs w blob dev_id).2
    unfolding mount
    mount-world w blob dev_id =
        let r = fs.f_close w blob.fil in
        elim (Bool-cases blob.opened) [
          | inr closed ↦ simp (closed) (open_blob-world w blob dev_id)
          | inl opened ↦ simp (opened) (elim (Bool-cases (r.ret == fr_ok)) [
            | inr bad ↦ rw bad (closes w blob.fil)
            | inl good ↦
                rw good (trans w r.world _ (closes w blob.fil) (open_blob-world r.world _ dev_id))
          ])
        ]
