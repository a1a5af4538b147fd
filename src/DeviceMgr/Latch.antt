-- ===== src/DeviceMgr/Latch.antt =====
-- The error flag of a device: once an operation failed, every operation refuses until it is cleared.
use ctgpr_msc.Base.{
  ℕ, ◌≡◌, ◌≢◌, ◌<◌, refl, sym, ◌∙◌, List, Bool, true, false, not, inl, inr, ◌⊎◌, lt→ltb, ◌==◌,
  ==_iff, or-true,
}
use mathlib.Core.Path.{subst}
use ctgpr_msc.Base.Outcome.{Outcome, done, fault, stuck, ◌>>=◌}
use ctgpr_msc.Aes.{Engine}
use ctgpr_msc.FatFs.{FatFs, fr_ok}
use ctgpr_msc.Blob.{ReadResult, read_sectors}
use ctgpr_msc.DeviceMgr.{
  Disk, State, Drivers, ReadReply, is_refused, set_error, is_blob, checked, with_device, reply,
  after_blob, init_disk, write_disk, read_disk, device_init, device_read, device_write, device_sync,
}

abbrev pub IsRecognized : {U F : Type 0} → Disk U F → Type 0
IsRecognized d = d ≢ Disk.null_device

module _ {W U F : Type 0} (drivers : Drivers W U) (fs : FatFs (State W U F) F)
    (engine : Engine (State W U F)) (dev_id : ℕ) where
  -- A device that is disabled or whose error flag is set refuses all four operations, and nothing
  -- changes: neither the table nor the world nor the caller's buffer.
  pub refused_lem :
      (fuel sector count : ℕ) (buffer : List ℕ) (s : State W U F)
      → dev_id < 9
      → is_refused dev_id s ≡ true
      → (device_init drivers dev_id s ≡ done (false, s))
        × (device_read drivers fs engine fuel dev_id sector count buffer s
            ≡ done (record { good = false; buffer = buffer; state = s }))
        × (device_write drivers dev_id sector count buffer s ≡ done (false, s))
        × (device_sync drivers dev_id s ≡ done (false, s))
  unfolding device_init device_read device_write device_sync
  refused_lem fuel sector count buffer s h refused =
      let inside = lt→ltb dev_id 9 h in
      (rw (inside, refused), rw (inside, refused), rw (inside, refused), rw (inside, refused))

  checked-latches :
      (good : Bool) (s : State W U F)
      → ((checked dev_id good s).0 ≡ true) ⊎ (is_refused dev_id (checked dev_id good s).1 ≡ true)
  unfolding checked is_refused set_error with_device
  checked-latches true s = inl refl
  checked-latches false s =
      inr (rw ((==_iff dev_id dev_id).1 refl) (or-true (not (s.devices dev_id).enabled)))

  init_disk-latches :
      (d : Disk U F) (s : State W U F)
      → IsRecognized d
      → ((init_disk drivers dev_id d s).0 ≡ true)
        ⊎ (is_refused dev_id (init_disk drivers dev_id d s).1 ≡ true)
  unfolding init_disk
  init_disk-latches Disk.null_device s known = absurd (known refl)
  init_disk-latches Disk.sd_card s known = checked-latches _ _
  init_disk-latches (Disk.usb_storage u) s known = checked-latches _ _
  init_disk-latches (Disk.blob_disk b) s known = inl refl

  write_disk-latches :
      (sector count : ℕ) (bytes : List ℕ) (d : Disk U F) (s : State W U F)
      → IsRecognized d
      → (is_blob d ≡ true)
        ⊎ (((write_disk drivers dev_id sector count bytes d s).0 ≡ true)
            ⊎ (is_refused dev_id (write_disk drivers dev_id sector count bytes d s).1 ≡ true))
  unfolding write_disk is_blob
  write_disk-latches sector count bytes Disk.null_device s known = absurd (known refl)
  write_disk-latches sector count bytes Disk.sd_card s known = inr (checked-latches _ _)
  write_disk-latches sector count bytes (Disk.usb_storage u) s known = inr (checked-latches _ _)
  write_disk-latches sector count bytes (Disk.blob_disk b) s known = inl refl

  -- An answer, if there is one, is a success or leaves a device that refuses.
  Latches : Outcome (ReadReply W U F) → Type 0
  Latches (done r) = (r.good ≡ true) ⊎ (is_refused dev_id r.state ≡ true)
  Latches fault = Unit
  Latches stuck = Unit

  read_disk-Latches :
      (fuel sector count : ℕ) (buffer : List ℕ) (d : Disk U F) (s : State W U F)
      → IsRecognized d
      → Latches (read_disk drivers fs engine fuel dev_id sector count buffer d s)
  unfolding read_disk Latches
  read_disk-Latches fuel sector count buffer Disk.null_device s known = absurd (known refl)
  read_disk-Latches fuel sector count buffer Disk.sd_card s known = checked-latches _ _
  read_disk-Latches fuel sector count buffer (Disk.usb_storage u) s known = checked-latches _ _
  read_disk-Latches fuel sector count buffer (Disk.blob_disk b) s known =
      after (read_sectors fs engine sector count fuel s b.fil s.cache buffer)
    where
      after :
          (o : Outcome (ReadResult (State W U F) F))
          → Latches (
              o >>= λ r. done (
                reply drivers fs engine fuel dev_id sector count r.buffer (
                  checked dev_id
                    (r.ret == fr_ok)
                    (after_blob drivers fs engine fuel dev_id sector count b r))))
      after (done r) = checked-latches _ _
      after fault = tt
      after stuck = tt

  -- An initialisation and a write return, and a read that returns, on a device of a known kind that
  -- does not refuse, succeed or leave the device refusing every further operation. A write to the blob,
  -- which is read-only, is left out.
  pub failed-latches :
      (fuel sector count : ℕ) (buffer : List ℕ) (s : State W U F) (r : ReadReply W U F)
      → dev_id < 9
      → is_refused dev_id s ≡ false
      → IsRecognized (s.devices dev_id).disk
      → device_read drivers fs engine fuel dev_id sector count buffer s ≡ done r
      → (i : Bool × State W U F) × (w : Bool × State W U F) × (device_init drivers dev_id s
          ≡ done i)
        × (device_write drivers dev_id sector count buffer s ≡ done w)
        × ((r.good ≡ true) ⊎ (is_refused dev_id r.state ≡ true))
        × ((i.0 ≡ true) ⊎ (is_refused dev_id i.1 ≡ true))
        × ((is_blob (s.devices dev_id).disk ≡ true)
            ⊎ ((w.0 ≡ true) ⊎ (is_refused dev_id w.1 ≡ true)))
  unfolding device_init device_read device_write Latches
  failed-latches fuel sector count buffer s r h usable known e =
      let inside = lt→ltb dev_id 9 h in
      let d = (s.devices dev_id).disk in
      let step : device_read drivers fs engine fuel dev_id sector count buffer s
          ≡ read_disk drivers fs engine fuel dev_id sector count buffer d s =
        rw (inside, usable) in
      let same : read_disk drivers fs engine fuel dev_id sector count buffer d s ≡ done r =
        sym step ∙ e in
      (
        init_disk drivers dev_id d s,
        write_disk drivers dev_id sector count buffer d s,
        rw (inside, usable),
        rw (inside, usable),
        subst Latches same (read_disk-Latches fuel sector count buffer d s known),
        init_disk-latches d s known,
        write_disk-latches sector count buffer d s known,
      )
