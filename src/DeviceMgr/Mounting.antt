-- ===== src/DeviceMgr/Mounting.antt =====
-- `UpdateHandle` on a storage device that has come in: the mount, and the call for the blob on it.
use ctgpr_msc.Base.{
  ℕ, ◌≡◌, ◌<◌, refl, ap, ◌∙◌, true, false, not, ◌&&◌, ◌||◌, inl, inr, ◌⊎◌, ◌==◌, Bool-cases,
  or-true, none,
}
use ctgpr_msc.Base.Int.{pos, eq_ℤ}
use ctgpr_msc.Base.Words.{drive_path}
use ctgpr_msc.Base.Outcome.{Outcome, done}
use ctgpr_msc.FatFs.{FatFs, fr_ok}
use ctgpr_msc.Blob.{Blob, MountError, mount}
use ctgpr_msc.Blob.Mount.{IsClosed, IsMountResult, mount_lem}
use ctgpr_msc.DeviceMgr.{Disk, DeviceHandle, State, Drivers, LaunchError, is_blob, with_device}
use ctgpr_msc.DeviceMgr.Update.{
  Launcher, start_log, mount_blob, mount_told, after_mount, mount_failed, mount_new, is_ok,
}
use ctgpr_msc.DeviceMgr.Slots.{
  blob_id, not_blob-blob_id, get_blob-blob_id, Keeps-trans, with_device-Keeps, with_device-other,
  IsQuiet, IsQuietLibrary, leave_no_card_lem, IsReady, Keeps-IsReady,
}
use ctgpr_msc.DeviceMgr.Steps.{start_log-quiet, same_devices, mount_failed-Keeps}
use ctgpr_msc.DeviceMgr.Unmount.{other, not_itself, Nested}

abbrev pub IsFree : {W U F : Type 0} → State W U F → Type 0
IsFree s = ((s.devices 8).inserted ≡ false) ⊎ ((s.devices 8).error ≡ true)

module _ {W U F : Type 0} (drivers : Drivers W U) (fs : FatFs (State W U F) F)
    (launcher : Launcher W U F) (quiet : IsQuietLibrary fs launcher) (dev_id : ℕ)
    (small : dev_id < 8) where
  abbrev S : Type 0
  S = State W U F

  closed-IsReady :
      (w : S) (b c : Blob F) (v : S)
      → eq_ℤ b.dev_id (pos 8) ≡ false
      → IsClosed fs w b c v
      → eq_ℤ c.dev_id (pos 8) ≡ false
  closed-IsReady w b _ _ h (IsClosed.never_open closed) = h
  closed-IsReady w b _ _ h (IsClosed.shut opened good) = refl

  mount-IsReady :
      (w : S) (b : Blob F) (r : MountError × Blob F × S)
      → eq_ℤ b.dev_id (pos 8) ≡ false
      → IsMountResult fs w b dev_id r
      → eq_ℤ r.1.dev_id (pos 8) ≡ false
  mount-IsReady w b _ h (IsMountResult.mounted c v closed good) =
      not_itself drivers fs launcher quiet dev_id small (pos dev_id) (inr refl)
  mount-IsReady w b _ h (IsMountResult.missing c v closed bad) = closed-IsReady w b c v h closed
  mount-IsReady w b _ h (IsMountResult.not_opened c v closed bad no_file no_path) =
      closed-IsReady w b c v h closed
  mount-IsReady w b _ h (IsMountResult.not_closed opened bad) = h

  mount_blob_lem :
      (update : ℕ → S → Outcome S) (s : S)
      → Nested drivers fs launcher quiet dev_id small update
      → IsReady s
      → (t : S) × (mount_blob drivers fs launcher update dev_id s ≡ done t) × IsReady t
  unfolding mount_blob blob_id with_device
  mount_blob_lem update s nested ready =
      let out : DeviceHandle U F → DeviceHandle U F = λ d. record d { inserted = false } in
      let t = with_device 8 out s in
      let (b, got, e) = get_blob-blob_id (s.devices 8).disk ready.0 ready.1 in
      let r = mount fs t b dev_id in
      let held : DeviceHandle U F → DeviceHandle U F =
        λ d. record d { disk = Disk.blob_disk r.1 } in
      let u = with_device 8 held r.2 in
      let up : DeviceHandle U F → DeviceHandle U F =
        λ d. record d { inserted = true; error = false } in
      let stays =
        mount-IsReady t b r (ap (λ z. eq_ℤ z (pos 8)) e ∙ ready.2) (mount_lem fs t b dev_id) in
      let ready_up : IsReady (with_device 8 up u) = (r.1.dev_id, refl, stays) in
      let (v, updated, k) = nested (with_device 8 up u) ready_up in
      elim (Bool-cases (is_ok r.0)) [
        | inl good ↦
            (v, rw got (rw (good, updated)), Keeps-IsReady (with_device 8 up u) v k ready_up)
        | inr bad ↦ (
          record u { launch_error = LaunchError.no_ctgpr },
          rw got (rw bad),
          (r.1.dev_id, refl, stays),
        )
      ]

  IsFree-quiet : (s t : S) → IsQuiet s t → IsFree s → IsFree t
  IsFree-quiet s t q (inl out) = inl (q.keeps.inserted_is 8 ∙ out)
  IsFree-quiet s t q (inr bad) = inr (q.error_stays 8 bad)

  pub IsFree-other : (s t : S) → t.devices 8 ≡ s.devices 8 → IsFree s → IsFree t
  IsFree-other s t e (inl out) = inl (ap (λ d. d.inserted) e ∙ out)
  IsFree-other s t e (inr bad) = inr (ap (λ d. d.error) e ∙ bad)

  tries_blob :
      (s : S)
      → blob_id (s.devices dev_id).disk ≡ none
      → IsFree s
      → not (is_blob (s.devices dev_id).disk) && (not (s.devices 8).inserted || (s.devices 8).error)
        ≡ true
  tries_blob s storage (inl out) = rw (not_blob-blob_id (s.devices dev_id).disk storage, out)
  tries_blob s storage (inr bad) =
      rw (not_blob-blob_id (s.devices dev_id).disk storage, bad)
        (or-true (not (s.devices 8).inserted))

  after_mount_lem :
      (update : ℕ → S → Outcome S) (s : S)
      → Nested drivers fs launcher quiet dev_id small update
      → IsReady s
      → blob_id (s.devices dev_id).disk ≡ none
      → IsFree s
      → (t : S) × (after_mount drivers fs launcher update dev_id s ≡ done t) × IsReady t
  unfolding after_mount
  after_mount_lem update s nested ready storage free =
      let change : DeviceHandle U F → DeviceHandle U F =
        λ d. record d { mounted = true; error = false } in
      let marked = with_device dev_id change s in
      let logged = start_log drivers fs launcher dev_id marked in
      let q = start_log-quiet drivers fs launcher quiet dev_id marked in
      let kept =
        Keeps-trans s marked logged (with_device-Keeps dev_id change s (λ d. refl) (λ d. refl))
          q.keeps in
      let whole =
        with_device-other dev_id 8 change s (other drivers fs launcher quiet dev_id small) in
      let (t, e, ready_t) =
        mount_blob_lem update logged nested (Keeps-IsReady s logged kept ready) in
      (
        t,
        simp (
          tries_blob logged (kept.blob_is dev_id ∙ storage)
              (IsFree-quiet marked logged q (IsFree-other s marked whole free)),
          e,
        ),
        ready_t,
      )

  mount_told_lem :
      (update : ℕ → S → Outcome S) (s : S)
      → Nested drivers fs launcher quiet dev_id small update
      → IsReady s
      → blob_id (s.devices dev_id).disk ≡ none
      → IsFree s
      → (t : S) × (mount_told drivers fs launcher update dev_id s ≡ done t) × IsReady t
  unfolding mount_told
  mount_told_lem update s nested ready storage free =
      let change : DeviceHandle U F → DeviceHandle U F = λ d. record d { error = false } in
      let opened = with_device dev_id change s in
      let kept = with_device-Keeps dev_id change s (λ d. refl) (λ d. refl) in
      let whole =
        with_device-other dev_id 8 change s (other drivers fs launcher quiet dev_id small) in
      let r = fs.f_mount opened (drive_path dev_id ":") in
      let q = quiet.mounts opened (drive_path dev_id ":") in
      let mounted = Keeps-trans s opened r.1 kept q.keeps in
      let (t, e, ready_t) =
        after_mount_lem update r.1 nested (Keeps-IsReady s r.1 mounted ready)
          (mounted.blob_is dev_id ∙ storage)
          (IsFree-quiet opened r.1 q (IsFree-other s opened whole free)) in
      elim (Bool-cases (r.0 == fr_ok)) [
        | inl good ↦ (t, simp (good, e), ready_t)
        | inr bad ↦ (
          mount_failed drivers fs launcher dev_id r.1,
          simp (bad),
          Keeps-IsReady s _
              (Keeps-trans s r.1 _ mounted
                (mount_failed-Keeps drivers fs launcher quiet dev_id r.1))
              ready,
        )
      ]

  pub mount_new_lem :
      (update : ℕ → S → Outcome S) (s : S)
      → Nested drivers fs launcher quiet dev_id small update
      → IsReady s
      → blob_id (s.devices dev_id).disk ≡ none
      → IsFree s
      → (t : S) × (mount_new drivers fs launcher update dev_id s ≡ done t) × IsReady t
  unfolding mount_new
  mount_new_lem update s nested ready storage free =
      let dev = s.devices dev_id in
      let (told, left, same) =
        leave_no_card_lem drivers fs launcher s (inr (quiet.listens s.world)) in
      let kept = same_devices drivers fs launcher quiet s told same in
      let (t, e, ready_t) =
        mount_told_lem update told nested (Keeps-IsReady s told kept ready)
          (kept.blob_is dev_id ∙ storage) (IsFree-other s told (ap (λ d. d 8) same) free) in
      elim (Bool-cases (dev.inserted && not dev.mounted && not dev.error)) [
        | inr stays ↦ (s, simp (stays), ready)
        | inl new ↦ (t, rw (new, left) e, ready_t)
      ]

  -- A device that is out is not mounted.
  pub mount_new_out :
      (update : ℕ → S → Outcome S) (s : S)
      → (s.devices dev_id).inserted ≡ false
      → mount_new drivers fs launcher update dev_id s ≡ done s
  unfolding mount_new
  mount_new_out update s out = simp (out)
