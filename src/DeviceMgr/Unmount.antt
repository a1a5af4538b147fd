-- ===== src/DeviceMgr/Unmount.antt =====
-- The unmount of a storage device in `UpdateHandle`, with the blob on it.
use ctgpr_msc.Base.{
  ℕ, ◌≡◌, ◌≢◌, ◌<◌, refl, sym, ap, ◌∙◌, Bool, true, false, not, ◌&&◌, inl, inr, ◌⊎◌, arith, ◌==◌,
  Bool-cases, if◌then◌else◌,
}
use ctgpr_msc.Base.Int.{ℤ, pos, negsuc, eq_ℤ}
use ctgpr_msc.Base.Words.{drive_path}
use ctgpr_msc.Base.Outcome.{Outcome, done}
use ctgpr_msc.FatFs.{FatFs, fr_ok}
use ctgpr_msc.Blob.{reset}
use ctgpr_msc.DeviceMgr.{Disk, DeviceHandle, State, Drivers, is_usb, with_device}
use ctgpr_msc.DeviceMgr.Update.{Launcher, stop_log, reset_blob, after_unmount, unmount_gone}
use ctgpr_msc.DeviceMgr.Slots.{
  blob_id, get_blob-blob_id, Keeps, Keeps-trans, with_device-field, with_device-other,
  IsQuietLibrary, IsReady, Keeps-IsReady,
}
use ctgpr_msc.DeviceMgr.Steps.{stop_log-devices, flagged-Keeps}

module _ {W U F : Type 0} (drivers : Drivers W U) (fs : FatFs (State W U F) F)
    (launcher : Launcher W U F) (quiet : IsQuietLibrary fs launcher) (dev_id : ℕ)
    (small : dev_id < 8) where
  abbrev S : Type 0
  S = State W U F

  pub other : 8 ≢ dev_id
  other e = absurd (omega arith)

  -- A change of a storage device's slot leaves the blob's slot whole.
  pub IsReady-with_device :
      (change : DeviceHandle U F → DeviceHandle U F) (s : S)
      → IsReady s
      → IsReady (with_device dev_id change s)
  IsReady-with_device change s ready = (
    ready.0,
    ap (λ d. blob_id d.disk) (with_device-other dev_id 8 change s other) ∙ ready.1,
    ready.2,
  )

  abbrev pub Handle : Type 0
  Handle = DeviceHandle U F

  -- A blob that is mounted on a storage device, or on none, is not mounted on itself.
  pub not_itself : (z : ℤ) → (z ≡ negsuc 0) ⊎ (z ≡ pos dev_id) → eq_ℤ z (pos 8) ≡ false
  not_itself z (inl e) = ap (λ k. eq_ℤ k (pos 8)) e
  not_itself z (inr e) =
      let far : (dev_id == 8) ≡ false = ground arith in ap (λ k. eq_ℤ k (pos 8)) e ∙ far

  -- A call for the blob's handle that returns.
  abbrev pub Nested : (ℕ → S → Outcome S) → Type 0
  Nested update = (s : S) → IsReady s → (t : S) × (update 8 s ≡ done t) × Keeps s t

  -- The blob's slot after a change of its flags.
  pub IsReady-flags :
      (change : Handle → Handle) (s : S)
      → ((d : Handle) → blob_id (change d).disk ≡ blob_id d.disk)
      → IsReady s
      → IsReady (with_device 8 change s)
  IsReady-flags change s h ready = (
    ready.0,
    with_device-field (λ d. blob_id d.disk) 8 8 change s (h (s.devices 8)) ∙ ready.1,
    ready.2,
  )

  pub elsewhere :
      (change : Handle → Handle) (s : S)
      → (with_device 8 change s).devices dev_id ≡ s.devices dev_id
  elsewhere change s = with_device-other 8 dev_id change s (λ e. other (sym e))

  reset_blob_lem :
      (s : S)
      → IsReady s
      → (t : S) × (reset_blob drivers fs launcher s ≡ done t)
        × IsReady t
        × ((t.devices dev_id).inserted ≡ (s.devices dev_id).inserted)
  unfolding reset_blob reset blob_id with_device
  reset_blob_lem s ready =
      let (b, got, e) = get_blob-blob_id (s.devices 8).disk ready.0 ready.1 in
      let change : Handle → Handle = λ d. record d { disk = Disk.blob_disk (reset fs b) } in
      (
        with_device 8 change s,
        rw got,
        (negsuc 0, refl, refl),
        ap (λ d. d.inserted) (elsewhere change s),
      )

  -- The state once the slot of USB storage is free.
  abbrev freed : S → S
  freed s =
      if is_usb (s.devices dev_id).disk
      then with_device dev_id (λ d. record d { enabled = false }) s
      else s

  free_slot_lem :
      (s : S)
      → IsReady s
      → IsReady (freed s) × (((freed s).devices dev_id).inserted ≡ (s.devices dev_id).inserted)
  free_slot_lem s ready =
      let off : Handle → Handle = λ d. record d { enabled = false } in
      elim (Bool-cases (is_usb (s.devices dev_id).disk)) [
        | inr keeps ↦ simp (keeps) (ready, refl)
        | inl usb ↦ simp (usb) (
          IsReady-with_device off s ready,
          with_device-field (λ d. d.inserted) dev_id dev_id off s refl,
        )
      ]

  after_unmount_lem :
      (update : ℕ → S → Outcome S) (s : S)
      → Nested update
      → IsReady s
      → (t : S) × (after_unmount drivers fs launcher update dev_id s ≡ done t)
        × IsReady t
        × ((t.devices dev_id).inserted ≡ (s.devices dev_id).inserted)
  unfolding after_unmount
  after_unmount_lem update s nested ready =
      let (b, got, e) = get_blob-blob_id (s.devices 8).disk ready.0 ready.1 in
      let out : Handle → Handle = λ d. record d { inserted = false } in
      let gone = with_device 8 out s in
      let (t, updated, k) = nested gone (IsReady-flags out s (λ d. refl) ready) in
      let (u, reset, ready', same) =
        reset_blob_lem t (Keeps-IsReady gone t k (IsReady-flags out s (λ d. refl) ready)) in
      let inserted_is = same ∙ k.inserted_is dev_id ∙ ap (λ d. d.inserted) (elsewhere out s) in
      elim (Bool-cases (eq_ℤ b.dev_id (pos dev_id))) [
        | inr apart ↦
            let (ready_s, same_s) = free_slot_lem s ready in
            (freed s, rw got (rw apart), ready_s, same_s)
        | inl on_it ↦
            let (ready_u, same_u) = free_slot_lem u ready' in
            (freed u, rw got (rw (on_it, updated) (rw reset)), ready_u, same_u ∙ inserted_is)
      ]

  -- What the first part leaves: it returned, or the device is out, or nothing was done.
  pub record IsUnmounted (s : S) (r : Bool × S) : Type 0 where
    pub is_ready : IsReady r.1
    pub next : (r.0 ≡ true) ⊎ (((r.1.devices dev_id).inserted ≡ false) ⊎ (r.1 ≡ s))

  pub unmount_gone_lem :
      (update : ℕ → S → Outcome S) (s : S)
      → Nested update
      → IsReady s
      → (r : Bool × S) × (unmount_gone drivers fs launcher update dev_id s ≡ done r)
        × IsUnmounted s r
  unfolding unmount_gone
  unmount_gone_lem update s nested ready =
      let dev = s.devices dev_id in
      let change : Handle → Handle = λ d. record d { error = false; mounted = false } in
      let logged = stop_log drivers fs launcher dev.disk s in
      let cleared = with_device dev_id change logged in
      let kept =
        flagged-Keeps drivers fs launcher quiet dev_id change s logged
          (stop_log-devices drivers fs launcher quiet dev.disk s) (λ d. refl) (λ d. refl) in
      let r = fs.f_unmount cleared (drive_path 0 ":") in
      let unmounted =
        Keeps-trans s cleared r.1 kept (quiet.unmounts cleared (drive_path 0 ":")).keeps in
      let ready' = Keeps-IsReady s r.1 unmounted ready in
      let bad_mark : Handle → Handle = λ d. record d { error = true } in
      let (t, e, ready_t, same) = after_unmount_lem update r.1 nested ready' in
      elim (Bool-cases (not dev.inserted && dev.mounted)) [
        | inr stays ↦ ((false, s), simp (stays), record { is_ready = ready; next = inr (inr refl) })
        | inl gone ↦ elim (Bool-cases (r.0 == fr_ok)) [
          | inr bad ↦ (
            (true, with_device dev_id bad_mark r.1),
            simp (gone, bad),
            record { is_ready = IsReady-with_device bad_mark r.1 ready'; next = inl refl },
          )
          | inl good ↦ (
            (false, t),
            simp (gone, good, e),
            record {
              is_ready = ready_t;
              next =
                  inr
                    (inl (same ∙ unmounted.inserted_is dev_id ∙ out dev.inserted dev.mounted gone));
            },
          )
        ]
      ]
    where
      out : (a b : Bool) → not a && b ≡ true → a ≡ false
      out true b h = absurd (cc (h))
      out false b h = refl
