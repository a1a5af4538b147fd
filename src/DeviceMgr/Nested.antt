-- ===== src/DeviceMgr/Nested.antt =====
-- `UpdateHandle(8)`, the call that `UpdateHandle` makes of itself, returns without a further call.
use ctgpr_msc.Base.{ℕ, ◌≡◌, refl, ap, ◌∙◌, Bool, true, false, not, ◌&&◌, inl, inr, ◌==◌, Bool-cases}
use ctgpr_msc.Base.Int.{pos, eq_ℤ}
use ctgpr_msc.Base.Words.{drive_path}
use ctgpr_msc.Base.Outcome.{Outcome, done}
use ctgpr_msc.FatFs.{FatFs, fr_ok}
use ctgpr_msc.DeviceMgr.{DeviceHandle, State, Drivers, is_usb, with_device}
use ctgpr_msc.DeviceMgr.Update.{
  Launcher, refresh, stop_log, after_unmount, unmount_gone, start_log, after_mount, mount_told,
  mount_failed, mount_new, update_body,
}
use ctgpr_msc.DeviceMgr.Slots.{
  blob_id, is_blob-blob_id, not_sd-blob_id, get_blob-blob_id, Keeps, Keeps-refl, Keeps-trans,
  with_device-field, with_device-Keeps, IsQuietLibrary, leave_no_card_lem, IsReady, Keeps-IsReady,
}
use ctgpr_msc.DeviceMgr.Steps.{
  start_log-quiet, same_devices, stop_log-devices, launch_lem, flagged-Keeps, mount_failed-Keeps,
}

module _ {W U F : Type 0} (drivers : Drivers W U) (fs : FatFs (State W U F) F)
    (launcher : Launcher W U F) (quiet : IsQuietLibrary fs launcher) where
  abbrev S : Type 0
  S = State W U F

  -- The blob's own handle has no blob on it.
  after_unmount_blob :
      (update : ℕ → S → Outcome S) (s : S)
      → IsReady s
      → (t : S) × (after_unmount drivers fs launcher update 8 s ≡ done t) × Keeps s t
  unfolding after_unmount
  after_unmount_blob update s ready =
      let (b, got, e) = get_blob-blob_id (s.devices 8).disk ready.0 ready.1 in
      let elsewhere : eq_ℤ b.dev_id (pos 8) ≡ false = ap (λ z. eq_ℤ z (pos 8)) e ∙ ready.2 in
      elim (Bool-cases (is_usb (s.devices 8).disk)) [
        | inl usb ↦ (
          with_device 8 (λ dev. record dev { enabled = false }) s,
          rw got (rw elsewhere (rw usb)),
          with_device-Keeps 8 (λ dev. record dev { enabled = false }) s (λ d. refl) (λ d. refl),
        )
        | inr other ↦ (s, rw got (rw elsewhere (rw other)), Keeps-refl s)
      ]

  unmount_blob :
      (update : ℕ → S → Outcome S) (s : S)
      → IsReady s
      → (r : Bool × S) × (unmount_gone drivers fs launcher update 8 s ≡ done r) × Keeps s r.1
  unfolding unmount_gone
  unmount_blob update s ready =
      let dev = s.devices 8 in
      let logged = stop_log drivers fs launcher dev.disk s in
      let cleared = with_device 8 (λ d. record d { error = false; mounted = false }) logged in
      let kept =
        flagged-Keeps drivers fs launcher quiet 8 (λ d. record d { error = false; mounted = false })
          s logged (stop_log-devices drivers fs launcher quiet dev.disk s) (λ d. refl)
          (λ d. refl) in
      let r = fs.f_unmount cleared (drive_path 0 ":") in
      let unmounted =
        Keeps-trans s cleared r.1 kept (quiet.unmounts cleared (drive_path 0 ":")).keeps in
      elim (Bool-cases (not dev.inserted && dev.mounted)) [
        | inr stays ↦ ((false, s), simp (stays), Keeps-refl s)
        | inl gone ↦ elim (Bool-cases (r.0 == fr_ok)) [
          | inr bad ↦ (
            (true, with_device 8 (λ d. record d { error = true }) r.1),
            simp (gone, bad),
            Keeps-trans s r.1 _ unmounted
                (with_device-Keeps 8 (λ d. record d { error = true }) r.1 (λ d. refl) (λ d. refl)),
          )
          | inl good ↦
              let (t, e, k) = after_unmount_blob update r.1 (Keeps-IsReady s r.1 unmounted ready) in
              ((false, t), simp (gone, good, e), Keeps-trans s r.1 t unmounted k)
        ]
      ]

  -- Mounting the blob's own drive leads to the launch.
  after_mount_blob :
      (update : ℕ → S → Outcome S) (s : S)
      → IsReady s
      → (t : S) × (after_mount drivers fs launcher update 8 s ≡ done t) × Keeps s t
  unfolding after_mount
  after_mount_blob update s ready =
      let change : DeviceHandle U F → DeviceHandle U F =
        λ dev. record dev { mounted = true; error = false } in
      let marked = with_device 8 change s in
      let logged = start_log drivers fs launcher 8 marked in
      let kept =
        Keeps-trans s marked logged (with_device-Keeps 8 change s (λ d. refl) (λ d. refl))
          (start_log-quiet drivers fs launcher quiet 8 marked).keeps in
      let there = Keeps-IsReady s logged kept ready in
      let (t, e, k) = launch_lem drivers fs launcher quiet 8 logged there.0 there.1 in
      (
        t,
        simp (is_blob-blob_id (logged.devices 8).disk there.0 there.1, e),
        Keeps-trans s logged t kept k,
      )

  mount_told_blob :
      (update : ℕ → S → Outcome S) (s : S)
      → IsReady s
      → (t : S) × (mount_told drivers fs launcher update 8 s ≡ done t) × Keeps s t
  unfolding mount_told
  mount_told_blob update s ready =
      let change : DeviceHandle U F → DeviceHandle U F = λ d. record d { error = false } in
      let opened = with_device 8 change s in
      let kept = with_device-Keeps 8 change s (λ d. refl) (λ d. refl) in
      let r = fs.f_mount opened (drive_path 8 ":") in
      let mounted = Keeps-trans s opened r.1 kept (quiet.mounts opened (drive_path 8 ":")).keeps in
      elim (Bool-cases (r.0 == fr_ok)) [
        | inr bad ↦ (
          mount_failed drivers fs launcher 8 r.1,
          simp (bad),
          Keeps-trans s r.1 _ mounted (mount_failed-Keeps drivers fs launcher quiet 8 r.1),
        )
        | inl good ↦
            let (t, e, k) = after_mount_blob update r.1 (Keeps-IsReady s r.1 mounted ready) in
            (t, simp (good, e), Keeps-trans s r.1 t mounted k)
      ]

  mount_new_blob :
      (update : ℕ → S → Outcome S) (s : S)
      → IsReady s
      → (t : S) × (mount_new drivers fs launcher update 8 s ≡ done t) × Keeps s t
  unfolding mount_new
  mount_new_blob update s ready =
      let dev = s.devices 8 in
      let (told, left, same) =
        leave_no_card_lem drivers fs launcher s (inr (quiet.listens s.world)) in
      let kept = same_devices drivers fs launcher quiet s told same in
      let (t, e, k) = mount_told_blob update told (Keeps-IsReady s told kept ready) in
      elim (Bool-cases (dev.inserted && not dev.mounted && not dev.error)) [
        | inr stays ↦ (s, simp (stays), Keeps-refl s)
        | inl new ↦ (t, rw (new, left) e, Keeps-trans s told t kept k)
      ]

  refresh_blob : (s : S) → IsReady s → Keeps s (refresh drivers fs launcher 8 s)
  unfolding refresh
  refresh_blob s ready =
      let dev = s.devices 8 in
      let change : DeviceHandle U F → DeviceHandle U F =
        λ d. record d { inserted = dev.inserted; error = dev.inserted && d.error } in
      simp (not_sd-blob_id dev.disk ready.0 ready.1) (record {
        inserted_is = λ j. with_device-field (λ d. d.inserted) 8 j change s refl;
        blob_is = λ j. with_device-field (λ d. blob_id d.disk) 8 j change s refl;
      })

  -- The nested call returns, and takes nothing out of the table.
  pub update_blob :
      (update : ℕ → S → Outcome S) (s : S)
      → IsReady s
      → (t : S) × (update_body drivers fs launcher update 8 s ≡ done t) × Keeps s t
  unfolding update_body
  update_blob update s ready =
      let fresh = refresh drivers fs launcher 8 s in
      let kept = refresh_blob s ready in
      let (r, gone, k) = unmount_blob update fresh (Keeps-IsReady s fresh kept ready) in
      let so_far = Keeps-trans s fresh r.1 kept k in
      let (t, new, k') = mount_new_blob update r.1 (Keeps-IsReady s r.1 so_far ready) in
      elim (Bool-cases (s.devices 8).enabled) [
        | inr off ↦ (s, simp (off), Keeps-refl s)
        | inl on ↦ elim (Bool-cases r.0) [
          | inl returned ↦ (r.1, simp (on, gone, returned), so_far)
          | inr goes_on ↦ (t, simp (on, gone, goes_on, new), Keeps-trans s r.1 t so_far k')
        ]
      ]
