-- ===== src/DeviceMgr/Steps.antt =====
-- What the steps of `UpdateHandle` leave in the table: the log file, the launch and the flags.
use ctgpr_msc.Base.{
  ℕ, ◌≡◌, refl, ap, ◌∙◌, true, not, ◌&&◌, inl, inr, ◌==◌, Bool-cases, if◌then◌else◌, some,
}
use ctgpr_msc.Base.Int.{ℤ}
use ctgpr_msc.Base.Words.{drive_path}
use ctgpr_msc.Base.Outcome.{done}
use ctgpr_msc.FatFs.{FatFs, fr_ok}
use ctgpr_msc.DeviceMgr.{
  Disk, DeviceHandle, State, Drivers, LaunchError, is_sd, is_usb, with_device,
}
use ctgpr_msc.DeviceMgr.Update.{Launcher, stop_log, start_log, launch, mount_failed, open_log_file}
use ctgpr_msc.DeviceMgr.Slots.{
  blob_id, get_blob-blob_id, Keeps, Keeps-refl, Keeps-trans, with_device-Keeps, IsQuiet,
  IsQuietLibrary,
}

module _ {W U F : Type 0} (drivers : Drivers W U) (fs : FatFs (State W U F) F)
    (launcher : Launcher W U F) (quiet : IsQuietLibrary fs launcher) where
  abbrev S : Type 0
  S = State W U F

  -- A change of the other members keeps the table.
  pub same_devices : (s t : S) → t.devices ≡ s.devices → Keeps s t
  same_devices s t e = record {
    inserted_is = λ i. ap (λ d. (d i).inserted) e;
    blob_is = λ i. ap (λ d. blob_id (d i).disk) e;
  }

  open_log_file-quiet : (s : S) → IsQuiet s (open_log_file drivers fs launcher s).1
  unfolding open_log_file
  open_log_file-quiet s =
      let path = drive_path s.log_device ":log.txt" in
      let q = quiet.opens s s.log_file path 10 in
      elim (Bool-cases ((fs.f_open s s.log_file path 10).ret == fr_ok)) [
        | inl good ↦ simp (good) (record {
          keeps = record { inserted_is = q.keeps.inserted_is; blob_is = q.keeps.blob_is };
          error_stays = q.error_stays;
        })
        | inr bad ↦ simp (bad) (record {
          keeps = record { inserted_is = q.keeps.inserted_is; blob_is = q.keeps.blob_is };
          error_stays = q.error_stays;
        })
      ]

  pub start_log-quiet : (i : ℕ) (s : S) → IsQuiet s (start_log drivers fs launcher i s)
  unfolding start_log
  start_log-quiet i s =
      elim (Bool-cases (launcher.debug && not s.log_enabled && is_sd (s.devices i).disk)) [
        | inl starts ↦
            let q = open_log_file-quiet (record s { log_device = i }) in
            simp (starts) (record {
              keeps = record { inserted_is = q.keeps.inserted_is; blob_is = q.keeps.blob_is };
              error_stays = q.error_stays;
            })
        | inr not_now ↦ simp (not_now) (record { keeps = Keeps-refl s; error_stays = λ j h. h })
      ]

  pub stop_log-devices :
      (d : Disk U F) (s : S) → (stop_log drivers fs launcher d s).devices ≡ s.devices
  unfolding stop_log
  stop_log-devices d s = elim (Bool-cases (launcher.debug && s.log_enabled && is_sd d)) [
    | inl stops ↦ simp (stops)
    | inr goes_on ↦ simp (goes_on)
  ]

  -- The launch returns on a slot that holds a blob.
  pub launch_lem :
      (i : ℕ) (s : S) (z : ℤ)
      → blob_id (s.devices i).disk ≡ some z
      → (t : S) × (launch drivers fs launcher i s ≡ done t) × Keeps s t
  unfolding launch
  launch_lem i s z h =
      let (b, got, e) = get_blob-blob_id (s.devices i).disk z h in
      let (r, launched, q) = quiet.launches s i in
      let flagged = with_device i (λ dev. record dev { error = not r.0 }) r.1 in
      let kept =
        with_device-Keeps i (λ dev. record dev { error = not r.0 }) r.1 (λ d. refl) (λ d. refl) in
      (
        record flagged { launch_error = if r.0 then LaunchError.ok else LaunchError.ctgp_corrupt },
        rw got (rw launched),
        record {
          inserted_is = λ j. kept.inserted_is j ∙ q.keeps.inserted_is j;
          blob_is = λ j. kept.blob_is j ∙ q.keeps.blob_is j;
        },
      )

  -- A slot that is flagged, and the change of the other members before it.
  pub flagged-Keeps :
      (i : ℕ) (change : DeviceHandle U F → DeviceHandle U F) (s t : S)
      → t.devices ≡ s.devices
      → ((d : DeviceHandle U F) → (change d).inserted ≡ d.inserted)
      → ((d : DeviceHandle U F) → blob_id (change d).disk ≡ blob_id d.disk)
      → Keeps s (with_device i change t)
  flagged-Keeps i change s t e hi hd =
      Keeps-trans s t _ (same_devices s t e) (with_device-Keeps i change t hi hd)

  pub mount_failed-Keeps : (i : ℕ) (s : S) → Keeps s (mount_failed drivers fs launcher i s)
  unfolding mount_failed
  mount_failed-Keeps i s =
      let k =
        with_device-Keeps i
          (λ dev. record dev { error = true; enabled = not (is_usb dev.disk) && dev.enabled }) s
          (λ d. refl) (λ d. refl) in
      record { inserted_is = k.inserted_is; blob_is = k.blob_is }
