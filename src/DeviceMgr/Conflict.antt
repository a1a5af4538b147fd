-- ===== src/DeviceMgr/Conflict.antt =====
-- `UpdateHandle` on a second storage device while the blob of the first is in use.
use ctgpr_msc.Base.{
  ℕ, suc, ◌≡◌, ◌≢◌, ◌<◌, refl, sym, ap, ◌∙◌, Bool, true, false, not, ◌&&◌, arith, lt→ltb, ==_iff,
  ◌⊎◌,
}
use ctgpr_msc.Base.Words.{drive_path}
use ctgpr_msc.Base.Outcome.{Outcome, fault}
use ctgpr_msc.FatFs.{FatFs, fr_ok}
use ctgpr_msc.DeviceMgr.{Disk, DeviceHandle, State, Drivers, is_blob, is_sd, get_blob, with_device}
use ctgpr_msc.DeviceMgr.Slots.{with_device-field, with_device-other, IsListening, leave_no_card_lem}
use ctgpr_msc.DeviceMgr.Update.{
  Launcher, refresh, unmount_gone, start_log, launch, after_mount, mount_told, mount_new,
  update_body, update_handle, is_no_sd_card,
}

no_and : (b : Bool) → b && false ≡ false
no_and true = refl
no_and false = refl

module _ {W U F : Type 0} (drivers : Drivers W U) (fs : FatFs (State W U F) F)
    (launcher : Launcher W U F) (dev_id : ℕ) (small : dev_id < 8) (u : U) where
  abbrev S : Type 0
  S = State W U F

  -- USB storage that was just plugged in.
  abbrev new_usb : DeviceHandle U F
  new_usb = record {
    disk = Disk.usb_storage u;
    enabled = true;
    inserted = true;
    error = false;
    mounted = false;
  }

  -- The blob of another device is in use.
  pub record IsConflict (s : S) : Type 0 where
    pub slot : s.devices dev_id ≡ new_usb
    pub in_use : (s.devices 8).inserted ≡ true
    pub good : (s.devices 8).error ≡ false

  launch_faults :
      (s : S)
      → (s.devices dev_id).disk ≡ Disk.usb_storage u
      → launch drivers fs launcher dev_id s ≡ fault
  unfolding launch get_blob
  launch_faults s h = rw h

  other : 8 ≢ dev_id
  other e = absurd (omega arith)

  start_log_usb :
      (s : S) → is_sd (s.devices dev_id).disk ≡ false → start_log drivers fs launcher dev_id s ≡ s
  unfolding start_log
  start_log_usb s h = rw (h, no_and (launcher.debug && not s.log_enabled))

  after_mount_faults :
      (update : ℕ → S → Outcome S) (s : S)
      → IsConflict s
      → after_mount drivers fs launcher update dev_id s ≡ fault
  unfolding after_mount is_sd is_blob
  after_mount_faults update s c =
      let change : DeviceHandle U F → DeviceHandle U F =
        λ d. record d { mounted = true; error = false } in
      let marked = with_device dev_id change s in
      let disk_is : (marked.devices dev_id).disk ≡ Disk.usb_storage u =
        with_device-field (λ d. d.disk) dev_id dev_id change s refl ∙ ap (λ d. d.disk) c.slot in
      let whole = with_device-other dev_id 8 change s other in
      simp
        (
          start_log_usb marked (ap is_sd disk_is),
          ap is_blob disk_is,
          ap (λ d. d.inserted) whole ∙ c.in_use,
          ap (λ d. d.error) whole ∙ c.good,
        )
        (launch_faults marked disk_is)

  -- The library mounts the new device at once, and leaves the table as it is.
  abbrev pub IsLazyMount : Type 0
  IsLazyMount =
      (s : S)
      → ((fs.f_mount s (drive_path dev_id ":")).0 ≡ fr_ok)
        × ((fs.f_mount s (drive_path dev_id ":")).1.devices ≡ s.devices)

  IsConflict-devices : (s t : S) → t.devices ≡ s.devices → IsConflict s → IsConflict t
  IsConflict-devices s t e c = record {
    slot = ap (λ d. d dev_id) e ∙ c.slot;
    in_use = ap (λ d. (d 8).inserted) e ∙ c.in_use;
    good = ap (λ d. (d 8).error) e ∙ c.good;
  }

  -- A change that leaves the new slot as it is.
  IsConflict-with_device :
      (change : DeviceHandle U F → DeviceHandle U F) (s : S)
      → change new_usb ≡ new_usb
      → IsConflict s
      → IsConflict (with_device dev_id change s)
  IsConflict-with_device change s h c =
      let whole = with_device-other dev_id 8 change s other in
      record {
        slot =
            with_device-field (λ d. d) dev_id dev_id change s (ap change c.slot ∙ h ∙ sym c.slot)
            ∙ c.slot;
        in_use = ap (λ d. d.inserted) whole ∙ c.in_use;
        good = ap (λ d. d.error) whole ∙ c.good;
      }

  mount_told_faults :
      (update : ℕ → S → Outcome S) (s : S)
      → IsLazyMount
      → IsConflict s
      → mount_told drivers fs launcher update dev_id s ≡ fault
  unfolding mount_told
  mount_told_faults update s lazy c =
      let change : DeviceHandle U F → DeviceHandle U F = λ d. record d { error = false } in
      let opened = with_device dev_id change s in
      let r = fs.f_mount opened (drive_path dev_id ":") in
      let here = IsConflict-with_device change s refl c in
      simp ((==_iff r.0 fr_ok).1 (lazy opened).0)
        (after_mount_faults update r.1 (IsConflict-devices opened r.1 (lazy opened).1 here))

  -- No launch state is to be told, or a request of the channel waits for it.
  abbrev pub CanTell : S → Type 0
  CanTell s = (is_no_sd_card s.launch_error ≡ false) ⊎ IsListening launcher s.world

  mount_new_faults :
      (update : ℕ → S → Outcome S) (s : S)
      → IsLazyMount
      → IsConflict s
      → CanTell s
      → mount_new drivers fs launcher update dev_id s ≡ fault
  unfolding mount_new
  mount_new_faults update s lazy c can =
      let (told, left, same) = leave_no_card_lem drivers fs launcher s can in
      simp (ap (λ d. d.inserted) c.slot, ap (λ d. d.mounted) c.slot, ap (λ d. d.error) c.slot, left)
        (mount_told_faults update told lazy (IsConflict-devices s told same c))

  refresh-IsConflict : (s : S) → IsConflict s → IsConflict (refresh drivers fs launcher dev_id s)
  unfolding refresh is_sd
  refresh-IsConflict s c =
      let change : DeviceHandle U F → DeviceHandle U F =
        λ d. record d { inserted = true; error = true && d.error } in
      simp (ap (λ d. is_sd d.disk) c.slot, ap (λ d. d.inserted) c.slot)
        (IsConflict-devices (with_device dev_id change s) _ refl
          (IsConflict-with_device change s refl c))

  refresh-CanTell :
      (s : S) → IsConflict s → CanTell s → CanTell (refresh drivers fs launcher dev_id s)
  unfolding refresh is_sd with_device
  refresh-CanTell s c can = simp (ap (λ d. is_sd d.disk) c.slot) can

  -- USB storage that is plugged in while the blob of another device is in use stops the manager, unless
  -- it waits for a request of the channel to tell that there is a device: the
  -- device is mounted, where the library does so without a call back, and then `std::get<Blob>` is
  -- called on it, which holds no blob.
  pub update_handle-faults :
      (fuel : ℕ) (s : S)
      → IsLazyMount
      → IsConflict s
      → CanTell s
      → update_handle drivers fs launcher (suc fuel) dev_id s ≡ fault
  unfolding update_handle update_body unmount_gone
  update_handle-faults fuel s lazy c can =
      let fresh = refresh drivers fs launcher dev_id s in
      let there = refresh-IsConflict s c in
      simp
        (lt→ltb dev_id 9 (omega arith), ap (λ d. d.enabled) c.slot, ap (λ d. d.inserted) there.slot)
        (mount_new_faults (update_handle drivers fs launcher fuel) fresh lazy there
          (refresh-CanTell s c can))
