-- ===== src/DeviceMgr/Update.antt =====
-- DeviceMgr.cpp: `UpdateHandle`, `OpenLogFile`, `WriteToLog`, the constructor and the body of `Run`.
use ctgpr_msc.Base.{
  ℕ, zero, suc, ◌+◌, List, [], ◌∷◌, Bool, true, false, not, ◌||◌, ◌&&◌, ltb, ◌==◌, if◌then◌else◌,
  none, some,
}
use ctgpr_msc.Base.Int.{pos, eq_ℤ}
use ctgpr_msc.Base.Words.{drive_path}
use ctgpr_msc.Base.Outcome.{Outcome, done, stuck, ◌>>=◌, ◌>>◌, assert}
use ctgpr_msc.FatFs.{FatFs, fr_ok, fa_write, fa_create_always}
use ctgpr_msc.Blob.{Blob, MountError, mount, reset}
use ctgpr_msc.IpcLog.{IpcLog, Event, send_event}
use ctgpr_msc.DeviceMgr.{
  Disk, UsbDeviceHandle, LaunchError, State, Drivers, device_count, is_sd, is_usb, is_blob,
  get_blob, with_device, with_world, init_handle, is_log_enabled,
}

-- What `UpdateHandle` reaches of the rest of the program: `Blob::LaunchMainDOL`, which Blob/Launch is
-- about and which need not return, as it waits in `IPCLog::Notify`; the state of `IPCLog::sInstance` in
-- the world; and whether the build is one without NDEBUG, which keeps the code of the log file.
pub record Launcher (W U F : Type 0) : Type 0 where
  pub launch_main_dol : State W U F → ℕ → Outcome (Bool × State W U F)
  pub ipc_log : W → IpcLog
  pub with_ipc_log : IpcLog → W → W
  pub debug : Bool

unfoldable pub is_ok : MountError → Bool
is_ok MountError.ok = true
is_ok MountError.file_not_found = false
is_ok MountError.disk_error = false

unfoldable pub is_no_sd_card : LaunchError → Bool
is_no_sd_card LaunchError.ok = false
is_no_sd_card LaunchError.no_sd_card = true
is_no_sd_card LaunchError.no_ctgpr = false
is_no_sd_card LaunchError.ctgp_corrupt = false
is_no_sd_card LaunchError.sd_card_err = false

unfoldable pub code_of : LaunchError → ℕ
code_of LaunchError.ok = 0
code_of LaunchError.no_sd_card = 1
code_of LaunchError.no_ctgpr = 2
code_of LaunchError.ctgp_corrupt = 3
code_of LaunchError.sd_card_err = 4

module _ {W U F : Type 0} (drivers : Drivers W U) (fs : FatFs (State W U F) F)
    (launcher : Launcher W U F) where
  abbrev S : Type 0
  S = State W U F

  -- `DeviceMgr::OpenLogFile`
  unfoldable pub open_log_file : S → Bool × S
  open_log_file s =
      let r =
        fs.f_open s s.log_file (drive_path s.log_device ":log.txt") (fa_create_always + fa_write) in
      if not (r.ret == fr_ok)
      then (false, record r.world { log_file = r.fil })
      else (true, record r.world { log_file = r.fil; log_enabled = true })

  -- `DeviceMgr::WriteToLog`
  unfoldable pub write_to_log : List ℕ → S → S
  write_to_log str s =
      let text = fs.f_write s s.log_file str in
      let line = fs.f_write text.world text.fil (b'\n' ∷ []) in
      let synced = fs.f_sync line.world line.fil in
      if not (is_log_enabled s) then s else record synced.world { log_file = synced.fil }

  -- The update of `inserted`, `error` and `m_somethingInserted` that `UpdateHandle` starts with.
  unfoldable pub refresh : ℕ → S → S
  refresh dev_id s =
      let sd = is_sd (s.devices dev_id).disk in
      let card = drivers.sd_is_inserted s.world in
      let inserted = if sd then card.0 else (s.devices dev_id).inserted in
      let blob = is_blob (s.devices dev_id).disk in
      let seen =
        with_device dev_id
          (λ dev. record dev { inserted = inserted; error = inserted && dev.error })
          (if sd then with_world card.1 s else s) in
      record seen { something_inserted = (inserted && not blob) || s.something_inserted }

  unfoldable pub stop_log : Disk U F → S → S
  stop_log disk s =
      if launcher.debug && s.log_enabled && is_sd disk
      then record s { log_enabled = false; log_device = device_count }
      else s

  unfoldable pub reset_blob : S → Outcome S
  reset_blob t = do
    b ← get_blob (t.devices 8).disk
    done (with_device 8 (λ dev. record dev { disk = Disk.blob_disk (reset fs b) }) t)

  -- After a successful unmount: a blob on the device goes too, and the slot of USB storage is freed.
  unfoldable pub after_unmount : (ℕ → S → Outcome S) → ℕ → S → Outcome S
  after_unmount update dev_id s = do
    blob ← get_blob (s.devices 8).disk
    t ←
        (if eq_ℤ blob.dev_id (pos dev_id)
          then (update 8 (with_device 8 (λ dev. record dev { inserted = false }) s) >>= reset_blob)
          else done s)
    done (
        if is_usb (t.devices dev_id).disk
        then with_device dev_id (λ dev. record dev { enabled = false }) t
        else t)

  -- The part of `UpdateHandle` for a device that is gone: whether it returned, and the state.
  unfoldable pub unmount_gone : (ℕ → S → Outcome S) → ℕ → S → Outcome (Bool × S)
  unmount_gone update dev_id s =
      let dev = s.devices dev_id in
      let cleared =
        with_device dev_id (λ d. record d { error = false; mounted = false })
          (stop_log dev.disk s) in
      let r = fs.f_unmount cleared (drive_path 0 ":") in
      if not dev.inserted && dev.mounted
      then (if not (r.0 == fr_ok)
          then done (true, with_device dev_id (λ d. record d { error = true }) r.1)
          else (after_unmount update dev_id r.1 >>= λ t. done (false, t)))
      else done (false, s)

  -- `IPCLog::SetLaunchState`: `stuck` where no request of the channel waits, so the call waits for one.
  unfoldable pub set_launch_state : W → LaunchError → Outcome W
  set_launch_state w state =
      elim (send_event (Event.launch_state (code_of state)) (launcher.ipc_log w)) [
        | none ↦ stuck
        | some log ↦ done (launcher.with_ipc_log log w)
      ]

  -- `m_launchError` leaves `NoSDCard` when a device is to be mounted.
  unfoldable pub leave_no_card : S → Outcome S
  leave_no_card s =
      if is_no_sd_card s.launch_error
      then (set_launch_state s.world LaunchError.ok >>= λ w.
          done (record s { launch_error = LaunchError.ok; world = w }))
      else done s

  unfoldable pub start_log : ℕ → S → S
  start_log dev_id s =
      if launcher.debug && not s.log_enabled && is_sd (s.devices dev_id).disk
      then (open_log_file (record s { log_device = dev_id })).1
      else s

  -- The blob of a device that was just mounted.
  unfoldable pub mount_blob : (ℕ → S → Outcome S) → ℕ → S → Outcome S
  mount_blob update dev_id s =
      let t = with_device 8 (λ dev. record dev { inserted = false }) s in
      do
        blob ← get_blob (t.devices 8).disk
        let r = mount fs t blob dev_id
        let u = with_device 8 (λ dev. record dev { disk = Disk.blob_disk r.1 }) r.2
        (if is_ok r.0
            then update 8 (with_device 8 (λ dev. record dev { inserted = true; error = false }) u)
            else done (record u { launch_error = LaunchError.no_ctgpr }))

  -- The launch of the program on the blob.
  unfoldable pub launch : ℕ → S → Outcome S
  launch dev_id s = do
    blob ← get_blob (s.devices dev_id).disk
    r ← launcher.launch_main_dol s dev_id
    done (record (with_device dev_id (λ dev. record dev { error = not r.0 }) r.1) {
      launch_error = if r.0 then LaunchError.ok else LaunchError.ctgp_corrupt;
    })

  unfoldable pub after_mount : (ℕ → S → Outcome S) → ℕ → S → Outcome S
  after_mount update dev_id s =
      let logged =
        start_log dev_id
          (with_device dev_id (λ dev. record dev { mounted = true; error = false }) s) in
      if not (is_blob (logged.devices dev_id).disk)
        && (not (logged.devices 8).inserted || (logged.devices 8).error)
      then mount_blob update dev_id logged
      else launch dev_id logged

  unfoldable pub mount_failed : ℕ → S → S
  mount_failed dev_id s =
      record (with_device dev_id
        (λ dev. record dev { error = true; enabled = not (is_usb dev.disk) && dev.enabled }) s) {
          launch_error = LaunchError.sd_card_err;
        }

  -- The mount, once the state is told.
  unfoldable pub mount_told : (ℕ → S → Outcome S) → ℕ → S → Outcome S
  mount_told update dev_id s =
      let opened = with_device dev_id (λ d. record d { error = false }) s in
      let r = fs.f_mount opened (drive_path dev_id ":") in
      if not (r.0 == fr_ok) then done (mount_failed dev_id r.1) else after_mount update dev_id r.1

  -- The part of `UpdateHandle` for a device that is there and not mounted.
  unfoldable pub mount_new : (ℕ → S → Outcome S) → ℕ → S → Outcome S
  mount_new update dev_id s =
      let dev = s.devices dev_id in
      if dev.inserted && not dev.mounted && not dev.error
      then (leave_no_card s >>= mount_told update dev_id)
      else done s

  -- `UpdateHandle`, with the call that it makes of itself as an argument.
  unfoldable pub update_body : (ℕ → S → Outcome S) → ℕ → S → Outcome S
  update_body update dev_id s =
      assert (ltb dev_id device_count)
      >> (if not (s.devices dev_id).enabled
          then done s
          else (unmount_gone update dev_id (refresh dev_id s) >>= λ r.
              if r.0 then done r.1 else mount_new update dev_id r.1))

  -- `DeviceMgr::UpdateHandle`, its calls of itself held to depth `fuel`.
  unfoldable pub update_handle : ℕ → ℕ → S → Outcome S
  update_handle zero dev_id s = stuck
  update_handle (suc fuel) dev_id s = update_body (update_handle fuel) dev_id s

  -- The handles 0 to `n - 1`, in order.
  pub update_first : ℕ → ℕ → S → Outcome S
  update_first fuel zero s = done s
  update_first fuel (suc n) s = update_first fuel n s >>= update_handle fuel n

  -- The rest of a round of `Run`, after the USB changes: all handles but the last are updated, and a
  -- new launch state is told.
  pub run_updates : ℕ → S → Outcome S
  run_updates fuel s =
      update_first fuel 8 (record s { something_inserted = false }) >>= λ t. announce (settled t)
    where
      settled : S → S
      settled t = record t {
        launch_error = if t.something_inserted then t.launch_error else LaunchError.no_sd_card;
      }

      announce : S → Outcome S
      announce t =
          if code_of t.launch_error == code_of s.launch_error
          then done t
          else (set_launch_state t.world t.launch_error >>= λ w. done (record t { world = w }))

  -- The constructor, on the memory `s` of the object, once the timer is there and the USB interface
  -- has answered: `ret` is overwritten by its answer, and the assertion stops on a failure.
  pub create : Blob F → Bool → S → Outcome S
  create blob usb_ready s = do
    assert usb_ready
    let opened = drivers.sd_open s.world
    let cleared : S = clear 9 (record s { world = opened.1; usb_devices = all_free s.usb_devices })
    let with_sd = with_device 0 (λ dev. record dev { disk = Disk.sd_card; enabled = true }) cleared
    done (with_device 8 (λ dev. record dev { disk = Disk.blob_disk blob; enabled = true }) with_sd)
    where
      all_free : List UsbDeviceHandle → List UsbDeviceHandle
      all_free [] = []
      all_free (slot ∷ slots) = record slot { in_use = false } ∷ all_free slots

      clear : ℕ → S → S
      clear zero t = t
      clear (suc n) t = init_handle n (clear n t)
