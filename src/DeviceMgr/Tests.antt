-- ===== src/DeviceMgr/Tests.antt =====
-- Drivers that answer at once, a table with an SD card, USB storage and the blob, and instances of the
-- theorems on the device manager.
use ctgpr_msc.Base.{
  ℕ, List, ◌≡◌, refl, [], ◌∷◌, Bool, true, false, inl, inr, ◌⊎◌, arith, ◌==◌, if◌then◌else◌, none,
}
use ctgpr_msc.Base.Int.{pos, negsuc}
use ctgpr_msc.Base.Outcome.{done, fault}
use ctgpr_msc.Aes.{Engine}
use ctgpr_msc.FatFs.{FatFs}
use ctgpr_msc.Blob.{initial_cache}
use ctgpr_msc.DeviceMgr.{
  Disk, DeviceHandle, LaunchError, State, Drivers, is_refused, is_blob, device_init, device_read,
  device_write, with_device, set_error, with_world, checked, read_disk, reply,
}
use ctgpr_msc.IpcLog.{IpcLog}
use ctgpr_msc.DeviceMgr.Update.{Launcher, update_handle}
use ctgpr_msc.DeviceMgr.Slots.{IsQuietLibrary, Keeps-refl, IsQuiet, IsReady, blob_id}
use ctgpr_msc.DeviceMgr.Latch.{failed-latches}
use ctgpr_msc.DeviceMgr.Returns.{update_handle-returns}
use ctgpr_msc.DeviceMgr.Conflict.{update_handle-faults}

abbrev pub S : Type 0
S = State (Unit {0}) (Unit {0}) (Unit {0})

-- The card is there, and its sectors cannot be read.
abbrev pub drivers : Drivers (Unit {0}) (Unit {0})
drivers = record {
  sd_open = λ w. (true, w);
  sd_startup = λ w. (true, w);
  sd_is_inserted = λ w. (true, w);
  sd_read_sectors =
      λ w sector count buffer. record { good = false; buffer = buffer; disk = tt; world = w };
  sd_write_sectors = λ w sector count bytes. (false, w);
  usb_init = λ w u. (true, u, w);
  usb_read_sectors =
      λ w u sector count buffer. record { good = true; buffer = buffer; disk = u; world = w };
  usb_write_sectors = λ w u sector count bytes. (true, u, w);
}

abbrev pub library : {W : Type 0} → FatFs W (Unit {0})
library = record {
  empty_fil = tt;
  f_open = λ s f path mode. record { ret = 0; fil = f; world = s };
  f_close = λ s f. record { ret = 0; fil = f; world = s };
  f_lseek = λ s f to. record { ret = 0; fil = f; world = s };
  f_read = λ s f n. record { ret = 0; bytes = []; fil = f; world = s };
  f_write = λ s f xs. record { ret = 0; fil = f; world = s };
  f_sync = λ s f. record { ret = 0; fil = f; world = s };
  f_mount = λ s path. (0, s);
  f_unmount = λ s path. (0, s);
}

abbrev pub engine : {W : Type 0} → Engine W
engine = record {
  encrypt = λ s key iv xs. record { ret = pos 0; output = xs; iv = iv; world = s };
  decrypt = λ s key iv xs. record { ret = pos 0; output = xs; iv = iv; world = s };
}

-- A request of the channel that waits: whenever one is answered, the channel sends the next.
abbrev listening : IpcLog
listening = record {
  ipc_log_enabled = true;
  response_queue = 0 ∷ [];
  start_request_queue = 0;
  dol_addr = 0;
  dol_size = 0;
  time = none;
  answers = [];
}

abbrev launcher : Launcher (Unit {0}) (Unit {0}) (Unit {0})
launcher = record {
  launch_main_dol = λ s dev_id. done (true, s);
  ipc_log = λ w. listening;
  with_ipc_log = λ log w. w;
  debug = true;
}

quiet : (s : S) → IsQuiet s s
quiet s = record { keeps = Keeps-refl s; error_stays = λ i h. h }

library-IsQuiet : IsQuietLibrary library launcher
library-IsQuiet = record {
  opens = λ s f path mode. quiet s;
  closes = λ s f. quiet s;
  mounts = λ s path. quiet s;
  unmounts = λ s path. quiet s;
  launches = λ s dev_id. ((true, s), refl, quiet s);
  listens = λ w. (0, [], refl);
}

abbrev slot : Disk (Unit {0}) (Unit {0}) → Bool → DeviceHandle (Unit {0}) (Unit {0})
slot disk inserted = record {
  disk = disk;
  enabled = true;
  inserted = inserted;
  error = false;
  mounted = false;
}

-- A card in slot 0, USB storage in slot 1, and the blob in slot 8, in use or not.
abbrev pub table : Bool → S
table in_use = record {
  devices = λ i.
      if i == 0
      then slot Disk.sd_card true
      else if i == 1
      then slot (Disk.usb_storage tt) true
      else if i == 8
      then slot (Disk.blob_disk (record { fil = tt; dev_id = negsuc 0; opened = false })) in_use
      else slot Disk.null_device false;
  usb_devices = [];
  log_enabled = false;
  log_device = 9;
  log_file = tt;
  launch_error = LaunchError.no_sd_card;
  something_inserted = false;
  cache = initial_cache;
  world = tt;
}

update_handle-returns_example :
    (t : S) × (update_handle drivers library launcher 2 0 (table false) ≡ done t) × IsReady t
unfolding blob_id
update_handle-returns_example =
    update_handle-returns drivers library launcher library-IsQuiet 0 (omega arith) 0 (table false)
      (negsuc 0, refl, refl) refl (inl refl)

update_handle-faults_example : update_handle drivers library launcher 3 1 (table true) ≡ fault
update_handle-faults_example =
    update_handle-faults drivers library launcher 1 (omega arith) tt 2 (table true)
      (λ s. (refl, refl)) (record { slot = refl; in_use = refl; good = refl }) (inr (0, [], refl))

-- The card after the read that failed.
abbrev pub failed : S
failed = set_error 0 (table false)

usable : is_refused 0 (table false) ≡ false
unfolding is_refused
usable = refl

failed_read :
    device_read drivers library engine 3 0 5 1 [] (table false)
    ≡ done (record { good = false; buffer = []; state = failed })
unfolding device_read read_disk is_refused checked set_error with_device with_world reply
failed_read = refl

failed-latches_example :
    (i : Bool × S) × (w : Bool × S) × (device_init drivers 0 (table false) ≡ done i)
    × (device_write drivers 0 5 1 [] (table false) ≡ done w)
    × ((false ≡ true) ⊎ (is_refused 0 failed ≡ true))
    × ((i.0 ≡ true) ⊎ (is_refused 0 i.1 ≡ true))
    × ((is_blob {U = Unit {0}} {F = Unit {0}} Disk.sd_card ≡ true)
        ⊎ ((w.0 ≡ true) ⊎ (is_refused 0 w.1 ≡ true)))
failed-latches_example =
    failed-latches drivers library engine 0 3 5 1 [] (table false)
      (record { good = false; buffer = []; state = failed }) (omega arith) usable (λ e. cc (e))
      failed_read

pub failed-refused : is_refused 0 failed ≡ true
unfolding is_refused set_error with_device
failed-refused = refl

-- The state after a read of the USB storage.
abbrev pub usb_done : S
usb_done =
    with_device 1 (λ dev. record dev { disk = Disk.usb_storage tt }) (with_world tt (table false))

pub usb_read :
    (buffer : List ℕ)
    → device_read drivers library engine 3 1 7 2 buffer (table false)
      ≡ done (record { good = true; buffer = buffer; state = usb_done })
unfolding device_read read_disk is_refused checked with_device with_world reply
usb_read buffer = refl
