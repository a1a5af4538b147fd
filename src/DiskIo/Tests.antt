-- ===== src/DiskIo/Tests.antt =====
-- A table with one device, and instances of the theorems on reading from it and writing to it.
use ctgpr_msc.Base.{
  inr, take, drop, ℕ, ◌≡◌, refl, List, [], ◌++◌, Bool, true, false, arith, length-replicate,
  replicate, ◌==◌, if◌then◌else◌,
}
use ctgpr_msc.Base.Outcome.{done}
use ctgpr_msc.Blob.{initial_cache}
use ctgpr_msc.DeviceMgr.{State, Disk, DeviceHandle, LaunchError, Drivers, is_refused}
use ctgpr_msc.DeviceMgr.Tests.{library, engine}
use ctgpr_msc.DeviceMgr.UsbDisk.{usb_drivers}
use ctgpr_msc.DiskIo.{disk_read, disk_write, res_ok}
use ctgpr_msc.DiskIo.SdStack.{IsTransfer, disk_read-disk_write}
use ctgpr_msc.DeviceMgr.SdDisk.{sd_drivers}
use ctgpr_msc.SdCard.{Sd}
use ctgpr_msc.SdCard.Card.{splice}
use ctgpr_msc.SdCard.Tests.{slot, disk, card, slot-IsCard, slot-AnswersZero, card-IsReady}
use ctgpr_msc.DiskIo.UsbStack.{disk_read-usb_bus}
use ctgpr_msc.UsbStorage.{UsbStorage}
use ctgpr_msc.UsbStorage.Bus.{usb_bus}
use ctgpr_msc.UsbStorage.Tests.{
  content, answer, manager, usleep, storage, manager-IsTransport, answer-IsDisk,
}

-- Drivers that fail.
abbrev others : {W U : Type 0} → Drivers W U
others = record {
  sd_open = λ w. (false, w);
  sd_startup = λ w. (false, w);
  sd_is_inserted = λ w. (false, w);
  sd_read_sectors =
      λ w sector count buffer. record { good = false; buffer = buffer; disk = tt; world = w };
  sd_write_sectors = λ w sector count bytes. (false, w);
  usb_init = λ w u. (false, u, w);
  usb_read_sectors =
      λ w u sector count buffer. record { good = false; buffer = buffer; disk = u; world = w };
  usb_write_sectors = λ w u sector count bytes. (false, u, w);
}

abbrev device_handle : {U : Type 0} → Disk U (Unit {0}) → Bool → DeviceHandle U (Unit {0})
device_handle disk inserted = record {
  disk = disk;
  enabled = inserted;
  inserted = inserted;
  error = false;
  mounted = false;
}

-- The disk in slot 1.
abbrev table : {W U : Type 0} → Disk U (Unit {0}) → W → State W U (Unit {0})
table disk w = record {
  devices = λ i. if i == 1 then device_handle disk true else device_handle Disk.null_device false;
  usb_devices = [];
  log_enabled = false;
  log_device = 9;
  log_file = tt;
  launch_error = LaunchError.no_sd_card;
  something_inserted = false;
  cache = initial_cache;
  world = w;
}

abbrev usb_table : State (List ℕ) UsbStorage (Unit {0})
usb_table = table (Disk.usb_storage storage) []

disk_read-usb_bus_example :
    (t : State (List ℕ) UsbStorage (Unit {0})) × (disk_read
        (usb_drivers (usb_bus manager usleep 0x10000020) 2 others)
        library
        engine
        1
        1
        (replicate 10 0)
        3
        2
        usb_table
      ≡ done (res_ok, replicate 8 7 ++ replicate 2 0, t))
    × (is_refused 1 t ≡ false)
unfolding is_refused
disk_read-usb_bus_example =
    disk_read-usb_bus manager usleep 0x10000020 2 others library engine 1 (λ w. w) 0x81 2 answer
      content 1 3 2 storage usb_table (replicate 10 0) (omega arith) refl refl (omega arith, refl)
      manager-IsTransport (refl, length-replicate {A = ℕ} 16384 0, refl) answer-IsDisk (omega arith)
      (omega arith) (omega arith) (omega (arith, length-replicate {A = ℕ} 800 7)) (omega arith)
      (omega arith) (omega arith) (omega arith)

abbrev sd_table : State (Sd (List ℕ)) (Unit {0}) (Unit {0})
sd_table = table Disk.sd_card card

sd_table-IsTransfer :
    IsTransfer slot
      (λ w. w)
      1
      slot-IsCard
      slot-AnswersZero
      3
      others
      1
      2
      9
      36
      (replicate 5000 1)
      sd_table
unfolding is_refused
sd_table-IsTransfer = record {
  device = omega arith;
  usable = refl;
  is_sd = refl;
  some_sectors = omega arith;
  rounds = omega arith;
  some_buffer = λ e. absurd (omega (arith, e));
  small = omega arith;
  range = inr (λ e. absurd (omega (arith, e)), omega arith);
  word = omega arith;
  inside = omega (arith, length-replicate {A = ℕ} 8192 7);
  room = omega (arith, length-replicate {A = ℕ} 5000 1);
  ready = card-IsReady;
}

disk_read-disk_write_example :
    (t : State (Sd (List ℕ)) (Unit {0}) (Unit {0})) × (u : State
      (Sd (List ℕ))
      (Unit {0})
      (Unit {0}))
    × (disk_write (sd_drivers slot 3 36 others) 1 (replicate 5000 1) 2 9 sd_table
        ≡ done (res_ok, t))
    × (disk_read (sd_drivers slot 3 64 others) library engine 3 1 (replicate 4608 0) 2 9 t
        ≡ done (res_ok, take 4608 (replicate 5000 1) ++ drop 4608 (replicate 4608 0), u))
    × (u.world.world ≡ splice 1024 (take 4608 (replicate 5000 1)) disk)
    × (is_refused 1 u ≡ false)
disk_read-disk_write_example =
    disk_read-disk_write slot (λ w. w) 1 slot-IsCard slot-AnswersZero 3 others library engine 3 1 2
      9 36 64 (replicate 5000 1) (replicate 4608 0) sd_table sd_table-IsTransfer
      (λ e. absurd (omega (arith, e))) (omega (arith, length-replicate {A = ℕ} 4608 0))
