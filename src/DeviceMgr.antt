-- ===== src/DeviceMgr.antt =====
-- ios/Disk/DeviceMgr.cpp and DeviceMgr.hpp: the table of the nine storage devices, their errors and
-- the sector operations that FatFs calls. The FatFs library calls back into this table, so its world
-- is the whole state of the manager.
pub mod Latch
pub mod Update
pub mod Hotplug
pub mod Slots
pub mod Steps
pub mod Nested
pub mod Unmount
pub mod Conflict
pub mod Mounting
pub mod Returns
pub mod UsbDisk
pub mod SdDisk
pub mod Tests
use Prim.Native.String.{String}
use ctgpr_msc.Base.{
  ℕ, zero, suc, ◌+◌, ◌-◌, ◌*◌, ◌%◌, ◌≡◌, List, [], ◌∷◌, ◌++◌, Bool, true, false, not, ◌||◌, ◌&&◌,
  ltb, leb, ◌==◌, if◌then◌else◌, Option, none, some,
}
use ctgpr_msc.Base.Int.{ℤ, pos, negsuc, eq_ℤ}
use ctgpr_msc.Base.Outcome.{Outcome, done, fault, stuck, ◌>>=◌, ◌>>◌, assert}
use ctgpr_msc.Aes.{Engine}
use ctgpr_msc.FatFs.{FatFs, fr_ok}
use ctgpr_msc.Blob.{Blob, IvCache, ReadResult, read_sectors}

abbrev pub device_count : ℕ
device_count = 9

-- `std::variant<NullDevice, SDCard, USBStorage, Blob>`; `U` is the class `USBStorage`.
pub data Disk (U F : Type 0) : Type 0 where
  null_device sd_card : Disk U F
  usb_storage : U → Disk U F
  blob_disk : Blob F → Disk U F

-- A slot of `m_devices`. Its FATFS object belongs to the library.
pub record DeviceHandle (U F : Type 0) : Type 0 where
  pub disk : Disk U F
  pub enabled : Bool
  pub inserted : Bool
  pub error : Bool
  pub mounted : Bool

pub record UsbDeviceHandle : Type 0 where
  pub in_use : Bool
  pub usb_id : ℕ
  pub int_id : ℕ

pub data LaunchError : Type 0 where
  ok no_sd_card no_ctgpr ctgp_corrupt sd_card_err : LaunchError

-- The members of `DeviceMgr` that the code uses, the cache of `Blob::ReadSectors`, and the world.
pub record State (W U F : Type 0) : Type 0 where
  pub devices : ℕ → DeviceHandle U F
  pub usb_devices : List UsbDeviceHandle
  pub log_enabled : Bool
  pub log_device : ℕ
  pub log_file : F
  pub launch_error : LaunchError
  pub something_inserted : Bool
  pub cache : IvCache
  pub world : W

-- A driver's answer to a read: whether it succeeded, the caller's buffer and the driver's object.
pub record SectorReply (W U : Type 0) : Type 0 where
  pub good : Bool
  pub buffer : List ℕ
  pub disk : U
  pub world : W

-- The drivers of the SD card and of USB storage.
pub record Drivers (W U : Type 0) : Type 0 where
  pub sd_open : W → Bool × W
  pub sd_startup : W → Bool × W
  pub sd_is_inserted : W → Bool × W
  pub sd_read_sectors : W → ℕ → ℕ → List ℕ → SectorReply W (Unit {0})
  pub sd_write_sectors : W → ℕ → ℕ → List ℕ → Bool × W
  pub usb_init : W → U → Bool × U × W
  pub usb_read_sectors : W → U → ℕ → ℕ → List ℕ → SectorReply W U
  pub usb_write_sectors : W → U → ℕ → ℕ → List ℕ → Bool × U × W

unfoldable pub is_sd : {U F : Type 0} → Disk U F → Bool
is_sd Disk.null_device = false
is_sd Disk.sd_card = true
is_sd (Disk.usb_storage u) = false
is_sd (Disk.blob_disk b) = false

unfoldable pub is_usb : {U F : Type 0} → Disk U F → Bool
is_usb Disk.null_device = false
is_usb Disk.sd_card = false
is_usb (Disk.usb_storage u) = true
is_usb (Disk.blob_disk b) = false

unfoldable pub is_blob : {U F : Type 0} → Disk U F → Bool
is_blob Disk.null_device = false
is_blob Disk.sd_card = false
is_blob (Disk.usb_storage u) = false
is_blob (Disk.blob_disk b) = true

-- `std::get<Blob>`, which throws on another alternative.
unfoldable pub get_blob : {U F : Type 0} → Disk U F → Outcome (Blob F)
get_blob Disk.null_device = fault
get_blob Disk.sd_card = fault
get_blob (Disk.usb_storage u) = fault
get_blob (Disk.blob_disk b) = done b

module _ {W U F : Type 0} where
  -- The state with a slot of `m_devices` changed.
  unfoldable pub with_device : ℕ → (DeviceHandle U F → DeviceHandle U F) → State W U F → State W U F
  with_device dev_id change s = record s {
    devices = λ i. if i == dev_id then change (s.devices i) else s.devices i;
  }

  unfoldable pub with_world : W → State W U F → State W U F
  with_world w s = record s { world = w }

  -- `DeviceMgr::InitHandle`
  unfoldable pub init_handle : ℕ → State W U F → State W U F
  init_handle dev_id s =
      with_device dev_id
        (λ dev. record dev { enabled = false; inserted = false; error = false; mounted = false }) s

  -- `DeviceMgr::IsInserted`
  unfoldable pub is_inserted : ℕ → State W U F → Bool
  is_inserted dev_id s = (s.devices dev_id).inserted && not (s.devices dev_id).error

  -- `DeviceMgr::IsMounted`
  unfoldable pub is_mounted : ℕ → State W U F → Bool
  is_mounted dev_id s = is_inserted dev_id s && (s.devices dev_id).mounted

  -- `DeviceMgr::SetError`
  unfoldable pub set_error : ℕ → State W U F → State W U F
  set_error dev_id s = with_device dev_id (λ dev. record dev { error = true }) s

  -- What the code does with a driver's answer.
  unfoldable pub checked : ℕ → Bool → State W U F → Bool × State W U F
  checked dev_id good s = if good then (true, s) else (false, set_error dev_id s)

  -- The guard that each sector operation starts with.
  unfoldable pub is_refused : ℕ → State W U F → Bool
  is_refused dev_id s = not (s.devices dev_id).enabled || (s.devices dev_id).error

  -- `DeviceMgr::IsLogEnabled`
  unfoldable pub is_log_enabled : State W U F → Bool
  is_log_enabled s = s.log_enabled && is_mounted s.log_device s

module _ {W U F : Type 0} (drivers : Drivers W U) (dev_id : ℕ) where
  init_disk : Disk U F → State W U F → Bool × State W U F
  init_disk Disk.null_device s = (false, s)
  init_disk Disk.sd_card s =
      let r = drivers.sd_startup s.world in checked dev_id r.0 (with_world r.1 s)
  init_disk (Disk.usb_storage u) s =
      let r = drivers.usb_init s.world u in
      checked dev_id r.0
        (with_device dev_id (λ dev. record dev { disk = Disk.usb_storage r.1 }) (with_world r.2 s))
  init_disk (Disk.blob_disk b) s = (true, s)

  -- `DeviceMgr::DeviceInit`
  pub device_init : State W U F → Outcome (Bool × State W U F)
  unfolding init_disk
  device_init s = do
    assert (ltb dev_id device_count)
    done (if is_refused dev_id s then (false, s) else init_disk (s.devices dev_id).disk s)

  write_disk : ℕ → ℕ → List ℕ → Disk U F → State W U F → Bool × State W U F
  write_disk sector count bytes Disk.null_device s = (false, s)
  write_disk sector count bytes Disk.sd_card s =
      let r = drivers.sd_write_sectors s.world sector count bytes in
      checked dev_id r.0 (with_world r.1 s)
  write_disk sector count bytes (Disk.usb_storage u) s =
      let r = drivers.usb_write_sectors s.world u sector count bytes in
      checked dev_id r.0
        (with_device dev_id (λ dev. record dev { disk = Disk.usb_storage r.1 }) (with_world r.2 s))
  write_disk sector count bytes (Disk.blob_disk b) s = (false, s)

  -- `DeviceMgr::DeviceWrite`
  pub device_write : ℕ → ℕ → List ℕ → State W U F → Outcome (Bool × State W U F)
  unfolding write_disk
  device_write sector count bytes s = do
    assert (ltb dev_id device_count)
    done (
        if is_refused dev_id s
        then (false, s)
        else write_disk sector count bytes (s.devices dev_id).disk s)

  sync_disk : Disk U F → Bool
  sync_disk Disk.null_device = false
  sync_disk Disk.sd_card = true
  sync_disk (Disk.usb_storage u) = true
  sync_disk (Disk.blob_disk b) = true

  -- `DeviceMgr::DeviceSync`
  pub device_sync : State W U F → Outcome (Bool × State W U F)
  unfolding sync_disk
  device_sync s = do
    assert (ltb dev_id device_count)
    done (if is_refused dev_id s then (false, s) else (sync_disk (s.devices dev_id).disk, s))

-- What `DeviceRead` leaves: its answer, the caller's buffer and the state.
pub record ReadReply (W U F : Type 0) : Type 0 where
  pub good : Bool
  pub buffer : List ℕ
  pub state : State W U F

module _ {W U F : Type 0} (drivers : Drivers W U) (fs : FatFs (State W U F) F)
    (engine : Engine (State W U F)) (fuel dev_id sector count : ℕ) where
  unfoldable pub reply : List ℕ → Bool × State W U F → ReadReply W U F
  reply buffer r = record { good = r.0; buffer = buffer; state = r.1 }

  -- What `Blob::ReadSectors` changes: the file object, the static IV and the world.
  unfoldable pub after_blob : Blob F → ReadResult (State W U F) F → State W U F
  after_blob b r =
      record (with_device dev_id
        (λ dev. record dev { disk = Disk.blob_disk (record b { fil = r.fil }) }) r.world) {
          cache = r.cache;
        }

  read_disk : List ℕ → Disk U F → State W U F → Outcome (ReadReply W U F)
  unfolding reply
  read_disk buffer Disk.null_device s = done (reply buffer (false, s))
  read_disk buffer Disk.sd_card s =
      let r = drivers.sd_read_sectors s.world sector count buffer in
      done (reply r.buffer (checked dev_id r.good (with_world r.world s)))
  read_disk buffer (Disk.usb_storage u) s =
      let r = drivers.usb_read_sectors s.world u sector count buffer in
      done (
        reply r.buffer (
          checked dev_id r.good (
            with_device dev_id (λ dev. record dev { disk = Disk.usb_storage r.disk })
              (with_world r.world s))))
  read_disk buffer (Disk.blob_disk b) s = do
    r ← read_sectors fs engine sector count fuel s b.fil s.cache buffer
    done (reply r.buffer (checked dev_id (r.ret == fr_ok) (after_blob b r)))

  -- `DeviceMgr::DeviceRead`, the loop of `Blob::ReadSectors` held to `fuel` tests.
  pub device_read : List ℕ → State W U F → Outcome (ReadReply W U F)
  unfolding read_disk reply
  device_read buffer s =
      assert (ltb dev_id device_count)
      >> (if is_refused dev_id s
          then done (reply buffer (false, s))
          else read_disk buffer (s.devices dev_id).disk s)
