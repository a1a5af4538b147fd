-- ===== src/Lib.antt =====
-- The MSC channel of CTGP Revolution: the program that the IOS processor of the console runs beside
-- the game. This library models the part of it that finds the storage devices, decrypts the image
-- that the game pack is kept in, and answers the FatFs library.
--
-- The parts, and the files that model them:
--   common/System/AES.hpp, the AES engine: Aes, with its proofs in Aes/Cbc and Aes/Decrypt. `Encrypt`
--     and `Decrypt` are `encrypt` and `decrypt`; /dev/aes is the record `Engine`.
--   ios/CTGP/Blob.cpp, the encrypted image /ctgpr/blob.bin: Blob. `Mount`, `Reset`, `BlobDecrypt` and
--     `ReadSectors` are `mount`, `reset`, `blob_decrypt` and `read_sectors`. Blob/Cipher is about
--     `BlobDecrypt`, Blob/Sectors, Loop and Rounds about the loop of `ReadSectors`, Blob/Seek and
--     Read about the whole of it, Blob/Hang about long reads, Blob/Mount about `Mount`. Blob/Launch has
--     `LaunchDOL` and `LaunchMainDOL`, Blob/Image is about the memory that the first leaves, Blob/Handover about
--     the end of the second. Memory is a function from physical addresses to bytes.
--   ios/Disk/DeviceMgr.cpp, the device manager: DeviceMgr has the table of the devices and the sector
--     operations, DeviceMgr/Update has `UpdateHandle`, the log file, the constructor and the body of
--     `Run`, DeviceMgr/Hotplug has `USBChange`. DeviceMgr/Latch is about the error flag,
--     DeviceMgr/Slots, Steps, Nested, Unmount, Mounting and Returns about `UpdateHandle`,
--     DeviceMgr/Conflict about a second device.
--   ios/Disk/FatFS.cpp, what FatFs calls: DiskIo has the sector operations, DiskIo/UsbStack and
--     DiskIo/SdStack are about their way down to /dev/usb/ven and to /dev/sdio/slot0; for it,
--     DeviceMgr/UsbDisk and SdDisk fill `Drivers` with USBStorage.cpp and SDCard.cpp.
--     FatTime has the time stamps, with the Gregorian calendar in FatTime/Days and Calendar.
--   ios/EmuSDIO/EmuSDIO.cpp, the SD host that the game sees: EmuSdio has the commands,
--     EmuSdio/Requests the ioctls, the ioctlvs and the dispatch, EmuSdio/Transfers is about transfers.
--     The buffers of a request are taken to be apart from each other.
--   ios/Disk/USBStorage.cpp, USB mass storage: UsbStorage has the SCSI transfer and the commands on
--     it, UsbStorage/Init `FindLun` and `Init`. It takes its transfers from the record `UsbBus`, which
--     UsbStorage/Bus fills with those of USB.hpp. UsbStorage/Phases, Transfer, Scsi and Sink are about
--     the command, data and status phases on any `UsbBus`, UsbStorage/Command about the fields of
--     command blocks, UsbStorage/Disk and Store about `ReadSectors` and
--     `WriteSectors` through /dev/usb/ven. The device manager takes its operations from the record
--     `Drivers`.
--   ios/Disk/USB.cpp, the calls of /dev/usb/ven: Usb, a definition for each function of the class.
--     Usb/Transfers is about `CtrlMsg` and `IntrBulkMsg`.
--   ios/Disk/SDCard.cpp, the SD card slot: SdCard has the commands and the registers of the host
--     controller, SdCard/Startup `__sd0_initio` and what starts and stops the card, SdCard/Sectors the
--     transfers. The statics are the record `Sd`, /dev/sdio/slot0 is the record `Sdio`.
--     SdCard/Card is the abstract card, a sequence of bytes; SdCard/Ranges, Rounds, Splices, Reads,
--     Writes and RoundTrip are about transfers on it, SdCard/Flags, Init, Kept and Reach about the
--     flags of the driver.
--   ios/CTGP/EmuHID.cpp, the stand-in for /dev/usb/hid: EmuHid, with the statics as the record `Hid`.
--     EmuHid/Accounts and EmuHid/Runs count the answers to its requests.
--   ios/IOS/EmuES.cpp, the stand-in for /dev/es: EmuEs has the layout of its data, with the
--     statics as the record `Es`, EmuEs/Titles the requests that install a title, EmuEs/Requests the
--     others, `IPCRequest` and the loop of the thread.
--     EmuEs/Swap and Returns are about the end of the stub's content, EmuEs/Tracked, Install and Reach
--     about what is known of the stub, EmuEs/Identity about `GetDeviceID`. The loop over
--     the executable has one test for each 4 KiB. The calls of the real /dev/es and of IOS are the
--     record `EsManager`, and so is `CloseAllPPC`, which runs a thread on the memory of the kernel.
--   ios/IOS/IPCLog.cpp and the class IPCLog of channel/Main/IOSBoot.cpp, the two sides of /dev/saoirse:
--     IpcLog and IpcLog/Channel, together in IpcLog/Link, where the steps of the server, of the threads
--     that have something to say and of the channel's thread come in any order. IpcLog/Heard, Stage, Moves and
--     Delivery are about what is heard in the end.
--   ios/Loader/Loader.cpp, the file that the kernel launches the module from: Loader, with Loader/Reads
--     about what is read of it.
--   ios/IOS/System.cpp, the clock: SysTime, with SysTime/Drift about what it shows.
--   ios/IOS/Patch.cpp, what is put into the kernel: Patch has the hook of the names that are opened,
--     Patch/Hook `PatchIOSOpen`. Patch/Access is about the names, Patch/Branch and Patch/Calls are
--     about the branch that is written.
--   ios/FAT, the FatFs library: FatFs, the record of its calls.
--   Base: the names that the modules share, lists, words, signed numbers and outcomes of calls.
--
-- How they interact: the emulated SD host and FatFs call the device manager. FatFs calls DiskIo, which
-- calls the device manager, which calls the drivers or the blob, which calls FatFs and the AES engine.
-- FatFs calls back into the table of devices, so in DeviceMgr the world of the FatFs record is the
-- whole state of the manager. `UpdateHandle` tells the launch state through the queue of IpcLog; it
-- takes `LaunchMainDOL` as a parameter that need not return, since Blob/Launch models it on an object
-- of its own.
--
-- Conventions: a call ends as an `Outcome`, `done` with its results, `fault` at a failed assertion, a
-- read outside a buffer or `std::get` on another alternative, `stuck` where a loop has used up its
-- fuel or a call waits for another thread. The build of the IOS part defines NDEBUG, which removes the
-- assertions and the log file: what is `done` here is the same there, Usb leaves its two assertions
-- out, and `Launcher.debug` switches the code of the log file. Words of 32 bits wrap around as
-- `% 2 ^ 32`. Both processors are big-endian.
--
-- Bounds: the loop of `ReadSectors` has three tests as fuel, enough for 64 sectors; `BlobDecrypt` has
-- one test for each 8 sectors and one more; `UpdateHandle` calls itself once, for the blob's handle,
-- so depth two is enough; the data phase of a SCSI
-- transfer has one test for each 16 KiB and one more; the loops of the SD card have one for each eight
-- sectors and one more. The ten tries of `__sdio_waithcr` and of the loop with SENDOPCOND are those of
-- the code.
--
-- Not modelled: the FatFs and LZMA libraries, which are other projects' code; the start of the IOS
-- threads, the exploit and the boot code, which are machine code and calls of the console; the
-- channel's user interface; the wrappers of common/System and common/DVD, which put the arguments of a
-- call in order and hold no state; `UnalignedMemcpy` of ios/IOS/System.cpp, which nothing calls. The caches
-- are not modelled: flushing and invalidating them leaves memory as it is here. What the manager of
-- /dev/usb/hid writes into `s_devices` comes with its reply. Threads other than the one of a part
-- are left out; a call of its operations from another thread stands between two steps.
pub mod Base
pub mod FatTime
pub mod Aes
pub mod FatFs
pub mod Blob
pub mod DeviceMgr
pub mod DiskIo
pub mod EmuEs
pub mod EmuHid
pub mod EmuSdio
pub mod IpcLog
pub mod Loader
pub mod Patch
pub mod SdCard
pub mod SysTime
pub mod Usb
pub mod UsbStorage
