-- ===== src/UsbStorage/Tests.antt =====
-- A disk behind /dev/usb/ven, and instances of the theorems on transfers at it.
use ctgpr_msc.Base.{
  ℕ, ◌+◌, ◌*◌, ◌≡◌, refl, List, [], ◌++◌, true, arith, take, drop, replicate, length-replicate,
  get_or, if◌then◌else◌, ◌==◌,
}
use ctgpr_msc.Base.Int.{pos}
use ctgpr_msc.Base.Words.{word_be32}
use ctgpr_msc.Base.Outcome.{done}
use ctgpr_msc.FatFs.{slice}
use ctgpr_msc.Usb.{UsbManager, Input, Transferred, message_of}
use ctgpr_msc.UsbStorage.{
  UsbBus, UsbStorage, Result, word_le32, is_good_status, read_sectors, write_sectors,
}
use ctgpr_msc.UsbStorage.Command.{IsCommand}
use ctgpr_msc.UsbStorage.Bus.{usb_bus, IsTransport}
use ctgpr_msc.UsbStorage.Store.{IsRecorder, write_sectors-usb_bus}
use ctgpr_msc.UsbStorage.Disk.{good_status, IsDisk, read_sectors-usb_bus}

-- Two hundred sectors of 4 bytes.
abbrev pub content : List ℕ
content = replicate 800 7

-- The answer to READ(10), and to every other command.
abbrev pub answer : List ℕ → List ℕ → List ℕ
answer w cmd =
    slice content (word_be32 (drop 17 cmd) * 4) ((256 * get_or cmd 22 0 + get_or cmd 23 0) * 4)
    ++ good_status (word_le32 cmd 4)

-- The world is what the device has to send.
abbrev pub answer_of : Input → List ℕ → List ℕ → Transferred (List ℕ)
answer_of (Input.bulk dev_id addr n endpoint) bytes w =
    if endpoint == 2
    then record { ret = pos n; bytes = bytes; world = answer w bytes }
    else record { ret = pos n; bytes = take n w; world = drop n w }
answer_of (Input.ctrl dev_id request_type request value index n addr) bytes w = record {
  ret = pos (n + 8);
  bytes = bytes;
  world = w;
}
answer_of (Input.intr dev_id addr n endpoint) bytes w = record {
  ret = pos n;
  bytes = bytes;
  world = w;
}

abbrev pub manager : UsbManager (List ℕ)
manager = record {
  ioctl = λ cmd input n w. (pos 0, replicate n 0, w);
  get_device_change_async = λ w. (pos 0, w);
  ioctlv = λ cmd input kind bytes w. answer_of input bytes w;
  alloc = λ w. replicate 32 0;
}

abbrev pub usleep : List ℕ → ℕ → List ℕ
usleep w n = w

pub manager-IsTransport : IsTransport manager usleep 0x10000020 (λ w. w) 0x81 2 answer
unfolding message_of
manager-IsTransport = record {
  sends = λ w id xs a b c. (refl, refl, refl);
  takes = λ w id xs a. (refl, refl, refl);
}

pub answer-IsDisk : IsDisk content 4 answer
answer-IsDisk = record {
  reads = λ w block tag lun first n c hc. rw (c.first_is, c.count_is, c.tag_is) refl;
}

abbrev pub storage : UsbStorage
storage = record {
  id = 5;
  out_endpoint = 0x02;
  in_endpoint = 0x81;
  tag = 9;
  lun = 0;
  block_size = 4;
  max_packet_size = 512;
  valid = true;
  buffer = replicate 16384 0;
}

abbrev bus_of_manager : UsbBus (List ℕ)
bus_of_manager = usb_bus manager usleep 0x10000020

read_sectors-usb_bus_example :
    (r : Result bus_of_manager) × (read_sectors bus_of_manager 2 3 2 [] storage (replicate 10 0)
      ≡ done r)
    × (r.good ≡ true)
    × (r.buffer ≡ replicate 8 7 ++ replicate 2 0)
read_sectors-usb_bus_example =
    read_sectors-usb_bus manager usleep 0x10000020 (λ w. w) 0x81 2 answer content 2 3 2 [] storage
      (replicate 10 0) (omega arith, refl) manager-IsTransport
      (refl, length-replicate {A = ℕ} 16384 0, refl) answer-IsDisk (omega arith) (omega arith)
      (omega arith) (omega (arith, length-replicate {A = ℕ} 800 7)) (omega arith) (omega arith)
      (omega arith) (omega arith)

-- A device that keeps all that it is sent: the world is what it has got.
abbrev status : List ℕ → List ℕ
status log = good_status (word_le32 log 4)

abbrev kept_by : Input → List ℕ → List ℕ → Transferred (List ℕ)
kept_by (Input.bulk dev_id addr n endpoint) bytes w =
    if endpoint == 2
    then record { ret = pos n; bytes = bytes; world = w ++ bytes }
    else record { ret = pos n; bytes = status w; world = w }
kept_by (Input.ctrl dev_id request_type request value index n addr) bytes w = record {
  ret = pos (n + 8);
  bytes = bytes;
  world = w;
}
kept_by (Input.intr dev_id addr n endpoint) bytes w = record {
  ret = pos n;
  bytes = bytes;
  world = w;
}

abbrev recorder : UsbManager (List ℕ)
recorder = record manager { ioctlv = λ cmd input kind bytes w. kept_by input bytes w }

recorder-IsRecorder : IsRecorder recorder usleep 0x10000020 (λ w. w) 0x81 2 status
unfolding message_of
recorder-IsRecorder = record {
  takes = λ w id xs a b. (refl, refl, refl);
  tells = λ w id xs a. (refl, refl, refl);
  status_length = λ log. refl;
  sleeps = λ w n. refl;
}

write_sectors-usb_bus_example :
    (block : List ℕ) × (r : Result (usb_bus recorder usleep 0x10000020)) × IsCommand 0 0x2a 10 8 0 3
      2 block
    × (write_sectors (usb_bus recorder usleep 0x10000020) 2 3 2 [] storage (replicate 10 9)
        ≡ done r)
    × (r.world ≡ block ++ replicate 8 9)
    × (r.good ≡ is_good_status 10 (status (block ++ replicate 8 9)))
    × (r.buffer ≡ replicate 10 9)
write_sectors-usb_bus_example =
    write_sectors-usb_bus recorder usleep 0x10000020 (λ w. w) 0x81 2 status 2 3 2 [] storage
      (replicate 10 9) (omega arith, refl) recorder-IsRecorder
      (refl, length-replicate {A = ℕ} 16384 0, refl) (omega arith) (omega arith) (omega arith)
      (omega arith) (omega arith) (omega arith) (omega arith)
