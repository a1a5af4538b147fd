-- ===== src/EmuHid.antt =====
-- ios/CTGP/EmuHID.cpp: the stand-in for /dev/usb/hid. The statics of the file are a record that also
-- has the answers sent so far; a message is a request with a number for its identity, the reply to
-- `s_cbReq` with what it left in `s_devices`, another reply, or a call of `Reload`.
pub mod Accounts
pub mod Runs
mod Tests
use ctgpr_msc.Base.{
  ℕ, zero, suc, ◌+◌, ◌*◌, ◌≡◌, List, [], ◌∷◌, ◌++◌, Bool, true, false, leb, ◌==◌, min,
  if◌then◌else◌, Option, none, some, length, take, drop, replicate,
}
use ctgpr_msc.Base.Int.{ℤ, pos, negsuc, is_neg, pos_part}
use ctgpr_msc.Base.Words.{bytes_be32, word_be32}
use ctgpr_msc.Base.Outcome.{Outcome, done, ◌>>=◌, ◌>>◌, assert}

-- `sizeof(USB::DeviceEntry)`, and the size of `s_devices`.
abbrev pub entry_size : ℕ
entry_size = 12

abbrev pub devices_size : ℕ
devices_size = 384

-- The calls of the real /dev/usb/hid, with their code, and `usleep`.
pub record HidManager (W : Type 0) : Type 0 where
  pub ioctl : ℕ → List ℕ → ℕ → W → ℤ × List ℕ × W
  pub ioctlv : ℕ → List (List ℕ) → W → ℤ × W
  pub get_device_change_async : W → ℤ × W
  pub usleep : ℕ → W → W

pub data Command : Type 0 where
  open_cmd close_cmd unknown_cmd : Command
  ioctl_cmd : (cmd : ℕ) (input : List ℕ) (io_len : ℕ) → Command
  ioctlv_cmd : (cmd : ℕ) (vec : List (List ℕ)) → Command

pub data Message : Type 0 where
  request : (id : ℕ) → Command → Message
  device_change : (result : ℤ) (devices : List ℕ) → Message
  other_reply reload : Message

-- A `GetDeviceChange` that waits.
pub record Parked : Type 0 where
  pub id : ℕ
  pub io_len : ℕ

-- An answer: to which request, with which result and which bytes.
pub record Answer : Type 0 where
  pub id : ℕ
  pub result : ℤ
  pub bytes : List ℕ

-- `s_deviceChangeReq`, `s_deviceChangeAvailable`, `s_devices` and `s_deviceCount`, the answers, latest
-- first, and the world.
pub record Hid (W : Type 0) : Type 0 where
  pub pending : Option Parked
  pub available : Bool
  pub devices : List ℕ
  pub device_count : ℕ
  pub answers : List Answer
  pub world : W

module _ {W : Type 0} where
  -- `req->reply(result)`
  unfoldable pub answer : ℕ → ℤ → List ℕ → Hid W → Hid W
  answer id result bytes s = record s {
    answers = record { id = id; result = result; bytes = bytes } ∷ s.answers;
  }

  -- The entries that fit the caller's buffer.
  unfoldable pub entries_for : ℕ → Hid W → List ℕ
  entries_for io_len s = take (min io_len devices_size) s.devices

  -- `GetDeviceChange`: at once, or parked.
  unfoldable pub get_device_change : ℕ → ℕ → Hid W → Hid W
  get_device_change id io_len s =
      if s.available
      then record (answer id (pos s.device_count) (entries_for io_len s) s) {
        available = false;
        pending = none;
      }
      else record s { pending = some (record { id = id; io_len = io_len }) }

  -- The parked request, if there is one, is answered with 0.
  unfoldable pub flush_pending : Hid W → Hid W
  flush_pending s = elim s.pending [
    | none ↦ s
    | some p ↦ record (answer p.id (pos 0) [] s) { pending = none }
  ]

  -- The end of the reply's branch: the parked request is answered, or the change is kept.
  unfoldable pub deliver : ℤ → Hid W → Hid W
  deliver result s = elim s.pending [
    | none ↦ record s { available = true }
    | some p ↦ record (answer p.id result (entries_for p.io_len s) s) {
      available = false;
      pending = none;
    }
  ]

module _ {W : Type 0} (hid : HidManager W) where
  -- The loops over `s_devices` from entry `i` on: a call with the identity of each.
  unfoldable pub each_device : ℕ → ℕ → ℕ → Hid W → Outcome (Hid W)
  each_device cmd zero i s = done s
  each_device cmd (suc n) i s = do
    assert (leb (entry_size * (i + 1)) (length s.devices))
    let dev_id = word_be32 (drop (entry_size * i) s.devices)
    let r = hid.ioctl cmd (bytes_be32 dev_id ++ replicate 28 0) 0 s.world
    each_device cmd n (i + 1) (record s { world = r.2 })

  -- A reply with a count: every device is attached, and the next change is asked for.
  unfoldable pub attach_all : ℕ → Hid W → Outcome (Hid W)
  attach_all count s = each_device 4 count 0 (record s { device_count = count }) >>= λ t.
      done (record t { world = (hid.get_device_change_async (hid.ioctl 6 [] 0 t.world).2).1 })

  -- The reply to `s_cbReq`.
  unfoldable pub handle_change : ℤ → List ℕ → Hid W → Outcome (Hid W)
  handle_change result devices s =
      (if is_neg result
        then done (record s { devices = devices; device_count = 0 })
        else attach_all (pos_part result) (record s { devices = devices }))
      >>= λ t. done (deliver result t)

  -- The branch `Ioctl` of `IPCRequest`.
  unfoldable pub handle_ioctl : ℕ → ℕ → List ℕ → ℕ → Hid W → Hid W
  handle_ioctl id cmd input io_len s =
      if cmd == 1
      then get_device_change id io_len s
      else if cmd == 2
      then answer id (pos 0) [] (flush_pending s)
      else if cmd == 6
      then answer id (pos 0) [] (record s { world = hid.usleep 30000 s.world })
      else (let r = hid.ioctl cmd input io_len s.world in
          answer id r.0 r.1 (record s { world = r.2 }))

  -- A request of `IPCRequest`.
  unfoldable pub handle_request : ℕ → Command → Hid W → Hid W
  handle_request id open_cmd s = answer id (pos 0) [] s
  handle_request id close_cmd s = answer id (pos 0) [] s
  handle_request id unknown_cmd s = answer id (negsuc 3) [] s
  handle_request id (ioctl_cmd cmd input io_len) s = handle_ioctl id cmd input io_len s
  handle_request id (ioctlv_cmd cmd vec) s =
      let r = hid.ioctlv cmd vec s.world in answer id r.0 [] (record s { world = r.1 })

  -- `EmuHID::Reload`: every device is suspended.
  unfoldable pub handle_reload : Hid W → Outcome (Hid W)
  handle_reload s = each_device 16 s.device_count 0 (flush_pending s) >>= λ t.
      done (record t { available = true })

  -- One message: `IPCRequest` or `Reload`.
  unfoldable pub handle : Message → Hid W → Outcome (Hid W)
  handle (request id c) s = done (handle_request id c s)
  handle (device_change result devices) s = handle_change result devices s
  handle other_reply s = done s
  handle reload s = handle_reload s

  -- The loop of `ThreadEntry`, over the messages that come in.
  unfoldable pub run : List Message → Hid W → Outcome (Hid W)
  run [] s = done s
  run (m ∷ ms) s = handle m s >>= run ms

  -- `ThreadEntry` before its loop, where registering has returned `registered`.
  unfoldable pub start : ℤ → List ℕ → W → Outcome (Hid W)
  start registered devices w =
      assert (is_ok registered)
      >> done (record {
        pending = none;
        available = false;
        devices = devices;
        device_count = 0;
        answers = [];
        world = (hid.get_device_change_async w).1;
      })
    where
      is_ok : ℤ → Bool
      is_ok (pos n) = n == 0
      is_ok (negsuc n) = false
