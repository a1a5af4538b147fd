-- ===== src/Usb.antt =====
-- ios/Disk/USB.cpp: the calls of /dev/usb/ven for devices, and control, interrupt and bulk transfers.
pub mod Transfers
mod Tests
use ctgpr_msc.Base.{
  ℕ, ◌+◌, ◌≡◌, List, [], ◌∷◌, ◌++◌, Bool, true, false, not, ◌&&◌, ◌||◌, ◌==◌, if◌then◌else◌, drop,
  length, set,
}
use ctgpr_msc.Base.Int.{ℤ, pos, negsuc, is_neg, eq_ℤ}
use ctgpr_msc.Base.Words.{bytes_be32, word_be32, aligned, bit}

-- `USBError`: the results of this interface; all others are codes of IOS and of the controller.
abbrev pub usb_ok : ℤ
usb_ok = pos 0

abbrev pub usb_invalid : ℤ
usb_invalid = negsuc 3

abbrev pub short_transfer : ℤ
short_transfer = negsuc 1999

-- `USB::Input`, with the member of the union that is set.
pub data Input : Type 0 where
  ctrl : (dev_id request_type request value index length addr : ℕ) → Input
  intr : (dev_id addr length endpoint : ℕ) → Input
  bulk : (dev_id addr length endpoint : ℕ) → Input

-- How the buffer is handed over: as the second input (`IVector<2>`) or as the output
-- (`IOVector<1, 1>`).
pub data Vector : Type 0 where
  second_input output : Vector

-- What a transfer leaves: the code, the bytes of the buffer and the world.
pub record Transferred (W : Type 0) : Type 0 where
  pub ret : ℤ
  pub bytes : List ℕ
  pub world : W

-- The calls of /dev/usb/ven: `ioctl` with the code, the input and the length of the output, the
-- asynchronous `GetDeviceChange`, `ioctlv`; and the contents of new memory of 32 bytes.
pub record UsbManager (W : Type 0) : Type 0 where
  pub ioctl : ℕ → List ℕ → ℕ → W → ℤ × List ℕ × W
  pub get_device_change_async : W → ℤ × W
  pub ioctlv : ℕ → Input → Vector → List ℕ → W → Transferred W
  pub alloc : W → List ℕ

-- The members of `USB` that the calls use: the descriptor of `ven`, and `m_reqSent`.
pub record UsbState (W : Type 0) : Type 0 where
  pub fd : ℤ
  pub req_sent : Bool
  pub world : W

-- `write32(p, value)` and `write8(p + at, value)`.
unfoldable pub write32 : ℕ → List ℕ → List ℕ
write32 value bytes = bytes_be32 value ++ drop 4 bytes

unfoldable pub write8 : ℕ → ℕ → List ℕ → List ℕ
write8 at value bytes = set bytes at value

-- A buffer that the transfers refuse.
unfoldable pub is_bad_buffer : ℕ → ℕ → Bool
is_bad_buffer addr length =
    if not (aligned addr 32)
    then true
    else if not (length == 0) && (addr == 0)
    then true
    else (length == 0) && not (addr == 0)

-- The result of a transfer of `length` bytes that is answered with `whole` where all were moved.
unfoldable pub result_of : ℕ → ℤ → ℤ
result_of whole ret =
    if eq_ℤ ret (pos whole) then usb_ok else if is_neg ret then ret else short_transfer

-- The code of an interrupt transfer and of a bulk transfer.
abbrev pub intr_transfer : ℕ
intr_transfer = 19

abbrev pub bulk_transfer : ℕ
bulk_transfer = 21

-- The message of `IntrBulkMsg`.
unfoldable pub message_of : ℕ → ℕ → ℕ → ℕ → ℕ → Input
message_of ioctl dev_id endpoint length addr =
    if ioctl == intr_transfer
    then Input.intr dev_id addr length endpoint
    else Input.bulk dev_id addr length endpoint

module _ {W : Type 0} (ven : UsbManager W) where
  -- `USB::Init`
  unfoldable pub usb_init : UsbState W → Bool × UsbState W
  usb_init s =
      let r = ven.ioctl 0 [] 32 s.world in
      if is_neg s.fd
      then (false, s)
      else (eq_ℤ r.0 (pos 0) && (word_be32 r.1 == 0x00050001), record s { world = r.2 })

  -- The second half of `EnqueueDeviceChange`.
  unfoldable pub send_change_request : UsbState W → Bool × UsbState W
  send_change_request s =
      let r = ven.get_device_change_async s.world in
      let sent = eq_ℤ r.0 (pos 0) in (sent, record s { req_sent = sent; world = r.1 })

  -- `USB::EnqueueDeviceChange`
  unfoldable pub enqueue_device_change : UsbState W → Bool × UsbState W
  enqueue_device_change s =
      if s.req_sent
      then (let r = ven.ioctl 6 [] 0 s.world in
          if eq_ℤ r.0 (pos 0)
          then send_change_request (record s { world = r.2 })
          else (false, record s { world = r.2 }))
      else send_change_request s

  -- `USB::GetDeviceInfo`, with the bytes of the answer.
  unfoldable pub get_device_info : ℕ → ℕ → W → ℤ × List ℕ × W
  get_device_info dev_id alt w = ven.ioctl 3 (write8 8 alt (write32 dev_id (ven.alloc w))) 0xc0 w

  -- `USB::Attach` and `USB::Release`
  unfoldable pub attach : ℕ → W → ℤ × W
  attach dev_id w = let r = ven.ioctl 4 (write32 dev_id (ven.alloc w)) 0 w in (r.0, r.2)

  unfoldable pub release : ℕ → W → ℤ × W
  release dev_id w = let r = ven.ioctl 5 (write32 dev_id (ven.alloc w)) 0 w in (r.0, r.2)

  -- `USB::AttachFinish`
  unfoldable pub attach_finish : W → ℤ × W
  attach_finish w = let r = ven.ioctl 6 [] 0 w in (r.0, r.2)

  -- `USB::SuspendResume`
  unfoldable pub suspend_resume : ℕ → Bool → W → ℤ × W
  suspend_resume dev_id resume w =
      let input = write8 11 (if resume then 1 else 0) (write32 dev_id (ven.alloc w)) in
      let r = ven.ioctl 16 input 0 w in (r.0, r.2)

  -- `USB::CancelEndpoint`
  unfoldable pub cancel_endpoint : ℕ → ℕ → W → ℤ × W
  cancel_endpoint dev_id endpoint w =
      let r = ven.ioctl 17 (write8 8 endpoint (write32 dev_id (ven.alloc w))) 0 w in (r.0, r.2)

  -- `USB::CtrlMsg` on the buffer at `addr`. The build defines NDEBUG, which removes its assertion.
  unfoldable pub ctrl_msg : ℕ → ℕ → ℕ → ℕ → ℕ → ℕ → ℕ → List ℕ → W → Transferred W
  ctrl_msg dev_id request_type request value index length addr bytes w =
      let kind = if bit request_type 7 then Vector.output else Vector.second_input in
      let r =
        ven.ioctlv 18 (Input.ctrl dev_id request_type request value index length addr) kind bytes
          w in
      if is_bad_buffer addr length
      then record { ret = usb_invalid; bytes = bytes; world = w }
      else record r { ret = result_of (length + 8) r.ret }

  -- `USB::IntrBulkMsg` on the buffer at `addr`, without its assertion likewise.
  unfoldable pub intr_bulk_msg : ℕ → ℕ → ℕ → ℕ → ℕ → List ℕ → W → Transferred W
  intr_bulk_msg dev_id ioctl endpoint length addr bytes w =
      let kind = if bit endpoint 7 then Vector.second_input else Vector.output in
      let r = ven.ioctlv ioctl (message_of ioctl dev_id endpoint length addr) kind bytes w in
      if is_bad_buffer addr length
      then record { ret = usb_invalid; bytes = bytes; world = w }
      else if (ioctl == intr_transfer) || (ioctl == bulk_transfer)
      then record r { ret = result_of length r.ret }
      else record { ret = usb_invalid; bytes = bytes; world = w }
