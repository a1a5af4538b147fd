-- ===== src/EmuSdio/Requests.antt =====
-- EmuSDIO.cpp: the requests of the IPC interface, `ReqIoctl`, `ReqIoctlv` and `IPCRequest`.
use ctgpr_msc.Base.{
  ℕ, ◌+◌, List, [], ◌∷◌, Bool, true, false, not, ◌||◌, ltb, ◌==◌, if◌then◌else◌, length, drop,
}
use ctgpr_msc.Base.Int.{ℤ}
use ctgpr_msc.Base.Words.{word_be32, aligned, codes}
use ctgpr_msc.Base.Outcome.{Outcome, done, ◌>>◌, assert}
use ctgpr_msc.Aes.{Engine}
use ctgpr_msc.FatFs.{FatFs}
use ctgpr_msc.DeviceMgr.{State, Drivers, device_count, is_inserted}
use ctgpr_msc.EmuSdio.{
  SdioCommand, SdioIoctl, SdioRequest, SdioReply, Buffer, ios_ok, ios_invalid, ios_not_found,
  write_word_out, answer, execute_command,
}

-- `sizeof(SDIORequest)`
abbrev pub request_size : ℕ
request_size = 0x24

unfoldable pub command_of : ℕ → SdioCommand
command_of n =
    if n == 0x00
    then SdioCommand.go_idle
    else if n == 0x02
    then SdioCommand.all_send_cid
    else if n == 0x03
    then SdioCommand.send_rca
    else if n == 0x06
    then SdioCommand.set_bus_width
    else if n == 0x07
    then SdioCommand.select
    else if n == 0x08
    then SdioCommand.send_if_cond
    else if n == 0x09
    then SdioCommand.send_csd
    else if n == 0x0A
    then SdioCommand.send_cid
    else if n == 0x0D
    then SdioCommand.send_status
    else if n == 0x10
    then SdioCommand.set_block_len
    else if n == 0x11
    then SdioCommand.read_block
    else if n == 0x12
    then SdioCommand.read_multi_block
    else if n == 0x18
    then SdioCommand.write_block
    else if n == 0x19
    then SdioCommand.write_multi_block
    else if n == 0x37
    then SdioCommand.app_cmd
    else SdioCommand.unknown_cmd n

-- The structure at the start of a buffer.
unfoldable pub request_of : List ℕ → SdioRequest
request_of bytes = record {
  cmd = command_of (word_be32 bytes);
  arg = word_be32 (drop 12 bytes);
  blk_cnt = word_be32 (drop 16 bytes);
  addr = word_be32 (drop 24 bytes);
  is_dma = word_be32 (drop 28 bytes);
}

-- A buffer that holds no request.
unfoldable pub is_no_request : Buffer → Bool
is_no_request b = ltb (length b.bytes) request_size || not (aligned b.addr 4)

abbrev pub null_buffer : Buffer
null_buffer = record { addr = 0; bytes = [] }

-- `IOS::Request`: the commands with the members that are read. The vectors of an ioctlv are its first
-- three.
pub data IpcRequest : Type 0 where
  open_request : List ℕ → IpcRequest
  close_request : IpcRequest
  ioctl_request : SdioIoctl → Buffer → Buffer → IpcRequest
  ioctlv_request : SdioIoctl → ℕ → ℕ → Buffer → Buffer → Buffer → IpcRequest
  other_request : IpcRequest

-- What a request leaves: its answer, the output buffer, the data buffer and the state.
module _ {W U F : Type 0} (drivers : Drivers W U) (fs : FatFs (State W U F) F)
    (engine : Engine (State W U F)) (fuel emu_dev_id : ℕ) where
  unfoldable pub reject : ℤ → Buffer → Buffer → State W U F → Outcome (SdioReply W U F)
  reject code rw out s = done (record { ret = code; out = out; data_buffer = rw; state = s })

  -- `ReqIoctlv`
  unfoldable pub req_ioctlv :
      SdioIoctl → ℕ → ℕ → Buffer → Buffer → Buffer → State W U F → Outcome (SdioReply W U F)
  req_ioctlv SdioIoctl.send_cmd in_count out_count in_buffer rw out s =
      if not (in_count == 2) || not (out_count == 1)
      then reject ios_invalid rw out s
      else if is_no_request in_buffer
      then reject ios_invalid rw out s
      else execute_command drivers fs engine fuel emu_dev_id (request_of in_buffer.bytes) rw out s
  req_ioctlv cmd in_count out_count in_buffer rw out s = reject ios_invalid rw out s

  -- The status word of the card.
  unfoldable pub status_of : State W U F → ℕ
  status_of s = if is_inserted emu_dev_id s then 0x1 + 0x10000 + 0x100000 else 0

  -- `ReqIoctl`
  unfoldable pub req_ioctl : SdioIoctl → Buffer → Buffer → State W U F → Outcome (SdioReply W U F)
  req_ioctl SdioIoctl.write_hc_reg in_buffer out s = reject ios_ok null_buffer out s
  req_ioctl SdioIoctl.read_hc_reg in_buffer out s =
      answer drivers fs engine fuel emu_dev_id null_buffer s (write_word_out out 0)
  req_ioctl SdioIoctl.reset_card in_buffer out s =
      answer drivers fs engine fuel emu_dev_id null_buffer s (write_word_out out 0x9F620000)
  req_ioctl SdioIoctl.set_clk in_buffer out s = reject ios_ok null_buffer out s
  req_ioctl SdioIoctl.send_cmd in_buffer out s =
      if is_no_request in_buffer
      then reject ios_invalid null_buffer out s
      else execute_command drivers fs engine fuel emu_dev_id (request_of in_buffer.bytes)
          null_buffer out s
  req_ioctl SdioIoctl.get_status in_buffer out s =
      assert (ltb emu_dev_id device_count)
      >> answer drivers fs engine fuel emu_dev_id null_buffer s (write_word_out out (status_of s))
  req_ioctl SdioIoctl.get_ocr in_buffer out s =
      answer drivers fs engine fuel emu_dev_id null_buffer s (write_word_out out 0)
  req_ioctl cmd in_buffer out s = reject ios_invalid null_buffer out s

  -- `strcmp(path, "~dev/sdio/slot0") == 0`, on the characters before the terminating zero.
  unfoldable pub is_path : List ℕ → List ℕ → Bool
  is_path [] [] = true
  is_path [] (y ∷ ys) = false
  is_path (x ∷ xs) [] = false
  is_path (x ∷ xs) (y ∷ ys) = if x == y then is_path xs ys else false

  -- `IPCRequest`
  pub ipc_request : IpcRequest → State W U F → Outcome (SdioReply W U F)
  ipc_request (IpcRequest.open_request path) s =
      if not (is_path path (codes "~dev/sdio/slot0"))
      then reject ios_not_found null_buffer null_buffer s
      else reject ios_ok null_buffer null_buffer s
  ipc_request IpcRequest.close_request s = reject ios_ok null_buffer null_buffer s
  ipc_request (IpcRequest.ioctl_request cmd in_buffer out) s = req_ioctl cmd in_buffer out s
  ipc_request (IpcRequest.ioctlv_request cmd in_count out_count in_buffer rw out) s =
      req_ioctlv cmd in_count out_count in_buffer rw out s
  ipc_request IpcRequest.other_request s = reject ios_invalid null_buffer null_buffer s
