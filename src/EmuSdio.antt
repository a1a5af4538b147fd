-- ===== src/EmuSdio.antt =====
-- ios/EmuSDIO/EmuSDIO.cpp: the SD host controller that the game sees, over a device of the device
-- manager. Buffers of the caller are addresses and bytes.
pub mod Requests
pub mod Transfers
mod Tests
use ctgpr_msc.Base.{
  ℕ, zero, suc, ◌+◌, ◌-◌, ◌*◌, ◌/◌, ◌%◌, ◌^◌, ◌≡◌, List, [], ◌∷◌, ◌++◌, Bool, true, false, not,
  ◌||◌, ◌&&◌, ltb, ◌==◌, if◌then◌else◌, Option, none, some, length, drop,
}
use ctgpr_msc.Base.Int.{ℤ, pos, negsuc}
use ctgpr_msc.Base.Words.{mul_u32, aligned, bytes_be32, shr}
use ctgpr_msc.Base.Outcome.{Outcome, done, fault, ◌>>=◌, ◌>>◌, assert}
use ctgpr_msc.Aes.{Engine}
use ctgpr_msc.FatFs.{FatFs}
use ctgpr_msc.DeviceMgr.{State, Drivers, device_count, device_read, device_write, is_inserted}

-- `IOSError` and `RET_OK`, `RET_FAIL`.
abbrev pub ios_ok : ℤ
ios_ok = pos 0

abbrev pub ios_invalid : ℤ
ios_invalid = negsuc 3

abbrev pub ios_not_found : ℤ
ios_not_found = negsuc 5

abbrev pub ret_ok : ℤ
ret_ok = pos 0

abbrev pub ret_fail : ℤ
ret_fail = pos 1

pub data SdioCommand : Type 0 where
  go_idle all_send_cid send_rca set_bus_width select send_if_cond send_csd send_cid : SdioCommand
  send_status set_block_len read_block read_multi_block write_block write_multi_block : SdioCommand
  app_cmd : SdioCommand
  unknown_cmd : ℕ → SdioCommand

pub data SdioIoctl : Type 0 where
  write_hc_reg read_hc_reg read_c_reg reset_card write_c_reg set_clk send_cmd set_bus_width :
      SdioIoctl
  read_mc_reg write_mc_reg get_status get_ocr read_data write_data : SdioIoctl
  unknown_ioctl : ℕ → SdioIoctl

-- `SDIORequest`, the members that are read.
pub record SdioRequest : Type 0 where
  pub cmd : SdioCommand
  pub arg : ℕ
  pub blk_cnt : ℕ
  pub addr : ℕ
  pub is_dma : ℕ

-- A buffer of the caller: a null pointer with no bytes where there is none.
pub record Buffer : Type 0 where
  pub addr : ℕ
  pub bytes : List ℕ

-- What a request leaves: its answer, the output buffer, the data buffer and the state.
pub record SdioReply (W U F : Type 0) : Type 0 where
  pub ret : ℤ
  pub out : Buffer
  pub data_buffer : Buffer
  pub state : State W U F

-- The buffer does not take `size` bytes.
unfoldable pub is_unfit : Buffer → ℕ → Bool
is_unfit out size = ltb (length out.bytes) size || not (aligned out.addr 4)

-- Bytes at the start of a buffer, or the code `bad`.
unfoldable pub write_out : ℤ → Buffer → List ℕ → ℤ × Buffer
write_out bad out bytes =
    if is_unfit out (length bytes)
    then (bad, out)
    else (pos 0, record out { bytes = bytes ++ drop (length bytes) out.bytes })

unfoldable pub write_word_out : Buffer → ℕ → ℤ × Buffer
write_word_out out value = write_out ios_invalid out (bytes_be32 value)

unfoldable pub write_word_out_cmd : Buffer → ℕ → ℤ × Buffer
write_word_out_cmd out value = write_out ret_fail out (bytes_be32 value)

unfoldable pub write_struct_out_cmd : Buffer → List ℕ → ℤ × Buffer
write_struct_out_cmd out bytes = write_out ret_fail out bytes

-- The card identification that `SendCID` answers.
abbrev pub card_id : List ℕ
card_id =
    bytes_be32 0x80114D1C ++ bytes_be32 0x80080000 ++ bytes_be32 0x8007B520 ++ bytes_be32 0x80080000

-- The test that `ReadMultiBlock` and `WriteMultiBlock` make of the buffer, in 32-bit arithmetic.
unfoldable pub is_bad_transfer : SdioRequest → Buffer → Bool
is_bad_transfer req rw =
    not (req.addr % 2 ^ 31 == rw.addr) || not (mul_u32 req.blk_cnt 512 == length rw.bytes)

module _ {W U F : Type 0} (drivers : Drivers W U) (fs : FatFs (State W U F) F)
    (engine : Engine (State W U F)) (fuel emu_dev_id : ℕ) where
  -- An answer that changes the output buffer only.
  unfoldable pub answer : Buffer → State W U F → ℤ × Buffer → Outcome (SdioReply W U F)
  answer rw s r = done (record { ret = r.0; out = r.1; data_buffer = rw; state = s })

  unfoldable pub fail : Buffer → Buffer → State W U F → Outcome (SdioReply W U F)
  fail rw out s = done (record { ret = ret_fail; out = out; data_buffer = rw; state = s })

  unfoldable pub read_multi :
      SdioRequest → Buffer → Buffer → State W U F → Outcome (SdioReply W U F)
  read_multi req rw out s =
      if req.is_dma == 0
      then fail rw out s
      else if is_bad_transfer req rw
      then fail rw out s
      else (device_read drivers fs engine fuel emu_dev_id req.arg req.blk_cnt rw.bytes s >>= λ r.
          if not r.good
          then fail (record rw { bytes = r.buffer }) out r.state
          else answer (record rw { bytes = r.buffer }) r.state (write_word_out_cmd out 0x900))

  unfoldable pub write_multi :
      SdioRequest → Buffer → Buffer → State W U F → Outcome (SdioReply W U F)
  write_multi req rw out s =
      if req.is_dma == 0
      then fail rw out s
      else if is_bad_transfer req rw
      then fail rw out s
      else (device_write drivers emu_dev_id req.arg req.blk_cnt rw.bytes s >>= λ r.
          if not r.0 then fail rw out r.1 else answer rw r.1 (write_word_out_cmd out 0x900))

  unfoldable pub execute :
      SdioCommand → SdioRequest → Buffer → Buffer → State W U F → Outcome (SdioReply W U F)
  execute SdioCommand.go_idle req rw out s = answer rw s (write_word_out_cmd out 0)
  execute SdioCommand.send_rca req rw out s = answer rw s (write_word_out_cmd out 0x9F62)
  execute SdioCommand.select req rw out s =
      answer rw s (write_word_out_cmd out (if shr req.arg 16 % 2 ^ 16 == 0 then 0x900 else 0x700))
  execute SdioCommand.send_if_cond req rw out s = answer rw s (write_word_out_cmd out req.arg)
  execute SdioCommand.send_csd req rw out s = fail rw out s
  execute SdioCommand.all_send_cid req rw out s = answer rw s (write_struct_out_cmd out card_id)
  execute SdioCommand.send_cid req rw out s = answer rw s (write_struct_out_cmd out card_id)
  execute SdioCommand.set_block_len req rw out s =
      if not (req.arg == 512) then fail rw out s else answer rw s (write_word_out_cmd out 0x900)
  execute SdioCommand.app_cmd req rw out s = answer rw s (write_word_out out 0x920)
  execute SdioCommand.set_bus_width req rw out s = answer rw s (write_word_out_cmd out 0x920)
  execute SdioCommand.read_multi_block req rw out s = read_multi req rw out s
  execute SdioCommand.write_multi_block req rw out s = write_multi req rw out s
  execute SdioCommand.send_status req rw out s = fail rw out s
  execute SdioCommand.read_block req rw out s = fail rw out s
  execute SdioCommand.write_block req rw out s = fail rw out s
  execute (SdioCommand.unknown_cmd n) req rw out s = fail rw out s

  -- `ExecuteCommand`
  unfoldable pub execute_command :
      SdioRequest → Buffer → Buffer → State W U F → Outcome (SdioReply W U F)
  execute_command req rw out s = execute req.cmd req rw out s
