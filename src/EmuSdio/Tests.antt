-- ===== src/EmuSdio/Tests.antt =====
-- Requests to the emulated SD host, and instances of the theorems on its transfers.
use ctgpr_msc.Base.{ℕ, ◌*◌, ◌^◌, ◌<◌, ◌≡◌, refl, ◌∷◌, false, arith, length, replicate}
use ctgpr_msc.Base.Int.{pos}
use ctgpr_msc.Base.Outcome.{done}
use ctgpr_msc.DeviceMgr.Tests.{
  drivers, library, engine, table, failed, failed-refused, usb_done, usb_read,
}
use ctgpr_msc.EmuSdio.{
  SdioCommand, SdioRequest, SdioReply, Buffer, ret_fail, is_bad_transfer, execute_command, execute,
  read_multi, answer, write_word_out_cmd, write_out, is_unfit,
}
use ctgpr_msc.EmuSdio.Transfers.{accepted_too_short, read_answered_ok, transfer_refused, IsReadOk}

abbrev request : ℕ → SdioRequest
request blocks = record {
  cmd = SdioCommand.read_multi_block;
  arg = 7;
  blk_cnt = blocks;
  addr = 0x80001000;
  is_dma = 1;
}

abbrev data_buffer : ℕ → Buffer
data_buffer blocks = record { addr = 0x1000; bytes = replicate (512 * blocks) 0 }

abbrev out_buffer : Buffer
out_buffer = record { addr = 0x2000; bytes = replicate 16 0 }

fits : is_bad_transfer (request 2) (data_buffer 2) ≡ false
unfolding is_bad_transfer
fits = refl

-- 2^23 sectors of no bytes.
fits_wrapped : is_bad_transfer (request (2 ^ 23)) (data_buffer 0) ≡ false
unfolding is_bad_transfer
fits_wrapped = refl

accepted_too_short_example : length (data_buffer 0).bytes < 512 * 2 ^ 23
accepted_too_short_example =
    accepted_too_short (request (2 ^ 23)) (data_buffer 0) (omega arith) fits_wrapped

abbrev answered : SdioReply (Unit {0}) (Unit {0}) (Unit {0})
answered = record {
  ret = pos 0;
  out = record { addr = 0x2000; bytes = 0 ∷ 0 ∷ 9 ∷ 0 ∷ replicate 12 0 };
  data_buffer = data_buffer 2;
  state = usb_done;
}

run :
    execute_command drivers library engine 3 1 (request 2) (data_buffer 2) out_buffer (table false)
    ≡ done answered
unfolding execute_command execute read_multi answer write_word_out_cmd write_out is_unfit
    is_bad_transfer
run = rw (usb_read (data_buffer 2).bytes)

read_answered_ok_example :
    IsReadOk drivers library engine 3 1 (request 2) (data_buffer 2) (table false) answered
read_answered_ok_example =
    read_answered_ok drivers library engine 3 1 (request 2) (data_buffer 2) out_buffer (table false)
      answered run refl

transfer_refused_example :
    (execute_command drivers library engine 3 0
        (record (request 2) { cmd = SdioCommand.read_multi_block })
        (data_buffer 2)
        out_buffer
        failed
      ≡ done (record {
        ret = ret_fail;
        out = out_buffer;
        data_buffer = data_buffer 2;
        state = failed;
      }))
    × (execute_command drivers library engine 3 0
          (record (request 2) { cmd = SdioCommand.write_multi_block })
          (data_buffer 2)
          out_buffer
          failed
        ≡ done (record {
          ret = ret_fail;
          out = out_buffer;
          data_buffer = data_buffer 2;
          state = failed;
        }))
transfer_refused_example =
    transfer_refused drivers library engine 3 0 (request 2) (data_buffer 2) out_buffer failed
      (omega arith) failed-refused
