-- ===== src/Usb/Tests.antt =====
-- A device that moves everything, and instances of the theorems at it.
use ctgpr_msc.Base.{ℕ, ◌+◌, refl, [], ◌∷◌, length, replicate, ◌==◌, if◌then◌else◌}
use ctgpr_msc.Base.Int.{pos}
use ctgpr_msc.Usb.{UsbManager, bulk_transfer, intr_bulk_msg, is_bad_buffer, result_of}
use ctgpr_msc.Usb.Transfers.{IsMade, bulk_answer, bulk_msg-ok}

-- The world counts the transfers.
abbrev device : UsbManager ℕ
device = record {
  ioctl = λ cmd input n w. (pos 0, replicate n 0, w);
  get_device_change_async = λ w. (pos 0, w);
  ioctlv = λ cmd input kind bytes w. record {
    ret = if cmd == 18 then pos (length bytes + 8) else pos (length bytes);
    bytes = bytes;
    world = w + 1;
  };
  alloc = λ w. replicate 32 0;
}

bulk_msg-ok_example :
    IsMade device 0x10000020 2 2
      (bulk_answer device 7 bulk_transfer 0x81 2 0x10000020 (3 ∷ 4 ∷ []) 0)
      (intr_bulk_msg device 7 bulk_transfer 0x81 2 0x10000020 (3 ∷ 4 ∷ []) 0)
unfolding intr_bulk_msg is_bad_buffer result_of
bulk_msg-ok_example = bulk_msg-ok device 7 0x81 2 0x10000020 (3 ∷ 4 ∷ []) 0 refl
