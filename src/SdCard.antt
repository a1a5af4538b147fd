-- ===== src/SdCard.antt =====
-- ios/Disk/SDCard.cpp: the SD card slot. The statics of the file are a record that also carries the
-- world of the calls to IOS; this part has the commands and the registers of the host controller.
pub mod Startup
pub mod Sectors
pub mod Card
pub mod Ranges
pub mod Rounds
pub mod Reads
pub mod Splices
pub mod Writes
pub mod Flags
pub mod Init
pub mod Kept
pub mod Reach
pub mod RoundTrip
pub mod Tests
use ctgpr_msc.Base.{
  ℕ, zero, suc, ◌+◌, ◌-◌, ◌*◌, ◌/◌, ◌%◌, ◌^◌, ◌≡◌, List, [], ◌∷◌, ◌++◌, Bool, true, false, not,
  ◌||◌, ◌&&◌, ◌==◌, if◌then◌else◌, replicate,
}
use Prim.Native.String.{String}
use ctgpr_msc.Base.Int.{ℤ, pos, negsuc, is_neg, s32_of, u32_of}
use ctgpr_msc.Base.Words.{mul_u32, low_bits, shr, word_be32, bytes_be32, and_bits, bit}
use ctgpr_msc.Base.Outcome.{Outcome, done, ◌>>=◌, ◌>>◌, assert}

-- `_sdiorequest`; `pad0` is always zero.
pub record Request : Type 0 where
  pub cmd : ℕ
  pub cmd_type : ℕ
  pub rsp_type : ℕ
  pub arg : ℕ
  pub blk_cnt : ℕ
  pub blk_size : ℕ
  pub dma_addr : ℕ
  pub isdma : ℕ

-- What a request to the resource manager leaves: its code, the bytes of its output (of the response,
-- for a command), the data buffer and the world.
pub record IosReply (W : Type 0) : Type 0 where
  pub ret : ℤ
  pub out : List ℕ
  pub data_buffer : List ℕ
  pub world : W

-- The calls of IOS: `IOS_Ioctl` with the code, the input and the length of the output; `IOS_Ioctl` and
-- `IOS_Ioctlv` with IOCTL_SDIO_SENDCMD, the second with the data vector's length and bytes; and
-- the address of `rw_buffer`.
pub record Sdio (W : Type 0) : Type 0 where
  pub process_id : W → ℕ
  pub virtual_to_physical : ℕ → ℕ
  pub rw_buffer_addr : ℕ
  pub ios_open : String → ℕ → W → ℤ × W
  pub ios_close : ℤ → W → W
  pub ioctl : ℤ → ℕ → List ℕ → ℕ → W → IosReply W
  pub send : ℤ → Request → W → IosReply W
  pub send_vector : ℤ → Request → ℕ → List ℕ → W → IosReply W
  pub usleep : ℕ → W → W

-- The statics `__sd0_*` and `__sdio_initialized`, `rw_buffer`, and the world.
pub record Sd (W : Type 0) : Type 0 where
  pub fd : ℤ
  pub rca : ℕ
  pub initialized : ℕ
  pub sdhc : ℕ
  pub cid : List ℕ
  pub sdio_initialized : ℕ
  pub rw_buffer : List ℕ
  pub world : W

abbrev pub initial_sd : {W : Type 0} → W → Sd W
initial_sd w = record {
  fd = negsuc 0;
  rca = 0;
  initialized = 0;
  sdhc = 0;
  cid = replicate 16 0;
  sdio_initialized = 0;
  rw_buffer = replicate 5120 0;
  world = w;
}

abbrev pub sd0_fs : String
sd0_fs = "/dev/sdio/slot0"

-- The query of a register: its number, its size and the data to write.
unfoldable pub hcr_query : ℕ → ℕ → ℕ → List ℕ
hcr_query reg size value =
    bytes_be32 reg ++ (replicate 8 0 ++ (bytes_be32 size ++ (bytes_be32 value ++ replicate 4 0)))

-- The test of `__sdio_waithcr` on a value.
unfoldable pub is_awaited : Bool → ℕ → ℕ → Bool
is_awaited unset mask value =
    if unset then and_bits 32 value mask == 0 else not (and_bits 32 value mask == 0)

module _ {W : Type 0} (ios : Sdio W) where
  -- `__sdio_sendcommand` on a buffer at an address, null where it is 0; `out` of the answer is
  -- the response, which the callers copy.
  unfoldable pub send_command :
      ℕ → ℕ → ℕ → ℕ → ℕ → ℕ → ℕ → List ℕ → Sd W → Outcome (IosReply W × Sd W)
  send_command cmd cmd_type rsp_type arg blk_cnt blk_size addr bytes s =
      let physical = ios.virtual_to_physical addr in
      let dma = not (physical == 0) in
      let request : Request = record {
        cmd = cmd;
        cmd_type = cmd_type;
        rsp_type = rsp_type;
        arg = arg;
        blk_cnt = blk_cnt;
        blk_size = blk_size;
        dma_addr = physical;
        isdma = if dma then 1 else 0;
      } in
      let r =
        if dma || (s.sdhc == 1)
        then ios.send_vector s.fd request (mul_u32 blk_size blk_cnt) bytes s.world
        else record (ios.send s.fd request s.world) { data_buffer = bytes } in
      assert (ios.process_id s.world == 0) >> done (r, record s { world = r.world })

  -- A command without data.
  unfoldable pub command : ℕ → ℕ → ℕ → ℕ → Sd W → Outcome (IosReply W × Sd W)
  command cmd cmd_type rsp_type arg s = send_command cmd cmd_type rsp_type arg 0 0 0 [] s

  -- The return code of a command alone.
  unfoldable pub command_ret : ℕ → ℕ → ℕ → ℕ → Sd W → Outcome (ℤ × Sd W)
  command_ret cmd cmd_type rsp_type arg s =
      command cmd cmd_type rsp_type arg s >>= λ r. done (r.0.ret, r.1)

  -- `__sdio_setclock`
  unfoldable pub set_clock : ℕ → Sd W → ℤ × Sd W
  set_clock value s =
      let r = ios.ioctl s.fd 0x06 (bytes_be32 value) 0 s.world in
      (r.ret, record s { world = r.world })

  -- `__sdio_getstatus`: the code of a failure and the status bits in one number.
  unfoldable pub get_status : Sd W → ℤ × Sd W
  get_status s =
      let r = ios.ioctl s.fd 0x0b [] 4 s.world in
      (if is_neg r.ret then r.ret else s32_of (word_be32 r.out), record s { world = r.world })

  -- `__sdio_resetcard`
  unfoldable pub reset_card : Sd W → ℤ × Sd W
  reset_card s =
      let r = ios.ioctl s.fd 0x04 [] 4 s.world in
      let status = word_be32 r.out in
      if is_neg r.ret then (r.ret, record s { rca = 0; world = r.world }) else (
        pos (low_bits status 16),
        record s { rca = low_bits (shr status 16) 16; world = r.world },
      )

  -- `__sdio_gethcr`: the code, the value and the state.
  unfoldable pub get_hcr : ℕ → ℕ → Sd W → ℤ × ℕ × Sd W
  get_hcr reg size s =
      let r = ios.ioctl s.fd 0x02 (hcr_query reg size 0) 4 s.world in
      (r.ret, word_be32 r.out, record s { world = r.world })

  -- `__sdio_sethcr`
  unfoldable pub set_hcr : ℕ → ℕ → ℕ → Sd W → ℤ × Sd W
  set_hcr reg size value s =
      let r = ios.ioctl s.fd 0x01 (hcr_query reg size value) 0 s.world in
      (r.ret, record s { world = r.world })

  -- The loop of `__sdio_waithcr`, with the tries that are left.
  unfoldable pub wait_hcr : ℕ → ℕ → ℕ → Bool → ℕ → Sd W → ℤ × Sd W
  wait_hcr zero reg size unset mask s = (negsuc 0, s)
  wait_hcr (suc tries) reg size unset mask s =
      let r = get_hcr reg size s in
      elim (is_neg r.0) [
        | true ↦ (r.0, r.2)
        | false ↦ elim (is_awaited unset mask r.1) [
          | true ↦ (pos 0, r.2)
          | false ↦
              wait_hcr tries reg size unset mask (record r.2 { world = ios.usleep 10000 r.2.world })
        ]
      ]

  -- `__sdio_setbuswidth`: HOSTCONTROL_4BIT is bit 1.
  unfoldable pub set_host_bus_width : ℕ → Sd W → ℤ × Sd W
  set_host_bus_width bus_width s =
      let r = get_hcr 0x28 1 s in
      let low = low_bits r.1 8 in
      let cleared = low - low / 2 % 2 * 2 in
      if is_neg r.0
      then (r.0, r.2)
      else set_hcr 0x28 1 (if bus_width == 4 then cleared + 2 else cleared) r.2

  -- `__sd0_getrca`
  unfoldable pub get_rca : Sd W → Outcome (ℤ × Sd W)
  get_rca s = do
    r ← command 0x03 0 6 0 s
    let rca = word_be32 r.0.out
    done (
        if is_neg r.0.ret
        then (r.0.ret, r.1)
        else (pos (low_bits rca 16), record r.1 { rca = low_bits (shr rca 16) 16 }))

  -- `__sd0_select`, `__sd0_deselect` and `__sd0_setblocklength`
  unfoldable pub select : Sd W → Outcome (ℤ × Sd W)
  select s = command_ret 0x07 3 2 (mul_u32 s.rca 65536) s

  unfoldable pub deselect : Sd W → Outcome (ℤ × Sd W)
  deselect s = command_ret 0x07 3 2 0 s

  unfoldable pub set_block_length : ℕ → Sd W → Outcome (ℤ × Sd W)
  set_block_length blk_len s = command_ret 0x10 3 1 blk_len s

  -- `__sd0_setbuswidth`
  unfoldable pub set_card_bus_width : ℕ → Sd W → Outcome (ℤ × Sd W)
  set_card_bus_width bus_width s = do
    app ← command_ret 0x37 3 1 (mul_u32 s.rca 65536) s
    (if is_neg app.0
        then done app
        else command_ret 0x06 3 1 (if bus_width == 4 then 2 else 0) app.1)

  -- `__sd0_getcid`, which copies the response whatever the code is.
  unfoldable pub get_cid : Sd W → Outcome (ℤ × Sd W)
  get_cid s = do
    r ← command 0x02 0 3 (mul_u32 s.rca 65536) s
    done (r.0.ret, record r.1 { cid = r.0.out })
