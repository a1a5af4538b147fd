-- ===== src/Patch.antt =====
-- ios/IOS/Patch.cpp: what is put into the kernel. This part is the name hook of IOS_Open, the hook of
-- the signature check, and the reset of the Wii U's processor.
pub mod Hook
pub mod Access
pub mod Branch
pub mod Calls
mod Tests
use ctgpr_msc.Base.{
  ℕ, zero, suc, ◌+◌, ◌-◌, ◌*◌, ◌/◌, ◌%◌, ◌^◌, List, [], ◌∷◌, ◌++◌, Bool, true, false, not, ◌&&◌,
  ◌||◌, ltb, leb, ◌==◌, if◌then◌else◌, take, get_or, set, replicate,
}
use ctgpr_msc.Base.Bytes.{eq_bytes}
use ctgpr_msc.Base.Int.{ℤ, pos, eq_ℤ}
use ctgpr_msc.Base.Memory.{Memory, store, load_32}
use ctgpr_msc.Base.Outcome.{Outcome, done, stuck}
use ctgpr_msc.Base.Words.{codes, bytes_be32, sub_u32}

-- `strncpy` of a text that has no NUL into a buffer of `num` bytes.
unfoldable pub strncpy : ℕ → List ℕ → List ℕ
strncpy num src = take num (src ++ replicate num 0)

-- `!strncmp(src, prefix, strlen(prefix))`
unfoldable pub starts_with : List ℕ → List ℕ → Bool
starts_with [] src = true
starts_with (c ∷ cs) [] = false
starts_with (c ∷ cs) (d ∷ ds) = (c == d) && starts_with cs ds

-- The number of the process that makes the requests of the PowerPC.
abbrev pub ppc_boot : ℕ
ppc_boot = 15

-- The first byte of the names of the program's own devices.
unfoldable pub is_internal : List ℕ → Bool
is_internal src = (get_or src 0 0 == b'$') || (get_or src 0 0 == b'~')

-- The part of `IOSOpenStrncpy` for the names of devices.
unfoldable pub device_name_for_ppc : List ℕ → List ℕ → List ℕ
device_name_for_ppc src dest =
    if eq_bytes src (codes "/dev/sao_loader")
    then set dest 0 0
    else if eq_bytes src (codes "/dev/flash") || eq_bytes src (codes "/dev/boot2")
    then set dest 0 0
    else if eq_bytes src (codes "/dev/es")
    then set dest 0 b'~'
    else if eq_bytes src (codes "/dev/sdio/slot0")
    then set dest 0 b'~'
    else if eq_bytes src (codes "/dev/usb/hid")
    then set dest 0 b'~'
    else dest

-- `IOSOpenStrncpy`: the name that the kernel opens, and `g_iosOpenStr`.
unfoldable pub ios_open_strncpy : List ℕ → ℕ → ℕ → List ℕ → List ℕ × List ℕ
ios_open_strncpy src num pid open_str =
    let dest = strncpy num src in
    if not (pid == ppc_boot)
    then (dest, open_str)
    else if not (get_or src 0 0 == b'/')
    then ((if is_internal src then set dest 0 0 else dest), dest)
    else if starts_with (codes "/dev/") src
    then (device_name_for_ppc src dest, dest)
    else (dest, dest)

-- `IOSCVerifySignHook`, with what the function of the kernel answers.
unfoldable pub ioscv_verify_sign_hook : Bool → ℤ → ℤ
ioscv_verify_sign_hook skip_sign_check verified = if not skip_sign_check then verified else pos 0

-- `MakePPCBranch`; the bits of the opcode are not among those of the distance.
unfoldable pub make_ppc_branch : ℕ → ℕ → ℕ
make_ppc_branch src dest = sub_u32 dest src % 2 ^ 26 / 4 * 4 + 0x48000000

-- `IsWiiU`, with what it reads from LT_CHIPREVID.
unfoldable pub is_wii_u : ℕ → Bool
is_wii_u chip_rev_id = chip_rev_id / 2 ^ 16 == 0xcafe

-- `FirstAddr` and `FirstAddrValue`.
abbrev pub first_addr : ℕ
first_addr = 0x01330418

abbrev pub first_addr_value : ℕ
first_addr_value = 0x48000129

-- The loop of `ResetEspresso` over what memory holds at each look: the first instruction is replaced
-- once it is decrypted.
unfoldable pub await_decryption : ℕ → List Memory → Outcome Memory
await_decryption entry [] = stuck
await_decryption entry (mem ∷ looks) =
    let rest = await_decryption entry looks in
    if load_32 mem first_addr == first_addr_value
    then done (store first_addr (bytes_be32 (make_ppc_branch first_addr entry)) mem)
    else rest

-- What `ResetEspresso` leaves: its answer, `Log::ipcLogEnabled` and memory.
pub record Reset : Type 0 where
  pub ok : Bool
  pub ipc_log_enabled : Bool
  pub memory : Memory

-- `ResetEspresso`, with the answer of IOS_LaunchElf. The log stays off where that fails.
unfoldable pub reset_espresso : ℕ → ℕ → ℤ → Bool → Memory → Outcome Memory → Outcome Reset
reset_espresso chip_rev_id entry launched log_enabled mem awaited =
    if not (is_wii_u chip_rev_id)
    then done (record { ok = false; ipc_log_enabled = log_enabled; memory = mem })
    else if not (ltb entry 0x01800000)
    then done (record { ok = false; ipc_log_enabled = log_enabled; memory = mem })
    else if not (eq_ℤ launched (pos 0))
    then done (record { ok = false; ipc_log_enabled = false; memory = mem })
    else finish awaited
  where
    finish : Outcome Memory → Outcome Reset
    finish (done after) = done (record { ok = true; ipc_log_enabled = log_enabled; memory = after })
    finish Outcome.fault = Outcome.fault
    finish stuck = stuck
