-- ===== src/Patch/Hook.antt =====
-- ios/IOS/Patch.cpp: `PatchIOSOpen`, which finds the system calls of the kernel and hooks two of them.
use ctgpr_msc.Base.{
  ℕ, zero, suc, ◌+◌, ◌*◌, ◌/◌, ◌%◌, ◌^◌, Bool, not, ◌&&◌, ◌||◌, ltb, leb, ◌==◌, if◌then◌else◌,
  Option, none, some,
}
use ctgpr_msc.Base.Memory.{Memory, store, load_32, load_16, store_16}
use ctgpr_msc.Base.Outcome.{Outcome, done, fault, ◌>>=◌, ◌>>◌, assert}
use ctgpr_msc.Base.Words.{bytes_be32, add_u32, sub_u32}

-- `ValidJumptablePtr` and `ValidKernelCodePtr`.
unfoldable pub valid_jumptable_ptr : ℕ → Bool
valid_jumptable_ptr address = leb 0xffff0040 address && (address % 4 == 0)

unfoldable pub valid_kernel_code_ptr : ℕ → Bool
valid_kernel_code_ptr address = leb 0xffff0040 address && (address / 2 % 2 == 0)

-- `ToUncached`
unfoldable pub to_uncached : ℕ → ℕ
to_uncached address = if ltb address (2 ^ 31) then address + 2 ^ 31 else address

-- `ThumbBLHi` and `ThumbBLLo`; the bits of the opcodes are not among those of the distance.
unfoldable pub thumb_bl_hi : ℕ → ℕ → ℕ
thumb_bl_hi src dest = sub_u32 dest (add_u32 src 4) / 2 ^ 12 % 2 ^ 11 + 0xf000

unfoldable pub thumb_bl_lo : ℕ → ℕ → ℕ
thumb_bl_lo src dest = sub_u32 dest (add_u32 src 4) / 2 % 2 ^ 11 + 0xf800

-- The loop of `FindSyscallTable`, with the tests left and the offset.
unfoldable pub syscall_search : ℕ → ℕ → ℕ → Memory → ℕ
syscall_search zero i handler mem = 0
syscall_search (suc n) i handler mem =
    let rest = syscall_search n (i + 4) handler mem in
    if (load_32 mem (handler + i) == 0xe6000010)
      && valid_jumptable_ptr (load_32 mem (handler + i + 4))
      && valid_jumptable_ptr (load_32 mem (handler + i + 8))
    then load_32 mem (handler + i + 8)
    else rest

-- `FindSyscallTable`
unfoldable pub find_syscall_table : Memory → Outcome ℕ
find_syscall_table mem =
    let handler = load_32 mem 0xffff0024 in
    let is_bad =
      not (load_32 mem 0xffff0004 == 0xe59ff018)
      || ltb handler 0xffff0040
      || leb 0xfffff000 handler
      || not (handler % 4 == 0)
      || not (load_32 mem handler == 0xe9cd7fff) in
    if is_bad then fault else done (syscall_search 256 0x300 handler mem)

-- The two instructions before the place that is patched.
unfoldable pub is_open_site : ℕ → Memory → Bool
is_open_site at mem = (load_16 mem at == 0x1c6a) && (load_16 mem (sub_u32 at 2) == 0x58d0)

-- The branch to the trampoline, written at `at`.
unfoldable pub write_branch : ℕ → ℕ → Memory → Memory
write_branch at trampoline mem =
    store_16 (add_u32 at 2) (thumb_bl_lo at trampoline)
      (store_16 at (thumb_bl_hi at trampoline) mem)

-- The loop of `PatchIOSOpen`, with the tests left: memory, and where it is patched.
unfoldable pub patch_search : ℕ → ℕ → ℕ → Memory → Memory × Option ℕ
patch_search zero at trampoline mem = (mem, none)
patch_search (suc n) at trampoline mem =
    let rest = patch_search n (sub_u32 at 2) trampoline mem in
    let site = add_u32 at 2 in
    if is_open_site at mem then (write_branch site trampoline mem, some site) else rest

-- What `PatchIOSOpen` leaves: memory, where it is patched, `verifyPubKeyFuncPtr` and `ipcThreadPtr`.
pub record Patched : Type 0 where
  pub memory : Memory
  pub site : Option ℕ
  pub verify_pub_key_func_ptr : ℕ
  pub ipc_thread_ptr : ℕ

-- The rest of `PatchIOSOpen` from the code of IOS_Open on, with the function of the signature check.
unfoldable pub patch_code : ℕ → ℕ → ℕ → Memory → Patched
patch_code verify_fn code trampoline hooked =
    let at = code / 2 * 2 in
    let found = patch_search 192 at (to_uncached trampoline) hooked in
    record {
      memory = found.0;
      site = found.1;
      verify_pub_key_func_ptr = verify_fn;
      ipc_thread_ptr = load_32 hooked (sub_u32 at 0x1c);
    }

-- `PatchIOSOpen` with the table of the system calls.
unfoldable pub patch_calls : ℕ → ℕ → Memory → ℕ → Outcome Patched
patch_calls hook trampoline mem jumptable = do
  let verify = add_u32 jumptable (0x6c * 4)
  let hooked = store verify (bytes_be32 hook) mem
  let code = load_32 hooked (add_u32 jumptable (0x1c * 4))
  assert (not (jumptable == 0))
  assert (valid_jumptable_ptr verify)
  assert (valid_jumptable_ptr (add_u32 jumptable (0x1c * 4)))
  assert (valid_kernel_code_ptr code)
  done (patch_code (load_32 mem verify) code trampoline hooked)

-- `PatchIOSOpen`, for the addresses of the hook and of the trampoline.
unfoldable pub patch_ios_open : ℕ → ℕ → Memory → Outcome Patched
patch_ios_open hook trampoline mem = find_syscall_table mem >>= patch_calls hook trampoline mem

-- `CheckImportKeyFunction`
unfoldable check_import_key_function : Memory → ℕ → Bool
check_import_key_function mem addr =
    (load_16 mem addr == 0xb5f0)
    && (load_16 mem (addr + 0x12) == 0x2600)
    && (load_16 mem (addr + 0x14) == 0x281f)
    && (load_16 mem (addr + 0x16) == 0xd806)

-- The loop of `FindImportKeyFunction`, with the tests left.
unfoldable import_key_search : ℕ → ℕ → Memory → ℕ
import_key_search zero addr mem = 0
import_key_search (suc n) addr mem =
    let rest = import_key_search n (addr + 2) mem in
    if check_import_key_function mem addr then addr + 1 else rest

-- `FindImportKeyFunction`
unfoldable find_import_key_function : Memory → ℕ
find_import_key_function mem =
    if check_import_key_function mem 0x13a79c58
    then 0x13a79c58 + 1
    else if check_import_key_function mem 0x13a79918
    then 0x13a79918 + 1
    else import_key_search 0x800 0x13a79500 mem
