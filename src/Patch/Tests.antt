-- ===== src/Patch/Tests.antt =====
-- A kernel in which IOS_Open is patched, and a name that is proxied.
use ctgpr_msc.Base.{
  ℕ, ◌-◌, ◌*◌, ◌/◌, ◌%◌, ◌^◌, ◌≡◌, refl, arith, List, [], ◌∷◌, ◌==◌, if◌then◌else◌, some, none,
}
use ctgpr_msc.Base.Memory.{Memory, load_16, bytes_at, store}
use ctgpr_msc.Base.Outcome.{Outcome, done, fault, stuck}
use ctgpr_msc.Base.Words.{codes, word_be32, add_u32}
use ctgpr_msc.Patch.{ios_open_strncpy, ppc_boot}
use ctgpr_msc.Patch.Access.{c_string, name_for_ppc, ios_open_strncpy_lem}
use ctgpr_msc.Patch.Branch.{bl_target}
use ctgpr_msc.Patch.Calls.{IsMemory, patch_ios_open_lem}
use ctgpr_msc.Patch.Hook.{
  patch_code, patch_search, is_open_site, find_syscall_table, patch_calls, syscall_search,
  valid_jumptable_ptr, valid_kernel_code_ptr, Patched, patch_ios_open, to_uncached,
}

-- Memory that holds some words.
abbrev word_at : List (ℕ × ℕ) → ℕ → ℕ
word_at [] at = 0
word_at ((a, w) ∷ rest) at = if a == at then w else word_at rest at

abbrev words : List (ℕ × ℕ) → Memory
words ws a = word_at ws (a / 4 * 4) / 256 ^ (3 - a % 4) % 256

abbrev kernel : Memory
kernel = words (
    (0xffff0004, 0xe59ff018)
    ∷ ((0xffff0024, 0xffff1000)
        ∷ ((0xffff1000, 0xe9cd7fff)
            ∷ ((0xffff1300, 0xe6000010)
                ∷ ((0xffff1304, 0xffff2000)
                    ∷ ((0xffff1308, 0xffff3000)
                        ∷ ((0xffff3070, 0xffff4001)
                            ∷ ((0xffff3ffc, 0x58d0) ∷ ((0xffff4000, 0x1c6a0000) ∷ [])))))))))

kernel-IsMemory : IsMemory kernel
kernel-IsMemory a = omega arith

abbrev or_else : Patched → Outcome Patched → Patched
or_else r (done a) = a
or_else r fault = r
or_else r stuck = r

abbrev patched : Patched
patched =
    or_else
      (record { memory = kernel; site = none; verify_pub_key_func_ptr = 0; ipc_thread_ptr = 0 })
      (patch_ios_open 0x7fe81001 0x7fe82001 kernel)

patch_done : patch_ios_open 0x7fe81001 0x7fe82001 kernel ≡ done patched
unfolding patch_ios_open find_syscall_table word_be32 bytes_at patch_calls syscall_search
    valid_jumptable_ptr valid_kernel_code_ptr store
patch_done = refl

patch_site : patched.site ≡ some 0xffff4002
unfolding patch_ios_open find_syscall_table word_be32 bytes_at patch_calls syscall_search
    valid_jumptable_ptr valid_kernel_code_ptr store patch_code patch_search is_open_site load_16
patch_site = refl

patch_ios_open_lem_example :
    bl_target 0xffff4002
      (load_16 patched.memory 0xffff4002)
      (load_16 patched.memory (add_u32 0xffff4002 2))
    ≡ some (to_uncached 0x7fe82001 / 2 * 2)
patch_ios_open_lem_example =
    patch_ios_open_lem 0x7fe81001 0x7fe82001 0xffff4002 kernel patched kernel-IsMemory (omega arith)
      (omega arith) patch_done patch_site

ios_open_strncpy_lem_example :
    c_string (ios_open_strncpy (codes "/dev/es") 64 ppc_boot []).0 ≡ name_for_ppc (codes "/dev/es")
ios_open_strncpy_lem_example =
    ios_open_strncpy_lem (codes "/dev/es") 64 [] (omega arith)
      (refl, (refl, (refl, (refl, (refl, (refl, (refl, tt)))))))
