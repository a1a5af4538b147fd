-- ===== src/Patch/Calls.antt =====
-- ios/IOS/Patch.cpp: where the branch that `PatchIOSOpen` writes into the kernel leads.
use mathlib.Core.Path.{subst}
use ctgpr_msc.Base.{
  some-inj, ℕ, ◌+◌, ◌-◌, ◌*◌, ◌/◌, ◌%◌, ◌^◌, ◌≤◌, ◌<◌, ◌≡◌, inl, inr, arith, Bool-cases, true, ltb,
  ◌==◌, ◌&&◌, some, List, [], ◌∷◌, not, leb, get_or, length, zero, suc,
}
use ctgpr_msc.Base.Memory.{bytes_at, Memory, store, load_16, load_32}
use ctgpr_msc.Base.Outcome.{
  any-Holds, assert-Known, bind-Holds, assert-Holds, Holds, Holds-value, done,
}
use ctgpr_msc.Base.Words.{word_be32, add_u32, sub_u32, bytes_be32}
use ctgpr_msc.Patch.Hook.{
  to_uncached, is_open_site, write_branch, patch_search, patch_ios_open, patch_calls, patch_code,
  Patched, find_syscall_table, valid_jumptable_ptr, valid_kernel_code_ptr,
}
use ctgpr_msc.Patch.Branch.{bl_target, IsNear, Branches, write_branch-Branches}

-- Bytes, all of them.
abbrev All : List ℕ → Type 0
All [] = Unit
All (b ∷ bytes) = (b < 256) × All bytes

-- The kernel's code is near the module's.
add_u32-IsNear :
    (at dest : ℕ)
    → at < 2 ^ 32
    → 0xfffef000 ≤ at
    → 0xffe80000 ≤ dest
    → dest < 0xfff00000
    → IsNear (add_u32 at 2) dest
add_u32-IsNear at dest small high low below = inr (omega arith)

-- The search from `at` down: where it patches, the branch leads to `dest`.
patch_search-Branches :
    (n at dest site : ℕ) (mem : Memory)
    → at < 2 ^ 32
    → at % 2 ≡ 0
    → 0xfffef000 + 2 * n ≤ at
    → 0xffe80000 ≤ dest
    → dest < 0xfff00000
    → (patch_search n at dest mem).1 ≡ some site
    → Branches (patch_search n at dest mem).0 site dest
unfolding patch_search
patch_search-Branches zero at dest site mem hs even b lo hi found = absurd (cc found)
patch_search-Branches (suc n) at dest site mem hs even b lo hi found =
    elim (Bool-cases (is_open_site at mem)) [
      | inr other ↦
          let below : sub_u32 at 2 ≡ at - 2 = omega arith in
          rw other (
            patch_search-Branches n (sub_u32 at 2) dest site mem (omega arith) (omega arith)
              (omega arith) lo hi (rw other at found))
      | inl here ↦
          let same : add_u32 at 2 ≡ site = some-inj (rw here at found) in
          rw here (
            subst (λ x. Branches (write_branch (add_u32 at 2) dest mem) x dest) same
              (write_branch-Branches (add_u32 at 2) dest mem (omega arith) (omega arith)
                (omega arith) (add_u32-IsNear at dest hs (omega arith) lo hi)))
    ]

-- Memory of bytes.
abbrev pub IsMemory : Memory → Type 0
IsMemory mem = (a : ℕ) → mem a < 256

load_32-bound : (mem : Memory) (at : ℕ) → IsMemory mem → load_32 mem at < 2 ^ 32
unfolding word_be32 bytes_at
load_32-bound mem at h = omega (arith, h at, h (at + 1), h (at + 1 + 1), h (at + 1 + 1 + 1))

get_or-bound : (bytes : List ℕ) (i : ℕ) → All bytes → get_or bytes i 0 < 256
get_or-bound [] i h = omega arith
get_or-bound (b ∷ bytes) zero (h, hs) = h
get_or-bound (b ∷ bytes) (suc i) (h, hs) = get_or-bound bytes i hs

store-IsMemory :
    (at : ℕ) (bytes : List ℕ) (mem : Memory)
    → All bytes
    → IsMemory mem
    → IsMemory (store at bytes mem)
unfolding store
store-IsMemory at bytes mem small h a = elim (Bool-cases (leb at a && ltb a (at + length bytes))) [
  | inl inside ↦ rw inside (get_or-bound bytes (a - at) small)
  | inr outside ↦ rw outside (h a)
]

valid_kernel_code_ptr-bound : (code : ℕ) → valid_kernel_code_ptr code ≡ true → 0xffff0040 ≤ code
unfolding valid_kernel_code_ptr
valid_kernel_code_ptr-bound code h = ground arith

to_uncached-bounds :
    (trampoline : ℕ)
    → 0x7fe80000 ≤ trampoline
    → trampoline < 0x7ff00000
    → (0xffe80000 ≤ to_uncached trampoline) × (to_uncached trampoline < 0xfff00000)
unfolding to_uncached
to_uncached-bounds trampoline lo hi = (ground arith, ground arith)

abbrev Hooked : ℕ → ℕ → Patched → Type 0
Hooked trampoline site r = r.site ≡ some site → Branches r.memory site (to_uncached trampoline)

patch_code-Hooked :
    (verify_fn code trampoline site : ℕ) (hooked : Memory)
    → code < 2 ^ 32
    → 0xffff0040 ≤ code
    → 0x7fe80000 ≤ trampoline
    → trampoline < 0x7ff00000
    → Hooked trampoline site (patch_code verify_fn code trampoline hooked)
unfolding patch_code
patch_code-Hooked verify_fn code trampoline site hooked small high lo hi found =
    let uncached = to_uncached-bounds trampoline lo hi in
    patch_search-Branches 192 (code / 2 * 2) (to_uncached trampoline) site hooked (omega arith)
      (omega arith) (omega arith) uncached.0 uncached.1 found

patch_calls-Hooked :
    (hook trampoline site : ℕ) (mem : Memory) (table : ℕ)
    → IsMemory mem
    → 0x7fe80000 ≤ trampoline
    → trampoline < 0x7ff00000
    → Holds (Hooked trampoline site) (patch_calls hook trampoline mem table)
unfolding patch_calls
patch_calls-Hooked hook trampoline site mem table bytes lo hi =
    let verify = add_u32 table (0x6c * 4) in
    let hooked = store verify (bytes_be32 hook) mem in
    let entry = add_u32 table (0x1c * 4) in
    let code = load_32 hooked entry in
    let P = Hooked trampoline site in
    let kept =
      store-IsMemory verify (bytes_be32 hook) mem
        (omega arith, (omega arith, (omega arith, (omega arith, tt)))) bytes in
    assert-Holds P (not (table == 0)) _ (
      assert-Holds P (valid_jumptable_ptr verify) _ (
        assert-Holds P (valid_jumptable_ptr entry) _ (
          assert-Known P (valid_kernel_code_ptr code)
            (done (patch_code (load_32 mem verify) code trampoline hooked))
            (λ valid.
              patch_code-Hooked (load_32 mem verify) code trampoline site hooked
                (load_32-bound hooked entry kept) (valid_kernel_code_ptr-bound code valid) lo hi))))

patch_ios_open-Hooked :
    (hook trampoline site : ℕ) (mem : Memory)
    → IsMemory mem
    → 0x7fe80000 ≤ trampoline
    → trampoline < 0x7ff00000
    → Holds (Hooked trampoline site) (patch_ios_open hook trampoline mem)
unfolding patch_ios_open
patch_ios_open-Hooked hook trampoline site mem bytes lo hi =
    bind-Holds (λ t. Unit) (Hooked trampoline site) (find_syscall_table mem)
      (patch_calls hook trampoline mem) (any-Holds (find_syscall_table mem))
      (λ table known. patch_calls-Hooked hook trampoline site mem table bytes lo hi)

-- `PatchIOSOpen` in any kernel, for a trampoline in the memory that ios.ld gives to the module: where it
-- returns and has patched a place, the two halves there are a Thumb branch with link, and it leads to the
-- trampoline at its uncached address, less the bit that marks Thumb code.
pub patch_ios_open_lem :
    (hook trampoline site : ℕ) (mem : Memory) (r : Patched)
    → IsMemory mem
    → 0x7fe80000 ≤ trampoline
    → trampoline < 0x7ff00000
    → patch_ios_open hook trampoline mem ≡ done r
    → r.site ≡ some site
    → bl_target site (load_16 r.memory site) (load_16 r.memory (add_u32 site 2))
      ≡ some (to_uncached trampoline / 2 * 2)
patch_ios_open_lem hook trampoline site mem r bytes lo hi e found =
    Holds-value (Hooked trampoline site) (patch_ios_open hook trampoline mem) r
      (patch_ios_open-Hooked hook trampoline site mem bytes lo hi) e found
