-- ===== src/Patch/Branch.antt =====
-- ios/IOS/Patch.cpp: the branch that `PatchIOSOpen` writes, as the processor reads it.
use ctgpr_msc.Base.{
  ℕ, ◌+◌, ◌-◌, ◌*◌, ◌/◌, ◌%◌, ◌^◌, ◌≤◌, ◌<◌, ◌≡◌, refl, ◌∙◌, ◌⊎◌, inl, inr, arith, ltb, ◌==◌, ◌&&◌,
  if◌then◌else◌, Option, none, some, [], ◌∷◌,
}
use ctgpr_msc.Base.Memory.{Memory, load_16, store_16, store-in, store-below, store-above}
use ctgpr_msc.Base.Words.{add_u32, sub_u32}
use ctgpr_msc.Patch.Hook.{thumb_bl_hi, thumb_bl_lo, write_branch}

-- Where the two halves of a Thumb branch with link at `at` lead: the first gives the upper bits of a signed
-- distance from the instruction after it, the second its lower bits.
unfoldable pub bl_target : ℕ → ℕ → ℕ → Option ℕ
bl_target at hi lo =
    if (hi / 2 ^ 11 == 0x1e) && (lo / 2 ^ 11 == 0x1f)
    then some (
        (at
          + 4
          + (if ltb (hi % 2 ^ 11) (2 ^ 10) then 0 else 2 ^ 32 - 2 ^ 23)
          + hi % 2 ^ 11 * 2 ^ 12
          + lo % 2 ^ 11 * 2)
        % 2 ^ 32)
    else none

-- What a branch reaches: four MiB to either side, around the end of memory too.
abbrev pub IsNear : ℕ → ℕ → Type 0
IsNear at dest =
    (sub_u32 dest (add_u32 at 4) < 2 ^ 22) ⊎ (2 ^ 32 ≤ sub_u32 dest (add_u32 at 4) + 2 ^ 22)

bl_target_lem :
    (at dest : ℕ)
    → at < 2 ^ 32
    → dest < 2 ^ 32
    → at % 2 ≡ 0
    → IsNear at dest
    → bl_target at (thumb_bl_hi at dest) (thumb_bl_lo at dest) ≡ some (dest / 2 * 2)
unfolding bl_target thumb_bl_hi thumb_bl_lo
bl_target_lem at dest hs hd even (inl near) = ground arith
bl_target_lem at dest hs hd even (inr near) = ground arith

store_16-load :
    (at half : ℕ) (mem : Memory) → half < 2 ^ 16 → load_16 (store_16 at half mem) at ≡ half
unfolding load_16
store_16-load at half mem small =
    let bytes = half / 256 % 256 ∷ (half % 256 ∷ []) in
    let at_0 : at - at ≡ 0 = omega arith in
    let at_1 : at + 1 - at ≡ 1 = omega arith in
    rw
      (
        store-in at bytes mem at (omega arith) (omega arith),
        store-in at bytes mem (at + 1) (omega arith) (omega arith),
        at_0,
        at_1,
      )
      (omega arith)

store_16-apart :
    (at half other : ℕ) (mem : Memory)
    → at % 2 ≡ 0
    → other % 2 ≡ 0
    → (at < other) ⊎ (other < at)
    → load_16 (store_16 at half mem) other ≡ load_16 mem other
unfolding load_16
store_16-apart at half other mem even even' (inl above) =
    let bytes = half / 256 % 256 ∷ (half % 256 ∷ []) in
    rw
      (
        store-above at bytes mem other (omega arith),
        store-above at bytes mem (other + 1) (omega arith),
      )
      refl
store_16-apart at half other mem even even' (inr below) =
    let bytes = half / 256 % 256 ∷ (half % 256 ∷ []) in
    rw
      (
        store-below at bytes mem other (omega arith),
        store-below at bytes mem (other + 1) (omega arith),
      )
      refl

halves_small : (at dest : ℕ) → (thumb_bl_hi at dest < 2 ^ 16) × (thumb_bl_lo at dest < 2 ^ 16)
unfolding thumb_bl_hi thumb_bl_lo
halves_small at dest = (omega arith, omega arith)

-- The branch in memory is the one that was written.
write_branch-load :
    (at dest : ℕ) (mem : Memory)
    → at < 2 ^ 32
    → at % 2 ≡ 0
    → (load_16 (write_branch at dest mem) at ≡ thumb_bl_hi at dest)
      × (load_16 (write_branch at dest mem) (add_u32 at 2) ≡ thumb_bl_lo at dest)
unfolding write_branch
write_branch-load at dest mem small even =
    let hi = thumb_bl_hi at dest in
    let lo = thumb_bl_lo at dest in
    (
      store_16-apart (add_u32 at 2) lo at (store_16 at hi mem) (omega arith) even (omega arith)
          ∙ store_16-load at hi mem (halves_small at dest).0,
      store_16-load (add_u32 at 2) lo (store_16 at hi mem) (halves_small at dest).1,
    )

-- The place at `site` branches to `dest`.
abbrev pub Branches : Memory → ℕ → ℕ → Type 0
Branches mem site dest =
    bl_target site (load_16 mem site) (load_16 mem (add_u32 site 2)) ≡ some (dest / 2 * 2)

pub write_branch-Branches :
    (at dest : ℕ) (mem : Memory)
    → at < 2 ^ 32
    → dest < 2 ^ 32
    → at % 2 ≡ 0
    → IsNear at dest
    → Branches (write_branch at dest mem) at dest
write_branch-Branches at dest mem hs hd even near =
    let (hi, lo) = write_branch-load at dest mem hs even in
    rw (hi, lo) (bl_target_lem at dest hs hd even near)
