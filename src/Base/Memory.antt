-- ===== src/Base/Memory.antt =====
-- Memory, a byte for each address: what is stored and what is read.
use Prim.Native.Nat.{ℕ, zero, suc, ◌+◌, ◌-◌, ◌*◌, ◌≤◌, ◌<◌, ◌%◌, ◌/◌}
use mathlib.Core.Path.{◌≡◌, refl, ap}
use mathlib.Core.Bool.{◌&&◌}
use mathlib.Core.List.{List, [], ◌∷◌, ◌++◌}
use native.Mathlib.Omega.{arith}
use ctgpr_msc.Base.Lists.{length, get_or}
use ctgpr_msc.Base.Tests.{leb, ltb, if◌then◌else◌, le→leb, lt→ltb, lt→leb, le→ltb}
use ctgpr_msc.Base.Words.{word_be32}

abbrev pub Memory : Type 0
Memory = ℕ → ℕ

-- Bytes at an address, as `memcpy`, `f_read` and `write32` put them.
unfoldable pub store : ℕ → List ℕ → Memory → Memory
store at bytes mem =
    λ a. if leb at a && ltb a (at + length bytes) then get_or bytes (a - at) 0 else mem a

-- `n` bytes of memory from an address on.
unfoldable pub bytes_at : Memory → ℕ → ℕ → List ℕ
bytes_at mem at zero = []
bytes_at mem at (suc n) = mem at ∷ bytes_at mem (at + 1) n

pub length-bytes_at : (mem : Memory) (at n : ℕ) → length (bytes_at mem at n) ≡ n
unfolding bytes_at
length-bytes_at mem at zero = refl
length-bytes_at mem at (suc n) = ap suc (length-bytes_at mem (at + 1) n)

-- A piece of memory split in two.
pub bytes_at_add :
    (mem : Memory) (at n m k mid : ℕ)
    → n + m ≡ k
    → at + n ≡ mid
    → bytes_at mem at k ≡ bytes_at mem at n ++ bytes_at mem mid m
unfolding bytes_at
bytes_at_add mem at zero m k mid e f =
    let same_count : m ≡ k = omega arith in
    let same_place : at ≡ mid = omega arith in rw (same_count, same_place) refl
bytes_at_add mem at (suc n) m zero mid e f = absurd (omega arith)
bytes_at_add mem at (suc n) m (suc k) mid e f =
    ap (λ t. mem at ∷ t) (bytes_at_add mem (at + 1) n m k mid (omega arith) (omega arith))

-- `read32` and `read16`.
abbrev pub load_32 : Memory → ℕ → ℕ
load_32 mem at = word_be32 (bytes_at mem at 4)

unfoldable pub load_16 : Memory → ℕ → ℕ
load_16 mem at = mem at * 256 + mem (at + 1)

-- `write16`
abbrev pub store_16 : ℕ → ℕ → Memory → Memory
store_16 at half mem = store at (half / 256 % 256 ∷ (half % 256 ∷ [])) mem

pub store-in :
    (at : ℕ) (bytes : List ℕ) (mem : Memory) (a : ℕ)
    → at ≤ a
    → a < at + length bytes
    → store at bytes mem a ≡ get_or bytes (a - at) 0
unfolding store
store-in at bytes mem a low high = rw (le→leb at a low, lt→ltb a (at + length bytes) high) refl

pub store-below :
    (at : ℕ) (bytes : List ℕ) (mem : Memory) (a : ℕ) → a < at → store at bytes mem a ≡ mem a
unfolding store
store-below at bytes mem a low = rw (lt→leb at a low) refl

pub store-above :
    (at : ℕ) (bytes : List ℕ) (mem : Memory) (a : ℕ)
    → at + length bytes ≤ a
    → store at bytes mem a ≡ mem a
unfolding store
store-above at bytes mem a high = ground (arith, le→ltb a (at + length bytes) high)
