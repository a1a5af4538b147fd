-- ===== src/Base/Words.antt =====
-- Machine words as numbers: wrap-around, alignment and byte order.
use Prim.Native.Nat.{ℕ, zero, suc, ◌+◌, ◌-◌, ◌*◌, ◌/◌, ◌%◌, ◌^◌}
use mathlib.Core.Bool.{Bool}
use mathlib.Core.List.{List, [], ◌∷◌}
use Prim.Native.Char.{code}
use Prim.Native.String.{String}
use ctgpr_msc.Base.Tests.{◌==◌}

abbrev pub u32_mod : ℕ
u32_mod = 2 ^ 32

-- `u32` addition, subtraction and multiplication.
abbrev pub add_u32 : ℕ → ℕ → ℕ
add_u32 a b = (a + b) % 2 ^ 32

abbrev pub sub_u32 : ℕ → ℕ → ℕ
sub_u32 a b = (a + 2 ^ 32 - b) % 2 ^ 32

abbrev pub mul_u32 : ℕ → ℕ → ℕ
mul_u32 a b = a * b % 2 ^ 32

-- `x & (2 ^ k - 1)` and `x >> k`.
abbrev pub low_bits : ℕ → ℕ → ℕ
low_bits x k = x % 2 ^ k

abbrev pub shr : ℕ → ℕ → ℕ
shr x k = x / 2 ^ k

-- `aligned(addr, align)` for an `align` that is a power of two, where `addr & (align - 1)` is the
-- remainder.
abbrev pub aligned : ℕ → ℕ → Bool
aligned addr align = addr % align == 0

-- The bytes of a word in memory, most significant first: both processors are big-endian.
abbrev pub bytes_be32 : ℕ → List ℕ
bytes_be32 w =
    low_bits (shr w 24) 8 ∷ low_bits (shr w 16) 8 ∷ low_bits (shr w 8) 8 ∷ low_bits w 8 ∷ []

-- The code points of a text: its bytes, since the paths of the program are ASCII.
abbrev pub codes : String → List ℕ
codes String.[] = []
codes (String.◌∷◌ c s) = code c ∷ codes s

-- The path `str` that begins with the digit '0', after `str[0] = devId + '0'`.
abbrev pub drive_path : ℕ → String → List ℕ
drive_path dev_id rest = (dev_id + b'0') % 256 ∷ codes rest

-- A word in memory, most significant byte first.
unfoldable pub word_be32 : List ℕ → ℕ
word_be32 [] = 0
word_be32 (a ∷ []) = 0
word_be32 (a ∷ b ∷ []) = 0
word_be32 (a ∷ b ∷ c ∷ []) = 0
word_be32 (a ∷ b ∷ c ∷ d ∷ rest) = ((a * 256 + b) * 256 + c) * 256 + d

-- `a & b` of the low `n` bits.
unfoldable pub and_bits : ℕ → ℕ → ℕ → ℕ
and_bits zero a b = 0
and_bits (suc n) a b = a % 2 * (b % 2) + 2 * and_bits n (a / 2) (b / 2)

-- Bit `k` of `a`, which is `a & (1 << k)` as a test.
unfoldable pub bit : ℕ → ℕ → Bool
bit a k = a / 2 ^ k % 2 == 1
