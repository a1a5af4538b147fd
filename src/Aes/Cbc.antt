-- ===== src/Aes/Cbc.antt =====
-- Cipher block chaining, and what `AES::Decrypt` makes of an engine that does it.
use Prim.Native.Nat.{bit_xor}
use ctgpr_msc.Base.{
  ℕ, zero, suc, ◌+◌, ◌-◌, ◌*◌, ◌/◌, ◌%◌, ◌≤◌, ◌<◌, ◌≡◌, refl, sym, ap, List, [], ◌∷◌, ◌++◌,
  append_assoc, min, arith, length, take, drop, length-append, length-take, length-drop,
  drop-append, take-length, drop-drop, take-append_le, drop-append_le, drop_append-ge, append-nil,
}
use ctgpr_msc.Base.Int.{pos}
use ctgpr_msc.Aes.{Engine}

pub xor_bytes : List ℕ → List ℕ → List ℕ
xor_bytes [] ys = []
xor_bytes (x ∷ xs) [] = []
xor_bytes (x ∷ xs) (y ∷ ys) = bit_xor x y ∷ xor_bytes xs ys

pub length-xor_bytes : (xs ys : List ℕ) → length (xor_bytes xs ys) ≡ min (length xs) (length ys)
unfolding xor_bytes
length-xor_bytes [] ys = omega arith
length-xor_bytes (x ∷ xs) [] = omega arith
length-xor_bytes (x ∷ xs) (y ∷ ys) = omega (arith, length-xor_bytes xs ys)

module _ (block : List ℕ → List ℕ) where
  -- `n` blocks of 16 bytes, each deciphered and combined with the block before it.
  pub cbc_blocks : ℕ → List ℕ → List ℕ → List ℕ
  cbc_blocks zero iv xs = []
  cbc_blocks (suc n) iv xs =
      xor_bytes (block (take 16 xs)) iv ++ cbc_blocks n (take 16 xs) (drop 16 xs)

  unfoldable pub cbc : List ℕ → List ℕ → List ℕ
  cbc iv xs = cbc_blocks (length xs / 16) iv xs

-- The last 16 bytes of the input, which chain it to what follows.
pub last_block : List ℕ → List ℕ
last_block xs = drop (length xs - 16) xs

-- Input that an engine takes: whole blocks, and not nothing.
abbrev pub IsBlocks : List ℕ → Type 0
IsBlocks xs = (0 < length xs) × (length xs % 16 ≡ 0)

-- The engine deciphers by chaining, leaves the last block as the IV, and fails at nothing.
pub record IsCbc {W : Type 0} (engine : Engine W) (key : List ℕ) (block : List ℕ → List ℕ)
    : Type 0 where
  pub deciphers :
      (w : W) (iv xs : List ℕ)
      → IsBlocks xs
      → engine.decrypt w key iv xs
        ≡ record { ret = pos 0; output = cbc block iv xs; iv = last_block xs; world = w }

last_block_one : (xs : List ℕ) → length xs ≡ 16 → last_block xs ≡ xs
unfolding last_block
last_block_one xs h = ap (λ k. drop (k - 16) xs) h

last_block-drop : (xs : List ℕ) → 32 ≤ length xs → last_block (drop 16 xs) ≡ last_block xs
unfolding last_block
last_block-drop xs h =
    drop-drop (length (drop 16 xs) - 16) 16 (length xs - 16) xs (omega (arith, length-drop 16 xs))

module _ (block : List ℕ → List ℕ) where
  cbc_blocks_add :
      (n m k : ℕ) (iv xs ys : List ℕ)
      → suc n + m ≡ k
      → length xs ≡ 16 * suc n
      → cbc_blocks block k iv (xs ++ ys)
        ≡ cbc_blocks block (suc n) iv xs ++ cbc_blocks block m (last_block xs) ys
  unfolding cbc_blocks
  cbc_blocks_add n m zero iv xs ys hk hx = absurd (omega arith)
  cbc_blocks_add zero m (suc k) iv xs ys hk hx =
      let last : last_block xs ≡ xs = last_block_one xs (omega arith) in
      let rounds : k ≡ m = omega arith in
      rw (
        take-append_le 16 xs ys (omega arith),
        drop-append 16 xs ys (omega arith),
        last,
        rounds,
        take-length 16 xs (omega arith),
        append-nil,
      )
  cbc_blocks_add (suc n) m (suc k) iv xs ys hk hx =
      rw
        (
          take-append_le 16 xs ys (omega arith),
          drop-append_le 16 xs ys (omega arith),
          cbc_blocks_add n m k (take 16 xs) (drop 16 xs) ys (omega arith)
              (omega (arith, length-drop 16 xs)),
          last_block-drop xs (omega arith),
        )
        (sym (append_assoc (xor_bytes (block (take 16 xs)) iv) _ _))

  -- Deciphering in two calls, the second with the last block of the first call's input as its IV.
  pub cbc-append :
      (iv xs ys : List ℕ)
      → IsBlocks xs
      → cbc block iv (xs ++ ys) ≡ cbc block iv xs ++ cbc block (last_block xs) ys
  unfolding cbc
  cbc-append iv xs ys h =
      let half : suc (length xs / 16 - 1) ≡ length xs / 16 = omega arith in
      rw (← half) (
        cbc_blocks_add (length xs / 16 - 1) (length ys / 16) (length (xs ++ ys) / 16) iv xs ys
          (omega (arith, length-append xs ys)) (omega arith))

  -- A block cipher keeps the length of its block.
  abbrev pub KeepsBlocks : Type 0
  KeepsBlocks = (x : List ℕ) → length x ≡ 16 → length (block x) ≡ 16

  length-cbc_blocks :
      (n : ℕ) (iv xs : List ℕ)
      → KeepsBlocks
      → length iv ≡ 16
      → length xs ≡ 16 * n
      → length (cbc_blocks block n iv xs) ≡ 16 * n
  unfolding cbc_blocks
  length-cbc_blocks zero iv xs keeps hi hx = refl
  length-cbc_blocks (suc n) iv xs keeps hi hx =
      let whole : length (take 16 xs) ≡ 16 = omega (arith, length-take 16 xs) in
      omega (
        arith,
        length-append (xor_bytes (block (take 16 xs)) iv)
            (cbc_blocks block n (take 16 xs) (drop 16 xs)),
        length-xor_bytes (block (take 16 xs)) iv,
        keeps (take 16 xs) whole,
        length-cbc_blocks n (take 16 xs) (drop 16 xs) keeps whole
            (omega (arith, length-drop 16 xs)),
      )

  pub length-cbc :
      (iv xs : List ℕ)
      → KeepsBlocks
      → length iv ≡ 16
      → length xs % 16 ≡ 0
      → length (cbc block iv xs) ≡ length xs
  unfolding cbc
  length-cbc iv xs keeps hi hx =
      omega (arith, length-cbc_blocks (length xs / 16) iv xs keeps hi (omega arith))

  pub cbc-nil : (iv : List ℕ) → cbc block iv [] ≡ []
  unfolding cbc cbc_blocks
  cbc-nil iv = refl

pub length-last_block : (xs : List ℕ) → IsBlocks xs → length (last_block xs) ≡ 16
unfolding last_block
length-last_block xs h = omega (arith, length-drop (length xs - 16) xs)

-- The last block of two inputs is that of the second.
pub last_block-append : (xs ys : List ℕ) → IsBlocks ys → last_block (xs ++ ys) ≡ last_block ys
unfolding last_block
last_block-append xs ys h =
    drop_append-ge (length (xs ++ ys) - 16) (length ys - 16) xs ys
      (omega (arith, length-append xs ys))

pub last_block_lem : (n : ℕ) (xs : List ℕ) → length xs ≡ n + 16 → last_block xs ≡ drop n xs
unfolding last_block
last_block_lem n xs h = ap (λ k. drop k xs) (omega arith)
