-- ===== src/SdCard/Splices.antt =====
-- What a write of sectors leaves in a sequence of bytes, and two writes in a row.
use ctgpr_msc.Base.{
  ℕ, ◌+◌, ◌-◌, ◌*◌, ◌≤◌, ◌≡◌, refl, ap, ◌∙◌, arith, List, [], ◌++◌, false, take, drop, length,
  length-take, length-drop, length-append, take-append, take-append-drop, take_add,
}
use ctgpr_msc.Base.Int.{ℤ, is_neg}
use ctgpr_msc.SdCard.{Sdio, Sd}
use ctgpr_msc.SdCard.Sectors.{fill_rw}
use ctgpr_msc.SdCard.Card.{EndsZero, IsReady, splice}
use ctgpr_msc.SdCard.Ranges.{splice-splice}

-- A write of `n` sectors ends well and replaces them, and nothing else, by the first bytes of `xs`;
-- `D` and `E` are the contents before and after.
abbrev pub Writes : ℕ → ℕ → List ℕ → List ℕ → ℤ → List ℕ → Type 0
Writes sector n xs D ret E =
    (is_neg ret ≡ false) × (E ≡ splice (512 * sector) (take (512 * n) xs) D)

-- The code of such a write is 0 besides, if there is a sector and all that succeeds is answered with 0.
abbrev pub WritesZero : {W : Type 0} → Sdio W → ℕ → ℕ → List ℕ → List ℕ → ℤ → List ℕ → Type 0
WritesZero ios sector n xs D ret E = Writes sector n xs D ret E × EndsZero ios n ret

-- What `memcpy` leaves in `rw_buffer`.
pub fill_rw-IsReady :
    {W : Type 0} (sdhc : ℕ) (bytes : List ℕ) (s : Sd W)
    → length bytes ≤ 5120
    → IsReady sdhc s
    → IsReady sdhc (fill_rw bytes s) × (take (length bytes) (fill_rw bytes s).rw_buffer ≡ bytes)
unfolding fill_rw
fill_rw-IsReady sdhc bytes s small ready = (
  (
    ready.0,
    omega (
      arith,
      ready.1,
      length-append bytes (drop (length bytes) s.rw_buffer),
      length-drop (length bytes) s.rw_buffer,
    ),
  ),
  take-append (length bytes) bytes (drop (length bytes) s.rw_buffer) refl,
)

-- What two rounds write, one after the other.
pub write-write :
    (sector next n k : ℕ) (D xs : List ℕ)
    → k ≤ n
    → next ≡ sector + k
    → 512 * n ≤ length xs
    → 512 * (sector + n) ≤ length D
    → splice
        (512 * next)
        (take (512 * (n - k)) (drop (512 * k) xs))
        (splice (512 * sector) (take (512 * k) xs) D)
      ≡ splice (512 * sector) (take (512 * n) xs) D
write-write sector next n k D xs h e room inside =
    splice-splice (512 * sector) (512 * next) (take (512 * k) xs)
      (take (512 * (n - k)) (drop (512 * k) xs)) (take (512 * n) xs) D
      (omega (arith, length-take (512 * k) xs))
      (omega (arith, length-take (512 * (n - k)) (drop (512 * k) xs), length-drop (512 * k) xs))
      (take_add (512 * k) (512 * (n - k)) (512 * n) xs (omega arith))

pub splice-nil : (at : ℕ) (D : List ℕ) → splice at [] D ≡ D
unfolding splice
splice-nil at D = ap (λ k. take at D ++ drop k D) (omega arith) ∙ take-append-drop at D

pub length-splice :
    (at : ℕ) (xs D : List ℕ) → at + length xs ≤ length D → length (splice at xs D) ≡ length D
unfolding splice
length-splice at xs D h = omega (
  arith,
  length-append (take at D) (xs ++ drop (at + length xs) D),
  length-append xs (drop (at + length xs) D),
  length-take at D,
  length-drop (at + length xs) D,
)
