-- ===== src/SdCard/Ranges.antt =====
-- The ranges of sectors that the rounds of a transfer cover, and what two rounds read and write.
use ctgpr_msc.Base.{
  ℕ, suc, ◌+◌, ◌-◌, ◌*◌, ◌≤◌, ◌<◌, ◌≡◌, sym, ap, ◌∙◌, inl, inr, arith, List, ◌++◌, append_assoc,
  take, drop, length, length-take, length-append, take-append, drop-append, take_add, drop-drop,
}
use ctgpr_msc.Base.Words.{add_u32}
use ctgpr_msc.SdCard.Sectors.{round_size}
use ctgpr_msc.SdCard.Card.{IsInRange, splice}

-- Two writes in a row are one.
pub splice-splice :
    (at next : ℕ) (xs ys zs D : List ℕ)
    → at + length xs ≡ next
    → next + length ys ≤ length D
    → xs ++ ys ≡ zs
    → splice next ys (splice at xs D) ≡ splice at zs D
unfolding splice
splice-splice at next xs ys zs D e h joined =
    let front : length (take at D ++ xs) ≡ next =
      omega (arith, length-append (take at D) xs, length-take at D) in
    let whole : take at D ++ (xs ++ drop (at + length xs) D) ≡ (take at D ++ xs) ++ drop next D =
      ap (λ k. take at D ++ (xs ++ drop k D)) e ∙ sym (append_assoc (take at D) xs (drop next D)) in
    let head : take next ((take at D ++ xs) ++ drop next D) ≡ take at D ++ xs =
      take-append next (take at D ++ xs) (drop next D) front in
    let tail : drop (next + length ys) ((take at D ++ xs) ++ drop next D)
        ≡ drop (next + length ys) D =
      sym (
        drop-drop (length ys) next (next + length ys) ((take at D ++ xs) ++ drop next D)
          (omega arith))
      ∙ ap (drop (length ys)) (drop-append next (take at D ++ xs) (drop next D) front)
      ∙ drop-drop (length ys) next (next + length ys) D (omega arith) in
    let size : at + length zs ≡ next + length ys =
      omega (arith, ap length joined, length-append xs ys) in
    rw (whole, head, tail, size, ← joined)
      (append_assoc (take at D) xs (ys ++ drop (next + length ys) D)
        ∙ ap (λ k. take at D ++ k) (sym (append_assoc xs ys (drop (next + length ys) D))))

-- A round moves something, eight sectors at most, and leaves a count that one test less ends.
pub round_size_lem :
    (n fuel : ℕ)
    → 0 < n
    → n + 8 ≤ 8 * suc fuel
    → (round_size n ≤ n)
      × (round_size n ≤ 8)
      × (0 < round_size n)
      × (n - round_size n + 8 ≤ 8 * fuel)
unfolding round_size
round_size_lem n fuel some_left h = (ground arith, ground arith, ground arith, ground arith)

-- What two rounds read, one after the other.
pub read-read :
    (sector next n k : ℕ) (D xs : List ℕ)
    → k ≤ n
    → next ≡ sector + k
    → take (512 * k) (drop (512 * sector) D)
        ++ (take (512 * (n - k)) (drop (512 * next) D) ++ drop (512 * (n - k)) (drop (512 * k) xs))
      ≡ take (512 * n) (drop (512 * sector) D) ++ drop (512 * n) xs
read-read sector next n k D xs h e =
    rw
      (
        ← drop-drop (512 * k) (512 * sector) (512 * next) D (omega arith),
        drop-drop (512 * (n - k)) (512 * k) (512 * n) xs (omega arith),
        ← take_add (512 * k) (512 * (n - k)) (512 * n) (drop (512 * sector) D) (omega arith),
      )
      (sym (append_assoc (take (512 * k) (drop (512 * sector) D)) _ _))

-- What the card holds from a sector on.
abbrev pub contents : ℕ → ℕ → List ℕ → List ℕ
contents sector n disk = take (512 * n) (drop (512 * sector) disk)

pub IsInRange-rest :
    (sdhc sector n k : ℕ)
    → k ≤ n
    → IsInRange sdhc sector n
    → IsInRange sdhc (add_u32 sector k) (n - k)
IsInRange-rest sdhc sector n k h (inl (kind, small)) = inl (kind, omega arith)
IsInRange-rest sdhc sector n k h (inr (kind, small)) = inr (kind, omega arith)

pub IsInRange-le : (sdhc sector n k : ℕ) → k ≤ n → IsInRange sdhc sector n → IsInRange sdhc sector k
IsInRange-le sdhc sector n k h (inl (kind, small)) = inl (kind, omega arith)
IsInRange-le sdhc sector n k h (inr (kind, small)) = inr (kind, omega arith)

-- A sector further on, with the rest of the count.
pub next_sector :
    (sdhc sector n k : ℕ) → k ≤ n → IsInRange sdhc sector n → add_u32 sector k ≡ sector + k
next_sector sdhc sector n k h (inl (kind, small)) = omega arith
next_sector sdhc sector n k h (inr (kind, small)) = omega arith
