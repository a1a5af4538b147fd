-- ===== src/SdCard/RoundTrip.antt =====
-- Writing sectors with SDCard.cpp and reading them back.
use ctgpr_msc.Base.{
  ℕ, ◌+◌, ◌*◌, ◌^◌, ◌≤◌, ◌<◌, ◌≡◌, ◌≢◌, ap, ◌∙◌, arith, List, ◌++◌, false, take, drop, length,
  length-take, take-append, drop-append,
}
use ctgpr_msc.Base.Int.{is_neg}
use ctgpr_msc.Base.Outcome.{done}
use ctgpr_msc.SdCard.{Sdio, Sd}
use ctgpr_msc.SdCard.Sectors.{Moved, read_sectors, write_sectors}
use ctgpr_msc.SdCard.Card.{IsCard, IsInRange, IsReady, splice}
use ctgpr_msc.SdCard.Ranges.{contents}
use ctgpr_msc.SdCard.Reads.{read_sectors_refines}
use ctgpr_msc.SdCard.Writes.{write_sectors_refines}
use ctgpr_msc.SdCard.Splices.{length-splice}

-- What is spliced in is found there.
pub contents-splice :
    (sector n : ℕ) (xs D : List ℕ)
    → length xs ≡ 512 * n
    → 512 * (sector + n) ≤ length D
    → contents sector n (splice (512 * sector) xs D) ≡ xs
unfolding splice
contents-splice sector n xs D size inside =
    rw
      (drop-append (512 * sector) (take (512 * sector) D) _
        (omega (arith, length-take (512 * sector) D)))
      (take-append (512 * n) xs _ size)

module _ {W : Type 0} (ios : Sdio W) (disk : W → List ℕ) (sdhc : ℕ)
    (law : IsCard ios disk sdhc) where
  -- Sectors written from one buffer and read into another, whatever the alignments of the
  -- two: both calls return a code that is not negative, and the second buffer begins with the bytes
  -- that the first began with. The conditions are those of the two calls: sectors of the card that
  -- a command can name, buffers that hold them, transfers shorter than 2^32 bytes.
  pub read_sectors-write_sectors :
      (fuel sector n from to : ℕ) (xs ys : List ℕ) (s : Sd W)
      → n + 8 ≤ 8 * fuel
      → from ≢ 0
      → to ≢ 0
      → 512 * n < 2 ^ 32
      → IsInRange sdhc sector n
      → 512 * (sector + n) ≤ length (disk s.world)
      → 512 * n ≤ length xs
      → 512 * n ≤ length ys
      → IsReady sdhc s
      → (m : Moved W) × (write_sectors ios fuel sector n from xs s ≡ done m)
        × (is_neg m.ret ≡ false)
        × ((r : Moved W) × (read_sectors ios fuel sector n to ys m.sd ≡ done r)
            × (is_neg r.ret ≡ false)
            × (r.bytes ≡ take (512 * n) xs ++ drop (512 * n) ys))
  read_sectors-write_sectors fuel sector n from to xs ys s hf some_from some_to small range inside
        room_x room_y ready =
      let size : length (take (512 * n) xs) ≡ 512 * n = omega (arith, length-take (512 * n) xs) in
      let (m, e, ((good, written), ends), kept) =
        write_sectors_refines ios disk sdhc law fuel sector n from xs s hf some_from small range
          inside room_x ready in
      let same_size : length (disk m.sd.world) ≡ length (disk s.world) =
        ap length written
        ∙ length-splice (512 * sector) (take (512 * n) xs) (disk s.world) (omega arith) in
      let (r, e2, ((good2, got, same), ends2), still) =
        read_sectors_refines ios disk sdhc law fuel sector n to ys m.sd hf some_to small range
          (omega (arith, same_size)) room_y kept in
      (
        m,
        e,
        good,
        (
          r,
          e2,
          good2,
          got
              ∙ ap (λ D. contents sector n D ++ drop (512 * n) ys) written
              ∙ ap (λ zs. zs ++ drop (512 * n) ys)
                  (contents-splice sector n (take (512 * n) xs) (disk s.world) size inside),
        ),
      )
