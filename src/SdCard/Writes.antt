-- ===== src/SdCard/Writes.antt =====
-- `SDCard::WriteSectors` on a card, whichever way the buffer is aligned, and reading back.
use ctgpr_msc.Base.{
  ◌⊎◌, ℕ, zero, suc, ◌+◌, ◌-◌, ◌*◌, ◌%◌, ◌^◌, ◌≤◌, ◌<◌, ◌≡◌, ◌≢◌, refl, sym, ap, ◌∙◌, inl, inr,
  arith, List, ◌++◌, Bool-cases, true, false, ◌==◌, ltb, ltb→lt, ltb→le, leb, le→leb, take, drop,
  length, length-take, length-drop,
}
use ctgpr_msc.Base.Int.{pos, ℤ, is_neg}
use ctgpr_msc.Base.Words.{add_u32, aligned}
use ctgpr_msc.Base.Outcome.{done, ◌>>=◌, ◌>>◌}
use mathlib.Core.Path.{subst}
use ctgpr_msc.SdCard.{Sdio, Sd}
use ctgpr_msc.SdCard.Sectors.{
  Moved, block_offset, round_size, fill_rw, round, write_rounds, direct, write_sectors,
}
use ctgpr_msc.SdCard.Card.{
  AnswersZero, IsCard, IsInRange, IsReady, splice, position-block_offset, transfer_request,
  send_command-transfer,
}
use ctgpr_msc.SdCard.Rounds.{round-IsWriteRound, selected_lem}
use ctgpr_msc.SdCard.Ranges.{round_size_lem, IsInRange-rest, IsInRange-le, next_sector}
use ctgpr_msc.SdCard.Splices.{
  WritesZero, Writes, fill_rw-IsReady, length-splice, splice-nil, write-write,
}

module _ {W : Type 0} (ios : Sdio W) (disk : W → List ℕ) (sdhc : ℕ)
    (law : IsCard ios disk sdhc) where
  -- One round of `WriteSectors` and the rounds after it.
  write_rounds-round :
      (fuel sector n : ℕ) (ret : ℤ) (bytes : List ℕ) (s : Sd W) (t m : ℤ × Sd W)
      → ltb 0 n ≡ true
      → leb (512 * round_size n) (length bytes) ≡ true
      → round ios true sector (round_size n) (fill_rw (take (512 * round_size n) bytes) s) ≡ done t
      → is_neg t.0 ≡ false
      → write_rounds ios fuel
          (add_u32 sector (round_size n))
          (n - round_size n)
          t.0
          (drop (512 * round_size n) bytes)
          t.1
        ≡ done m
      → write_rounds ios (suc fuel) sector n ret bytes s ≡ done m
  unfolding write_rounds
  write_rounds-round fuel sector n ret bytes s t m more room ran good rest =
      rw (more, write_rounds)
        (rw (room, ◌>>=◌, ◌>>◌) (rw (ran, ◌>>=◌) (rw (good) (rw (rest) refl))))

  write_rounds_lem :
      (fuel sector n : ℕ) (ret : ℤ) (bytes : List ℕ) (s : Sd W)
      → n + 8 ≤ 8 * fuel
      → is_neg ret ≡ false
      → IsInRange sdhc sector n
      → 512 * (sector + n) ≤ length (disk s.world)
      → 512 * n ≤ length bytes
      → IsReady sdhc s
      → (m : ℤ × Sd W) × (write_rounds ios fuel sector n ret bytes s ≡ done m)
        × Writes sector n bytes (disk s.world) m.0 (disk m.1.world)
        × (AnswersZero ios → (0 < n) ⊎ (ret ≡ pos 0) → m.0 ≡ pos 0)
        × IsReady sdhc m.1
  unfolding write_rounds fill_rw
  write_rounds_lem zero sector n ret bytes s hf hr range inside room ready = absurd (omega arith)
  write_rounds_lem (suc fuel) sector n ret bytes s hf hr range inside room ready =
      elim (Bool-cases (ltb 0 n)) [
        | inr none_left ↦
            let e : n ≡ 0 = omega (arith, ltb→le 0 n none_left) in
            (
              (ret, s),
              rw (none_left, write_rounds) refl,
              (hr, rw e (sym (splice-nil (512 * sector) (disk s.world)))),
              λ z start. elim start [ inl some_left ↦ absurd (omega arith) | inr h ↦ h ],
              ready,
            )
        | inl more ↦
            let k = round_size n in
            let (k_le, k_small, k_pos, enough) = round_size_lem n fuel (ltb→lt 0 n more) hf in
            let next = next_sector sdhc sector n k k_le range in
            let xs = take (512 * k) bytes in
            let size : length xs ≡ 512 * k = omega (arith, length-take (512 * k) bytes) in
            let (filled, held) = fill_rw-IsReady sdhc xs s (omega arith) ready in
            let (t, ran, r) =
              round-IsWriteRound ios disk sdhc law sector k (fill_rw xs s) k_small
                (IsInRange-le sdhc sector n k k_le range) (omega arith) filled in
            let written : disk t.1.world ≡ splice (512 * sector) xs (disk s.world) =
              r.written
              ∙ ap (λ ys. splice (512 * sector) ys (disk s.world))
                  (ap (λ j. take j (fill_rw xs s).rw_buffer) (sym size) ∙ held) in
            let same_size : length (disk t.1.world) ≡ length (disk s.world) =
              ap length written ∙ length-splice (512 * sector) xs (disk s.world) (omega arith) in
            let (m, e, (good, got), ends, kept) =
              write_rounds_lem fuel (add_u32 sector k) (n - k) t.0 (drop (512 * k) bytes) t.1 enough
                r.good (IsInRange-rest sdhc sector n k k_le range) (omega (arith, next, same_size))
                (omega (arith, length-drop (512 * k) bytes)) r.ready in
            (
              m,
              write_rounds-round fuel sector n ret bytes s t m more
                  (le→leb (512 * k) (length bytes) (omega arith)) ran r.good e,
              (
                good,
                got
                    ∙ ap
                        (splice (512 * add_u32 sector k)
                          (take (512 * (n - k)) (drop (512 * k) bytes)))
                        written
                    ∙ write-write sector (add_u32 sector k) n k (disk s.world) bytes k_le next room
                        inside,
              ),
              λ z start. ends z (inr (r.zero z)),
              kept,
            )
      ]

  write_direct_lem :
      (sector n addr : ℕ) (bytes : List ℕ) (s : Sd W)
      → addr ≢ 0
      → 512 * n < 2 ^ 32
      → IsInRange sdhc sector n
      → 512 * (sector + n) ≤ length (disk s.world)
      → 512 * n ≤ length bytes
      → IsReady sdhc s
      → (m : Moved W) × (direct ios true sector n addr bytes s ≡ done m)
        × WritesZero ios sector n bytes (disk s.world) m.ret (disk m.sd.world)
        × IsReady sdhc m.sd
  unfolding direct
  write_direct_lem sector n addr bytes s some_addr small range inside room ready =
      let at = position-block_offset sdhc sector n s range ready.0 in
      let arg = block_offset sector s in
      let req = transfer_request ios true arg n addr in
      let r = ios.send_vector s.fd req (512 * n) (take (512 * n) bytes) s.world in
      let size : length (take (512 * n) bytes) ≡ 512 * n =
        omega (arith, length-take (512 * n) bytes) in
      let sent =
        law.write s.fd req (take (512 * n) bytes) s.world refl refl size (omega (arith, at)) in
      let whole : 512 * n % 2 ^ 32 ≡ 512 * n = omega arith in
      (
        record {
          ret = r.ret;
          bytes = r.data_buffer ++ drop (512 * n) bytes;
          sd = record s { world = r.world };
        },
        rw (whole, le→leb (512 * n) (length bytes) room)
            (rw
              (send_command-transfer ios disk sdhc law true arg n addr (take (512 * n) bytes) s
                some_addr small)
              refl),
        (
          (sent.0, sent.2 ∙ ap (λ p. splice p (take (512 * n) bytes) (disk s.world)) at),
          λ z some_left. z s.fd req (512 * n) (take (512 * n) bytes) s.world sent.0,
        ),
        ready,
      )

  -- Writing sectors of a card that is ready returns a code that is not negative, and afterwards the
  -- card holds the caller's bytes in those sectors and what it held everywhere else, at an aligned
  -- address (in one transfer, shorter than 2^32 bytes) and at any other (through
  -- `rw_buffer`, eight sectors at a time). The code is 0 where there is a sector and all that succeeds
  -- is answered with 0.
  pub write_sectors_refines :
      (fuel sector n addr : ℕ) (bytes : List ℕ) (s : Sd W)
      → n + 8 ≤ 8 * fuel
      → addr ≢ 0
      → 512 * n < 2 ^ 32
      → IsInRange sdhc sector n
      → 512 * (sector + n) ≤ length (disk s.world)
      → 512 * n ≤ length bytes
      → IsReady sdhc s
      → (m : Moved W) × (write_sectors ios fuel sector n addr bytes s ≡ done m)
        × WritesZero ios sector n bytes (disk s.world) m.ret (disk m.sd.world)
        × IsReady sdhc m.sd
  unfolding write_sectors
  write_sectors_refines fuel sector n addr bytes s hf some_addr small range inside room ready =
      let not_null : (addr == 0) ≡ false = ground arith in
      let from_start : (c : ℤ × Sd W)
          → disk c.1.world ≡ disk s.world
          → (ret : ℤ) (E : List ℕ) → WritesZero ios sector n bytes (disk c.1.world) ret E
          → WritesZero ios sector n bytes (disk s.world) ret E =
        λ c same ret E. subst (λ D. WritesZero ios sector n bytes D ret E) same in
      let fits : (c : ℤ × Sd W)
          → disk c.1.world ≡ disk s.world
          → 512 * (sector + n) ≤ length (disk c.1.world) =
        λ c same. subst (λ D. 512 * (sector + n) ≤ length D) (sym same) inside in
      elim (Bool-cases (aligned addr 32)) [
        | inl even ↦
            rw (not_null, even)
              (selected_lem ios disk sdhc law bytes (λ ret. direct ios true sector n addr bytes) s
                (λ ret xs E. WritesZero ios sector n bytes (disk s.world) ret E) ready
                (λ c good kept same.
                  let (m, e, holds, still) =
                    write_direct_lem sector n addr bytes c.1 some_addr small range (fits c same)
                      room kept in
                  (m, e, from_start c same m.ret (disk m.sd.world) holds, still)))
        | inr odd ↦
            rw (not_null, odd)
              (selected_lem ios disk sdhc law bytes
                (λ ret t. write_rounds ios fuel sector n ret bytes t >>= λ r.
                  done (record { ret = r.0; bytes = bytes; sd = r.1 }))
                s (λ ret xs E. WritesZero ios sector n bytes (disk s.world) ret E) ready
                (λ c good kept same.
                  let (m, e, holds, ends, still) =
                    write_rounds_lem fuel sector n c.0 bytes c.1 hf good range (fits c same) room
                      kept in
                  (
                    record { ret = m.0; bytes = bytes; sd = m.1 },
                    rw (e, ◌>>=◌) refl,
                    from_start c same m.0 (disk m.1.world)
                        (holds, λ z some_left. ends z (inl some_left)),
                    still,
                  )))
      ]
