-- ===== src/SdCard/Reads.antt =====
-- `SDCard::ReadSectors` on a card, whichever way the buffer is aligned.
use ctgpr_msc.Base.{
  ◌⊎◌, ℕ, zero, suc, ◌+◌, ◌-◌, ◌*◌, ◌%◌, ◌^◌, ◌≤◌, ◌<◌, ◌≡◌, ◌≢◌, refl, sym, ap, ◌∙◌, inl, inr,
  arith, List, ◌++◌, Bool-cases, true, false, ◌==◌, ltb, ltb→lt, ltb→le, leb, le→leb, take, drop,
  length, length-take, length-drop,
}
use ctgpr_msc.Base.Int.{pos, ℤ, is_neg}
use ctgpr_msc.Base.Words.{add_u32, aligned}
use ctgpr_msc.Base.Outcome.{done, ◌>>=◌, ◌>>◌}
use mathlib.Core.Path.{subst}
use ctgpr_msc.SdCard.{Sdio, Sd}
use ctgpr_msc.SdCard.Sectors.{
  Moved, block_offset, round_size, round, read_rounds, direct, read_sectors,
}
use ctgpr_msc.SdCard.Card.{
  AnswersZero, EndsZero, IsCard, IsInRange, IsReady, position-block_offset, transfer_request,
  send_command-transfer,
}
use ctgpr_msc.SdCard.Rounds.{round-IsReadRound, selected_lem}
use ctgpr_msc.SdCard.Ranges.{
  round_size_lem, read-read, contents, IsInRange-rest, IsInRange-le, next_sector,
}

-- A read of `n` sectors into `bytes` from a card with the contents `D` ends well, with the bytes `xs`
-- and the contents `E` after it.
abbrev pub Reads : ℕ → ℕ → List ℕ → List ℕ → ℤ → List ℕ → List ℕ → Type 0
Reads sector n bytes D ret xs E =
    (is_neg ret ≡ false) × (xs ≡ contents sector n D ++ drop (512 * n) bytes) × (E ≡ D)

-- The code of such a read is 0 besides, if there is a sector and all that succeeds is answered with 0.
abbrev pub ReadsZero :
    {W : Type 0} → Sdio W → ℕ → ℕ → List ℕ → List ℕ → ℤ → List ℕ → List ℕ → Type 0
ReadsZero ios sector n bytes D ret xs E = Reads sector n bytes D ret xs E × EndsZero ios n ret

module _ {W : Type 0} (ios : Sdio W) (disk : W → List ℕ) (sdhc : ℕ)
    (law : IsCard ios disk sdhc) where
  -- One round of `ReadSectors` and the rounds after it.
  read_rounds-round :
      (fuel sector n : ℕ) (ret : ℤ) (bytes : List ℕ) (s : Sd W) (t : ℤ × Sd W) (m : Moved W)
      → ltb 0 n ≡ true
      → round ios false sector (round_size n) s ≡ done t
      → is_neg t.0 ≡ false
      → leb (512 * round_size n) (length bytes) ≡ true
      → read_rounds ios fuel
          (add_u32 sector (round_size n))
          (n - round_size n)
          t.0
          (drop (512 * round_size n) bytes)
          t.1
        ≡ done m
      → read_rounds ios (suc fuel) sector n ret bytes s
        ≡ done (record m { bytes = take (512 * round_size n) t.1.rw_buffer ++ m.bytes })
  unfolding read_rounds
  read_rounds-round fuel sector n ret bytes s t m more ran good room rest =
      rw (more, read_rounds) (rw (ran, ◌>>=◌) (rw (good, room, ◌>>◌, ◌>>=◌) (rw (rest) refl)))

  pub read_rounds_lem :
      (fuel sector n : ℕ) (ret : ℤ) (bytes : List ℕ) (s : Sd W)
      → n + 8 ≤ 8 * fuel
      → is_neg ret ≡ false
      → IsInRange sdhc sector n
      → 512 * (sector + n) ≤ length (disk s.world)
      → 512 * n ≤ length bytes
      → IsReady sdhc s
      → (m : Moved W) × (read_rounds ios fuel sector n ret bytes s ≡ done m)
        × Reads sector n bytes (disk s.world) m.ret m.bytes (disk m.sd.world)
        × (AnswersZero ios → (0 < n) ⊎ (ret ≡ pos 0) → m.ret ≡ pos 0)
        × IsReady sdhc m.sd
  unfolding read_rounds
  read_rounds_lem zero sector n ret bytes s hf hr range inside room ready = absurd (omega arith)
  read_rounds_lem (suc fuel) sector n ret bytes s hf hr range inside room ready =
      elim (Bool-cases (ltb 0 n)) [
        | inr none_left ↦
            let e : n ≡ 0 = omega (arith, ltb→le 0 n none_left) in
            (
              record { ret = ret; bytes = bytes; sd = s },
              rw (none_left, read_rounds) refl,
              (hr, rw e refl, refl),
              λ z start. elim start [ inl some_left ↦ absurd (omega arith) | inr h ↦ h ],
              ready,
            )
        | inl more ↦
            let k = round_size n in
            let (k_le, k_small, k_pos, enough) = round_size_lem n fuel (ltb→lt 0 n more) hf in
            let next = next_sector sdhc sector n k k_le range in
            let (t, ran, r) =
              round-IsReadRound ios disk sdhc law sector k s k_small
                (IsInRange-le sdhc sector n k k_le range) (omega arith) ready in
            let (m, e, (good, got, same), ends, kept) =
              read_rounds_lem fuel (add_u32 sector k) (n - k) t.0 (drop (512 * k) bytes) t.1 enough
                r.good (IsInRange-rest sdhc sector n k k_le range)
                (omega (arith, next, ap length r.same)) (omega (arith, length-drop (512 * k) bytes))
                r.ready in
            (
              record m { bytes = take (512 * k) t.1.rw_buffer ++ m.bytes },
              read_rounds-round fuel sector n ret bytes s t m more ran r.good
                  (le→leb (512 * k) (length bytes) (omega arith)) e,
              (
                good,
                rw (r.bytes, got, r.same)
                    (read-read sector (add_u32 sector k) n k (disk s.world) bytes k_le next),
                same ∙ r.same,
              ),
              λ z start. ends z (inr (r.zero z)),
              kept,
            )
      ]

  direct_lem :
      (sector n addr : ℕ) (bytes : List ℕ) (s : Sd W)
      → addr ≢ 0
      → 512 * n < 2 ^ 32
      → IsInRange sdhc sector n
      → 512 * (sector + n) ≤ length (disk s.world)
      → 512 * n ≤ length bytes
      → IsReady sdhc s
      → (m : Moved W) × (direct ios false sector n addr bytes s ≡ done m)
        × ReadsZero ios sector n bytes (disk s.world) m.ret m.bytes (disk m.sd.world)
        × IsReady sdhc m.sd
  unfolding direct
  direct_lem sector n addr bytes s some_addr small range inside room ready =
      let at = position-block_offset sdhc sector n s range ready.0 in
      let arg = block_offset sector s in
      let req = transfer_request ios false arg n addr in
      let r = ios.send_vector s.fd req (512 * n) (take (512 * n) bytes) s.world in
      let size : length (take (512 * n) bytes) ≡ 512 * n =
        omega (arith, length-take (512 * n) bytes) in
      let sent =
        law.read s.fd req (take (512 * n) bytes) s.world refl refl size (omega (arith, at)) in
      let whole : 512 * n % 2 ^ 32 ≡ 512 * n = omega arith in
      (
        record {
          ret = r.ret;
          bytes = r.data_buffer ++ drop (512 * n) bytes;
          sd = record s { world = r.world };
        },
        rw (whole, le→leb (512 * n) (length bytes) room)
            (rw
              (send_command-transfer ios disk sdhc law false arg n addr (take (512 * n) bytes) s
                some_addr small)
              refl),
        (
          (sent.0, rw (sent.1, at) refl, sent.2),
          λ z some_left. z s.fd req (512 * n) (take (512 * n) bytes) s.world sent.0,
        ),
        ready,
      )

  -- Reading sectors of a card that is ready returns a code that is not negative, with the contents of
  -- those sectors in the caller's memory and the card as it was, at an aligned address (where the
  -- transfer is direct, and shorter than 2^32 bytes) and at any other (where it goes
  -- through `rw_buffer`, eight sectors at a time); one test more than a test for every eight sectors
  -- ends the loop. The code is 0 where there is a sector and all that succeeds is answered with 0.
  pub read_sectors_refines :
      (fuel sector n addr : ℕ) (bytes : List ℕ) (s : Sd W)
      → n + 8 ≤ 8 * fuel
      → addr ≢ 0
      → 512 * n < 2 ^ 32
      → IsInRange sdhc sector n
      → 512 * (sector + n) ≤ length (disk s.world)
      → 512 * n ≤ length bytes
      → IsReady sdhc s
      → (m : Moved W) × (read_sectors ios fuel sector n addr bytes s ≡ done m)
        × ReadsZero ios sector n bytes (disk s.world) m.ret m.bytes (disk m.sd.world)
        × IsReady sdhc m.sd
  unfolding read_sectors
  read_sectors_refines fuel sector n addr bytes s hf some_addr small range inside room ready =
      let not_null : (addr == 0) ≡ false = ground arith in
      let from_start : (c : ℤ × Sd W)
          → disk c.1.world ≡ disk s.world
          → (m : Moved W)
          → ReadsZero ios sector n bytes (disk c.1.world) m.ret m.bytes (disk m.sd.world)
          → ReadsZero ios sector n bytes (disk s.world) m.ret m.bytes (disk m.sd.world) =
        λ c same m holds.
          subst (λ D. ReadsZero ios sector n bytes D m.ret m.bytes (disk m.sd.world)) same holds in
      elim (Bool-cases (aligned addr 32)) [
        | inl even ↦
            rw (not_null, even)
              (selected_lem ios disk sdhc law bytes (λ ret. direct ios false sector n addr bytes) s
                (ReadsZero ios sector n bytes (disk s.world)) ready
                (λ c good kept same.
                  let (m, e, holds, still) =
                    direct_lem sector n addr bytes c.1 some_addr small range
                      (subst (λ D. 512 * (sector + n) ≤ length D) (sym same) inside) room kept in
                  (m, e, from_start c same m holds, still)))
        | inr odd ↦
            rw (not_null, odd)
              (selected_lem ios disk sdhc law bytes (λ ret. read_rounds ios fuel sector n ret bytes)
                s (ReadsZero ios sector n bytes (disk s.world)) ready
                (λ c good kept same.
                  let (m, e, holds, ends, still) =
                    read_rounds_lem fuel sector n c.0 bytes c.1 hf good range
                      (subst (λ D. 512 * (sector + n) ≤ length D) (sym same) inside) room kept in
                  (
                    m,
                    e,
                    from_start c same m (holds, λ z some_left. ends z (inl some_left)),
                    still,
                  )))
      ]
