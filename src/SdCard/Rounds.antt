-- ===== src/SdCard/Rounds.antt =====
-- One round of `ReadSectors` and `WriteSectors` of SDCard.cpp on a card, and the arithmetic of rounds.
use ctgpr_msc.Base.{
  ℕ, ◌+◌, ◌*◌, ◌%◌, ◌^◌, ◌≤◌, ◌≡◌, refl, sym, ap, ◌∙◌, arith, List, true, false, take, drop, length,
  length-take, length-drop, length-append, take-append,
}
use ctgpr_msc.Base.Int.{pos, ℤ, is_neg}
use ctgpr_msc.Base.Outcome.{Outcome, done, ◌>>=◌}
use mathlib.Core.Path.{subst}
use ctgpr_msc.SdCard.{Sdio, Sd, select, deselect}
use ctgpr_msc.SdCard.Sectors.{Moved, block_offset, fill_rw, round, selected}
use ctgpr_msc.SdCard.Card.{
  AnswersZero, IsCard, IsInRange, IsReady, splice, position-block_offset, transfer_request,
  send_command-transfer, command_ret-IsSelected,
}
use ctgpr_msc.SdCard.Ranges.{contents}

module _ {W : Type 0} (ios : Sdio W) (disk : W → List ℕ) (sdhc : ℕ)
    (law : IsCard ios disk sdhc) where
  pub record IsReadRound (sector k : ℕ) (s : Sd W) (r : ℤ × Sd W) : Type 0 where
    pub good : is_neg r.0 ≡ false
    pub zero : AnswersZero ios → r.0 ≡ pos 0
    pub bytes : take (512 * k) r.1.rw_buffer ≡ contents sector k (disk s.world)
    pub same : disk r.1.world ≡ disk s.world
    pub ready : IsReady sdhc r.1

  pub round-IsReadRound :
      (sector k : ℕ) (s : Sd W)
      → k ≤ 8
      → IsInRange sdhc sector k
      → 512 * (sector + k) ≤ length (disk s.world)
      → IsReady sdhc s
      → (r : ℤ × Sd W) × (round ios false sector k s ≡ done r) × IsReadRound sector k s r
  unfolding round fill_rw
  round-IsReadRound sector k s small range inside ready =
      let at = position-block_offset sdhc sector k s range ready.0 in
      let arg = block_offset sector s in
      let xs = take (512 * k) s.rw_buffer in
      let r =
        ios.send_vector s.fd (transfer_request ios false arg k ios.rw_buffer_addr) (512 * k) xs
          s.world in
      let size : length xs ≡ 512 * k = omega (arith, length-take (512 * k) s.rw_buffer, ready.1) in
      let sent =
        law.read s.fd (transfer_request ios false arg k ios.rw_buffer_addr) xs s.world refl refl
          size (omega (arith, at)) in
      let got : r.data_buffer ≡ contents sector k (disk s.world) =
        sent.1 ∙ ap (λ p. take (512 * k) (drop p (disk s.world))) at in
      let got_size : length r.data_buffer ≡ 512 * k = omega (
        arith,
        ap length got,
        length-take (512 * k) (drop (512 * sector) (disk s.world)),
        length-drop (512 * sector) (disk s.world),
      ) in
      (
        (r.ret, fill_rw r.data_buffer (record s { world = r.world })),
        rw
            (send_command-transfer ios disk sdhc law false arg k ios.rw_buffer_addr xs s
              law.rw_buffer_mapped (omega arith))
            refl,
        record {
          good = sent.0;
          zero = λ z. z s.fd _ (512 * k) xs s.world sent.0;
          bytes =
              take-append (512 * k) r.data_buffer (drop (length r.data_buffer) s.rw_buffer) got_size
              ∙ got;
          same = sent.2;
          ready = (
            ready.0,
            omega (
              arith,
              ready.1,
              got_size,
              length-append r.data_buffer (drop (length r.data_buffer) s.rw_buffer),
              length-drop (length r.data_buffer) s.rw_buffer,
            ),
          );
        },
      )

  pub record IsWriteRound (sector k : ℕ) (s : Sd W) (r : ℤ × Sd W) : Type 0 where
    pub good : is_neg r.0 ≡ false
    pub zero : AnswersZero ios → r.0 ≡ pos 0
    pub written : disk r.1.world ≡ splice (512 * sector) (take (512 * k) s.rw_buffer) (disk s.world)
    pub ready : IsReady sdhc r.1

  pub round-IsWriteRound :
      (sector k : ℕ) (s : Sd W)
      → k ≤ 8
      → IsInRange sdhc sector k
      → 512 * (sector + k) ≤ length (disk s.world)
      → IsReady sdhc s
      → (r : ℤ × Sd W) × (round ios true sector k s ≡ done r) × IsWriteRound sector k s r
  unfolding round fill_rw
  round-IsWriteRound sector k s small range inside ready =
      let at = position-block_offset sdhc sector k s range ready.0 in
      let arg = block_offset sector s in
      let req = transfer_request ios true arg k ios.rw_buffer_addr in
      let xs = take (512 * k) s.rw_buffer in
      let r = ios.send_vector s.fd req (512 * k) xs s.world in
      let size : length xs ≡ 512 * k = omega (arith, length-take (512 * k) s.rw_buffer, ready.1) in
      let sent = law.write s.fd req xs s.world refl refl size (omega (arith, at)) in
      (
        (r.ret, fill_rw r.data_buffer (record s { world = r.world })),
        rw
            (send_command-transfer ios disk sdhc law true arg k ios.rw_buffer_addr xs s
              law.rw_buffer_mapped (omega arith))
            refl,
        record {
          good = sent.0;
          zero = λ z. z s.fd req (512 * k) xs s.world sent.0;
          written = sent.2 ∙ ap (λ p. splice p xs (disk s.world)) at;
          ready = (
            ready.0,
            omega (
              arith,
              ready.1,
              size,
              ap length sent.1,
              length-append r.data_buffer (drop (length r.data_buffer) s.rw_buffer),
              length-drop (length r.data_buffer) s.rw_buffer,
            ),
          );
        },
      )

  selected-run :
      (bytes : List ℕ) (body : ℤ → Sd W → Outcome (Moved W)) (s : Sd W) (c d : ℤ × Sd W)
      (m : Moved W)
      → select ios s ≡ done c
      → is_neg c.0 ≡ false
      → body c.0 c.1 ≡ done m
      → deselect ios m.sd ≡ done d
      → selected ios bytes body s ≡ done (record m { sd = d.1 })
  unfolding selected
  selected-run bytes body s c d m e good ran e2 =
      rw (e, ◌>>=◌) (rw (good, ran, ◌>>=◌) (rw (e2, ◌>>=◌) refl))

  -- What holds of the code, the bytes and the card after the transfer holds after deselecting.
  pub selected_lem :
      (bytes : List ℕ) (body : ℤ → Sd W → Outcome (Moved W)) (s : Sd W)
      (P : ℤ → List ℕ → List ℕ → Type 0)
      → IsReady sdhc s
      → ((c : ℤ × Sd W)
          → is_neg c.0 ≡ false
          → IsReady sdhc c.1
          → disk c.1.world ≡ disk s.world
          → (m : Moved W) × (body c.0 c.1 ≡ done m)
            × P m.ret m.bytes (disk m.sd.world)
            × IsReady sdhc m.sd)
      → (m : Moved W) × (selected ios bytes body s ≡ done m)
        × P m.ret m.bytes (disk m.sd.world)
        × IsReady sdhc m.sd
  unfolding select deselect
  selected_lem bytes body s P ready run =
      let (c, e, chosen) = command_ret-IsSelected ios disk sdhc law (s.rca * 65536 % 2 ^ 32) s in
      let (m, ran, holds, kept) =
        run c chosen.good (chosen.kind ∙ ready.0, ap length chosen.rw_same ∙ ready.1) chosen.same in
      let (d, e2, left) = command_ret-IsSelected ios disk sdhc law 0 m.sd in
      (
        record m { sd = d.1 },
        selected-run bytes body s c d m e chosen.good ran e2,
        subst (P m.ret m.bytes) (sym left.same) holds,
        (left.kind ∙ kept.0, ap length left.rw_same ∙ kept.1),
      )
