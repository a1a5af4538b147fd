-- ===== src/SdCard/Sectors.antt =====
-- SDCard.cpp: `ReadSectors` and `WriteSectors`, through `rw_buffer` for a buffer that is not aligned.
use ctgpr_msc.Base.{
  ℕ, zero, suc, ◌-◌, ◌*◌, Bool, true, false, ◌==◌, ltb, leb, if◌then◌else◌, List, ◌++◌, take, drop,
  length,
}
use ctgpr_msc.Base.Int.{ℤ, negsuc, is_neg}
use ctgpr_msc.Base.Words.{add_u32, mul_u32, aligned}
use ctgpr_msc.Base.Outcome.{Outcome, done, stuck, ◌>>=◌, ◌>>◌, assert}
use ctgpr_msc.SdCard.{Sdio, Sd, send_command, select, deselect}

-- What a transfer leaves: its code, the caller's bytes and the state.
pub record Moved (W : Type 0) : Type 0 where
  pub ret : ℤ
  pub bytes : List ℕ
  pub sd : Sd W

-- READMULTIBLOCK or WRITEMULTIBLOCK.
abbrev pub multi_block : Bool → ℕ
multi_block is_write = if is_write then 0x19 else 0x12

-- The argument of a transfer: a byte offset, a 32-bit word, or a sector.
unfoldable pub block_offset : {W : Type 0} → ℕ → Sd W → ℕ
block_offset sector s = if s.sdhc == 0 then mul_u32 sector 512 else sector

-- The sectors of one round.
unfoldable pub round_size : ℕ → ℕ
round_size num_sectors = if ltb 8 num_sectors then 8 else num_sectors

-- `memcpy` to the start of `rw_buffer`.
unfoldable pub fill_rw : {W : Type 0} → List ℕ → Sd W → Sd W
fill_rw bytes s = record s { rw_buffer = bytes ++ drop (length bytes) s.rw_buffer }

module _ {W : Type 0} (ios : Sdio W) where
  -- One round of `k` sectors on `rw_buffer`.
  unfoldable pub round : Bool → ℕ → ℕ → Sd W → Outcome (ℤ × Sd W)
  round is_write sector k s = do
    r ←
        send_command ios (multi_block is_write) 3 1 (block_offset sector s) k 512 ios.rw_buffer_addr
          (take (512 * k) s.rw_buffer) s
    done (r.0.ret, fill_rw r.0.data_buffer r.1)

  -- The loop of `ReadSectors`, held to `fuel` tests; `bytes` are the caller's from `ptr` on.
  unfoldable pub read_rounds : ℕ → ℕ → ℕ → ℤ → List ℕ → Sd W → Outcome (Moved W)
  read_rounds zero sector num_sectors ret bytes s = stuck
  read_rounds (suc fuel) sector num_sectors ret bytes s = elim (ltb 0 num_sectors) [
    | false ↦ done (record { ret = ret; bytes = bytes; sd = s })
    | true ↦
        let k = round_size num_sectors in
        round false sector k s >>= λ r. elim (is_neg r.0) [
          | true ↦ done (record { ret = r.0; bytes = bytes; sd = r.1 })
          | false ↦ do
            assert (leb (512 * k) (length bytes))
            rest ←
                read_rounds fuel (add_u32 sector k) (num_sectors - k) r.0 (drop (512 * k) bytes) r.1
            done (record rest { bytes = take (512 * k) r.1.rw_buffer ++ rest.bytes })
        ]
  ]

  -- The loop of `WriteSectors`.
  unfoldable pub write_rounds : ℕ → ℕ → ℕ → ℤ → List ℕ → Sd W → Outcome (ℤ × Sd W)
  write_rounds zero sector num_sectors ret bytes s = stuck
  write_rounds (suc fuel) sector num_sectors ret bytes s = elim (ltb 0 num_sectors) [
    | false ↦ done (ret, s)
    | true ↦
        let k = round_size num_sectors in
        assert (leb (512 * k) (length bytes))
        >> (round true sector k (fill_rw (take (512 * k) bytes) s) >>= λ r. elim (is_neg r.0) [
          | true ↦ done r
          | false ↦
              write_rounds fuel (add_u32 sector k) (num_sectors - k) r.0 (drop (512 * k) bytes) r.1
        ])
  ]

  -- The transfer to or from an aligned buffer.
  unfoldable pub direct : Bool → ℕ → ℕ → ℕ → List ℕ → Sd W → Outcome (Moved W)
  direct is_write sector num_sectors addr bytes s = do
    let size = mul_u32 512 num_sectors
    assert (leb size (length bytes))
    r ←
        send_command ios (multi_block is_write) 3 1 (block_offset sector s) num_sectors 512 addr
          (take size bytes) s
    done (record { ret = r.0.ret; bytes = r.0.data_buffer ++ drop size bytes; sd = r.1 })

  -- The call between `__sd0_select` and `__sd0_deselect`.
  unfoldable pub selected : List ℕ → (ℤ → Sd W → Outcome (Moved W)) → Sd W → Outcome (Moved W)
  selected bytes body s = do
    chosen ← select ios s
    (if is_neg chosen.0
        then done (record { ret = chosen.0; bytes = bytes; sd = chosen.1 })
        else (body chosen.0 chosen.1 >>= λ m.
            deselect ios m.sd >>= λ d. done (record m { sd = d.1 })))

  -- `SDCard::ReadSectors`
  unfoldable pub read_sectors : ℕ → ℕ → ℕ → ℕ → List ℕ → Sd W → Outcome (Moved W)
  read_sectors fuel sector num_sectors addr bytes s =
      if addr == 0
      then done (record { ret = negsuc 0; bytes = bytes; sd = s })
      else if aligned addr 32
      then selected bytes (λ ret. direct false sector num_sectors addr bytes) s
      else selected bytes (λ ret. read_rounds fuel sector num_sectors ret bytes) s

  -- `SDCard::WriteSectors`
  unfoldable pub write_sectors : ℕ → ℕ → ℕ → ℕ → List ℕ → Sd W → Outcome (Moved W)
  write_sectors fuel sector num_sectors addr bytes s =
      if addr == 0
      then done (record { ret = negsuc 0; bytes = bytes; sd = s })
      else if aligned addr 32
      then selected bytes (λ ret. direct true sector num_sectors addr bytes) s
      else selected bytes
          (λ ret t. write_rounds fuel sector num_sectors ret bytes t >>= λ r.
            done (record { ret = r.0; bytes = bytes; sd = r.1 }))
          s
