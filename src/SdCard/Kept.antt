-- ===== src/SdCard/Kept.antt =====
-- The transfers of SDCard.cpp leave the flags as they were.
use ctgpr_msc.Base.{
  ℕ, zero, suc, ◌*◌, ◌-◌, ◌%◌, ◌^◌, inl, inr, List, [], Bool, Bool-cases, true, false, ◌==◌, ltb,
  leb, take, drop, length,
}
use ctgpr_msc.Base.Int.{ℤ, is_neg}
use ctgpr_msc.Base.Words.{add_u32, aligned}
use ctgpr_msc.Base.Outcome.{Outcome, Holds, bind-Holds, assert-Holds}
use ctgpr_msc.SdCard.{Sdio, Sd, send_command, select, deselect, command, command_ret}
use ctgpr_msc.SdCard.Sectors.{
  Moved, block_offset, round_size, multi_block, fill_rw, round, read_rounds, write_rounds, direct,
  selected, read_sectors, write_sectors,
}
use ctgpr_msc.SdCard.Flags.{IsFlags}

module _ {W : Type 0} (ios : Sdio W) where
  abbrev pub KeepsWhere : {A : Type 0} → ℕ → ℕ → (A → Sd W) → Outcome A → Type 0
  KeepsWhere i d state o = Holds (λ a. IsFlags i d (state a)) o

  send-Keeps :
      (i d cmd cmd_type rsp_type arg blk_cnt blk_size addr : ℕ) (bytes : List ℕ) (s : Sd W)
      → IsFlags i d s
      → KeepsWhere i d
          (λ r. r.1)
          (send_command ios cmd cmd_type rsp_type arg blk_cnt blk_size addr bytes s)
  unfolding send_command
  send-Keeps i d cmd cmd_type rsp_type arg blk_cnt blk_size addr bytes s h =
      assert-Holds (λ r. IsFlags i d r.1) (ios.process_id s.world == 0) _ h

  ret-Keeps :
      (i d cmd cmd_type rsp_type arg : ℕ) (s : Sd W)
      → IsFlags i d s
      → KeepsWhere i d (λ r. r.1) (command_ret ios cmd cmd_type rsp_type arg s)
  unfolding command_ret command
  ret-Keeps i d cmd cmd_type rsp_type arg s h =
      bind-Holds (λ r. IsFlags i d r.1) (λ r. IsFlags i d r.1)
        (send_command ios cmd cmd_type rsp_type arg 0 0 0 [] s) _
        (send-Keeps i d cmd cmd_type rsp_type arg 0 0 0 [] s h) (λ r k. k)

  round-Keeps :
      (i d : ℕ) (is_write : Bool) (sector k : ℕ) (s : Sd W)
      → IsFlags i d s
      → KeepsWhere i d (λ r. r.1) (round ios is_write sector k s)
  unfolding round fill_rw
  round-Keeps i d is_write sector k s h =
      bind-Holds (λ r. IsFlags i d r.1) (λ r. IsFlags i d r.1)
        (send_command ios (multi_block is_write) 3 1 (block_offset sector s) k 512
          ios.rw_buffer_addr (take (512 * k) s.rw_buffer) s)
        _
        (send-Keeps i d (multi_block is_write) 3 1 (block_offset sector s) k 512 ios.rw_buffer_addr
          (take (512 * k) s.rw_buffer) s h)
        (λ r z. z)

  read_rounds-Keeps :
      (i d fuel sector n : ℕ) (ret : ℤ) (bytes : List ℕ) (s : Sd W)
      → IsFlags i d s
      → KeepsWhere i d (λ m. m.sd) (read_rounds ios fuel sector n ret bytes s)
  unfolding read_rounds
  read_rounds-Keeps i d zero sector n ret bytes s h = tt
  read_rounds-Keeps i d (suc fuel) sector n ret bytes s h = elim (Bool-cases (ltb 0 n)) [
    | inr none_left ↦ rw (none_left, read_rounds) h
    | inl more ↦
        rw (more, read_rounds)
          (bind-Holds (λ r. IsFlags i d r.1) (λ m. IsFlags i d m.sd)
            (round ios false sector (round_size n) s) _
            (round-Keeps i d false sector (round_size n) s h)
            (λ r kept. elim (Bool-cases (is_neg r.0)) [
              | inl bad ↦ rw (bad, read_rounds) kept
              | inr good ↦
                  rw (good, read_rounds)
                    (assert-Holds (λ m. IsFlags i d m.sd) (leb (512 * round_size n) (length bytes))
                      _
                      (bind-Holds (λ m. IsFlags i d m.sd) (λ m. IsFlags i d m.sd)
                        (read_rounds ios fuel (add_u32 sector (round_size n)) (n - round_size n) r.0
                          (drop (512 * round_size n) bytes) r.1)
                        _
                        (read_rounds-Keeps i d fuel (add_u32 sector (round_size n))
                          (n - round_size n) r.0 (drop (512 * round_size n) bytes) r.1 kept)
                        (λ m z. z)))
            ]))
  ]

  write_rounds-Keeps :
      (i d fuel sector n : ℕ) (ret : ℤ) (bytes : List ℕ) (s : Sd W)
      → IsFlags i d s
      → KeepsWhere i d (λ r. r.1) (write_rounds ios fuel sector n ret bytes s)
  unfolding write_rounds fill_rw
  write_rounds-Keeps i d zero sector n ret bytes s h = tt
  write_rounds-Keeps i d (suc fuel) sector n ret bytes s h = elim (Bool-cases (ltb 0 n)) [
    | inr none_left ↦ rw (none_left, write_rounds) h
    | inl more ↦
        rw (more, write_rounds)
          (assert-Holds (λ r. IsFlags i d r.1) (leb (512 * round_size n) (length bytes)) _
            (bind-Holds (λ r. IsFlags i d r.1) (λ r. IsFlags i d r.1)
              (round ios true sector (round_size n) (fill_rw (take (512 * round_size n) bytes) s)) _
              (round-Keeps i d true sector (round_size n)
                (fill_rw (take (512 * round_size n) bytes) s) h)
              (λ r kept. elim (Bool-cases (is_neg r.0)) [
                | inl bad ↦ rw (bad, write_rounds) kept
                | inr good ↦
                    rw (good, write_rounds)
                      (write_rounds-Keeps i d fuel (add_u32 sector (round_size n))
                        (n - round_size n) r.0 (drop (512 * round_size n) bytes) r.1 kept)
              ])))
  ]

  direct-Keeps :
      (i d : ℕ) (is_write : Bool) (sector n addr : ℕ) (bytes : List ℕ) (s : Sd W)
      → IsFlags i d s
      → KeepsWhere i d (λ m. m.sd) (direct ios is_write sector n addr bytes s)
  unfolding direct
  direct-Keeps i d is_write sector n addr bytes s h =
      let size = 512 * n % 2 ^ 32 in
      assert-Holds (λ m. IsFlags i d m.sd) (leb size (length bytes)) _
        (bind-Holds (λ r. IsFlags i d r.1) (λ m. IsFlags i d m.sd)
          (send_command ios (multi_block is_write) 3 1 (block_offset sector s) n 512 addr
            (take size bytes) s)
          _
          (send-Keeps i d (multi_block is_write) 3 1 (block_offset sector s) n 512 addr
            (take size bytes) s h)
          (λ r z. z))

  selected-Keeps :
      (i d : ℕ) (bytes : List ℕ) (body : ℤ → Sd W → Outcome (Moved W)) (s : Sd W)
      → ((ret : ℤ) (t : Sd W) → IsFlags i d t → KeepsWhere i d (λ m. m.sd) (body ret t))
      → IsFlags i d s
      → KeepsWhere i d (λ m. m.sd) (selected ios bytes body s)
  unfolding selected select deselect
  selected-Keeps i d bytes body s inner h =
      bind-Holds (λ r. IsFlags i d r.1) (λ m. IsFlags i d m.sd) (select ios s) _
        (ret-Keeps i d 7 3 2 (s.rca * 65536 % 2 ^ 32) s h)
        (λ c kept. elim (Bool-cases (is_neg c.0)) [
          | inl bad ↦ rw (bad) kept
          | inr good ↦ rw (good) (
              bind-Holds (λ m. IsFlags i d m.sd) (λ m. IsFlags i d m.sd) (body c.0 c.1) _
                (inner c.0 c.1 kept)
                (λ m z.
                  bind-Holds (λ r. IsFlags i d r.1) (λ n. IsFlags i d n.sd) (deselect ios m.sd) _
                    (ret-Keeps i d 7 3 2 0 m.sd z) (λ r y. y)))
        ])

  pub read_sectors-Keeps :
      (i d fuel sector n addr : ℕ) (bytes : List ℕ) (s : Sd W)
      → IsFlags i d s
      → KeepsWhere i d (λ m. m.sd) (read_sectors ios fuel sector n addr bytes s)
  unfolding read_sectors
  read_sectors-Keeps i d fuel sector n addr bytes s h = elim (Bool-cases (addr == 0)) [
    | inl null ↦ rw (null) h
    | inr not_null ↦ elim (Bool-cases (aligned addr 32)) [
      | inl even ↦
          rw (not_null, even)
            (selected-Keeps i d bytes _ s
              (λ ret t z. direct-Keeps i d false sector n addr bytes t z) h)
      | inr odd ↦
          rw (not_null, odd)
            (selected-Keeps i d bytes _ s
              (λ ret t z. read_rounds-Keeps i d fuel sector n ret bytes t z) h)
    ]
  ]

  pub write_sectors-Keeps :
      (i d fuel sector n addr : ℕ) (bytes : List ℕ) (s : Sd W)
      → IsFlags i d s
      → KeepsWhere i d (λ m. m.sd) (write_sectors ios fuel sector n addr bytes s)
  unfolding write_sectors
  write_sectors-Keeps i d fuel sector n addr bytes s h = elim (Bool-cases (addr == 0)) [
    | inl null ↦ rw (null) h
    | inr not_null ↦ elim (Bool-cases (aligned addr 32)) [
      | inl even ↦
          rw (not_null, even)
            (selected-Keeps i d bytes _ s (λ ret t z. direct-Keeps i d true sector n addr bytes t z)
              h)
      | inr odd ↦
          rw (not_null, odd)
            (selected-Keeps i d bytes _ s
              (λ ret t z.
                bind-Holds (λ r. IsFlags i d r.1) (λ m. IsFlags i d m.sd)
                  (write_rounds ios fuel sector n ret bytes t) _
                  (write_rounds-Keeps i d fuel sector n ret bytes t z) (λ r y. y))
              h)
    ]
  ]
