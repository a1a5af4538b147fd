-- ===== src/EmuSdio/Transfers.antt =====
-- The transfers of `ExecuteCommand`: what an accepted buffer and a successful read say.
use ctgpr_msc.Base.{
  ℕ, ◌*◌, ◌^◌, ◌≤◌, ◌<◌, ◌≡◌, ◌≢◌, refl, true, false, not, inl, inr, ◌⊎◌, arith, ◌==◌, Bool-cases,
  if◌then◌else◌, length,
}
use mathlib.Core.Path.{subst}
use ctgpr_msc.Base.Outcome.{Outcome, done, fault, stuck, ◌>>=◌}
use ctgpr_msc.Aes.{Engine}
use ctgpr_msc.FatFs.{FatFs}
use ctgpr_msc.DeviceMgr.{State, Drivers, ReadReply, device_read, is_refused}
use ctgpr_msc.DeviceMgr.Latch.{refused_lem}
use ctgpr_msc.EmuSdio.{
  SdioCommand, SdioRequest, SdioReply, Buffer, ret_ok, ret_fail, is_bad_transfer, read_multi,
  write_multi, execute, execute_command, fail, answer, write_word_out_cmd,
}

-- Below 2^23 sectors, the buffer that a transfer accepts has room for its sectors exactly.
accepted_size :
    (req : SdioRequest) (rw : Buffer)
    → req.blk_cnt < 2 ^ 23
    → is_bad_transfer req rw ≡ false
    → length rw.bytes ≡ 512 * req.blk_cnt
unfolding is_bad_transfer
accepted_size req rw small h = ground arith

-- From 2^23 sectors on, every buffer that a transfer accepts is too short for its sectors: the product
-- wraps around.
pub accepted_too_short :
    (req : SdioRequest) (rw : Buffer)
    → 2 ^ 23 ≤ req.blk_cnt
    → is_bad_transfer req rw ≡ false
    → length rw.bytes < 512 * req.blk_cnt
unfolding is_bad_transfer
accepted_too_short req rw big h = ground arith

fail_ne : ret_fail ≢ ret_ok
fail_ne = λ e. cc (e)

module _ {W U F : Type 0} (drivers : Drivers W U) (fs : FatFs (State W U F) F)
    (engine : Engine (State W U F)) (fuel emu_dev_id : ℕ) where
  -- The call of the device manager that a read makes.
  abbrev reading : SdioRequest → Buffer → State W U F → Outcome (ReadReply W U F)
  reading req rw s = device_read drivers fs engine fuel emu_dev_id req.arg req.blk_cnt rw.bytes s

  -- A read that was answered OK had DMA set and a buffer that the host's test accepts, which below 2^23
  -- sectors has exactly their size, and the device manager read those sectors into it.
  abbrev pub IsReadOk : SdioRequest → Buffer → State W U F → SdioReply W U F → Type 0
  IsReadOk req rw s r =
      (req.is_dma ≢ 0)
      × (is_bad_transfer req rw ≡ false)
      × (req.blk_cnt < 2 ^ 23 → length rw.bytes ≡ 512 * req.blk_cnt)
      × ((d : ReadReply W U F) × (device_read drivers fs engine fuel emu_dev_id req.arg req.blk_cnt
              rw.bytes s
            ≡ done d)
          × (d.good ≡ true)
          × (r.data_buffer.bytes ≡ d.buffer)
          × (r.state ≡ d.state))

  Accounts : SdioRequest → Buffer → State W U F → Outcome (SdioReply W U F) → Type 0
  Accounts req rw s (done r) = (r.ret ≢ ret_ok) ⊎ IsReadOk req rw s r
  Accounts req rw s fault = Unit
  Accounts req rw s stuck = Unit

  abbrev reply_to : Buffer → Buffer → ReadReply W U F → Outcome (SdioReply W U F)
  reply_to rw out r =
      if not r.good
      then fail drivers fs engine fuel emu_dev_id (record rw { bytes = r.buffer }) out r.state
      else answer drivers fs engine fuel emu_dev_id (record rw { bytes = r.buffer }) r.state
          (write_word_out_cmd out 0x900)

  reply-Accounts :
      (req : SdioRequest) (rw out : Buffer) (s : State W U F) (o : Outcome (ReadReply W U F))
      → reading req rw s ≡ o
      → req.is_dma ≢ 0
      → is_bad_transfer req rw ≡ false
      → Accounts req rw s (o >>= reply_to rw out)
  unfolding Accounts fail answer
  reply-Accounts req rw out s (done d) e dma fits = elim (Bool-cases d.good) [
    | inr bad ↦ simp (bad) (inl fail_ne)
    | inl good ↦
        simp (good)
          (inr (dma, fits, (λ small. accepted_size req rw small fits), (d, e, good, refl, refl)))
  ]
  reply-Accounts req rw out s fault e dma fits = tt
  reply-Accounts req rw out s stuck e dma fits = tt

  read_multi-Accounts :
      (req : SdioRequest) (rw out : Buffer) (s : State W U F)
      → Accounts req rw s (read_multi drivers fs engine fuel emu_dev_id req rw out s)
  unfolding read_multi fail Accounts
  read_multi-Accounts req rw out s = elim (Bool-cases (req.is_dma == 0)) [
    | inl no_dma ↦ simp (no_dma) (inl fail_ne)
    | inr dma ↦ elim (Bool-cases (is_bad_transfer req rw)) [
      | inl bad ↦ simp (dma, bad) (inl fail_ne)
      | inr fits ↦
          simp (dma, fits)
            (reply-Accounts req rw out s (reading req rw s) refl (λ z. absurd (ground arith)) fits)
    ]
  ]

  -- A read of sectors that is answered OK was a DMA request with a buffer that the host's test accepts,
  -- which below 2^23 sectors has exactly their size, and the device manager read those sectors, with
  -- success: the buffer holds what it delivered, and the state is the one that it left.
  pub read_answered_ok :
      (req : SdioRequest) (rw out : Buffer) (s : State W U F) (r : SdioReply W U F)
      → execute_command drivers fs engine fuel emu_dev_id
          (record req { cmd = SdioCommand.read_multi_block })
          rw
          out
          s
        ≡ done r
      → r.ret ≡ ret_ok
      → IsReadOk req rw s r
  unfolding execute_command execute Accounts is_bad_transfer
  read_answered_ok req rw out s r e ok = settle (
      subst (Accounts (record req { cmd = SdioCommand.read_multi_block }) rw s) e
        (read_multi-Accounts (record req { cmd = SdioCommand.read_multi_block }) rw out s))
    where
      settle :
          (r.ret ≢ ret_ok) ⊎ IsReadOk (record req { cmd = SdioCommand.read_multi_block }) rw s r
          → IsReadOk req rw s r
      settle (inl not_ok) = absurd (not_ok ok)
      settle (inr good) = good

  -- A transfer to or from a device that is disabled or has its error flag set fails, and leaves both
  -- buffers and the state as they were.
  pub transfer_refused :
      (req : SdioRequest) (rw out : Buffer) (s : State W U F)
      → emu_dev_id < 9
      → is_refused emu_dev_id s ≡ true
      → (execute_command drivers fs engine fuel emu_dev_id
            (record req { cmd = SdioCommand.read_multi_block })
            rw
            out
            s
          ≡ done (record { ret = ret_fail; out = out; data_buffer = rw; state = s }))
        × (execute_command drivers fs engine fuel emu_dev_id
              (record req { cmd = SdioCommand.write_multi_block })
              rw
              out
              s
            ≡ done (record { ret = ret_fail; out = out; data_buffer = rw; state = s }))
  unfolding execute_command execute read_multi write_multi fail is_bad_transfer
  transfer_refused req rw out s h refused =
      let all =
        refused_lem drivers fs engine emu_dev_id fuel req.arg req.blk_cnt rw.bytes s h refused in
      (
        elim (Bool-cases (req.is_dma == 0)) [
          | inl no_dma ↦ simp (no_dma)
          | inr dma ↦ elim (Bool-cases (is_bad_transfer req rw)) [
            | inl bad ↦ simp (dma, bad)
            | inr fits ↦ simp (dma, fits, all.1)
          ]
        ],
        elim (Bool-cases (req.is_dma == 0)) [
          | inl no_dma ↦ simp (no_dma)
          | inr dma ↦ elim (Bool-cases (is_bad_transfer req rw)) [
            | inl bad ↦ simp (dma, bad)
            | inr fits ↦ simp (dma, fits, all.2)
          ]
        ],
      )
