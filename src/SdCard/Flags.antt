-- ===== src/SdCard/Flags.antt =====
-- SDCard.cpp: what the functions leave in `__sd0_initialized`, `__sdio_initialized` and `__sd0_sdhc`.
use ctgpr_msc.Base.{
  ℕ, zero, suc, ◌*◌, ◌^◌, ◌%◌, ◌≤◌, ◌≡◌, inl, inr, arith, List, Bool, Bool-cases, true, false,
  if◌then◌else◌, Option-cases,
}
use ctgpr_msc.Base.Int.{ℤ, is_neg}
use ctgpr_msc.Base.Words.{word_be32, bit}
use ctgpr_msc.Base.Outcome.{Outcome, done, Returns, bind-Returns}
use ctgpr_msc.SdCard.{
  Sdio, Sd, send_command, command, command_ret, get_hcr, set_hcr, is_awaited, wait_hcr, get_rca,
  get_cid,
}
use ctgpr_msc.SdCard.Startup.{◌⨾◌, hc, reopen, fail_init, check_if_cond, op_cond, identify}

-- The flags of a state, and a card that is of one kind or the other.
abbrev pub IsFlags : {W : Type 0} → ℕ → ℕ → Sd W → Type 0
IsFlags i d s = (s.initialized ≡ i) × (s.sdio_initialized ≡ d) × (s.sdhc ≤ 1)

-- A result, with the flags as they were.
abbrev pub Keeps : {W A : Type 0} → ℕ → ℕ → Outcome (A × Sd W) → Type 0
Keeps i d o = Returns (λ r. IsFlags i d r.1) o

module _ {W : Type 0} (ios : Sdio W) (pid : (w : W) → ios.process_id w ≡ 0) (i d : ℕ) where
  pub send_command-Keeps :
      (cmd cmd_type rsp_type arg blk_cnt blk_size addr : ℕ) (bytes : List ℕ) (s : Sd W)
      → IsFlags i d s
      → Keeps i d (send_command ios cmd cmd_type rsp_type arg blk_cnt blk_size addr bytes s)
  unfolding send_command
  send_command-Keeps cmd cmd_type rsp_type arg blk_cnt blk_size addr bytes s h = rw (pid s.world) h

  pub command-Keeps :
      (cmd cmd_type rsp_type arg : ℕ) (s : Sd W)
      → IsFlags i d s
      → Keeps i d (command ios cmd cmd_type rsp_type arg s)
  unfolding command
  command-Keeps cmd cmd_type rsp_type arg s h =
      send_command-Keeps cmd cmd_type rsp_type arg 0 0 0 _ s h

  pub command_ret-Keeps :
      (cmd cmd_type rsp_type arg : ℕ) (s : Sd W)
      → IsFlags i d s
      → Keeps i d (command_ret ios cmd cmd_type rsp_type arg s)
  unfolding command_ret
  command_ret-Keeps cmd cmd_type rsp_type arg s h =
      bind-Returns (λ r. IsFlags i d r.1) (λ r. IsFlags i d r.1)
        (command ios cmd cmd_type rsp_type arg s) _ (command-Keeps cmd cmd_type rsp_type arg s h)
        (λ r k. k)

  pub wait_hcr-Keeps :
      (tries reg size : ℕ) (unset : Bool) (mask : ℕ) (s : Sd W)
      → IsFlags i d s
      → IsFlags i d (wait_hcr ios tries reg size unset mask s).1
  unfolding wait_hcr get_hcr
  wait_hcr-Keeps zero reg size unset mask s h = h
  wait_hcr-Keeps (suc tries) reg size unset mask s h =
      elim (Bool-cases (is_neg (get_hcr ios reg size s).0)) [
        | inl bad ↦ rw (bad, wait_hcr) h
        | inr good ↦ elim (Bool-cases (is_awaited unset mask (get_hcr ios reg size s).1)) [
          | inl met ↦ rw (good, wait_hcr) (rw (met) h)
          | inr unmet ↦
              rw (good, wait_hcr) (rw (unmet) (wait_hcr-Keeps tries reg size unset mask _ h))
        ]
      ]

  -- `m ⨾ k` for a `P` that a failure has.
  pub chain-Returns :
      (P : Bool × Sd W → Type 0) (m : Sd W → Outcome (ℤ × Sd W)) (k : Sd W → Outcome (Bool × Sd W))
      → ((s : Sd W) → IsFlags i d s → P (false, s))
      → ((s : Sd W) → IsFlags i d s → Keeps i d (m s))
      → ((s : Sd W) → IsFlags i d s → Returns P (k s))
      → (s : Sd W) → IsFlags i d s
      → Returns P ((m ⨾ k) s)
  chain-Returns P m k failing first rest s h =
      bind-Returns (λ r. IsFlags i d r.1) P (m s) _ (first s h)
        (λ r kept. elim (Bool-cases (is_neg r.0)) [
          | inl bad ↦ rw (bad) (failing r.1 kept)
          | inr good ↦ rw (good) (rest r.1 kept)
        ])

  pub chain-Keeps :
      (m : Sd W → Outcome (ℤ × Sd W)) (k : Sd W → Outcome (Bool × Sd W))
      → ((s : Sd W) → IsFlags i d s → Keeps i d (m s))
      → ((s : Sd W) → IsFlags i d s → Keeps i d (k s))
      → (s : Sd W) → IsFlags i d s
      → Keeps i d ((m ⨾ k) s)
  chain-Keeps m k = chain-Returns (λ r. IsFlags i d r.1) m k (λ s h. h)

  pub set_hcr-Keeps :
      (reg size value : ℕ) (s : Sd W)
      → IsFlags i d s
      → Keeps i d (hc (set_hcr ios reg size value) s)
  unfolding set_hcr
  set_hcr-Keeps reg size value s h = h

  pub wait-Keeps :
      (reg size : ℕ) (unset : Bool) (mask : ℕ) (s : Sd W)
      → IsFlags i d s
      → Keeps i d (hc (wait_hcr ios 10 reg size unset mask) s)
  wait-Keeps reg size unset mask s h = wait_hcr-Keeps 10 reg size unset mask s h

  pub op_cond-Keeps : (tries : ℕ) (s : Sd W) → IsFlags i d s → Keeps i d (op_cond ios tries s)
  unfolding op_cond
  op_cond-Keeps zero s h = h
  op_cond-Keeps (suc tries) s h =
      bind-Returns (λ r. IsFlags i d r.1) (λ r. IsFlags i d r.1) (command_ret ios 0x37 3 1 0 s) _
        (command_ret-Keeps 0x37 3 1 0 s h)
        (λ app kept. elim (Bool-cases (is_neg app.0)) [
          | inl bad ↦ rw (bad, op_cond) kept
          | inr good ↦
              rw (good, op_cond)
                (bind-Returns (λ r. IsFlags i d r.1) (λ r. IsFlags i d r.1)
                  (command ios 0x29 0 4 0x40300000 app.1) _
                  (command-Keeps 0x29 0 4 0x40300000 app.1 kept)
                  (λ cond kept2. elim (Bool-cases (is_neg cond.0.ret)) [
                    | inl bad2 ↦ rw (bad2, op_cond) kept2
                    | inr good2 ↦ elim (Bool-cases (bit (word_be32 cond.0.out) 31)) [
                      | inl holds ↦ rw (good2, op_cond) (rw (holds) kept2)
                      | inr fails ↦ rw (good2, op_cond) (rw (fails) (op_cond-Keeps tries _ kept2))
                    ]
                  ]))
        ])

  pub get_cid-Keeps : (s : Sd W) → IsFlags i d s → Keeps i d (get_cid ios s)
  unfolding get_cid
  get_cid-Keeps s h =
      bind-Returns (λ r. IsFlags i d r.1) (λ r. IsFlags i d r.1)
        (command ios 0x02 0 3 (s.rca * 65536 % 2 ^ 32) s) _
        (command-Keeps 0x02 0 3 (s.rca * 65536 % 2 ^ 32) s h) (λ r k. k)

  pub get_rca-Keeps : (s : Sd W) → IsFlags i d s → Keeps i d (get_rca ios s)
  unfolding get_rca
  get_rca-Keeps s h =
      bind-Returns (λ r. IsFlags i d r.1) (λ r. IsFlags i d r.1) (command ios 0x03 0 6 0 s) _
        (command-Keeps 0x03 0 6 0 s h)
        (λ r k. elim (Bool-cases (is_neg r.0.ret)) [
          | inl bad ↦ rw (bad) k
          | inr good ↦ rw (good) k
        ])

  pub sdhc_small : (b : Bool) → (if b then 1 else 0) ≤ 1
  sdhc_small true = omega arith
  sdhc_small false = omega arith

  pub identify-Keeps : (s : Sd W) → IsFlags i d s → Keeps i d (identify ios s)
  unfolding identify
  identify-Keeps s h =
      bind-Returns (λ r. IsFlags i d r.1) (λ r. IsFlags i d r.1) (op_cond ios 10 s) _
        (op_cond-Keeps 10 s h)
        (λ ready kept. elim (Option-cases ready.0) [
          | inl late ↦ rw late kept
          | inr (resp, up) ↦ rw up (
              chain-Keeps (get_cid ios) (get_rca ios ⨾ λ t. done (true, t)) get_cid-Keeps
                (chain-Keeps (get_rca ios) (λ t. done (true, t)) get_rca-Keeps (λ t k. k)) _
                (kept.0, kept.1, sdhc_small (bit (word_be32 resp) 30)))
        ])

  pub reopen-IsFlags : (s : Sd W) → IsFlags i d s → IsFlags i d (reopen ios s)
  unfolding reopen
  reopen-IsFlags s h = h

  pub fail_init-IsFlags : (s : Sd W) → IsFlags i d s → IsFlags i d (fail_init ios s)
  unfolding fail_init set_hcr
  fail_init-IsFlags s h = reopen-IsFlags _ (wait_hcr-Keeps 10 0x2f 1 true 7 _ h)

  pub check_if_cond-Keeps : (s : Sd W) → IsFlags i d s → Keeps i d (check_if_cond ios s)
  unfolding check_if_cond
  check_if_cond-Keeps s h =
      bind-Returns (λ r. IsFlags i d r.1) (λ r. IsFlags i d r.1) (command ios 0x08 0 7 0x1aa s) _
        (command-Keeps 0x08 0 7 0x1aa s h) (λ r k. k)
