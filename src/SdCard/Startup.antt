-- ===== src/SdCard/Startup.antt =====
-- SDCard.cpp: `__sd0_initio` and the functions of the class that start and stop the card.
use ctgpr_msc.Base.{
  ℕ, zero, suc, ◌%◌, Bool, true, false, not, ◌&&◌, ◌==◌, if◌then◌else◌, List, Option, none, some,
}
use ctgpr_msc.Base.Int.{ℤ, is_neg, u32_of}
use ctgpr_msc.Base.Words.{word_be32, bit}
use ctgpr_msc.Base.Outcome.{Outcome, done, ◌>>=◌}
use ctgpr_msc.SdCard.{
  Sdio, Sd, command, command_ret, set_clock, get_status, reset_card, set_hcr, wait_hcr,
  set_host_bus_width, get_rca, select, deselect, set_block_length, set_card_bus_width, get_cid,
  sd0_fs,
}

module _ {W : Type 0} where
  -- `ret = m; if (ret < 0) goto fail;` and the rest.
  infixr 4 ◌⨾◌
  abbrev pub ◌⨾◌ :
      (Sd W → Outcome (ℤ × Sd W)) → (Sd W → Outcome (Bool × Sd W)) → Sd W → Outcome (Bool × Sd W)
  (m ⨾ k) s = m s >>= λ r. if is_neg r.0 then done (false, r.1) else k r.1

  -- A step that does not go through `__sdio_sendcommand`.
  abbrev pub hc : (Sd W → ℤ × Sd W) → Sd W → Outcome (ℤ × Sd W)
  hc f s = done (f s)

  -- `SDCard::Shutdown`
  unfoldable pub shutdown : Sd W → Bool × Sd W
  shutdown s = if s.initialized == 0 then (false, s) else (true, record s { initialized = 0 })

  -- `SDCard::IsInitialized`
  unfoldable pub is_initialized : Sd W → Bool
  is_initialized s = s.sdio_initialized == 1

module _ {W : Type 0} (ios : Sdio W) where
  -- `IOS_Close` and `IOS_Open` of the slot.
  unfoldable pub reopen : Sd W → Sd W
  reopen s =
      let opened = ios.ios_open sd0_fs 1 (ios.ios_close s.fd s.world) in
      record s { fd = opened.0; world = opened.1 }

  -- The label `fail`.
  unfoldable pub fail_init : Sd W → Sd W
  fail_init s = reopen (wait_hcr ios 10 0x2f 1 true 7 (set_hcr ios 0x2f 1 7 s).1).1

  -- SENDIFCOND, whose response must echo 0xaa.
  unfoldable pub check_if_cond : Sd W → Outcome (Bool × Sd W)
  check_if_cond s = do
    r ← command ios 0x08 0 7 0x1aa s
    done (not (is_neg r.0.ret) && (word_be32 r.0.out % 256 == 0xaa), r.1)

  -- The loop with SENDOPCOND: the response once the card is ready.
  unfoldable pub op_cond : ℕ → Sd W → Outcome (Option (List ℕ) × Sd W)
  op_cond zero s = done (none, s)
  op_cond (suc tries) s = do
    app ← command_ret ios 0x37 3 1 0 s
    elim (is_neg app.0) [
      | true ↦ done (none, app.1)
      | false ↦ do
        cond ← command ios 0x29 0 4 0x40300000 app.1
        elim (is_neg cond.0.ret) [
          | true ↦ done (none, cond.1)
          | false ↦ elim (bit (word_be32 cond.0.out) 31) [
            | true ↦ done (some cond.0.out, cond.1)
            | false ↦ op_cond tries (record cond.1 { world = ios.usleep 10000 cond.1.world })
          ]
        ]
    ]

  -- The end of the branch for a card that IOS did not initialise: the capacity, the CID and the RCA.
  unfoldable pub identify : Sd W → Outcome (Bool × Sd W)
  identify s = do
    ready ← op_cond 10 s
    elim ready.0 [
      | none ↦ done (false, ready.1)
      | some resp ↦
          (get_cid ios ⨾ (get_rca ios ⨾ λ t. done (true, t)))
            (record ready.1 { sdhc = if bit (word_be32 resp) 30 then 1 else 0 })
    ]

  -- GOIDLE, SENDIFCOND and what comes after them.
  unfoldable pub start_commands : Sd W → Outcome (Bool × Sd W)
  start_commands = command_ret ios 0x00 0 0 0 ⨾ λ a.
      check_if_cond a >>= λ r. if r.0 then identify r.1 else done (false, r.1)

  -- Power, clock and timeout of the host controller.
  unfoldable pub power_up : Sd W → Outcome (Bool × Sd W)
  power_up s =
      (hc (set_hcr ios 0x29 1 0xe)
          ⨾ hc (set_hcr ios 0x29 1 0xf)
          ⨾ hc (set_hcr ios 0x2c 2 0)
          ⨾ hc (set_hcr ios 0x2c 2 0x101)
          ⨾ hc (wait_hcr ios 10 0x2c 2 false 2)
          ⨾ hc (set_hcr ios 0x2c 2 0x107)
          ⨾ hc (set_hcr ios 0x2e 1 0xe)
          ⨾ start_commands)
        (record s { sdhc = 1 })

  -- The branch for a card that IOS did not initialise; `false` is `goto fail`.
  unfoldable pub convince : Sd W → Outcome (Bool × Sd W)
  convince s =
      (hc (set_hcr ios 0x2f 1 7) ⨾ hc (wait_hcr ios 10 0x2f 1 true 7) ⨾ λ a.
      power_up (set_hcr ios 0x38 4 0x13f00c3 (set_hcr ios 0x34 4 0x13f00c3 a).1).1)
        (reopen s)

  -- `ret = m; if (ret < 0) { __sd0_deselect(); return false; }`
  unfoldable pub or_deselect :
      (Sd W → Outcome (ℤ × Sd W)) → (Sd W → Outcome (Bool × Sd W)) → Sd W → Outcome (Bool × Sd W)
  or_deselect m k s =
      m s >>= λ r. if is_neg r.0 then (deselect ios r.1 >>= λ d. done (false, d.1)) else k r.1

  -- From line 532 on: the bus width, the clock and the block length.
  unfoldable pub configure : Sd W → Outcome (Bool × Sd W)
  configure =
      hc (set_host_bus_width ios 4)
      ⨾ hc (set_clock ios 1)
      ⨾ select ios
      ⨾ or_deselect (set_block_length ios 512) (
          or_deselect (set_card_bus_width ios 4)
            (λ s. deselect ios s >>= λ d. done (true, record d.1 { initialized = 1 })))

  -- `__sd0_initio`
  unfoldable pub init_io : Sd W → Outcome (Bool × Sd W)
  init_io s =
      let got = get_status ios (reset_card ios s).1 in
      let status = u32_of got.0 in
      if not (bit status 0)
      then done (false, got.1)
      else if not (bit status 16)
      then (convince got.1 >>= λ r. if r.0 then configure r.1 else done (false, fail_init r.1))
      else configure (record got.1 { sdhc = if bit status 20 then 1 else 0 })

  -- `SDCard::Open`
  unfoldable pub open_card : Sd W → Bool × Sd W
  open_card s =
      let r = ios.ios_open sd0_fs 1 s.world in
      if is_neg r.0
      then (false, record s { world = r.1 })
      else (true, record s { fd = r.0; world = r.1 })

  -- `SDCard::Startup`
  unfoldable pub startup : Sd W → Outcome (Bool × Sd W)
  startup s = init_io (if s.sdio_initialized == 1 then (shutdown s).1 else s) >>= λ r.
      done (if r.0 then (true, record r.1 { sdio_initialized = 1 }) else r)

  -- `SDCard::IsInserted`: bit 0 of what `__sdio_getstatus` returns, a code or the status.
  unfoldable pub is_inserted : Sd W → Bool × Sd W
  is_inserted s = let r = get_status ios s in (bit (u32_of r.0) 0, r.1)
