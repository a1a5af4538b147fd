-- ===== src/SdCard/Init.antt =====
-- `__sd0_initio` of SDCard.cpp: how it ends, on every branch.
use ctgpr_msc.Base.{
  ℕ, ◌*◌, ◌^◌, ◌%◌, ◌≤◌, ◌≡◌, refl, ◌⊎◌, inl, inr, arith, [], Bool, Bool-cases, true, false, ◌==◌,
  if◌then◌else◌,
}
use ctgpr_msc.Base.Int.{ℤ, is_neg, u32_of}
use ctgpr_msc.Base.Words.{bit}
use ctgpr_msc.Base.Outcome.{Outcome, done, ◌>>=◌, Returns, bind-Returns}
use ctgpr_msc.SdCard.{
  Sdio, Sd, command_ret, set_clock, get_status, reset_card, get_hcr, set_hcr, wait_hcr,
  set_host_bus_width, select, deselect, set_block_length, set_card_bus_width,
}
use ctgpr_msc.SdCard.Startup.{
  ◌⨾◌, hc, reopen, fail_init, check_if_cond, identify, start_commands, power_up, convince,
  or_deselect, configure, init_io,
}
use ctgpr_msc.SdCard.Flags.{
  IsFlags, Keeps, command_ret-Keeps, chain-Returns, chain-Keeps, set_hcr-Keeps, wait-Keeps,
  sdhc_small, identify-Keeps, reopen-IsFlags, fail_init-IsFlags, check_if_cond-Keeps,
}

-- How `__sd0_initio` and its parts end: with the card initialised, or with the flags as they were.
abbrev pub Ends : {W : Type 0} → ℕ → ℕ → Bool × Sd W → Type 0
Ends i d r =
    ((r.0 ≡ true) × (r.1.initialized ≡ 1) × (r.1.sdio_initialized ≡ d) × (r.1.sdhc ≤ 1))
    ⊎ ((r.0 ≡ false) × IsFlags i d r.1)

module _ {W : Type 0} (ios : Sdio W) (pid : (w : W) → ios.process_id w ≡ 0) (i d : ℕ) where
  start_commands-Keeps : (s : Sd W) → IsFlags i d s → Keeps i d (start_commands ios s)
  unfolding start_commands
  start_commands-Keeps =
      chain-Keeps ios pid i d (command_ret ios 0x00 0 0 0)
        (λ a. check_if_cond ios a >>= λ r. if r.0 then identify ios r.1 else done (false, r.1))
        (command_ret-Keeps ios pid i d 0x00 0 0 0)
        (λ a kept.
          bind-Returns (λ r. IsFlags i d r.1) (λ r. IsFlags i d r.1) (check_if_cond ios a)
            (λ r. if r.0 then identify ios r.1 else done (false, r.1))
            (check_if_cond-Keeps ios pid i d a kept)
            (λ r k. elim (Bool-cases r.0) [
              | inl good ↦ rw (good) (identify-Keeps ios pid i d r.1 k)
              | inr bad ↦ rw (bad) k
            ]))

  -- A register that is written on the way.
  register-Keeps :
      (k : Sd W → Outcome (Bool × Sd W)) (reg size value : ℕ)
      → ((s : Sd W) → IsFlags i d s → Keeps i d (k s))
      → (s : Sd W) → IsFlags i d s
      → Keeps i d ((hc (set_hcr ios reg size value) ⨾ k) s)
  register-Keeps k reg size value =
      chain-Keeps ios pid i d (hc (set_hcr ios reg size value)) k
        (set_hcr-Keeps ios pid i d reg size value)

  awaited-Keeps :
      (k : Sd W → Outcome (Bool × Sd W)) (reg size : ℕ) (unset : Bool) (mask : ℕ)
      → ((s : Sd W) → IsFlags i d s → Keeps i d (k s))
      → (s : Sd W) → IsFlags i d s
      → Keeps i d ((hc (wait_hcr ios 10 reg size unset mask) ⨾ k) s)
  awaited-Keeps k reg size unset mask =
      chain-Keeps ios pid i d (hc (wait_hcr ios 10 reg size unset mask)) k
        (wait-Keeps ios pid i d reg size unset mask)

  power_up-Keeps : (s : Sd W) → IsFlags i d s → Keeps i d (power_up ios s)
  unfolding power_up
  power_up-Keeps s h =
      register-Keeps _ 0x29 1 0xe
        (register-Keeps _ 0x29 1 0xf (
          register-Keeps _ 0x2c 2 0 (
            register-Keeps _ 0x2c 2 0x101 (
              awaited-Keeps _ 0x2c 2 false 2 (
                register-Keeps _ 0x2c 2 0x107
                  (register-Keeps _ 0x2e 1 0xe start_commands-Keeps))))))
        (record s { sdhc = 1 }) (h.0, h.1, omega arith)

  convince-Keeps : (s : Sd W) → IsFlags i d s → Keeps i d (convince ios s)
  unfolding convince set_hcr
  convince-Keeps s h =
      register-Keeps (hc (wait_hcr ios 10 0x2f 1 true 7) ⨾ powered) 0x2f 1 7
        (awaited-Keeps powered 0x2f 1 true 7 (λ a k. power_up-Keeps (interrupts a) k))
        (reopen ios s) (reopen-IsFlags ios pid i d s h)
    where
      interrupts : Sd W → Sd W
      interrupts a = (set_hcr ios 0x38 4 0x13f00c3 (set_hcr ios 0x34 4 0x13f00c3 a).1).1

      powered : Sd W → Outcome (Bool × Sd W)
      powered a = power_up ios (interrupts a)

  or_deselect-Returns :
      (m : Sd W → Outcome (ℤ × Sd W)) (k : Sd W → Outcome (Bool × Sd W))
      → ((s : Sd W) → IsFlags i d s → Keeps i d (m s))
      → ((s : Sd W) → IsFlags i d s → Returns (Ends i d) (k s))
      → (s : Sd W) → IsFlags i d s
      → Returns (Ends i d) (or_deselect ios m k s)
  unfolding or_deselect deselect
  or_deselect-Returns m k first rest s h =
      bind-Returns (λ r. IsFlags i d r.1) (Ends i d) (m s) _ (first s h)
        (λ r kept. elim (Bool-cases (is_neg r.0)) [
          | inl bad ↦ rw (bad) (
              bind-Returns (λ t. IsFlags i d t.1) (Ends i d) (command_ret ios 0x07 3 2 0 r.1) _
                (command_ret-Keeps ios pid i d 0x07 3 2 0 r.1 kept) (λ t z. inr (refl, z)))
          | inr good ↦ rw (good) (rest r.1 kept)
        ])

  set_card_bus_width-Keeps :
      (n : ℕ) (s : Sd W) → IsFlags i d s → Keeps i d (set_card_bus_width ios n s)
  unfolding set_card_bus_width
  set_card_bus_width-Keeps n s h =
      bind-Returns (λ r. IsFlags i d r.1) (λ r. IsFlags i d r.1)
        (command_ret ios 0x37 3 1 (s.rca * 65536 % 2 ^ 32) s) _
        (command_ret-Keeps ios pid i d 0x37 3 1 (s.rca * 65536 % 2 ^ 32) s h)
        (λ r k. elim (Bool-cases (is_neg r.0)) [
          | inl bad ↦ rw (bad) k
          | inr good ↦
              rw (good) (command_ret-Keeps ios pid i d 0x06 3 1 (if n == 4 then 2 else 0) r.1 k)
        ])

  set_host_bus_width-Keeps :
      (n : ℕ) (s : Sd W) → IsFlags i d s → IsFlags i d (set_host_bus_width ios n s).1
  unfolding set_host_bus_width get_hcr set_hcr
  set_host_bus_width-Keeps n s h = elim (Bool-cases (is_neg (get_hcr ios 0x28 1 s).0)) [
    | inl bad ↦ rw (bad) h
    | inr good ↦ rw (good) h
  ]

  configure-Returns : (s : Sd W) → IsFlags i d s → Returns (Ends i d) (configure ios s)
  unfolding configure set_clock select set_block_length deselect
  configure-Returns =
      chain-Returns ios pid i d (Ends i d) (hc (set_host_bus_width ios 4)) _ (λ s h. inr (refl, h))
        (set_host_bus_width-Keeps 4)
        (chain-Returns ios pid i d (Ends i d) (hc (set_clock ios 1)) _ (λ s h. inr (refl, h))
          (λ s h. h)
          (chain-Returns ios pid i d (Ends i d) (select ios) _ (λ s h. inr (refl, h))
            (λ s h. command_ret-Keeps ios pid i d 0x07 3 2 _ s h)
            (or_deselect-Returns (set_block_length ios 512) _
              (λ s h. command_ret-Keeps ios pid i d 0x10 3 1 512 s h)
              (or_deselect-Returns (set_card_bus_width ios 4)
                (λ s. deselect ios s >>= λ t. done (true, record t.1 { initialized = 1 }))
                (set_card_bus_width-Keeps 4)
                (λ s h.
                  bind-Returns (λ t. IsFlags i d t.1) (Ends i d) (deselect ios s) _
                    (command_ret-Keeps ios pid i d 0x07 3 2 0 s h)
                    (λ t z. inl (refl, refl, z.1, z.2)))))))

  reset_card-IsFlags : (s : Sd W) → IsFlags i d s → IsFlags i d (reset_card ios s).1
  unfolding reset_card
  reset_card-IsFlags s h = elim (Bool-cases (is_neg (ios.ioctl s.fd 0x04 [] 4 s.world).ret)) [
    | inl bad ↦ rw (bad) h
    | inr good ↦ rw (good) h
  ]

  pub get_status-IsFlags : (s : Sd W) → IsFlags i d s → IsFlags i d (get_status ios s).1
  unfolding get_status
  get_status-IsFlags s h = h

  pub init_io-Returns : (s : Sd W) → IsFlags i d s → Returns (Ends i d) (init_io ios s)
  unfolding init_io
  init_io-Returns s h =
      let got = get_status ios (reset_card ios s).1 in
      let kept = get_status-IsFlags (reset_card ios s).1 (reset_card-IsFlags s h) in
      elim (Bool-cases (bit (u32_of got.0) 0)) [
        | inr absent ↦ rw (absent) (inr (refl, kept))
        | inl present ↦ elim (Bool-cases (bit (u32_of got.0) 16)) [
          | inl accepted ↦
              rw (present, accepted)
                (configure-Returns _
                  (kept.0, kept.1, sdhc_small ios pid i d (bit (u32_of got.0) 20)))
          | inr refused ↦
              rw (present, refused)
                (bind-Returns (λ r. IsFlags i d r.1) (Ends i d) (convince ios got.1)
                  (λ r. if r.0 then configure ios r.1 else done (false, fail_init ios r.1))
                  (convince-Keeps got.1 kept)
                  (λ r z. elim (Bool-cases r.0) [
                    | inl good ↦ rw (good) (configure-Returns r.1 z)
                    | inr bad ↦ rw (bad) (inr (refl, fail_init-IsFlags ios pid i d r.1 z))
                  ]))
        ]
      ]
