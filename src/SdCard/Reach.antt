-- ===== src/SdCard/Reach.antt =====
-- The calls of the class `SDCard` as steps from the initial statics, and what every sequence of
-- them leaves.
use ctgpr_msc.Base.{
  ℕ, ◌≤◌, ◌≡◌, refl, ◌⊎◌, inl, inr, arith, List, Bool, Bool-cases, true, false, ◌==◌, if◌then◌else◌,
}
use ctgpr_msc.Base.Int.{is_neg}
use ctgpr_msc.Base.Outcome.{done, Holds-value, Returns, bind-Returns, Returns-value, Returns-done}
use ctgpr_msc.SdCard.{Sdio, Sd, initial_sd, sd0_fs}
use ctgpr_msc.SdCard.Startup.{open_card, shutdown, startup, is_inserted, init_io}
use ctgpr_msc.SdCard.Sectors.{Moved, read_sectors, write_sectors}
use ctgpr_msc.SdCard.Flags.{IsFlags}
use ctgpr_msc.SdCard.Init.{Ends, init_io-Returns, get_status-IsFlags}
use ctgpr_msc.SdCard.Kept.{read_sectors-Keeps, write_sectors-Keeps}

-- A card that is initialised has been started, and it is of one kind or the other.
pub data Flags {W : Type 0} (s : Sd W) : Type 0 where
  idle : (d : ℕ) → d ≤ 1 → IsFlags 0 d s → Flags s
  running : IsFlags 1 1 s → Flags s

-- How `Startup` ends: with both flags set, or not initialised and with `__sdio_initialized` as it was.
abbrev pub Started : {W : Type 0} → ℕ → Bool × Sd W → Type 0
Started d r = ((r.0 ≡ true) × IsFlags 1 1 r.1) ⊎ ((r.0 ≡ false) × IsFlags 0 d r.1)

module _ {W : Type 0} (ios : Sdio W) where
  -- One call, from a state to the state it leaves.
  pub data Call : Sd W → Sd W → Type 0 where
    opens : (s : Sd W) → Call s (open_card ios s).1
    starts : (s : Sd W) (r : Bool × Sd W) → startup ios s ≡ done r → Call s r.1
    shuts : (s : Sd W) → Call s (shutdown s).1
    asks : (s : Sd W) → Call s (is_inserted ios s).1
    reads :
        (fuel sector num_sectors addr : ℕ) (bytes : List ℕ) (s : Sd W) (m : Moved W)
        → read_sectors ios fuel sector num_sectors addr bytes s ≡ done m
        → Call s m.sd
    writes :
        (fuel sector num_sectors addr : ℕ) (bytes : List ℕ) (s : Sd W) (m : Moved W)
        → write_sectors ios fuel sector num_sectors addr bytes s ≡ done m
        → Call s m.sd

  -- A state that calls lead to.
  pub data Reached (w : W) : Sd W → Type 0 where
    at_first : Reached w (initial_sd w)
    then_call : (s t : Sd W) → Reached w s → Call s t → Reached w t

module _ {W : Type 0} (ios : Sdio W) (pid : (w : W) → ios.process_id w ≡ 0) where
  restart-Returns : (d : ℕ) (s : Sd W) → IsFlags 0 d s → Returns (Ends 0 d) (init_io ios s)
  restart-Returns d s h = init_io-Returns ios pid 0 d s h

  startup-Returns : (s : Sd W) → Flags s → Returns (Started s.sdio_initialized) (startup ios s)
  unfolding startup shutdown
  startup-Returns s h =
      bind-Returns (Ends 0 s.sdio_initialized) (Started s.sdio_initialized)
        (init_io ios (if s.sdio_initialized == 1 then (shutdown s).1 else s)) _ (started s h)
        (λ r ends. elim ends [
          | inl (good, init, sdio, kind) ↦ simp (good) (inl (refl, (init, refl, kind)))
          | inr (bad, kept) ↦ simp (bad) (inr (refl, kept))
        ])
    where
      started :
          (s : Sd W)
          → Flags s
          → Returns
              (Ends 0 s.sdio_initialized)
              (init_io ios (if s.sdio_initialized == 1 then (shutdown s).1 else s))
      started s (idle d small h) =
          let stopped : (s.initialized == 0) ≡ true = ground (arith, h.0) in
          elim (Bool-cases (s.sdio_initialized == 1)) [
            | inl again ↦
                rw (again, stopped) (restart-Returns s.sdio_initialized s (h.0, refl, h.2))
            | inr first ↦ rw (first) (restart-Returns s.sdio_initialized s (h.0, refl, h.2))
          ]
      started s (running h) =
          let again : (s.sdio_initialized == 1) ≡ true = ground (arith, h.1) in
          let active : (s.initialized == 0) ≡ false = ground (arith, h.0) in
          rw (again, active)
            (restart-Returns s.sdio_initialized (record s { initialized = 0 }) (refl, refl, h.2))

  -- Called from process 0 with the flags that calls leave, `Startup` returns. Either it succeeds and
  -- leaves both flags set, or it fails and leaves the card not initialised, and then
  -- `__sdio_initialized` is what it was before.
  pub startup_lem :
      (s : Sd W)
      → Flags s
      → (r : Bool × Sd W) × (startup ios s ≡ done r) × Started s.sdio_initialized r
  startup_lem s h = Returns-done (Started s.sdio_initialized) (startup ios s) (startup-Returns s h)

  shutdown-Flags : (s : Sd W) → Flags s → Flags (shutdown s).1
  unfolding shutdown
  shutdown-Flags s (idle d small h) =
      let stopped : (s.initialized == 0) ≡ true = ground (arith, h.0) in
      rw (stopped) (idle d small h)
  shutdown-Flags s (running h) =
      let active : (s.initialized == 0) ≡ false = ground (arith, h.0) in
      rw (active) (idle 1 (omega arith) (refl, h.1, h.2))

  same-Flags : (s t : Sd W) → ((i d : ℕ) → IsFlags i d s → IsFlags i d t) → Flags s → Flags t
  same-Flags s t keep (idle d small h) = idle d small (keep 0 d h)
  same-Flags s t keep (running h) = running (keep 1 1 h)

  startup-Flags : (s : Sd W) (r : Bool × Sd W) → startup ios s ≡ done r → Flags s → Flags r.1
  startup-Flags s r e h =
      elim (Returns-value (Started s.sdio_initialized) (startup ios s) r (startup-Returns s h) e) [
        | inl (good, flags) ↦ running flags
        | inr (bad, flags) ↦ idle s.sdio_initialized (small s h) flags
      ]
    where
      small : (s : Sd W) → Flags s → s.sdio_initialized ≤ 1
      small s (idle d le h) = omega (arith, h.1)
      small s (running h) = omega (arith, h.1)

  open_card-IsFlags : (i d : ℕ) (s : Sd W) → IsFlags i d s → IsFlags i d (open_card ios s).1
  unfolding open_card
  open_card-IsFlags i d s h = elim (Bool-cases (is_neg (ios.ios_open sd0_fs 1 s.world).0)) [
    | inl bad ↦ rw (bad) h
    | inr good ↦ rw (good) h
  ]

  is_inserted-IsFlags : (i d : ℕ) (s : Sd W) → IsFlags i d s → IsFlags i d (is_inserted ios s).1
  unfolding is_inserted
  is_inserted-IsFlags i d s h = get_status-IsFlags ios pid i d s h

  -- Whatever calls are made, in whatever order and with whatever results, from the initial statics on:
  -- the card is either not initialised, or it is initialised and `__sdio_initialized` is set, and
  -- its kind is 0 or 1.
  pub reached_lem : (w : W) (s : Sd W) → Reached ios w s → Flags s
  reached_lem w s at_first = idle 0 (omega arith) (refl, refl, omega arith)
  reached_lem w u (then_call s t before call) = after s t call (reached_lem w s before)
    where
      after : (s t : Sd W) → Call ios s t → Flags s → Flags t
      after s t (opens q) = same-Flags s _ (λ i d. open_card-IsFlags i d s)
      after s t (starts q r e) = startup-Flags s r e
      after s t (shuts q) = shutdown-Flags s
      after s t (asks q) = same-Flags s _ (λ i d. is_inserted-IsFlags i d s)
      after s t (reads fuel sector n addr bytes q m e) = same-Flags s m.sd (λ i d h.
          Holds-value (λ m. IsFlags i d m.sd) (read_sectors ios fuel sector n addr bytes s) m
            (read_sectors-Keeps ios i d fuel sector n addr bytes s h) e)
      after s t (writes fuel sector n addr bytes q m e) = same-Flags s m.sd (λ i d h.
          Holds-value (λ m. IsFlags i d m.sd) (write_sectors ios fuel sector n addr bytes s) m
            (write_sectors-Keeps ios i d fuel sector n addr bytes s h) e)
