-- ===== src/EmuHid/Runs.antt =====
-- Runs of the thread of EmuHID.cpp: each request is answered once, waits, or was dropped.
use ctgpr_msc.Base.{
  ℕ, ◌+◌, ◌*◌, ◌≤◌, ◌≡◌, refl, arith, List, [], ◌∷◌, Bool-cases, inl, inr, ◌==◌, length,
}
use ctgpr_msc.Base.Int.{pos_part}
use ctgpr_msc.Base.Outcome.{done, fault, stuck, ◌>>=◌, Returns-done}
use ctgpr_msc.EmuHid.{
  HidManager, Command, Message, Hid, entry_size, get_device_change, handle_ioctl, handle_request,
  answer, handle_change, handle_reload, handle, run,
}
use ctgpr_msc.EmuHid.Accounts.{
  received, overwritten, settled, IsCounted, handle_request-Settles, handle_change-Keeps,
  handle_reload-Keeps, flush_pending-IsCounted,
}

-- A reply to `s_cbReq` comes with as many entries as it counts.
unfoldable pub Fits : List Message → Type 0
Fits [] = Unit
Fits (Message.device_change result devices ∷ ms) =
    (entry_size * pos_part result ≤ length devices) × Fits ms
Fits (Message.request id c ∷ ms) = Fits ms
Fits (Message.other_reply ∷ ms) = Fits ms
Fits (Message.reload ∷ ms) = Fits ms

-- How often a request comes in.
unfoldable pub arrivals : ℕ → List Message → ℕ
arrivals x [] = 0
arrivals x (m ∷ ms) = received x m + arrivals x ms

module _ {W : Type 0} (hid : HidManager W) where
  -- How often it is dropped, in a run from a state.
  unfoldable pub drops : ℕ → List Message → Hid W → ℕ
  drops x [] s = 0
  drops x (m ∷ ms) s =
      overwritten x m s + elim (handle hid m s) [ done t ↦ drops x ms t | fault ↦ 0 | stuck ↦ 0 ]

  handle_request-IsCounted :
      (id : ℕ) (c : Command) (s : Hid W) → IsCounted s → IsCounted (handle_request hid id c s)
  unfolding handle_request handle_ioctl get_device_change answer
  handle_request-IsCounted id Command.open_cmd s h = h
  handle_request-IsCounted id Command.close_cmd s h = h
  handle_request-IsCounted id Command.unknown_cmd s h = h
  handle_request-IsCounted id (Command.ioctlv_cmd cmd vec) s h = h
  handle_request-IsCounted id (Command.ioctl_cmd cmd input io_len) s h =
      elim (Bool-cases (cmd == 1)) [
        | inl change ↦ elim (Bool-cases s.available) [
          | inl ready ↦ rw (change, ready) h
          | inr waits ↦ rw (change, waits) h
        ]
        | inr no_change ↦ elim (Bool-cases (cmd == 2)) [
          | inl stops ↦ rw (no_change, stops) (flush_pending-IsCounted s h)
          | inr goes_on ↦ elim (Bool-cases (cmd == 6)) [
            | inl finish ↦ rw (no_change, goes_on, finish) h
            | inr other ↦ rw (no_change, goes_on, other) h
          ]
        ]
      ]

  -- A message and the run after it.
  then_run :
      (x : ℕ) (m : Message) (ms : List Message) (s u t : Hid W)
      → handle hid m s ≡ done u
      → settled x u + overwritten x m s ≡ settled x s + received x m
      → run hid ms u ≡ done t
      → settled x t + drops x ms u ≡ settled x u + arrivals x ms
      → (v : Hid W) × (run hid (m ∷ ms) s ≡ done v)
        × (settled x v + drops x (m ∷ ms) s ≡ settled x s + arrivals x (m ∷ ms))
  unfolding run drops arrivals
  then_run x m ms s u t first one rest many =
      (t, rw (first, ◌>>=◌) rest, rw (first) (omega (arith, one, many)))

  -- From a state in which `s_devices` has the entries that are counted, with replies that bring
  -- theirs, a run of any messages returns, and in it: the number of times that a request was
  -- answered or is parked, and the number of times that a second `GetDeviceChange` dropped it, add up to
  -- the number of times that it came in, and to what it was before.
  pub run_lem :
      (x : ℕ) (ms : List Message) (s : Hid W)
      → Fits ms
      → IsCounted s
      → (t : Hid W) × (run hid ms s ≡ done t)
        × (settled x t + drops x ms s ≡ settled x s + arrivals x ms)
  unfolding run Fits arrivals drops handle overwritten received
  run_lem x [] s fits h = (s, refl, omega arith)
  run_lem x (Message.other_reply ∷ ms) s fits h =
      let (t, e, count) = run_lem x ms s fits h in
      then_run x Message.other_reply ms s s t refl refl e count
  run_lem x (Message.request id c ∷ ms) s fits h =
      let u = handle_request hid id c s in
      let (t, e, count) = run_lem x ms u fits (handle_request-IsCounted id c s h) in
      then_run x (Message.request id c) ms s u t refl (handle_request-Settles hid x id c s) e count
  run_lem x (Message.device_change result devices ∷ ms) s fits h =
      let (u, e1, kept) =
        Returns-done (λ t. IsCounted t × (settled x t ≡ settled x s))
          (handle_change hid result devices s)
          (handle_change-Keeps hid x result devices s fits.0) in
      let (t, e, count) = run_lem x ms u fits.1 kept.0 in
      then_run x (Message.device_change result devices) ms s u t e1 (omega (arith, kept.1)) e count
  run_lem x (Message.reload ∷ ms) s fits h =
      let (u, e1, kept) =
        Returns-done (λ t. IsCounted t × (settled x t ≡ settled x s)) (handle_reload hid s)
          (handle_reload-Keeps hid x s h) in
      let (t, e, count) = run_lem x ms u fits kept.0 in
      then_run x Message.reload ms s u t e1 (omega (arith, kept.1)) e count
