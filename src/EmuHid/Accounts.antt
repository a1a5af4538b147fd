-- ===== src/EmuHid/Accounts.antt =====
-- What becomes of the requests to EmuHID.cpp: a count of answers for each.
use ctgpr_msc.Base.{
  ℕ, zero, suc, ◌+◌, ◌*◌, ◌≤◌, ◌≡◌, refl, ap, ◌∙◌, arith, List, [], ◌∷◌, Bool-cases, inl, inr,
  le→leb, ◌==◌, if◌then◌else◌, Option, none, some, Option-cases, length,
}
use ctgpr_msc.Base.Int.{ℤ, pos, negsuc, is_neg, pos_part}
use ctgpr_msc.Base.Outcome.{Outcome, done, Returns, bind-Returns}
use ctgpr_msc.EmuHid.{
  HidManager, Command, Message, Parked, Answer, Hid, entry_size, answer, get_device_change,
  flush_pending, deliver, each_device, attach_all, handle_change, handle_ioctl, handle_request,
  handle_reload,
}

-- 1 for the same request.
unfoldable pub same : ℕ → ℕ → ℕ
same x id = if x == id then 1 else 0

-- How often a request has been answered.
unfoldable pub answered : ℕ → List Answer → ℕ
answered x [] = 0
answered x (a ∷ rest) = same x a.id + answered x rest

-- 1 where it is parked.
unfoldable pub parked : ℕ → Option Parked → ℕ
parked x none = 0
parked x (some p) = same x p.id

-- 1 where a message is the request.
unfoldable pub received : ℕ → Message → ℕ
received x (Message.request id c) = same x id
received x (Message.device_change result devices) = 0
received x Message.other_reply = 0
received x Message.reload = 0

module _ {W : Type 0} where
  -- How often it has been answered or is parked.
  unfoldable pub settled : ℕ → Hid W → ℕ
  settled x s = answered x s.answers + parked x s.pending

  -- 1 where a message drops the request: a second `GetDeviceChange` replaces the parked one.
  unfoldable pub overwritten : ℕ → Message → Hid W → ℕ
  overwritten x (Message.request id (Command.ioctl_cmd cmd input io_len)) s =
      if cmd == 1 then parked x s.pending else 0
  overwritten x (Message.request id Command.open_cmd) s = 0
  overwritten x (Message.request id Command.close_cmd) s = 0
  overwritten x (Message.request id Command.unknown_cmd) s = 0
  overwritten x (Message.request id (Command.ioctlv_cmd cmd vec)) s = 0
  overwritten x (Message.device_change result devices) s = 0
  overwritten x Message.other_reply s = 0
  overwritten x Message.reload s = 0

  -- The requests that a message settles: one more where it is the request, one less where it
  -- drops it.
  abbrev pub Settles : ℕ → Message → Hid W → Hid W → Type 0
  Settles x m s t = settled x t + overwritten x m s ≡ settled x s + received x m

  -- `s_devices` has the entries that are counted.
  abbrev pub IsCounted : Hid W → Type 0
  IsCounted s = entry_size * s.device_count ≤ length s.devices

  -- The statics but for the world.
  abbrev IsSame : Hid W → Hid W → Type 0
  IsSame s t =
      (t.pending ≡ s.pending)
      × (t.answers ≡ s.answers)
      × (t.devices ≡ s.devices)
      × (t.device_count ≡ s.device_count)

  flush_pending-settled : (x : ℕ) (s : Hid W) → settled x (flush_pending s) ≡ settled x s
  unfolding flush_pending settled parked answer answered
  flush_pending-settled x s = elim (Option-cases s.pending) [
    | inl nothing ↦ rw (nothing, flush_pending) (omega (arith, ap (parked x) nothing))
    | inr (p, waits) ↦ rw (waits, flush_pending) (omega arith)
  ]

  deliver-settled : (x : ℕ) (result : ℤ) (s : Hid W) → settled x (deliver result s) ≡ settled x s
  unfolding deliver settled parked answer answered
  deliver-settled x result s = elim (Option-cases s.pending) [
    | inl nothing ↦ rw (nothing, deliver) (omega (arith, ap (parked x) nothing))
    | inr (p, waits) ↦ rw (waits, deliver) (omega arith)
  ]

  deliver-IsCounted : (result : ℤ) (s : Hid W) → IsCounted s → IsCounted (deliver result s)
  unfolding deliver answer
  deliver-IsCounted result s h = elim (Option-cases s.pending) [
    | inl nothing ↦ rw (nothing, deliver) h
    | inr (p, waits) ↦ rw (waits, deliver) h
  ]

  pub flush_pending-IsCounted : (s : Hid W) → IsCounted s → IsCounted (flush_pending s)
  unfolding flush_pending answer
  flush_pending-IsCounted s h = elim (Option-cases s.pending) [
    | inl nothing ↦ rw (nothing, flush_pending) h
    | inr (p, waits) ↦ rw (waits, flush_pending) h
  ]

  flush_pending-devices : (s : Hid W) → (flush_pending s).devices ≡ s.devices
  unfolding flush_pending answer
  flush_pending-devices s = elim (Option-cases s.pending) [
    | inl nothing ↦ rw (nothing, flush_pending) refl
    | inr (p, waits) ↦ rw (waits, flush_pending) refl
  ]

module _ {W : Type 0} (hid : HidManager W) where
  pub handle_request-Settles :
      (x id : ℕ) (c : Command) (s : Hid W)
      → Settles x (Message.request id c) s (handle_request hid id c s)
  unfolding handle_request handle_ioctl settled answer answered overwritten received
      get_device_change parked
  handle_request-Settles x id Command.open_cmd s = omega arith
  handle_request-Settles x id Command.close_cmd s = omega arith
  handle_request-Settles x id Command.unknown_cmd s = omega arith
  handle_request-Settles x id (Command.ioctlv_cmd cmd vec) s = omega arith
  handle_request-Settles x id (Command.ioctl_cmd cmd input io_len) s =
      elim (Bool-cases (cmd == 1)) [
        | inl change ↦ elim (Bool-cases s.available) [
          | inl ready ↦ rw (change, ready) (omega arith)
          | inr waits ↦ rw (change, waits) (omega arith)
        ]
        | inr no_change ↦ elim (Bool-cases (cmd == 2)) [
          | inl stops ↦ rw (no_change, stops) (omega (arith, flush_pending-settled x s))
          | inr goes_on ↦ elim (Bool-cases (cmd == 6)) [
            | inl finish ↦ rw (no_change, goes_on, finish) (omega arith)
            | inr other ↦ rw (no_change, goes_on, other) (omega arith)
          ]
        ]
      ]

  each_device-IsSame :
      (cmd n i : ℕ) (s : Hid W)
      → entry_size * (i + n) ≤ length s.devices
      → Returns (IsSame s) (each_device hid cmd n i s)
  unfolding each_device
  each_device-IsSame cmd zero i s h = (refl, refl, refl, refl)
  each_device-IsSame cmd (suc n) i s h =
      rw (le→leb (entry_size * (i + 1)) (length s.devices) (omega arith))
        (each_device-IsSame cmd n (i + 1) _ (omega arith))

  IsSame-settled : (x : ℕ) (s t : Hid W) → IsSame s t → settled x t ≡ settled x s
  unfolding settled
  IsSame-settled x s t (p, a, d, c) = rw (p, a) refl

  -- What a message other than a request leaves.
  abbrev pub Keeps : ℕ → Hid W → Outcome (Hid W) → Type 0
  Keeps x s o = Returns (λ t. IsCounted t × (settled x t ≡ settled x s)) o

  same-IsCounted :
      (x : ℕ) (s t : Hid W) → IsCounted s → IsSame s t → IsCounted t × (settled x t ≡ settled x s)
  same-IsCounted x s t h kept =
      (omega (arith, h, ap length kept.2, kept.3), IsSame-settled x s t kept)

  attach_all-Keeps :
      (x n : ℕ) (s : Hid W) → entry_size * n ≤ length s.devices → Keeps x s (attach_all hid n s)
  unfolding attach_all settled
  attach_all-Keeps x n s fits =
      bind-Returns (IsSame (record s { device_count = n })) _
        (each_device hid 4 n 0 (record s { device_count = n })) _
        (each_device-IsSame 4 n 0 _ (omega arith))
        (λ t kept. same-IsCounted x (record s { device_count = n }) t fits kept)

  pub handle_change-Keeps :
      (x : ℕ) (result : ℤ) (devices : List ℕ) (s : Hid W)
      → entry_size * pos_part result ≤ length devices
      → Keeps x s (handle_change hid result devices s)
  unfolding handle_change settled
  handle_change-Keeps x result devices s fits =
      bind-Returns (λ t. IsCounted t × (settled x t ≡ settled x s))
        (λ t. IsCounted t × (settled x t ≡ settled x s)) _ (λ t. done (deliver result t))
        (first result fits)
        (λ t h. (deliver-IsCounted result t h.0, deliver-settled x result t ∙ h.1))
    where
      first :
          (result : ℤ)
          → entry_size * pos_part result ≤ length devices
          → Keeps x s (
              if is_neg result
              then done (record s { devices = devices; device_count = 0 })
              else attach_all hid (pos_part result) (record s { devices = devices }))
      first (pos n) h = attach_all-Keeps x n (record s { devices = devices }) h
      first (negsuc n) h = (omega arith, refl)

  pub handle_reload-Keeps : (x : ℕ) (s : Hid W) → IsCounted s → Keeps x s (handle_reload hid s)
  unfolding handle_reload settled
  handle_reload-Keeps x s h =
      bind-Returns (IsSame (flush_pending s)) _
        (each_device hid 16 s.device_count 0 (flush_pending s)) _
        (each_device-IsSame 16 s.device_count 0 (flush_pending s)
          (omega (arith, h, ap length (flush_pending-devices s))))
        (λ t kept.
          let r = same-IsCounted x (flush_pending s) t (flush_pending-IsCounted s h) kept in
          (r.0, r.1 ∙ flush_pending-settled x s))
