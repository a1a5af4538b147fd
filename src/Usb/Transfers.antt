-- ===== src/Usb/Transfers.antt =====
-- The transfers of USB.cpp that end well.
use ctgpr_msc.Base.{
  ◌↔◌, ℕ, ◌+◌, ◌%◌, ◌≡◌, ◌≢◌, refl, sym, ap, ◌∙◌, ◌⊎◌, inl, inr, arith, List, Bool-cases, false,
  ◌==◌, if◌then◌else◌,
}
use ctgpr_msc.Base.Int.{ℤ, pos, negsuc}
use ctgpr_msc.Base.Words.{bit}
use ctgpr_msc.Usb.{
  UsbManager, Transferred, Vector, Input, usb_ok, usb_invalid, is_bad_buffer, result_of, ctrl_msg,
  intr_bulk_msg, message_of, bulk_transfer,
}

-- A buffer that a transfer takes is aligned, and null exactly where it has no bytes.
good_buffer :
    (addr length : ℕ)
    → is_bad_buffer addr length ≡ false
    → (addr % 32 ≡ 0) × ((length ≡ 0) ↔ (addr ≡ 0))
unfolding is_bad_buffer
good_buffer addr length fits = (ground arith, (λ e. ground arith, λ e. ground arith))

-- Only the whole count is success.
result_of-cases : (whole : ℕ) (ret : ℤ) → (result_of whole ret ≢ usb_ok) ⊎ (ret ≡ pos whole)
unfolding result_of
result_of-cases whole (pos n) = elim (Bool-cases (n == whole)) [
  | inl same ↦ inr (ap pos (ground arith))
  | inr other ↦ rw (other) (inl (λ e. cc (e)))
]
result_of-cases whole (negsuc n) = inl (λ e. cc (e))

invalid_ne : usb_invalid ≢ usb_ok
invalid_ne = λ e. cc (e)

module _ {W : Type 0} (ven : UsbManager W) where
  -- The request of a control transfer and of another transfer, as the manager answers it.
  abbrev pub ctrl_answer : ℕ → ℕ → ℕ → ℕ → ℕ → ℕ → ℕ → List ℕ → W → Transferred W
  ctrl_answer dev_id request_type request value index length addr bytes w =
      ven.ioctlv 18 (Input.ctrl dev_id request_type request value index length addr)
        (if bit request_type 7 then Vector.output else Vector.second_input) bytes w

  abbrev pub bulk_answer : ℕ → ℕ → ℕ → ℕ → ℕ → List ℕ → W → Transferred W
  bulk_answer dev_id ioctl endpoint length addr bytes w =
      ven.ioctlv ioctl (message_of ioctl dev_id endpoint length addr)
        (if bit endpoint 7 then Vector.second_input else Vector.output) bytes w

  -- A transfer that was made: from an aligned buffer, with the null pointer exactly where it has no
  -- bytes, answered with `whole`, and with the bytes and the world of that answer.
  abbrev pub IsMade : ℕ → ℕ → ℕ → Transferred W → Transferred W → Type 0
  IsMade addr length whole answered r =
      (addr % 32 ≡ 0)
      × ((length ≡ 0) ↔ (addr ≡ 0))
      × (answered.ret ≡ pos whole)
      × (r.bytes ≡ answered.bytes)
      × (r.world ≡ answered.world)

  answered-IsMade :
      (addr length whole : ℕ) (answered refusal : Transferred W)
      → refusal.ret ≡ usb_invalid
      → let r =
          if is_bad_buffer addr length
          then refusal
          else record answered { ret = result_of whole answered.ret } in
        r.ret ≡ usb_ok → IsMade addr length whole answered r
  answered-IsMade addr length whole answered refusal bad =
      elim (Bool-cases (is_bad_buffer addr length)) [
        | inl unfit ↦ rw (unfit) (λ e. absurd (invalid_ne (sym bad ∙ e)))
        | inr fits ↦
            let (even, null) = good_buffer addr length fits in
            rw (fits) (elim (result_of-cases whole answered.ret) [
              | inl failed ↦ λ e. absurd (failed e)
              | inr moved ↦ λ e. (even, null, moved, refl, refl)
            ])
      ]

  -- A control transfer that returns OK moved all of its bytes: the manager answered with their number
  -- and eight more, and they came from, or went to, an aligned buffer.
  pub ctrl_msg-ok :
      (dev_id request_type request value index length addr : ℕ) (bytes : List ℕ) (w : W)
      → let r = ctrl_msg ven dev_id request_type request value index length addr bytes w in
        r.ret ≡ usb_ok
        → IsMade addr length
            (length + 8)
            (ctrl_answer dev_id request_type request value index length addr bytes w)
            r
  unfolding ctrl_msg
  ctrl_msg-ok dev_id request_type request value index length addr bytes w =
      answered-IsMade addr length (length + 8)
        (ctrl_answer dev_id request_type request value index length addr bytes w)
        (record { ret = usb_invalid; bytes = bytes; world = w }) refl

  -- A bulk transfer that returns OK moved all of its bytes, as the manager's answer gave them: the
  -- manager answered with their number, their buffer is aligned, and it is the null pointer exactly
  -- where there are none. Bytes and world are those of that answer.
  pub bulk_msg-ok :
      (dev_id endpoint length addr : ℕ) (bytes : List ℕ) (w : W)
      → let r = intr_bulk_msg ven dev_id bulk_transfer endpoint length addr bytes w in
        r.ret ≡ usb_ok
        → IsMade addr length length
            (bulk_answer dev_id bulk_transfer endpoint length addr bytes w)
            r
  unfolding intr_bulk_msg
  bulk_msg-ok dev_id endpoint length addr bytes w =
      answered-IsMade addr length length
        (bulk_answer dev_id bulk_transfer endpoint length addr bytes w)
        (record { ret = usb_invalid; bytes = bytes; world = w }) refl
