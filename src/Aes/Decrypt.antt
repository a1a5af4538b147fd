-- ===== src/Aes/Decrypt.antt =====
-- `AES::Decrypt` against an engine that chains, and against one that fails.
use ctgpr_msc.Base.{
  ℕ, zero, suc, ◌*◌, ◌≤◌, ◌<◌, ◌≡◌, refl, ap, ◌∙◌, List, [], ◌++◌, append_assoc, false, inl, inr,
  ◌⊎◌, arith, ltb, ltb→lt, ltb→le, lt→ltb, le→ltb, Bool-cases, length, take, drop, length-take,
  length-drop, take-append-drop, take-length, drop-length,
}
use ctgpr_msc.Base.Int.{pos, eq_ℤ}
use ctgpr_msc.Base.Outcome.{done, stuck}
use ctgpr_msc.Aes.{Reply, Engine, max_input_size, decrypt_loop, decrypt}
use ctgpr_msc.Aes.Cbc.{cbc, cbc-append, last_block, last_block-append, IsBlocks, IsCbc}

module _ {W : Type 0} (engine : Engine W) (key : List ℕ) where
  -- Input below the limit is one call of the engine.
  pub decrypt_small :
      (fuel : ℕ) (w : W) (iv xs : List ℕ)
      → length xs < max_input_size
      → decrypt engine key fuel w iv xs ≡ done (engine.decrypt w key iv xs)
  unfolding decrypt
  decrypt_small fuel w iv xs h = rw (lt→ltb (length xs) max_input_size h)

  -- Once the input is used up and the last code is OK, the loop ends.
  decrypt_loop_end :
      (fuel : ℕ) (r : Reply W) → r.ret ≡ pos 0 → decrypt_loop engine key (suc fuel) r [] ≡ done r
  unfolding decrypt_loop
  decrypt_loop_end fuel r h = rw h

  -- What one round makes of the last reply.
  after_round : Reply W → List ℕ → Reply W
  after_round r xs =
      let next = engine.decrypt r.world key r.iv (take max_input_size xs) in
      record next { output = r.output ++ next.output }

  decrypt_loop_round :
      (fuel : ℕ) (r : Reply W) (xs : List ℕ)
      → (0 < length xs) ⊎ (eq_ℤ r.ret (pos 0) ≡ false)
      → decrypt_loop engine key (suc fuel) r xs
        ≡ decrypt_loop engine key fuel (after_round r xs) (drop max_input_size xs)
  unfolding decrypt_loop after_round
  decrypt_loop_round fuel r xs (inl more) = rw (lt→ltb 0 (length xs) more, decrypt_loop)
  decrypt_loop_round fuel r xs (inr failed) = elim (Bool-cases (ltb 0 (length xs))) [
    | inl h ↦ rw (h, decrypt_loop)
    | inr h ↦ rw (h, failed, decrypt_loop)
  ]

  module _ (block : List ℕ → List ℕ) (law : IsCbc engine key block) where
    abbrev deciphered : Reply W → List ℕ → Reply W
    deciphered r xs = record {
      ret = pos 0;
      output = r.output ++ cbc block r.iv xs;
      iv = last_block xs;
      world = r.world;
    }

    deciphered-append :
        (r : Reply W) (xs ys : List ℕ)
        → IsBlocks xs
        → IsBlocks ys
        → deciphered (deciphered r xs) ys ≡ deciphered r (xs ++ ys)
    deciphered-append r xs ys hx hy = rw (
      cbc-append block r.iv xs ys hx,
      last_block-append xs ys hy,
      append_assoc r.output (cbc block r.iv xs) (cbc block (last_block xs) ys),
    )

    after_round_cbc :
        (r : Reply W) (xs : List ℕ)
        → IsBlocks (take max_input_size xs)
        → after_round r xs ≡ deciphered r (take max_input_size xs)
    unfolding after_round
    after_round_cbc r xs h = rw (law.deciphers r.world r.iv (take max_input_size xs) h)

    decrypt_loop_cbc :
        (fuel : ℕ) (r : Reply W) (xs : List ℕ)
        → IsBlocks xs
        → length xs ≤ max_input_size * fuel
        → decrypt_loop engine key (suc fuel) r xs ≡ done (deciphered r xs)
    decrypt_loop_cbc zero r xs hx hf = absurd (omega arith)
    decrypt_loop_cbc (suc fuel) r xs hx hf = elim (Bool-cases (ltb max_input_size (length xs))) [
      | inl more ↦
          let front : IsBlocks (take max_input_size xs) =
            omega (arith, ltb→lt max_input_size (length xs) more, length-take max_input_size xs) in
          let back : IsBlocks (drop max_input_size xs) =
            omega (arith, ltb→lt max_input_size (length xs) more, length-drop max_input_size xs) in
          rw (decrypt_loop_round (suc fuel) r xs (inl hx.0), after_round_cbc r xs front)
            (decrypt_loop_cbc fuel (deciphered r (take max_input_size xs)) (drop max_input_size xs)
                back (omega (arith, length-drop max_input_size xs))
              ∙ ap done (
                  deciphered-append r (take max_input_size xs) (drop max_input_size xs) front back
                  ∙ ap (deciphered r) (take-append-drop max_input_size xs)))
      | inr last ↦
          let whole : take max_input_size xs ≡ xs =
            take-length max_input_size xs (ltb→le max_input_size (length xs) last) in
          rw
            (
              decrypt_loop_round (suc fuel) r xs (inl hx.0),
              after_round_cbc r xs (rw whole hx),
              drop-length max_input_size xs (ltb→le max_input_size (length xs) last),
              whole,
            )
            (decrypt_loop_end fuel _ refl)
    ]

    -- With an engine that chains, `AES::Decrypt` returns: OK, the whole input deciphered as one call
    -- would, however it was cut, and the last block as the IV. The rounds needed are the input's
    -- length over the limit of one call, and one more.
    pub decrypt-cbc :
        (fuel : ℕ) (w : W) (iv xs : List ℕ)
        → IsBlocks xs
        → length xs ≤ max_input_size * fuel
        → decrypt engine key (suc fuel) w iv xs
          ≡ done (record { ret = pos 0; output = cbc block iv xs; iv = last_block xs; world = w })
    unfolding decrypt
    decrypt-cbc fuel w iv xs hx hf = elim (Bool-cases (ltb (length xs) max_input_size)) [
      | inl small ↦ rw (small, law.deciphers w iv xs hx)
      | inr large ↦ rw large (decrypt_loop_cbc fuel _ xs hx hf)
    ]

  -- An engine that fails at every call.
  abbrev pub IsDead : Type 0
  IsDead = (w : W) (iv xs : List ℕ) → eq_ℤ (engine.decrypt w key iv xs).ret (pos 0) ≡ false

  decrypt_loop_dead :
      IsDead
      → (fuel : ℕ) (r : Reply W) (xs : List ℕ) → (0 < length xs) ⊎ (eq_ℤ r.ret (pos 0) ≡ false)
      → decrypt_loop engine key fuel r xs ≡ stuck
  unfolding decrypt_loop after_round
  decrypt_loop_dead dead zero r xs h = refl
  decrypt_loop_dead dead (suc fuel) r xs h =
      decrypt_loop_round fuel r xs h
      ∙ decrypt_loop_dead dead fuel (after_round r xs) (drop max_input_size xs)
          (inr (dead r.world r.iv (take max_input_size xs)))

  -- On an engine that fails at every call, `AES::Decrypt` of 0x10000 bytes or more never returns,
  -- however many rounds it is given: its loop goes on while the last code is an error.
  pub decrypt_hangs :
      IsDead
      → (fuel : ℕ) (w : W) (iv xs : List ℕ) → max_input_size ≤ length xs
      → decrypt engine key fuel w iv xs ≡ stuck
  unfolding decrypt
  decrypt_hangs dead fuel w iv xs h =
      rw (le→ltb (length xs) max_input_size h)
        (decrypt_loop_dead dead fuel _ xs (inl (omega arith)))
