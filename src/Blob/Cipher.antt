-- ===== src/Blob/Cipher.antt =====
-- `BlobDecrypt`: deciphering 8 sectors at a time, the IV carried along, is deciphering all at once.
use ctgpr_msc.Base.{
  ℕ, zero, suc, ◌+◌, ◌-◌, ◌*◌, ◌%◌, ◌≤◌, ◌<◌, ◌≡◌, refl, ap, ◌∙◌, List, ◌++◌, append_assoc, inl,
  inr, arith, ltb, ltb→lt, ltb→le, lt→ltb, le→leb, lt→leb, Bool-cases, length, take, drop,
  length-take, length-drop, take_add, take-append, drop-append, drop-drop,
}
use ctgpr_msc.Base.Outcome.{done, ◌>>=◌}
use ctgpr_msc.Aes.{Engine, max_input_size}
use ctgpr_msc.Aes.Cbc.{
  cbc, cbc-append, last_block, last_block-append, length-cbc, length-last_block, IsBlocks, IsCbc,
  KeepsBlocks,
}
use ctgpr_msc.Aes.Decrypt.{decrypt_small}
use ctgpr_msc.Blob.{Deciphered, blob_key, decrypt_chunk, blob_decrypt}

-- With no sector left, `BlobDecrypt` does nothing.
pub blob_decrypt_none :
    {W : Type 0} (engine : Engine W) (fuel : ℕ) (w : W) (bytes iv : List ℕ)
    → blob_decrypt engine (suc fuel) w bytes iv 0
      ≡ done (record { bytes = bytes; iv = iv; world = w })
unfolding blob_decrypt
blob_decrypt_none engine fuel w bytes iv = refl

module _ {W : Type 0} (engine : Engine W) (block : List ℕ → List ℕ)
    (law : IsCbc engine blob_key block) (keeps : KeepsBlocks block) where
  -- The first `n` bytes of a buffer deciphered in place.
  abbrev pub in_place : W → List ℕ → List ℕ → ℕ → Deciphered W
  in_place w bytes iv n = record {
    bytes = cbc block iv (take n bytes) ++ drop n bytes;
    iv = last_block (take n bytes);
    world = w;
  }

  decrypt_chunk_lem :
      (w : W) (bytes iv : List ℕ) (n : ℕ)
      → (0 < n) × (n % 16 ≡ 0) × (n < max_input_size)
      → n ≤ length bytes
      → decrypt_chunk engine w bytes iv n ≡ done (in_place w bytes iv n)
  unfolding decrypt_chunk
  decrypt_chunk_lem w bytes iv n hn h =
      let whole : length (take n bytes) ≡ n = omega (arith, length-take n bytes) in
      rw
        (
          le→leb n (length bytes) h,
          decrypt_small engine blob_key 1 w iv (take n bytes) (omega arith),
        )
        (rw (law.deciphers w iv (take n bytes) (omega arith)))

  length-deciphered :
      (iv bytes : List ℕ) (n : ℕ)
      → length iv ≡ 16
      → n % 16 ≡ 0
      → n ≤ length bytes
      → length (cbc block iv (take n bytes)) ≡ n
  length-deciphered iv bytes n hi hn h = omega (
    arith,
    length-cbc block iv (take n bytes) keeps hi (omega (arith, length-take n bytes)),
    length-take n bytes,
  )

  -- One round of the loop on 8 sectors or more.
  blob_decrypt_round :
      (fuel : ℕ) (w : W) (bytes iv : List ℕ) (count : ℕ)
      → length iv ≡ 16
      → 8 ≤ count
      → 512 * count ≤ length bytes
      → blob_decrypt engine (suc fuel) w bytes iv count ≡ (
          blob_decrypt engine fuel w (drop 4096 bytes) (last_block (take 4096 bytes)) (count - 8)
          >>= λ rest. done (record rest { bytes = cbc block iv (take 4096 bytes) ++ rest.bytes }))
  unfolding blob_decrypt
  blob_decrypt_round fuel w bytes iv count hi h8 h =
      let front = length-deciphered iv bytes 4096 hi refl (omega arith) in
      rw (lt→ltb 0 count (omega arith), blob_decrypt)
        (rw (le→leb 8 count h8, blob_decrypt)
          (rw (decrypt_chunk_lem w bytes iv 4096 (omega arith) (omega arith)) (
            rw (
              take-append 4096 (cbc block iv (take 4096 bytes)) (drop 4096 bytes) front,
              drop-append 4096 (cbc block iv (take 4096 bytes)) (drop 4096 bytes) front,
            ))))

  -- Two runs in place, one after the other, are one.
  in_place_add :
      (w : W) (bytes iv : List ℕ) (m n k : ℕ)
      → (0 < m) × (m % 16 ≡ 0) × (0 < n) × (n % 16 ≡ 0)
      → m + n ≡ k
      → k ≤ length bytes
      → record (in_place w (drop m bytes) (last_block (take m bytes)) n) {
        bytes =
            cbc block iv (take m bytes)
            ++ (in_place w (drop m bytes) (last_block (take m bytes)) n).bytes;
      }
        ≡ in_place w bytes iv k
  in_place_add w bytes iv m n k hn e h =
      let front : IsBlocks (take m bytes) = omega (arith, length-take m bytes) in
      let back : IsBlocks (take n (drop m bytes)) =
        omega (arith, length-take n (drop m bytes), length-drop m bytes) in
      rw
        (
          ← take_add m n k bytes e,
          cbc-append block iv (take m bytes) (take n (drop m bytes)) front,
          last_block-append (take m bytes) (take n (drop m bytes)) back,
          drop-drop n m k bytes e,
        )
        (rw (append_assoc (cbc block iv (take m bytes))))

  blob_decrypt_last :
      (fuel : ℕ) (w : W) (bytes iv : List ℕ) (count : ℕ)
      → 0 < count
      → count < 8
      → 512 * count ≤ length bytes
      → blob_decrypt engine (suc fuel) w bytes iv count ≡ done (in_place w bytes iv (512 * count))
  unfolding blob_decrypt
  blob_decrypt_last fuel w bytes iv count h0 h8 h =
      let size : count * 512 ≡ 512 * count = omega arith in
      rw (lt→ltb 0 count h0, blob_decrypt)
        (rw (lt→leb 8 count h8, blob_decrypt)
          (rw size (decrypt_chunk_lem w bytes iv (512 * count) (omega arith) h)))

  -- With an engine that chains, `BlobDecrypt` returns, and has deciphered the first `count` sectors of
  -- the buffer in place as one chain, left the rest as it was, and left the last ciphertext block as
  -- the IV. A round takes 8 sectors, so the tests needed are `count / 8 + 1`.
  pub blob_decrypt_lem :
      (fuel : ℕ) (w : W) (bytes iv : List ℕ) (count : ℕ)
      → length iv ≡ 16
      → 0 < count
      → count < 8 * fuel
      → 512 * count ≤ length bytes
      → blob_decrypt engine fuel w bytes iv count ≡ done (in_place w bytes iv (512 * count))
  blob_decrypt_lem zero w bytes iv count hi h0 hf h = absurd (omega arith)
  blob_decrypt_lem (suc fuel) w bytes iv count hi h0 hf h = elim (Bool-cases (ltb count 8)) [
    | inl few ↦ blob_decrypt_last fuel w bytes iv count h0 (ltb→lt count 8 few) h
    | inr many ↦
        let h8 = ltb→le count 8 many in
        let iv_is = length-last_block (take 4096 bytes) (omega (arith, length-take 4096 bytes)) in
        blob_decrypt_round fuel w bytes iv count hi h8 h ∙ elim (Bool-cases (ltb 8 count)) [
          | inl more ↦
              rw
                (blob_decrypt_lem fuel w (drop 4096 bytes) (last_block (take 4096 bytes))
                  (count - 8) iv_is (omega (arith, ltb→lt 8 count more)) (omega arith)
                  (omega (arith, length-drop 4096 bytes)))
                (ap done (
                  in_place_add w bytes iv 4096 (512 * (count - 8)) (512 * count)
                    (omega (arith, ltb→lt 8 count more)) (omega arith) h))
          | inr last ↦
              let none_left : count - 8 ≡ 0 = omega (arith, ltb→le 8 count last) in
              let size : 512 * count ≡ 4096 = omega (arith, ltb→le 8 count last) in
              let left : fuel ≡ suc (fuel - 1) = omega (arith, ltb→le 8 count last) in
              rw (
                none_left,
                left,
                size,
                blob_decrypt_none engine (fuel - 1) w (drop 4096 bytes)
                    (last_block (take 4096 bytes)),
              )
        ]
  ]
