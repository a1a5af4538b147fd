-- ===== src/EmuEs/Swap.antt =====
-- The stub of the channel in EmuES.cpp: what `AddContentFinish` sends in its place.
use ctgpr_msc.Base.{
  ℕ, zero, suc, ◌+◌, ◌*◌, ◌/◌, ◌%◌, ◌≤◌, ◌≡◌, refl, sym, ap, ◌∙◌, inl, inr, arith, List, [], ◌∷◌,
  ◌++◌, append_assoc, append-nil, Bool-cases, true, false, ltb, ltb→lt, ltb→le, none, length, take,
  drop, length-append, length-take, length-drop, take-append-drop, take-append_le, drop-append_le,
}
use ctgpr_msc.Base.Int.{ℤ, pos, negsuc}
use ctgpr_msc.Base.Outcome.{done, ◌>>=◌}
use ctgpr_msc.Aes.{Engine, encrypt}
use ctgpr_msc.Aes.Cbc.{xor_bytes, IsBlocks}
use ctgpr_msc.EmuEs.{
  EsManager, Es, Ioctlv, vec_at, is_misfit, is_miscounted, es_ok, stub_iv, write_size, cfd_of,
  is_stub_cfd,
}
use ctgpr_msc.EmuEs.Titles.{finished, forward, swap_loop, finish_stub, add_content_finish}

module _ (block : List ℕ → List ℕ) where
  -- `n` blocks of 16 bytes, each combined with the block of the output before it and enciphered; and
  -- the last block of that output.
  unfoldable pub cbc_encrypt_blocks : ℕ → List ℕ → List ℕ → List ℕ
  cbc_encrypt_blocks zero iv xs = []
  cbc_encrypt_blocks (suc n) iv xs =
      block (xor_bytes (take 16 xs) iv)
      ++ cbc_encrypt_blocks n (block (xor_bytes (take 16 xs) iv)) (drop 16 xs)

  unfoldable pub chained_iv : ℕ → List ℕ → List ℕ → List ℕ
  chained_iv zero iv xs = iv
  chained_iv (suc n) iv xs = chained_iv n (block (xor_bytes (take 16 xs) iv)) (drop 16 xs)

  unfoldable pub cbc_encrypt : List ℕ → List ℕ → List ℕ
  cbc_encrypt iv xs = cbc_encrypt_blocks (length xs / 16) iv xs

  cbc_encrypt_blocks_add :
      (n m k : ℕ) (iv xs ys : List ℕ)
      → n + m ≡ k
      → length xs ≡ 16 * n
      → cbc_encrypt_blocks k iv (xs ++ ys)
        ≡ cbc_encrypt_blocks n iv xs ++ cbc_encrypt_blocks m (chained_iv n iv xs) ys
  unfolding cbc_encrypt_blocks chained_iv
  cbc_encrypt_blocks_add zero m k iv [] ys e h = ap (λ j. cbc_encrypt_blocks j iv ys) (omega arith)
  cbc_encrypt_blocks_add zero m k iv (x ∷ xs) ys e h = absurd (omega arith)
  cbc_encrypt_blocks_add (suc n) m zero iv xs ys e h = absurd (omega arith)
  cbc_encrypt_blocks_add (suc n) m (suc k) iv xs ys e h =
      let c = block (xor_bytes (take 16 xs) iv) in
      rw
        (
          take-append_le 16 xs ys (omega arith),
          drop-append_le 16 xs ys (omega arith),
          cbc_encrypt_blocks_add n m k c (drop 16 xs) ys (omega arith)
              (omega (arith, length-drop 16 xs)),
        )
        (sym (append_assoc c (cbc_encrypt_blocks n c (drop 16 xs)) _))

  cbc_encrypt-append :
      (iv xs ys : List ℕ)
      → length xs % 16 ≡ 0
      → cbc_encrypt iv (xs ++ ys)
        ≡ cbc_encrypt iv xs ++ cbc_encrypt (chained_iv (length xs / 16) iv xs) ys
  unfolding cbc_encrypt
  cbc_encrypt-append iv xs ys h =
      cbc_encrypt_blocks_add (length xs / 16) (length ys / 16) (length (xs ++ ys) / 16) iv xs ys
        (omega (arith, length-append xs ys)) (omega arith)

cbc_encrypt-nil :
    (block : List ℕ → List ℕ) (iv xs : List ℕ) → length xs ≡ 0 → cbc_encrypt block iv xs ≡ []
unfolding cbc_encrypt cbc_encrypt_blocks
cbc_encrypt-nil block iv xs h =
    let none_left : length xs / 16 ≡ 0 = omega arith in
    ap (λ k. cbc_encrypt_blocks block k iv xs) none_left

-- The engine enciphers whole blocks by chaining the cipher of its key, leaves the last block of its
-- output as the IV, and fails at nothing. `block` is the cipher: what a key makes of a block.
pub record IsCbcEncrypt {W : Type 0} (engine : Engine W) (block : List ℕ → List ℕ → List ℕ)
    : Type 0 where
  pub enciphers :
      (w : W) (key iv xs : List ℕ)
      → IsBlocks xs
      → engine.encrypt w key iv xs ≡ record {
        ret = pos 0;
        output = cbc_encrypt (block key) iv xs;
        iv = chained_iv (block key) (length xs / 16) iv xs;
        world = w;
      }

-- The real /dev/es takes the data of a content, and adds it to what it has of it.
pub record TakesContent {W : Type 0} (es : EsManager W) (content : W → List ℕ) : Type 0 where
  pub takes : (cfd : ℤ) (bytes : List ℕ) (w : W) → (es.add_content_data cfd bytes w).0 ≡ es_ok
  pub adds :
      (cfd : ℤ) (bytes : List ℕ) (w : W)
      → content (es.add_content_data cfd bytes w).1 ≡ content w ++ bytes

module _ {W : Type 0} (es : EsManager W) (engine : Engine W) (content : W → List ℕ)
    (block : List ℕ → List ℕ → List ℕ) (law : IsCbcEncrypt engine block)
    (sink : TakesContent es content) where
  -- One round of the loop.
  swap_loop-round :
      (fuel : ℕ) (cfd : ℤ) (key iv dol : List ℕ) (w : W)
      → ltb 0 (length dol) ≡ true
      → length dol % 16 ≡ 0
      → swap_loop es engine (suc fuel) cfd key iv dol w
        ≡ swap_loop es engine fuel cfd key
            (chained_iv (block key) (length (take write_size dol) / 16) iv (take write_size dol))
            (drop write_size dol)
            (es.add_content_data cfd (cbc_encrypt (block key) iv (take write_size dol)) w).1
  unfolding swap_loop encrypt
  swap_loop-round fuel cfd key iv dol w more whole =
      let piece = take write_size dol in
      let some_left = ltb→lt 0 (length dol) more in
      let reply =
        law.enciphers w key iv piece
          (omega (arith, length-take write_size dol), omega (arith, length-take write_size dol)) in
      rw (more, swap_loop)
        (rw (ap (λ r. r.ret) reply) (
          rw (ap (λ r. r.output) reply, ap (λ r. r.world) reply)
            (rw (sink.takes cfd (cbc_encrypt (block key) iv piece) w)
              (rw (ap (λ r. r.output) reply, ap (λ r. r.world) reply, ap (λ r. r.iv) reply) refl))))

  swap_loop_lem :
      (fuel : ℕ) (cfd : ℤ) (key iv dol : List ℕ) (w : W)
      → length dol + 4096 ≤ 4096 * fuel
      → length dol % 16 ≡ 0
      → (v : W) × (swap_loop es engine fuel cfd key iv dol w ≡ done (none, v))
        × (content v ≡ content w ++ cbc_encrypt (block key) iv dol)
  unfolding swap_loop
  swap_loop_lem zero cfd key iv dol w hf whole = absurd (omega arith)
  swap_loop_lem (suc fuel) cfd key iv dol w hf whole = elim (Bool-cases (ltb 0 (length dol))) [
    | inr nothing ↦
        let empty =
          cbc_encrypt-nil (block key) iv dol (omega (arith, ltb→le 0 (length dol) nothing)) in
        (w, rw (nothing, swap_loop) refl, rw (empty) (sym (append-nil (content w))))
    | inl more ↦
        let piece = take write_size dol in
        let cut = length-take write_size dol in
        let next = chained_iv (block key) (length piece / 16) iv piece in
        let sent = (es.add_content_data cfd (cbc_encrypt (block key) iv piece) w).1 in
        let (v, e, got) =
          swap_loop_lem fuel cfd key next (drop write_size dol) sent
            (omega (arith, length-drop write_size dol, ltb→lt 0 (length dol) more))
            (omega (arith, length-drop write_size dol)) in
        (
          v,
          swap_loop-round fuel cfd key iv dol w more whole ∙ e,
          got
              ∙ ap (λ c. c ++ cbc_encrypt (block key) next (drop write_size dol))
                  (sink.adds cfd (cbc_encrypt (block key) iv piece) w)
              ∙ append_assoc (content w) (cbc_encrypt (block key) iv piece) _
              ∙ ap (λ c. content w ++ c)
                  (sym (cbc_encrypt-append (block key) iv piece (drop write_size dol) (omega arith))
                    ∙ ap (cbc_encrypt (block key) iv) (take-append-drop write_size dol)),
        )
  ]

  -- `AddContentFinish` for the descriptor of the stub, with an engine that chains the cipher of
  -- its key and a real /dev/es that takes the data: the content gets the executable, enciphered as one chain under the
  -- title key and the IV of the stub's index, though it is sent 4 KiB at a time; then the request
  -- itself is handed on, and the descriptor is forgotten. The executable is of whole blocks of 16 bytes;
  -- one test for each 4 KiB and one more end the loop.
  pub add_content_finish_lem :
      (fuel : ℕ) (req : Ioctlv) (s : Es W)
      → length es.dol_data + 4096 ≤ 4096 * fuel
      → length es.dol_data % 16 ≡ 0
      → req.in_count ≡ 1
      → req.out_count ≡ 0
      → is_misfit (vec_at req.vecs 0) 4 ≡ false
      → is_stub_cfd (cfd_of req) s ≡ true
      → (v : W) × (add_content_finish es engine fuel req s
          ≡ done (forward es engine false req (record s { stub_cfd = negsuc 0; world = v })))
        × (content v
            ≡ content s.world ++ cbc_encrypt (block s.title_key) (stub_iv s.stub_index) es.dol_data)
  unfolding add_content_finish finish_stub finished is_miscounted
  add_content_finish_lem fuel req s hf whole ins outs fits ours =
      let (v, e, got) =
        swap_loop_lem fuel (cfd_of req) s.title_key (stub_iv s.stub_index) es.dol_data s.world hf
          whole in
      (v, simp (ins, outs, fits, ours) (rw (e, ◌>>=◌) refl), got)
