-- ===== src/EmuEs/Identity.antt =====
-- `GetDeviceID` of EmuES.cpp: the identity that the game is shown is of the kind of the console.
use ctgpr_msc.Base.{
  ℕ, ◌+◌, ◌%◌, ◌^◌, ◌<◌, ◌≡◌, refl, ap, ◌∙◌, arith, Bool, true, false, length, get_or-set_self,
}
use ctgpr_msc.Base.Int.{eq_ℤ}
use ctgpr_msc.Base.Words.{bytes_be32, word_be32}
use ctgpr_msc.Aes.{Engine}
use ctgpr_msc.EmuEs.{EsManager, Es, Ioctlv, vec_at, is_misfit, is_miscounted, es_ok, refuse}
use ctgpr_msc.EmuEs.Requests.{shown_device_id, get_device_id, write_vec}

-- A word that is stored and read again.
word_be32-bytes_be32 : (n : ℕ) → n < 2 ^ 32 → word_be32 (bytes_be32 n) ≡ n
unfolding word_be32
word_be32-bytes_be32 n h = omega arith

-- The bit that tells a Wii U.
abbrev pub kind_bit : Bool → ℕ
kind_bit true = 0x20000000
kind_bit false = 0

shown_device_id_lem :
    (is_wii_u : Bool) (id : ℕ)
    → id < 2 ^ 30
    → shown_device_id is_wii_u id ≡ kind_bit is_wii_u + id % 0x20000000
unfolding shown_device_id
shown_device_id_lem true id h = ground arith
shown_device_id_lem false id h = ground arith

shown_device_id-bound :
    (is_wii_u : Bool) (id : ℕ) → id < 2 ^ 30 → shown_device_id is_wii_u id < 2 ^ 32
unfolding shown_device_id
shown_device_id-bound true id h = ground arith
shown_device_id-bound false id h = ground arith

module _ {W : Type 0} (es : EsManager W) (engine : Engine W) where
  get_device_id-answer :
      (req : Ioctlv) (s : Es W)
      → is_miscounted req 0 1 ≡ false
      → is_misfit (vec_at req.vecs 0) 4 ≡ false
      → eq_ℤ (es.get_device_id s.world).0 es_ok ≡ true
      → get_device_id es engine req s
        ≡ refuse es_ok
            (write_vec 0
              (bytes_be32 (shown_device_id es.is_wii_u (es.get_device_id s.world).1))
              req.vecs)
            (record s { world = (es.get_device_id s.world).2 })
  unfolding get_device_id
  get_device_id-answer req s counts fits good = rw (counts, fits, good) refl

  -- `GetDeviceID` of a request with one vector of a word, where the real /dev/es gives an identity below
  -- 2^30: it succeeds, and the word that it writes is the identity's low 29 bits with bit 29 set on a
  -- Wii U and clear on a Wii.
  pub get_device_id_lem :
      (req : Ioctlv) (s : Es W)
      → is_miscounted req 0 1 ≡ false
      → is_misfit (vec_at req.vecs 0) 4 ≡ false
      → 0 < length req.vecs
      → eq_ℤ (es.get_device_id s.world).0 es_ok ≡ true
      → (es.get_device_id s.world).1 < 2 ^ 30
      → ((get_device_id es engine req s).ret ≡ es_ok)
        × (word_be32 (vec_at (get_device_id es engine req s).vecs 0).bytes
            ≡ kind_bit es.is_wii_u + (es.get_device_id s.world).1 % 0x20000000)
  unfolding refuse write_vec vec_at
  get_device_id_lem req s counts fits one good small =
      let id = (es.get_device_id s.world).1 in
      let answer = get_device_id-answer req s counts fits good in
      let shown = shown_device_id_lem es.is_wii_u id small in
      (
        ap (λ r. r.ret) answer,
        ap (λ r. word_be32 (vec_at r.vecs 0).bytes) answer
            ∙ ap (λ v. word_be32 v.bytes) (get_or-set_self req.vecs 0 _ _ one)
            ∙ word_be32-bytes_be32 (shown_device_id es.is_wii_u id)
                (shown_device_id-bound es.is_wii_u id small)
            ∙ shown,
      )
