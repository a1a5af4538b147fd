-- ===== src/EmuEs/Returns.antt =====
-- EmuES.cpp: the end of `AddContentFinish`, whatever is answered to its calls.
use ctgpr_msc.Base.{
  ℕ, zero, suc, ◌+◌, ◌*◌, ◌≤◌, ◌≡◌, refl, inl, inr, arith, List, Bool-cases, true, false, ltb,
  ltb→lt, Option, none, some, length, take, drop, length-drop,
}
use ctgpr_msc.Base.Int.{ℤ, pos, negsuc, eq_ℤ}
use ctgpr_msc.Base.Outcome.{done, ◌>>=◌}
use ctgpr_msc.Aes.{Engine, encrypt}
use ctgpr_msc.EmuEs.{
  EsManager, Es, EsReply, Ioctlv, vec_at, is_misfit, is_miscounted, es_ok, es_invalid, stub_iv,
  write_size, refuse, cfd_of, is_stub_cfd,
}
use ctgpr_msc.EmuEs.Titles.{forward, swap_loop, finish_stub, finished, add_content_finish}

module _ {W : Type 0} (es : EsManager W) (engine : Engine W) where
  swap_loop-returns :
      (fuel : ℕ) (cfd : ℤ) (key iv dol : List ℕ) (w : W)
      → length dol + 4096 ≤ 4096 * fuel
      → (r : Option ℤ × W) × (swap_loop es engine fuel cfd key iv dol w ≡ done r)
  unfolding swap_loop
  swap_loop-returns zero cfd key iv dol w hf = absurd (omega arith)
  swap_loop-returns (suc fuel) cfd key iv dol w hf =
      let r = encrypt engine key w iv (take write_size dol) in
      let sent = es.add_content_data cfd r.output r.world in
      elim (Bool-cases (ltb 0 (length dol))) [
        | inr nothing ↦ ((none, w), rw (nothing, swap_loop) refl)
        | inl more ↦ elim (Bool-cases (eq_ℤ r.ret (pos 0))) [
          | inr failed ↦ ((some es_invalid, r.world), rw (more, swap_loop) (rw failed refl))
          | inl good ↦ elim (Bool-cases (eq_ℤ sent.0 es_ok)) [
            | inr refused ↦
                ((some sent.0, sent.1), rw (more, swap_loop) (rw good (rw refused refl)))
            | inl taken ↦
                let (v, e) =
                  swap_loop-returns fuel cfd key r.iv (drop write_size dol) sent.1
                    (omega (arith, length-drop write_size dol, ltb→lt 0 (length dol) more)) in
                (v, rw (more, swap_loop) (rw good (rw taken e)))
          ]
        ]
      ]

  -- What follows the loop keeps the descriptor and the index.
  finished-cfd :
      (req : Ioctlv) (code : Option ℤ) (s : Es W)
      → ((finished es engine req code s).state.stub_cfd ≡ s.stub_cfd)
        × ((finished es engine req code s).state.stub_index ≡ s.stub_index)
  unfolding finished forward refuse
  finished-cfd req none s = (refl, refl)
  finished-cfd req (some code) s = (refl, refl)

  -- `AddContentFinish` returns for the descriptor of the stub, whatever the engine and the real /dev/es
  -- answer to its calls, failures included: one test for each 4 KiB of the executable and one more end
  -- the loop. The descriptor is forgotten, also where the loop failed, and the index is kept.
  pub add_content_finish-returns :
      (fuel : ℕ) (req : Ioctlv) (s : Es W)
      → length es.dol_data + 4096 ≤ 4096 * fuel
      → is_miscounted req 1 0 ≡ false
      → is_misfit (vec_at req.vecs 0) 4 ≡ false
      → is_stub_cfd (cfd_of req) s ≡ true
      → (r : EsReply W) × (add_content_finish es engine fuel req s ≡ done r)
        × (r.state.stub_cfd ≡ negsuc 0)
        × (r.state.stub_index ≡ s.stub_index)
  unfolding add_content_finish finish_stub
  add_content_finish-returns fuel req s hf counts fits ours =
      let (r, e) =
        swap_loop-returns fuel (cfd_of req) s.title_key (stub_iv s.stub_index) es.dol_data s.world
          hf in
      let left = record s { stub_cfd = negsuc 0; world = r.1 } in
      let kept = finished-cfd req r.0 left in
      (
        finished es engine req r.0 left,
        rw (counts, fits, ours) (rw (e, ◌>>=◌) refl),
        kept.0,
        kept.1,
      )
