-- ===== src/EmuEs/Install.antt =====
-- The stub of the channel in EmuES.cpp: what the requests that install a title keep of it.
use ctgpr_msc.Base.{
  ℕ, ◌-◌, ◌≡◌, refl, inl, arith, List, ◌++◌, length, take, drop, replicate, ltb, Bool, true, false,
  not, ◌==◌, Option, none, some,
}
use ctgpr_msc.Base.Int.{ℤ, pos, negsuc, eq_ℤ}
use ctgpr_msc.Base.Outcome.{done}
use ctgpr_msc.Aes.{Engine, decrypt}
use ctgpr_msc.EmuEs.{
  EsManager, Es, Ioctlv, find_stub, note_stub, num_contents, stub_iv, vec_at, tmd_size, is_misfit,
  is_miscounted, is_stub_cfd, cfd_of, word_be64, header_size, ticket_size, ticket_key, channel_id,
}
use ctgpr_msc.EmuEs.Titles.{
  forward, add_ticket, start_channel, add_title_start, add_content_start, add_content_data,
  swap_loop, finish_stub, finished, add_content_finish, add_channel_ticket,
}
use ctgpr_msc.EmuEs.Tracked.{
  IsKept, IsTracked, Tracks, assert-Tracks, bind-Tracks, done-Tracks, find_stub-IsFrom,
  guard-IsKept, guard-Tracks, note_cfd-IsKept, note_stub-IsTracked, note_ticket-IsKept,
  refuse-IsKept, test-Tracks,
}

module _ {W : Type 0} (es : EsManager W) (engine : Engine W) where
  forward-IsKept :
      (skip : Bool) (req : Ioctlv) (s : Es W) → IsTracked s → IsKept (forward es engine skip req s)
  unfolding IsKept forward
  forward-IsKept skip req s h = h

  pub forward-Tracks :
      (skip : Bool) (req : Ioctlv) (s : Es W)
      → IsTracked s
      → Tracks (done (forward es engine skip req s))
  forward-Tracks skip req s h =
      done-Tracks (forward es engine skip req s) (forward-IsKept skip req s h)

  add_channel_ticket-Tracks :
      (stale : List ℕ) (req : Ioctlv) (s : Es W)
      → IsTracked s
      → Tracks (add_channel_ticket es engine stale req s)
  unfolding add_channel_ticket
  add_channel_ticket-Tracks stale req s h =
      let ticket = (vec_at req.vecs 0).bytes in
      let iv = take 8 (drop 0x1dc ticket) ++ replicate 8 0 in
      bind-Tracks (decrypt engine ticket_key 1 s.world iv (take 16 (drop 0x1bf ticket) ++ stale)) _
        (λ r. assert-Tracks (eq_ℤ r.ret (pos 0)) _ (
          done-Tracks _
            (note_ticket-IsKept (forward es engine true req _) (forward-IsKept true req _ h))))

  finished-IsKept :
      (req : Ioctlv) (code : Option ℤ) (s : Es W)
      → IsTracked s
      → IsKept (finished es engine req code s)
  unfolding finished
  finished-IsKept req none s h = forward-IsKept false req s h
  finished-IsKept req (some code) s h = refuse-IsKept code req.vecs s h

  finish_stub-Tracks :
      (fuel : ℕ) (req : Ioctlv) (s : Es W) → IsTracked s → Tracks (finish_stub es engine fuel req s)
  unfolding finish_stub
  finish_stub-Tracks fuel req s h =
      bind-Tracks
        (swap_loop es engine fuel (cfd_of req) s.title_key (stub_iv s.stub_index) es.dol_data
          s.world)
        _ (λ r. done-Tracks _ (finished-IsKept req r.0 _ (h.0, inl refl)))

  pub add_ticket-Tracks :
      (stale : List ℕ) (req : Ioctlv) (s : Es W)
      → IsTracked s
      → Tracks (add_ticket es engine stale req s)
  unfolding add_ticket
  add_ticket-Tracks stale req s h =
      let ticket = (vec_at req.vecs 0).bytes in
      guard-Tracks (is_miscounted req 3 0) _ _ _ _ h (
        guard-Tracks (not (length ticket == ticket_size)) _ _ _ _ h (
          test-Tracks (not (word_be64 (drop 0x1dc ticket) == channel_id)) _ _
            (forward-Tracks false req s h) (add_channel_ticket-Tracks stale req s h)))

  start_channel-Tracks :
      (req : Ioctlv) (s : Es W)
      → s.stub_cfd ≡ negsuc 0
      → IsTracked s
      → Tracks (start_channel es engine req s)
  unfolding start_channel
  start_channel-Tracks req s closed h =
      let tmd = (vec_at req.vecs 0).bytes in
      let stub = find_stub (num_contents tmd - 1) 1 tmd in
      assert-Tracks (tmd_size tmd == length tmd) _ (
        forward-Tracks _ _ (note_stub tmd stub s) (
          note_stub-IsTracked tmd stub s
            (find_stub-IsFrom (num_contents tmd - 1) 1 1 tmd (omega arith)) closed h))

  pub add_title_start-Tracks :
      (req : Ioctlv) (s : Es W) → IsTracked s → Tracks (add_title_start es engine req s)
  unfolding add_title_start
  add_title_start-Tracks req s h =
      let tmd = (vec_at req.vecs 0).bytes in
      guard-Tracks (is_miscounted req 4 0) _ _ _ _ h (
        guard-Tracks (ltb (length tmd) header_size) _ _ _ _ h (
          guard-Tracks (not (word_be64 (drop 0x18c tmd) == channel_id)) _ _ _ _ (inl refl, inl refl)
            (start_channel-Tracks req _ refl (inl refl, inl refl))))

  pub add_content_start-IsKept :
      (req : Ioctlv) (s : Es W) → IsTracked s → IsKept (add_content_start es engine req s)
  unfolding add_content_start
  add_content_start-IsKept req s h = guard-IsKept (is_miscounted req 2 0) _ _ _ _ h (
      guard-IsKept (is_misfit (vec_at req.vecs 0) 8) _ _ _ _ h (
        guard-IsKept (is_misfit (vec_at req.vecs 1) 4) _ _ _ _ h (
          guard-IsKept (not (word_be64 (vec_at req.vecs 0).bytes == channel_id)) _ _ _ _ h
            (note_cfd-IsKept (forward es engine false req s) (forward-IsKept false req s h)))))

  pub add_content_data-IsKept :
      (req : Ioctlv) (s : Es W) → IsTracked s → IsKept (add_content_data es engine req s)
  unfolding add_content_data
  add_content_data-IsKept req s h = guard-IsKept (is_miscounted req 2 0) _ _ _ _ h (
      guard-IsKept (is_misfit (vec_at req.vecs 0) 4) _ _ _ _ h
        (guard-IsKept (is_stub_cfd (cfd_of req) s) _ _ _ _ h (forward-IsKept false req s h)))

  pub add_content_finish-Tracks :
      (fuel : ℕ) (req : Ioctlv) (s : Es W)
      → IsTracked s
      → Tracks (add_content_finish es engine fuel req s)
  unfolding add_content_finish
  add_content_finish-Tracks fuel req s h = guard-Tracks (is_miscounted req 1 0) _ _ _ _ h (
      guard-Tracks (is_misfit (vec_at req.vecs 0) 4) _ _ _ _ h (
        test-Tracks (is_stub_cfd (cfd_of req) s) _ _ (finish_stub-Tracks fuel req s h)
          (forward-Tracks false req s h)))
