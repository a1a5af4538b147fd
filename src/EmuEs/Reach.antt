-- ===== src/EmuEs/Reach.antt =====
-- The stub of the channel in EmuES.cpp: what is known of it in the states that the thread comes to.
use ctgpr_msc.Base.{ℕ, ◌*◌, leb, ◌≡◌, inl, List, true, false, not, ◌&&◌, ◌||◌, ◌==◌}
use ctgpr_msc.Base.Int.{negsuc, eq_ℤ}
use ctgpr_msc.Base.Outcome.{done, Holds-value}
use ctgpr_msc.Aes.{Engine}
use ctgpr_msc.Base.Bytes.{eq_bytes}
use ctgpr_msc.EmuEs.{
  EsManager, Es, EsReply, Ioctlv, vec_at, is_misfit, is_miscounted, word_be64, word_be32, es_ok,
}
use ctgpr_msc.EmuEs.Requests.{
  dispatch, Request, ipc_request, device_path, null_empty, is_ios, req_ioctlv, get_device_id,
  launch_title, get_num_ticket_views, get_ticket_views,
}
use ctgpr_msc.EmuEs.Tracked.{
  IsKept, IsTracked, Tracks, done-Tracks, guard-IsKept, guard-Tracks, refuse-IsKept, refuse-Tracks,
  test-Tracks,
}
use ctgpr_msc.EmuEs.Install.{
  add_content_data-IsKept, add_content_finish-Tracks, add_content_start-IsKept, add_ticket-Tracks,
  add_title_start-Tracks, forward-Tracks,
}

module _ {W : Type 0} (es : EsManager W) (engine : Engine W) where
  get_device_id-IsKept :
      (req : Ioctlv) (s : Es W) → IsTracked s → IsKept (get_device_id es engine req s)
  unfolding get_device_id
  get_device_id-IsKept req s h = guard-IsKept (is_miscounted req 0 1) _ _ _ _ h (
      guard-IsKept (is_misfit (vec_at req.vecs 0) 4) _ _ _ _ h (
        guard-IsKept (not (eq_ℤ (es.get_device_id s.world).0 es_ok)) _ _ _ _ h
          (refuse-IsKept _ _ _ h)))

  launch_title-IsKept :
      (req : Ioctlv) (s : Es W) → IsTracked s → IsKept (launch_title es engine req s)
  unfolding launch_title
  launch_title-IsKept req s h = guard-IsKept (is_miscounted req 2 0) _ _ _ _ h (
      guard-IsKept (is_misfit (vec_at req.vecs 0) 8) _ _ _ _ h (
        guard-IsKept (is_misfit (vec_at req.vecs 1) 0xd8) _ _ _ _ h (
          guard-IsKept (s.block_ios_reload && is_ios (word_be64 (vec_at req.vecs 0).bytes)) _ _ _ _
            h (refuse-IsKept _ _ _ h))))

  get_num_ticket_views-IsKept :
      (req : Ioctlv) (s : Es W) → IsTracked s → IsKept (get_num_ticket_views es engine req s)
  unfolding get_num_ticket_views
  get_num_ticket_views-IsKept req s h = guard-IsKept (is_miscounted req 1 1) _ _ _ _ h (
      guard-IsKept (is_misfit (vec_at req.vecs 0) 8) _ _ _ _ h (
        guard-IsKept (is_ios (word_be64 (vec_at req.vecs 0).bytes)) _ _ _ _ h
          (guard-IsKept (is_misfit (vec_at req.vecs 1) 4) _ _ _ _ h (refuse-IsKept _ _ _ h))))

  get_ticket_views-IsKept :
      (req : Ioctlv) (s : Es W) → IsTracked s → IsKept (get_ticket_views es engine req s)
  unfolding get_ticket_views
  get_ticket_views-IsKept req s h = guard-IsKept (is_miscounted req 2 1) _ _ _ _ h (
      guard-IsKept (is_misfit (vec_at req.vecs 0) 8) _ _ _ _ h (
        guard-IsKept (is_misfit (vec_at req.vecs 1) 4) _ _ _ _ h (
          guard-IsKept (is_misfit (vec_at req.vecs 2) (word_be32 (vec_at req.vecs 1).bytes * 0xd8))
            _ _ _ _ h (refuse-IsKept _ _ _ h))))

  dispatch-Tracks :
      (fuel : ℕ) (stale : List ℕ) (req : Ioctlv) (s : Es W)
      → IsTracked s
      → Tracks (dispatch es engine fuel stale req s)
  unfolding dispatch
  dispatch-Tracks fuel stale req s h =
      test-Tracks (req.cmd == 0x07) _ _ (done-Tracks _ (get_device_id-IsKept req s h)) (
        test-Tracks (req.cmd == 0x01) _ _ (add_ticket-Tracks es engine stale req s h) (
          test-Tracks (req.cmd == 0x02) _ _ (add_title_start-Tracks es engine req s h) (
            test-Tracks (req.cmd == 0x03) _ _
              (done-Tracks _ (add_content_start-IsKept es engine req s h))
              (test-Tracks (req.cmd == 0x04) _ _
                (done-Tracks _ (add_content_data-IsKept es engine req s h))
                (test-Tracks (req.cmd == 0x05) _ _
                  (add_content_finish-Tracks es engine fuel req s h)
                  (test-Tracks (req.cmd == 0x08) _ _ (done-Tracks _ (launch_title-IsKept req s h)) (
                    test-Tracks (req.cmd == 0x12) _ _
                      (done-Tracks _ (get_num_ticket_views-IsKept req s h))
                      (test-Tracks (req.cmd == 0x13) _ _
                        (done-Tracks _ (get_ticket_views-IsKept req s h))
                        (forward-Tracks es engine false req s h)))))))))

  ipc_request-Tracks :
      (fuel : ℕ) (stale : List ℕ) (req : Request) (s : Es W)
      → IsTracked s
      → Tracks (ipc_request es engine fuel stale req s)
  unfolding ipc_request req_ioctlv
  ipc_request-Tracks fuel stale (Request.open_cmd path) s h =
      test-Tracks (not (eq_bytes path device_path)) _ _ (refuse-Tracks _ _ s h)
        (refuse-Tracks _ _ (record s { block_ios_reload = true }) h)
  ipc_request-Tracks fuel stale Request.close_cmd s h = refuse-Tracks _ _ s h
  ipc_request-Tracks fuel stale (Request.ioctlv_cmd req) s h =
      guard-Tracks (leb 32 req.in_count || leb 32 req.out_count) _ _ _ _ h
        (dispatch-Tracks fuel stale (record req { vecs = null_empty req.vecs }) s h)
  ipc_request-Tracks fuel stale Request.other_cmd s h = refuse-Tracks _ _ s h

-- The states of the thread: those in which it knows of no stub, and what a request leaves of one.
pub data Reached {W : Type 0} (es : EsManager W) (engine : Engine W) : Es W → Type 0 where
  start :
      (s : Es W)
      → s.stub_cid ≡ negsuc 0
      → s.stub_index ≡ negsuc 0
      → s.stub_cfd ≡ negsuc 0
      → Reached es engine s
  next :
      (s : Es W) (fuel : ℕ) (stale : List ℕ) (req : Request) (r : EsReply W)
      → Reached es engine s
      → ipc_request es engine fuel stale req s ≡ done r
      → Reached es engine r.state

-- In every state that the thread comes to, whatever requests came and whatever the calls of the real
-- /dev/es answered: unless the content of the stub is unknown, its index is that of a content after the
-- banner; and unless its descriptor is unknown, the descriptor is not negative and the
-- index is known, so the data is never swapped under the IV of the index -1.
pub reached-IsTracked :
    {W : Type 0} (es : EsManager W) (engine : Engine W) (s : Es W)
    → Reached es engine s
    → IsTracked s
unfolding Tracks IsKept
reached-IsTracked es engine _ (Reached.start s cid index cfd) = (inl cid, inl cfd)
reached-IsTracked es engine _ (Reached.next t fuel stale req r before e) =
    Holds-value IsKept (ipc_request es engine fuel stale req t) r
      (ipc_request-Tracks es engine fuel stale req t (reached-IsTracked es engine t before)) e
