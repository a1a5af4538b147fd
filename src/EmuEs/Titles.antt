-- ===== src/EmuEs/Titles.antt =====
-- EmuES.cpp: the requests that install a title, in which the stub of the channel is replaced by the
-- program's own executable.
use ctgpr_msc.Base.{
  ℕ, zero, suc, ◌-◌, List, ◌++◌, Bool, true, false, not, ltb, ◌==◌, if◌then◌else◌, Option, none,
  some, length, take, drop, set, replicate,
}
use ctgpr_msc.Base.Int.{ℤ, pos, negsuc, eq_ℤ}
use ctgpr_msc.Base.Outcome.{Outcome, done, stuck, ◌>>=◌, ◌>>◌, assert}
use ctgpr_msc.Aes
use ctgpr_msc.Aes.{Engine}
use ctgpr_msc.EmuEs.{
  Es, EsManager, EsReply, Ioctlv, cfd_of, channel_id, es_invalid, es_ok, find_stub, header_size,
  ios_not_installed, is_miscounted, is_misfit, is_stub_cfd, note_cfd, note_stub, note_ticket,
  num_contents, patch_stub, refuse, stub_iv, ticket_key, ticket_size, tmd_size, vec_at, word_be64,
  write_size,
}

module _ {W : Type 0} (es : EsManager W) (engine : Engine W) where
  -- `m_rm.ioctlv`
  unfoldable pub forward : Bool → Ioctlv → Es W → EsReply W
  forward skip req s =
      let r = es.ioctlv skip req s.world in
      record { ret = r.0; vecs = r.1; state = record s { world = r.2 } }

  -- `AddTicket` of the channel's ticket; 32 bytes are deciphered, of which the last 16 are `stale`.
  unfoldable pub add_channel_ticket : List ℕ → Ioctlv → Es W → Outcome (EsReply W)
  add_channel_ticket stale req s = do
    let ticket = (vec_at req.vecs 0).bytes
    let iv = take 8 (drop 0x1dc ticket) ++ replicate 8 0
    r ← Aes.decrypt engine ticket_key 1 s.world iv (take 16 (drop 0x1bf ticket) ++ stale)
    assert (eq_ℤ r.ret (pos 0))
    done (
        note_ticket (forward true req (record s { title_key = take 16 r.output; world = r.world })))

  -- `AddTicket`
  unfoldable pub add_ticket : List ℕ → Ioctlv → Es W → Outcome (EsReply W)
  add_ticket stale req s =
      let ticket = (vec_at req.vecs 0).bytes in
      if is_miscounted req 3 0
      then done (refuse es_invalid req.vecs s)
      else if not (length ticket == ticket_size)
      then done (refuse es_invalid req.vecs s)
      else if not (word_be64 (drop 0x1dc ticket) == channel_id)
      then done (forward false req s)
      else add_channel_ticket stale req s

  -- `AddTitleStart` on the channel's TMD: the copy is made of `tmd_size` bytes and handed on with
  -- the length of the vector. Where these differ, one of the two buffers is read beyond its end, which
  -- is a fault here.
  unfoldable pub start_channel : Ioctlv → Es W → Outcome (EsReply W)
  start_channel req s = do
    let tmd = (vec_at req.vecs 0).bytes
    let stub = find_stub (num_contents tmd - 1) 1 tmd
    let copy = patch_stub es.dol_hash (length es.dol_data) stub tmd
    assert (tmd_size tmd == length tmd)
    done (
        forward true
          (record req {
            vecs = set req.vecs 0 (record { addr = (vec_at req.vecs 0).addr; bytes = copy });
          })
          (note_stub tmd stub s))

  -- `AddTitleStart`
  unfoldable pub add_title_start : Ioctlv → Es W → Outcome (EsReply W)
  add_title_start req s =
      let tmd = (vec_at req.vecs 0).bytes in
      let reset = record s { stub_index = negsuc 0; stub_cid = negsuc 0; stub_cfd = negsuc 0 } in
      if is_miscounted req 4 0
      then done (refuse es_invalid req.vecs s)
      else if ltb (length tmd) header_size
      then done (refuse es_invalid req.vecs s)
      else if not (word_be64 (drop 0x18c tmd) == channel_id)
      then done (refuse ios_not_installed req.vecs reset)
      else start_channel req reset

  -- `AddContentStart`
  unfoldable pub add_content_start : Ioctlv → Es W → EsReply W
  add_content_start req s =
      if is_miscounted req 2 0
      then refuse es_invalid req.vecs s
      else if is_misfit (vec_at req.vecs 0) 8
      then refuse es_invalid req.vecs s
      else if is_misfit (vec_at req.vecs 1) 4
      then refuse es_invalid req.vecs s
      else if not (word_be64 (vec_at req.vecs 0).bytes == channel_id)
      then refuse es_invalid req.vecs s
      else note_cfd (forward false req s)

  -- `AddContentData`
  unfoldable pub add_content_data : Ioctlv → Es W → EsReply W
  add_content_data req s =
      if is_miscounted req 2 0
      then refuse es_invalid req.vecs s
      else if is_misfit (vec_at req.vecs 0) 4
      then refuse es_invalid req.vecs s
      else if is_stub_cfd (cfd_of req) s
      then refuse es_ok req.vecs s
      else forward false req s

  -- The loop of `AddContentFinish` over the executable: the code of a failure, and the world.
  unfoldable pub swap_loop : ℕ → ℤ → List ℕ → List ℕ → List ℕ → W → Outcome (Option ℤ × W)
  swap_loop zero cfd key iv dol w = stuck
  swap_loop (suc fuel) cfd key iv dol w = elim (ltb 0 (length dol)) [
    | false ↦ done (none, w)
    | true ↦
        let r = Aes.encrypt engine key w iv (take write_size dol) in
        elim (eq_ℤ r.ret (pos 0)) [
          | false ↦ done (some es_invalid, r.world)
          | true ↦
              let sent = es.add_content_data cfd r.output r.world in
              elim (eq_ℤ sent.0 es_ok) [
                | false ↦ done (some sent.0, sent.1)
                | true ↦ swap_loop fuel cfd key r.iv (drop write_size dol) sent.1
              ]
        ]
  ]

  -- What follows the loop: its code is the answer, or the request itself is handed on.
  unfoldable pub finished : Ioctlv → Option ℤ → Es W → EsReply W
  finished req none s = forward false req s
  finished req (some code) s = refuse code req.vecs s

  -- The branch of `AddContentFinish` for the stub, and the call after it.
  unfoldable pub finish_stub : ℕ → Ioctlv → Es W → Outcome (EsReply W)
  finish_stub fuel req s =
      swap_loop fuel (cfd_of req) s.title_key (stub_iv s.stub_index) es.dol_data s.world >>= λ r.
      done (finished req r.0 (record s { stub_cfd = negsuc 0; world = r.1 }))

  -- `AddContentFinish`
  unfoldable pub add_content_finish : ℕ → Ioctlv → Es W → Outcome (EsReply W)
  add_content_finish fuel req s =
      if is_miscounted req 1 0
      then done (refuse es_invalid req.vecs s)
      else if is_misfit (vec_at req.vecs 0) 4
      then done (refuse es_invalid req.vecs s)
      else if is_stub_cfd (cfd_of req) s
      then finish_stub fuel req s
      else done (forward false req s)
