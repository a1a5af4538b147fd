-- ===== src/EmuEs/Requests.antt =====
-- EmuES.cpp: the other requests, the dispatch, and when the thread answers.
use ctgpr_msc.Base.{
  ℕ, ◌+◌, ◌*◌, ◌%◌, ◌/◌, ◌^◌, List, [], ◌∷◌, Bool, true, false, not, ◌||◌, ◌&&◌, ltb, leb, ◌==◌,
  if◌then◌else◌, length, set, drop,
}
use ctgpr_msc.Base.Int.{ℤ, is_neg, pos, negsuc, eq_ℤ}
use ctgpr_msc.Base.Words.{bytes_be32, word_be32}
use ctgpr_msc.Base.Outcome.{Outcome, done, ◌>>=◌}
use ctgpr_msc.Aes.{Engine}
use ctgpr_msc.Base.Bytes.{eq_bytes}
use ctgpr_msc.EmuEs.{
  EsManager, Es, EsReply, Ioctlv, Vec, vec_at, is_misfit, is_miscounted, word_be64, es_ok,
  es_invalid, refuse,
}
use ctgpr_msc.EmuEs.Titles.{
  forward, add_ticket, add_title_start, add_content_start, add_content_data, add_content_finish,
}

-- An IOS: `u64Hi(titleID) == 1`, but not the system menu.
unfoldable pub is_ios : ℕ → Bool
is_ios title_id = (title_id / 2 ^ 32 == 1) && not (title_id % 2 ^ 32 == 2)

-- The identity of the console, as it is shown to the game.
unfoldable pub shown_device_id : Bool → ℕ → ℕ
shown_device_id is_wii_u id =
    if is_wii_u && ltb id 0x20000000
    then id + 0x20000000
    else if not is_wii_u && leb 0x20000000 id
    then id % 2 ^ 29
    else id

-- Vectors of no bytes are null.
unfoldable pub null_empty : List Vec → List Vec
null_empty [] = []
null_empty (v ∷ vs) = (if length v.bytes == 0 then record v { addr = 0 } else v) ∷ null_empty vs

-- An answer that is written into vector `i`.
unfoldable pub write_vec : ℕ → List ℕ → List Vec → List Vec
write_vec i bytes vecs = set vecs i (record { addr = (vec_at vecs i).addr; bytes = bytes })

-- The version of the ticket, in a ticket view.
unfoldable pub view_version : List ℕ → ℕ
view_version view = word_be32 (drop 0x18 view) % 2 ^ 16

module _ {W : Type 0} (es : EsManager W) (engine : Engine W) where
  -- `GetDeviceID`
  unfoldable pub get_device_id : Ioctlv → Es W → EsReply W
  get_device_id req s =
      let r = es.get_device_id s.world in
      if is_miscounted req 0 1
      then refuse es_invalid req.vecs s
      else if is_misfit (vec_at req.vecs 0) 4
      then refuse es_invalid req.vecs s
      else if not (eq_ℤ r.0 es_ok)
      then refuse r.0 req.vecs (record s { world = r.2 })
      else refuse es_ok (write_vec 0 (bytes_be32 (shown_device_id es.is_wii_u r.1)) req.vecs)
          (record s { world = r.2 })

  -- The reset by /dev/stm/immediate.
  unfoldable pub hot_reset : W → W
  hot_reset w =
      let fd = es.open_stm w in
      if is_neg fd.0 then fd.1 else es.close_stm fd.0 (es.ioctl_stm fd.0 0x3002 fd.1)

  -- An IOS that is not launched: the handles are closed, the console's IOS is reset and the version is
  -- left in memory.
  unfoldable pub pretend_launch : ℕ → ℕ → W → W
  pretend_launch title_id version w = es.usleep 400 (
      es.poke 0x3140 (title_id % 2 ^ 16 * 2 ^ 16 + version)
        (es.hid_reload (hot_reset (es.close_all_ppc true w))))

  -- `LaunchTitle`
  unfoldable pub launch_title : Ioctlv → Es W → EsReply W
  launch_title req s =
      let title = word_be64 (vec_at req.vecs 0).bytes in
      let view = (vec_at req.vecs 1).bytes in
      let r = es.launch_title title view (es.clear_mem1 s.world) in
      if is_miscounted req 2 0
      then refuse es_invalid req.vecs s
      else if is_misfit (vec_at req.vecs 0) 8
      then refuse es_invalid req.vecs s
      else if is_misfit (vec_at req.vecs 1) 0xd8
      then refuse es_invalid req.vecs s
      else if s.block_ios_reload && is_ios title
      then refuse es_ok req.vecs
          (record s { world = pretend_launch title (view_version view) s.world })
      else refuse r.0 req.vecs (record s { world = r.1 })

  -- `GetNumTicketViews`
  unfoldable pub get_num_ticket_views : Ioctlv → Es W → EsReply W
  get_num_ticket_views req s =
      let title = word_be64 (vec_at req.vecs 0).bytes in
      let r = es.get_num_ticket_views title s.world in
      if is_miscounted req 1 1
      then refuse es_invalid req.vecs s
      else if is_misfit (vec_at req.vecs 0) 8
      then refuse es_invalid req.vecs s
      else if is_ios title
      then refuse es_invalid req.vecs
          (record s { world = es.hid_reload (es.close_all_ppc false s.world) })
      else if is_misfit (vec_at req.vecs 1) 4
      then refuse es_invalid req.vecs s
      else refuse r.0 (write_vec 1 (bytes_be32 r.1) req.vecs) (record s { world = r.2 })

  -- `GetTicketViews`; the product of the count is of 64 bits.
  unfoldable pub get_ticket_views : Ioctlv → Es W → EsReply W
  get_ticket_views req s =
      let count = word_be32 (vec_at req.vecs 1).bytes in
      let r = es.get_ticket_views (word_be64 (vec_at req.vecs 0).bytes) count s.world in
      if is_miscounted req 2 1
      then refuse es_invalid req.vecs s
      else if is_misfit (vec_at req.vecs 0) 8
      then refuse es_invalid req.vecs s
      else if is_misfit (vec_at req.vecs 1) 4
      then refuse es_invalid req.vecs s
      else if is_misfit (vec_at req.vecs 2) (count * 0xd8)
      then refuse es_invalid req.vecs s
      else refuse r.0 (write_vec 2 r.1 req.vecs) (record s { world = r.2 })

  -- The `switch` of `ReqIoctlv`.
  unfoldable pub dispatch : ℕ → List ℕ → Ioctlv → Es W → Outcome (EsReply W)
  dispatch fuel stale req s =
      if req.cmd == 0x07
      then done (get_device_id req s)
      else if req.cmd == 0x01
      then add_ticket es engine stale req s
      else if req.cmd == 0x02
      then add_title_start es engine req s
      else if req.cmd == 0x03
      then done (add_content_start es engine req s)
      else if req.cmd == 0x04
      then done (add_content_data es engine req s)
      else if req.cmd == 0x05
      then add_content_finish es engine fuel req s
      else if req.cmd == 0x08
      then done (launch_title req s)
      else if req.cmd == 0x12
      then done (get_num_ticket_views req s)
      else if req.cmd == 0x13
      then done (get_ticket_views req s)
      else done (forward es engine false req s)

  -- `ReqIoctlv`
  unfoldable pub req_ioctlv : ℕ → List ℕ → Ioctlv → Es W → Outcome (EsReply W)
  req_ioctlv fuel stale req s =
      if leb 32 req.in_count || leb 32 req.out_count
      then done (refuse es_invalid req.vecs s)
      else dispatch fuel stale (record req { vecs = null_empty req.vecs }) s

-- `IOS::Request`, as far as `IPCRequest` reads it.
pub data Request : Type 0 where
  open_cmd : List ℕ → Request
  close_cmd : Request
  ioctlv_cmd : Ioctlv → Request
  other_cmd : Request

-- The name of the device, "~dev/es".
abbrev pub device_path : List ℕ
device_path = 0x7e ∷ 0x64 ∷ 0x65 ∷ 0x76 ∷ 0x2f ∷ 0x65 ∷ 0x73 ∷ []

-- `IOSError::NotFound`
abbrev not_found : ℤ
not_found = negsuc 5

module _ {W : Type 0} (es : EsManager W) (engine : Engine W) where
  -- `IPCRequest`
  unfoldable pub ipc_request : ℕ → List ℕ → Request → Es W → Outcome (EsReply W)
  ipc_request fuel stale (Request.open_cmd path) s =
      if not (eq_bytes path device_path)
      then done (refuse not_found [] s)
      else done (refuse (pos 0) [] (record s { block_ios_reload = true }))
  ipc_request fuel stale Request.close_cmd s = done (refuse (pos 0) [] s)
  ipc_request fuel stale (Request.ioctlv_cmd req) s = req_ioctlv es engine fuel stale req s
  ipc_request fuel stale Request.other_cmd s = done (refuse es_invalid [] s)

  -- The loop of the thread over the requests that come, each with the bytes that its stack holds.
  unfoldable pub serve : ℕ → List (List ℕ × Request) → Es W → Outcome (Es W)
  serve fuel [] s = done s
  serve fuel ((stale, req) ∷ reqs) s = do r ← ipc_request fuel stale req s; serve fuel reqs r.state

-- Whether the thread answers a request: not one that has launched a title.
unfoldable pub is_answered : Request → ℤ → Bool
is_answered (Request.ioctlv_cmd req) ret = not (req.cmd == 0x08) || not (eq_ℤ ret es_ok)
is_answered (Request.open_cmd path) ret = true
is_answered Request.close_cmd ret = true
is_answered Request.other_cmd ret = true

-- The title that `DIVerify` has noted.
pub record TitleContext : Type 0 where
  use_title_ctx : Bool
  title_id : ℕ
  ticket : List ℕ

-- `DIVerify`
unfoldable di_verify : ℕ → List ℕ → TitleContext → ℤ × TitleContext
di_verify title_id ticket ctx =
    if not (word_be64 (drop 0x1dc ticket) == title_id)
    then (negsuc 1028, record ctx { title_id = title_id })
    else (es_ok, record { use_title_ctx = true; title_id = title_id; ticket = ticket })
