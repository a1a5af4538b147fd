-- ===== src/EmuEs/Tests.antt =====
-- Requests of EmuES.cpp that install a title, with an executable of two pieces.
use ctgpr_msc.Base.{
  ℕ, ◌/◌, ◌≡◌, refl, arith, List, [], ◌∷◌, ◌++◌, true, false, length, length-replicate, replicate,
}
use ctgpr_msc.Base.Int.{pos, negsuc, s32_of}
use ctgpr_msc.Base.Words.{word_be32}
use ctgpr_msc.Base.Outcome.{Outcome, done, fault, stuck}
use ctgpr_msc.Aes.{Engine}
use ctgpr_msc.Aes.Cbc.{xor_bytes}
use ctgpr_msc.Base.Bytes.{eq_bytes}
use ctgpr_msc.EmuEs.{
  es_ok, EsReply, stub_hash, is_miscounted, find_stub, is_stub, num_contents, tmd_size, word_be64,
  note_stub, EsManager, Es, Ioctlv, vec_at, is_misfit, cfd_of, is_stub_cfd, stub_iv,
}
use ctgpr_msc.EmuEs.Titles.{add_title_start, start_channel, forward, add_content_finish}
use ctgpr_msc.EmuEs.Identity.{get_device_id_lem}
use ctgpr_msc.EmuEs.Reach.{Reached, reached-IsTracked}
use ctgpr_msc.EmuEs.Requests.{get_device_id, Request, ipc_request, req_ioctlv, dispatch, null_empty}
use ctgpr_msc.EmuEs.Tracked.{IsTracked}
use ctgpr_msc.EmuEs.Returns.{add_content_finish-returns}
use ctgpr_msc.EmuEs.Swap.{
  cbc_encrypt, chained_iv, IsCbcEncrypt, TakesContent, add_content_finish_lem,
}

abbrev manager : EsManager (List ℕ)
manager = record {
  ioctlv = λ skip req w. (pos 0, req.vecs, w);
  add_content_data = λ cfd bytes w. (pos 0, w ++ bytes);
  get_device_id = λ w. (pos 0, 1, w);
  launch_title = λ title view w. (pos 0, w);
  get_num_ticket_views = λ title w. (pos 0, 1, w);
  get_ticket_views = λ title n w. (pos 0, [], w);
  close_all_ppc = λ all w. w;
  open_stm = λ w. (pos 3, w);
  ioctl_stm = λ fd cmd w. w;
  close_stm = λ fd w. w;
  hid_reload = λ w. w;
  poke = λ at x w. w;
  clear_mem1 = λ w. w;
  usleep = λ n w. w;
  is_wii_u = false;
  dol_data = replicate 5008 7;
  dol_hash = replicate 20 1;
}

-- A cipher that depends on its key.
abbrev block : List ℕ → List ℕ → List ℕ
block key xs = xor_bytes key xs

abbrev engine : Engine (List ℕ)
engine = record {
  encrypt = λ w key iv xs. record {
    ret = pos 0;
    output = cbc_encrypt (block key) iv xs;
    iv = chained_iv (block key) (length xs / 16) iv xs;
    world = w;
  };
  decrypt = λ w key iv xs. record { ret = pos 0; output = xs; iv = iv; world = w };
}

engine-IsCbcEncrypt : IsCbcEncrypt engine block
engine-IsCbcEncrypt = record { enciphers = λ w key iv xs h. refl }

manager-TakesContent : TakesContent manager (λ w. w)
manager-TakesContent = record { takes = λ cfd bytes w. refl; adds = λ cfd bytes w. refl }

abbrev finish : Ioctlv
finish = record {
  cmd = 5;
  in_count = 1;
  out_count = 0;
  vecs = record { addr = 0; bytes = 0 ∷ 0 ∷ 0 ∷ 5 ∷ [] } ∷ [];
}

abbrev installing : Es (List ℕ)
installing = record {
  title_key = replicate 16 9;
  ticket_added = true;
  stub_cid = pos 1;
  stub_index = pos 1;
  stub_cfd = pos 5;
  block_ios_reload = true;
  world = [];
}

finish-fits : is_misfit (vec_at finish.vecs 0) 4 ≡ false
unfolding is_misfit vec_at
finish-fits = refl

finish-ours : is_stub_cfd (cfd_of finish) installing ≡ true
unfolding is_stub_cfd vec_at s32_of word_be32
finish-ours = refl

add_content_finish_lem_example :
    (v : List ℕ) × (add_content_finish manager engine 3 finish installing
      ≡ done (
          forward manager engine false finish
            (record installing { stub_cfd = negsuc 0; world = v })))
    × (v ≡ [] ++ cbc_encrypt (block (replicate 16 9)) (stub_iv (pos 1)) (replicate 5008 7))
add_content_finish_lem_example =
    add_content_finish_lem manager engine (λ w. w) block engine-IsCbcEncrypt manager-TakesContent 3
      finish installing (omega (arith, length-replicate {A = ℕ} 5008 7))
      (omega (arith, length-replicate {A = ℕ} 5008 7)) refl refl finish-fits finish-ours

-- A TMD of two contents, the second of which is the stub.
abbrev tmd : List ℕ
tmd =
    replicate 0x18c 0
    ++ (0 ∷ 1 ∷ 0 ∷ 1 ∷ 0x52 ∷ 0x4d ∷ 0x43 ∷ 0x58 ∷ [])
    ++ replicate 74 0
    ++ (0 ∷ 2 ∷ [])
    ++ replicate 4 0
    ++ replicate 36 0
    ++ (0 ∷ 0 ∷ 0 ∷ 1 ∷ 0 ∷ 1 ∷ 0 ∷ 1 ∷ [])
    ++ (0 ∷ 0 ∷ 0 ∷ 0 ∷ 0 ∷ 4 ∷ 0x53 ∷ 0x60 ∷ [])
    ++ stub_hash

abbrev title_start : Ioctlv
title_start = record {
  cmd = 2;
  in_count = 4;
  out_count = 0;
  vecs = record { addr = 0; bytes = tmd } ∷ [];
}

abbrev at_start : Es (List ℕ)
at_start = record installing { stub_cid = negsuc 0; stub_index = negsuc 0; stub_cfd = negsuc 0 }

abbrev or_else : EsReply (List ℕ) → Outcome (EsReply (List ℕ)) → EsReply (List ℕ)
or_else r (done a) = a
or_else r fault = r
or_else r stuck = r

abbrev reply : EsReply (List ℕ)
reply =
    or_else (record { ret = pos 1; vecs = []; state = at_start })
      (ipc_request manager engine 3 [] (Request.ioctlv_cmd title_start) at_start)

title_started :
    ipc_request manager engine 3 [] (Request.ioctlv_cmd title_start) at_start ≡ done reply
unfolding ipc_request req_ioctlv dispatch add_title_start start_channel is_miscounted find_stub
    is_stub num_contents tmd_size forward note_stub word_be64 word_be32 eq_bytes null_empty vec_at
title_started = refl

reached-IsTracked_example : IsTracked reply.state
reached-IsTracked_example = reached-IsTracked manager engine reply.state (
    Reached.next at_start 3 [] (Request.ioctlv_cmd title_start) reply
      (Reached.start at_start refl refl refl) title_started)

stub_found : reply.state.stub_index ≡ pos 1
unfolding ipc_request req_ioctlv dispatch add_title_start start_channel is_miscounted find_stub
    is_stub num_contents tmd_size forward note_stub word_be64 word_be32 eq_bytes null_empty vec_at
stub_found = refl

-- An engine that fails at every call.
abbrev broken : Engine (List ℕ)
broken = record {
  encrypt = λ w key iv xs. record { ret = negsuc 3; output = []; iv = iv; world = w };
  decrypt = λ w key iv xs. record { ret = negsuc 3; output = []; iv = iv; world = w };
}

finish-counts : is_miscounted finish 1 0 ≡ false
unfolding is_miscounted
finish-counts = refl

add_content_finish-returns_example :
    (r : EsReply (List ℕ)) × (add_content_finish manager broken 3 finish installing ≡ done r)
    × (r.state.stub_cfd ≡ negsuc 0)
    × (r.state.stub_index ≡ pos 1)
add_content_finish-returns_example =
    add_content_finish-returns manager broken 3 finish installing
      (omega (arith, length-replicate {A = ℕ} 5008 7)) finish-counts finish-fits finish-ours

abbrev identify : Ioctlv
identify = record {
  cmd = 7;
  in_count = 0;
  out_count = 1;
  vecs = record { addr = 0; bytes = 0 ∷ 0 ∷ 0 ∷ 0 ∷ [] } ∷ [];
}

identify-counts : is_miscounted identify 0 1 ≡ false
unfolding is_miscounted
identify-counts = refl

identify-fits : is_misfit (vec_at identify.vecs 0) 4 ≡ false
unfolding is_misfit vec_at
identify-fits = refl

get_device_id_lem_example :
    ((get_device_id manager engine identify installing).ret ≡ es_ok)
    × (word_be32 (vec_at (get_device_id manager engine identify installing).vecs 0).bytes ≡ 1)
get_device_id_lem_example =
    get_device_id_lem manager engine identify installing identify-counts identify-fits (omega arith)
      refl (omega arith)
