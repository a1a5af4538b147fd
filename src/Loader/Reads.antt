-- ===== src/Loader/Reads.antt =====
-- ios/Loader/Loader.cpp: what the kernel reads of the module's file.
use ctgpr_msc.Base.{
  ℕ, ◌+◌, ◌≤◌, ◌<◌, ◌%◌, ◌^◌, ◌≡◌, refl, ap, ◌∙◌, arith, List, [], ◌∷◌, ◌++◌, true, false, le→ltb,
  lt→ltb,
}
use ctgpr_msc.Base.Bytes.{eq_bytes}
use ctgpr_msc.Base.Int.{ℤ, pos, s32_of, u32_of}
use ctgpr_msc.Base.Memory.{Memory, bytes_at}
use ctgpr_msc.Base.Outcome.{done, ◌>>=◌}
use ctgpr_msc.Loader.{
  Loader, Request, Reply, device_name, refuse, req_open, req_close, req_read, seek_to, req_seek,
  handle_request, file_rm,
}

-- The requests for pieces of the file: a seek to the place of each, and a read of its length.
unfoldable pub piece_requests : List (ℕ × ℕ) → List Request
piece_requests [] = []
piece_requests ((place, len) ∷ rest) =
    Request.seek_cmd (pos 0) (pos place) (pos 0)
    ∷ (Request.read_cmd (pos 0) len ∷ piece_requests rest)

-- The pieces lie within the file, and begin at places that are not negative as signed numbers.
abbrev pub Within : ℕ → List (ℕ × ℕ) → Type 0
Within size [] = Unit
Within size ((place, len) ∷ rest) = (place + len ≤ size) × (place < 2 ^ 31) × Within size rest

-- The bytes of the pieces, and the answers to their requests.
unfoldable pub piece_bytes : Memory → ℕ → List (ℕ × ℕ) → List ℕ
piece_bytes mem file_addr [] = []
piece_bytes mem file_addr ((place, len) ∷ rest) =
    bytes_at mem (file_addr + place) len ++ piece_bytes mem file_addr rest

unfoldable pub piece_answers : List (ℕ × ℕ) → List ℤ
piece_answers [] = pos 0 ∷ []
piece_answers ((place, len) ∷ rest) = pos place ∷ (s32_of len ∷ piece_answers rest)

-- What the answers put into the caller's buffers, one after the other, and their codes.
unfoldable pub answered_bytes : List Reply → List ℕ
answered_bytes [] = []
answered_bytes (r ∷ rs) = r.bytes ++ answered_bytes rs

unfoldable pub answers : List Reply → List ℤ
answers [] = []
answers (r ∷ rs) = r.ret ∷ answers rs

-- The file, open at a position.
abbrev pub opened : (size at : ℕ) → Loader
opened size at = record { is_opened = true; file_size = size; file_pos = at }

module _ (mem : Memory) (file_addr size : ℕ) where
  seek_lem :
      (place at : ℕ)
      → place < 2 ^ 31
      → handle_request mem file_addr (Request.seek_cmd (pos 0) (pos place) (pos 0)) (opened size at)
        ≡ done (record { ret = pos place; bytes = []; state = opened size place })
  unfolding handle_request req_seek seek_to refuse u32_of s32_of
  seek_lem place at small =
      let whole : place % 2 ^ 32 ≡ place = omega arith in
      rw (whole, lt→ltb place (2 ^ 31) small) refl

  read_lem :
      (len at : ℕ)
      → at + len ≤ size
      → size < 2 ^ 32
      → handle_request mem file_addr (Request.read_cmd (pos 0) len) (opened size at)
        ≡ done (record {
          ret = s32_of len;
          bytes = bytes_at mem (file_addr + at) len;
          state = opened size (at + len);
        })
  unfolding handle_request req_read
  read_lem len at fits small =
      let whole : (at + len) % 2 ^ 32 ≡ at + len = omega arith in
      rw (whole, le→ltb size (at + len) fits) refl

  -- A request after which the file is open.
  file_rm-next :
      (req : Request) (reqs : List Request) (s : Loader) (code : ℤ) (bytes : List ℕ) (at : ℕ)
      → handle_request mem file_addr req s
        ≡ done (record { ret = code; bytes = bytes; state = opened size at })
      → file_rm mem file_addr (req ∷ reqs) s ≡ (
          file_rm mem file_addr reqs (opened size at) >>= λ rest.
          done (record { ret = code; bytes = bytes; state = opened size at } ∷ rest.0, rest.1))
  unfolding file_rm
  file_rm-next req reqs s code bytes at e = rw (e, ◌>>=◌) refl

  -- The requests for the pieces, and the close that follows them.
  pieces_lem :
      (pieces : List (ℕ × ℕ)) (later : List Request) (at : ℕ)
      → Within size pieces
      → size < 2 ^ 32
      → (rs : List Reply) × (t : Loader) × (file_rm mem file_addr
            (piece_requests pieces ++ (Request.close_cmd (pos 0) ∷ later))
            (opened size at)
          ≡ done (rs, t))
        × (answered_bytes rs ≡ piece_bytes mem file_addr pieces)
        × (answers rs ≡ piece_answers pieces)
        × (t.is_opened ≡ false)
  unfolding file_rm piece_requests piece_bytes piece_answers answered_bytes answers handle_request
      req_close refuse
  pieces_lem [] later at fits small = (_, _, refl, refl, refl, refl)
  pieces_lem ((place, len) ∷ rest) later at (inside, low, others) small =
      let after = piece_requests rest ++ (Request.close_cmd (pos 0) ∷ later) in
      let (rs, t, e, bytes, codes, closed) = pieces_lem rest later (place + len) others small in
      let seek = Request.seek_cmd (pos 0) (pos place) (pos 0) in
      let read = Request.read_cmd (pos 0) len in
      let sought =
        file_rm-next seek (read ∷ after) (opened size at) _ _ place (seek_lem place at low) in
      let got =
        file_rm-next read after (opened size place) _ _ (place + len)
          (read_lem len place inside small) in
      let first : Reply = record { ret = pos place; bytes = []; state = opened size place } in
      let second : Reply = record {
        ret = s32_of len;
        bytes = bytes_at mem (file_addr + place) len;
        state = opened size (place + len);
      } in
      (
        first ∷ (second ∷ rs),
        t,
        sought ∙ rw (got) (rw (e, ◌>>=◌) refl),
        ap (λ bs. bytes_at mem (file_addr + place) len ++ bs) bytes,
        ap (λ cs. pos place ∷ (s32_of len ∷ cs)) codes,
        closed,
      )

  -- The launch of the module: the file is opened for reading, pieces of it are read, each after a seek to
  -- its place, and it is closed. Where the pieces lie within a file of less than 2^32 bytes and begin below
  -- 2^31, every request succeeds, with the place or the length of its piece for an answer, the
  -- buffers get the bytes of the pieces, and the thread ends with the close, whatever requests come
  -- later.
  pub file_rm_lem :
      (pieces : List (ℕ × ℕ)) (later : List Request) (at : ℕ)
      → Within size pieces
      → size < 2 ^ 32
      → (rs : List Reply) × (t : Loader) × (file_rm mem file_addr
            (Request.open_cmd device_name 1
              ∷ (piece_requests pieces ++ (Request.close_cmd (pos 0) ∷ later)))
            (record { is_opened = false; file_size = size; file_pos = at })
          ≡ done (rs, t))
        × (answered_bytes rs ≡ piece_bytes mem file_addr pieces)
        × (answers rs ≡ pos 0 ∷ piece_answers pieces)
        × (t.is_opened ≡ false)
  unfolding answered_bytes answers handle_request req_open refuse eq_bytes
  file_rm_lem pieces later at fits small =
      let (rs, t, e, bytes, codes, closed) = pieces_lem pieces later at fits small in
      let first : Reply = record { ret = pos 0; bytes = []; state = opened size at } in
      (
        first ∷ rs,
        t,
        file_rm-next (Request.open_cmd device_name 1)
              (piece_requests pieces ++ (Request.close_cmd (pos 0) ∷ later))
              (record { is_opened = false; file_size = size; file_pos = at }) (pos 0) [] at refl
            ∙ rw (e, ◌>>=◌) refl,
        bytes,
        ap (λ cs. pos 0 ∷ cs) codes,
        closed,
      )
