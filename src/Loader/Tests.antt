-- ===== src/Loader/Tests.antt =====
-- A launch from a file of 600 bytes, of which two pieces are read.
use ctgpr_msc.Base.{ℕ, ◌%◌, ◌≡◌, arith, List, [], ◌∷◌, ◌++◌, false}
use ctgpr_msc.Base.Int.{pos}
use ctgpr_msc.Base.Outcome.{done}
use ctgpr_msc.Loader.{Loader, Request, Reply, device_name, file_rm}
use ctgpr_msc.Loader.Reads.{
  piece_requests, piece_bytes, piece_answers, answered_bytes, answers, file_rm_lem,
}

abbrev memory : ℕ → ℕ
memory at = at % 256

abbrev pieces : List (ℕ × ℕ)
pieces = (0, 52) ∷ ((300, 300) ∷ [])

file_rm_lem_example :
    (rs : List Reply) × (t : Loader) × (file_rm memory 0x11000020
        (Request.open_cmd device_name 1
          ∷ (piece_requests pieces ++ (Request.close_cmd (pos 0) ∷ [])))
        (record { is_opened = false; file_size = 600; file_pos = 0 })
      ≡ done (rs, t))
    × (answered_bytes rs ≡ piece_bytes memory 0x11000020 pieces)
    × (answers rs ≡ pos 0 ∷ piece_answers pieces)
    × (t.is_opened ≡ false)
file_rm_lem_example =
    file_rm_lem memory 0x11000020 600 pieces [] 0
      (omega arith, omega arith, (omega arith, omega arith, tt)) (omega arith)
