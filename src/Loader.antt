-- ===== src/Loader.antt =====
-- ios/Loader/Loader.cpp: the file "/dev/sao_loader", which the kernel launches the module from. The
-- statics of the file are a record; the file's bytes lie in memory from `gFileAddr` on.
pub mod Reads
mod Tests
use ctgpr_msc.Base.{
  ℕ, zero, suc, ◌+◌, ◌%◌, ◌^◌, List, [], ◌∷◌, Bool, true, false, not, ltb, ◌==◌, if◌then◌else◌,
  ◌++◌,
}
use ctgpr_msc.Base.Bytes.{eq_bytes}
use ctgpr_msc.Base.Int.{ℤ, pos, negsuc, eq_ℤ, s32_of, u32_of}
use ctgpr_msc.Base.Memory.{Memory, bytes_at}
use ctgpr_msc.Base.Outcome.{Outcome, done, ◌>>=◌, ◌>>◌, assert}
use ctgpr_msc.Base.Words.{add_u32, bytes_be32}

-- `DEVICE_NAME`
abbrev pub device_name : List ℕ
device_name =
    0x2f ∷ 0x64 ∷ 0x65 ∷ 0x76 ∷ 0x2f ∷ 0x73 ∷ 0x61 ∷ 0x6f ∷ 0x5f ∷ 0x6c ∷ 0x6f ∷ 0x61 ∷ 0x64 ∷ 0x65
    ∷ 0x72 ∷ []

-- `IOSError::NotFound`, and the codes of `ISFSError`.
abbrev pub not_found : ℤ
not_found = negsuc 5

abbrev pub isfs_invalid : ℤ
isfs_invalid = negsuc 100

abbrev pub no_access : ℤ
no_access = negsuc 101

abbrev pub locked : ℤ
locked = negsuc 110

-- `gIsOpened`, `gFileSize` and `gFilePos`.
pub record Loader : Type 0 where
  pub is_opened : Bool
  pub file_size : ℕ
  pub file_pos : ℕ

-- `IOSRequest`, as far as `HandleRequest` reads it.
pub data Request : Type 0 where
  open_cmd : (path : List ℕ) (mode : ℕ) → Request
  close_cmd : (fd : ℤ) → Request
  read_cmd : (fd : ℤ) (len : ℕ) → Request
  write_cmd : (fd : ℤ) (bytes : List ℕ) → Request
  seek_cmd : (fd : ℤ) (place : ℤ) (whence : ℤ) → Request
  ioctl_cmd : (fd : ℤ) (cmd io_len : ℕ) → Request
  other_cmd : Request

-- What a request leaves: its answer, the bytes that it writes into the caller's buffer, and the state.
pub record Reply : Type 0 where
  pub ret : ℤ
  pub bytes : List ℕ
  pub state : Loader

unfoldable pub refuse : ℤ → Loader → Reply
refuse code s = record { ret = code; bytes = []; state = s }

-- `ReqOpen`
unfoldable pub req_open : List ℕ → ℕ → Loader → Reply
req_open path mode s =
    if not (eq_bytes path device_name)
    then refuse not_found s
    else if s.is_opened
    then refuse locked s
    else if not (mode == 1)
    then refuse isfs_invalid s
    else refuse (pos 0) (record s { is_opened = true })

-- `LOADER_ASSERT(fd == 0)`
abbrev pub on_fd : ℤ → Reply → Outcome Reply
on_fd fd r = assert (eq_ℤ fd (pos 0)) >> done r

-- `ReqClose`
unfoldable pub req_close : ℤ → Loader → Outcome Reply
req_close fd s = on_fd fd (refuse (pos 0) (record s { is_opened = false }))

module _ (mem : Memory) (file_addr : ℕ) where
  -- `ReqRead`; the sum with the position is of 32 bits.
  unfoldable pub req_read : ℤ → ℕ → Loader → Outcome Reply
  req_read fd len s = on_fd fd (
      if ltb s.file_size (add_u32 s.file_pos len) then refuse isfs_invalid s else record {
        ret = s32_of len;
        bytes = bytes_at mem (file_addr + s.file_pos) len;
        state = record s { file_pos = add_u32 s.file_pos len };
      })

-- `ReqWrite`
unfoldable pub req_write : ℤ → List ℕ → Loader → Outcome Reply
req_write fd bytes s = on_fd fd (refuse no_access s)

-- A seek to a position, which is also the answer.
unfoldable pub seek_to : ℕ → Loader → Reply
seek_to at s = refuse (s32_of at) (record s { file_pos = at })

-- `ReqSeek`
unfoldable pub req_seek : ℤ → ℤ → ℤ → Loader → Outcome Reply
req_seek fd place whence s = on_fd fd (
    if eq_ℤ whence (pos 0)
    then seek_to (u32_of place) s
    else if eq_ℤ whence (pos 1)
    then seek_to (add_u32 s.file_pos (u32_of place)) s
    else if eq_ℤ whence (pos 2)
    then seek_to (add_u32 s.file_size (u32_of place)) s
    else refuse isfs_invalid s)

-- `ReqIoctl`: `GetFileStats`, of code 11.
unfoldable pub req_ioctl : ℤ → ℕ → ℕ → Loader → Outcome Reply
req_ioctl fd cmd io_len s = on_fd fd (
    if not (cmd == 11)
    then refuse isfs_invalid s
    else if ltb io_len 8
    then refuse isfs_invalid s
    else record { ret = pos 0; bytes = bytes_be32 s.file_size ++ bytes_be32 s.file_pos; state = s })

module _ (mem : Memory) (file_addr : ℕ) where
  -- `HandleRequest`
  unfoldable pub handle_request : Request → Loader → Outcome Reply
  handle_request (Request.open_cmd path mode) s = done (req_open path mode s)
  handle_request (Request.close_cmd fd) s = req_close fd s
  handle_request (Request.read_cmd fd len) s = req_read mem file_addr fd len s
  handle_request (Request.write_cmd fd bytes) s = req_write fd bytes s
  handle_request (Request.seek_cmd fd place whence) s = req_seek fd place whence s
  handle_request (Request.ioctl_cmd fd cmd io_len) s = req_ioctl fd cmd io_len s
  handle_request Request.other_cmd s = done (refuse isfs_invalid s)

  -- The loop of `FileRMThreadEntry` over the requests that come: the answers, and the state. It ends
  -- with the first request that leaves the file closed.
  unfoldable pub file_rm : List Request → Loader → Outcome (List Reply × Loader)
  file_rm [] s = done ([], s)
  file_rm (req ∷ reqs) s = handle_request req s >>= λ r. (elim r.state.is_opened [
    | false ↦ done (r ∷ [], r.state)
    | true ↦ file_rm reqs r.state >>= λ rest. done (r ∷ rest.0, rest.1)
  ])
