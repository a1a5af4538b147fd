-- ===== src/EmuEs.antt =====
-- ios/IOS/EmuES.cpp: the stand-in for /dev/es. Its state, the calls it makes, and how tickets and TMDs
-- lie in memory.
pub mod Titles
pub mod Requests
pub mod Swap
pub mod Tracked
pub mod Install
pub mod Reach
pub mod Returns
pub mod Identity
mod Tests
use ctgpr_msc.Base.{
  ℕ, zero, suc, ◌+◌, ◌-◌, ◌*◌, ◌/◌, ◌%◌, ◌^◌, ◌≡◌, List, [], ◌∷◌, ◌++◌, Bool, true, false, not,
  ◌||◌, ◌&&◌, ltb, leb, ◌==◌, if◌then◌else◌, Option, none, some, length, take, drop, get_or, set,
  replicate,
}
use ctgpr_msc.Base.Int.{ℤ, pos, negsuc, is_neg, eq_ℤ, s32_of, u32_of}
use ctgpr_msc.Base.Words.{bytes_be32, word_be32, low_bits, shr, aligned}
use ctgpr_msc.Base.Bytes.{eq_bytes}
use ctgpr_msc.Base.Outcome.{Outcome, done, stuck, ◌>>=◌, ◌>>◌, assert}
use ctgpr_msc.Aes
use ctgpr_msc.Aes.{Engine}

-- `ESError`, the codes that this file returns itself.
abbrev pub es_ok : ℤ
es_ok = pos 0

abbrev pub es_invalid : ℤ
es_invalid = negsuc 1016

abbrev pub ios_not_installed : ℤ
ios_not_installed = negsuc 1035

-- `CTGPR_CHANNEL_ID`
abbrev pub channel_id : ℕ
channel_id = 0x00010001524d4358

-- `IOS::Vector`
pub record Vec : Type 0 where
  pub addr : ℕ
  pub bytes : List ℕ

-- A request of the kind ioctlv: the code, the two counts and the vectors.
pub record Ioctlv : Type 0 where
  pub cmd : ℕ
  pub in_count : ℕ
  pub out_count : ℕ
  pub vecs : List Vec

-- The calls of the real /dev/es and of the console, and the executable with its hash. `ioctlv` is
-- told whether `skipSignCheck` is set.
pub record EsManager (W : Type 0) : Type 0 where
  pub ioctlv : Bool → Ioctlv → W → ℤ × List Vec × W
  pub add_content_data : ℤ → List ℕ → W → ℤ × W
  pub get_device_id : W → ℤ × ℕ × W
  pub launch_title : ℕ → List ℕ → W → ℤ × W
  pub get_num_ticket_views : ℕ → W → ℤ × ℕ × W
  pub get_ticket_views : ℕ → ℕ → W → ℤ × List ℕ × W
  pub close_all_ppc : Bool → W → W
  pub open_stm : W → ℤ × W
  pub ioctl_stm : ℤ → ℕ → W → W
  pub close_stm : ℤ → W → W
  pub hid_reload : W → W
  pub poke : ℕ → ℕ → W → W
  pub clear_mem1 : W → W
  pub usleep : ℕ → W → W
  pub is_wii_u : Bool
  pub dol_data : List ℕ
  pub dol_hash : List ℕ

-- The statics of the file that the requests use, `m_blockIOSReload` and the world.
pub record Es (W : Type 0) : Type 0 where
  pub title_key : List ℕ
  pub ticket_added : Bool
  pub stub_cid : ℤ
  pub stub_index : ℤ
  pub stub_cfd : ℤ
  pub block_ios_reload : Bool
  pub world : W

-- What a request leaves: its answer, its vectors and the state.
pub record EsReply (W : Type 0) : Type 0 where
  pub ret : ℤ
  pub vecs : List Vec
  pub state : Es W

unfoldable pub vec_at : List Vec → ℕ → Vec
vec_at vecs i = get_or vecs i (record { addr = 0; bytes = [] })

-- Counts of vectors that are not those of a request.
unfoldable pub is_miscounted : Ioctlv → ℕ → ℕ → Bool
is_miscounted req ins outs = not (req.in_count == ins) || not (req.out_count == outs)

-- A vector that is not of a size, or not aligned to words.
unfoldable pub is_misfit : Vec → ℕ → Bool
is_misfit v size = not (length v.bytes == size) || not (aligned v.addr 4)

-- A doubleword in memory, and one that is stored.
unfoldable pub word_be64 : List ℕ → ℕ
word_be64 bytes = word_be32 bytes * 2 ^ 32 + word_be32 (drop 4 bytes)

unfoldable pub bytes_be64 : ℕ → List ℕ
bytes_be64 w = bytes_be32 (w / 2 ^ 32) ++ bytes_be32 (w % 2 ^ 32)

-- Bytes put over others from an offset on.
unfoldable pub overwrite : ℕ → List ℕ → List ℕ → List ℕ
overwrite at bytes xs = take at xs ++ (bytes ++ drop (at + length bytes) xs)

-- `ES::Ticket` and `ES::TMD` in bytes.
abbrev pub ticket_size : ℕ
ticket_size = 0x2a4

abbrev pub header_size : ℕ
header_size = 0x1e4

unfoldable pub num_contents : List ℕ → ℕ
num_contents tmd = word_be32 (drop 0x1dc tmd) % 2 ^ 16

unfoldable pub tmd_size : List ℕ → ℕ
tmd_size tmd = header_size + 36 * num_contents tmd

abbrev pub content_at : ℕ → ℕ
content_at i = header_size + 36 * i

abbrev pub stub_hash : List ℕ
stub_hash =
    0x8c ∷ 0xe9 ∷ 0xa8 ∷ 0xcd ∷ 0x74 ∷ 0xc0 ∷ 0x16 ∷ 0xfb ∷ 0xfd ∷ 0xfa ∷ 0x5f ∷ 0xee ∷ 0x09 ∷ 0x9a
    ∷ 0xd9 ∷ 0xff ∷ 0xfc ∷ 0xac ∷ 0x6e ∷ 0x84 ∷ []

abbrev pub stub_size : ℕ
stub_size = 0x45360

unfoldable pub is_stub : List ℕ → ℕ → Bool
is_stub tmd i =
    (word_be64 (drop (content_at i + 8) tmd) == stub_size)
    && eq_bytes (take 20 (drop (content_at i + 16) tmd)) stub_hash

-- The search for the stub among `n` contents from content `i` on.
unfoldable pub find_stub : ℕ → ℕ → List ℕ → Option ℕ
find_stub zero i tmd = none
find_stub (suc n) i tmd = if is_stub tmd i then some i else find_stub n (i + 1) tmd

-- The key for the title key of a ticket.
abbrev pub ticket_key : List ℕ
ticket_key =
    0xeb ∷ 0xe4 ∷ 0x2a ∷ 0x22 ∷ 0x5e ∷ 0x85 ∷ 0x93 ∷ 0xe4 ∷ 0x48 ∷ 0xd9 ∷ 0xc5 ∷ 0x45 ∷ 0x73 ∷ 0x81
    ∷ 0xaa ∷ 0xf7 ∷ []

-- `WriteSize`
abbrev pub write_size : ℕ
write_size = 0x1000

-- The IV of the stub: its index.
unfoldable pub stub_iv : ℤ → List ℕ
stub_iv index = low_bits (shr (u32_of index) 8) 8 ∷ low_bits (u32_of index) 8 ∷ replicate 14 0

module _ {W : Type 0} where
  unfoldable pub refuse : ℤ → List Vec → Es W → EsReply W
  refuse code vecs s = record { ret = code; vecs = vecs; state = s }

  -- The end of `AddTicket`: the flag is set whatever the call answered.
  unfoldable pub note_ticket : EsReply W → EsReply W
  note_ticket r = record r { state = record r.state { ticket_added = true } }

  -- The stub, as `AddTitleStart` keeps it and writes it into its copy of the TMD.
  unfoldable pub note_stub : List ℕ → Option ℕ → Es W → Es W
  note_stub tmd none s = s
  note_stub tmd (some i) s = record s {
    stub_index = pos i;
    stub_cid = s32_of (word_be32 (drop (content_at i) tmd));
  }

  -- The end of `AddContentStart`: the descriptor of the stub is kept.
  unfoldable pub note_cfd : EsReply W → EsReply W
  note_cfd r =
      let cid = word_be32 (vec_at r.vecs 1).bytes in
      if not (eq_ℤ r.state.stub_cid (negsuc 0)) && (cid == u32_of r.state.stub_cid)
      then (if cid == 0
          then record r { ret = es_invalid }
          else if is_neg r.ret
          then r
          else record r { state = record r.state { stub_cfd = r.ret } })
      else r

  -- Whether a descriptor is the stub's.
  unfoldable pub is_stub_cfd : ℤ → Es W → Bool
  is_stub_cfd cfd s = not (eq_ℤ s.stub_cfd (negsuc 0)) && eq_ℤ cfd s.stub_cfd

-- The descriptor in the first vector.
abbrev pub cfd_of : Ioctlv → ℤ
cfd_of req = s32_of (word_be32 (vec_at req.vecs 0).bytes)

unfoldable pub patch_stub : List ℕ → ℕ → Option ℕ → List ℕ → List ℕ
patch_stub hash size none tmd = tmd
patch_stub hash size (some i) tmd =
    overwrite (content_at i + 8) (bytes_be64 size) (overwrite (content_at i + 16) hash tmd)
