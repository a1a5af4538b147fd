-- ===== src/Blob/Launch.antt =====
-- ios/CTGP/Blob.cpp: `LaunchDOL` and `LaunchMainDOL`, which load an executable into memory.
use ctgpr_msc.Base.{
  ℕ, zero, suc, ◌+◌, ◌*◌, ◌/◌, ◌%◌, ◌^◌, List, [], ◌∷◌, ◌++◌, Bool, true, false, not, ◌&&◌, ◌||◌,
  ltb, leb, ◌==◌, if◌then◌else◌, length, drop,
}
use ctgpr_msc.Base.Int.{ℤ}
use ctgpr_msc.Base.Memory.{Memory, store}
use ctgpr_msc.Base.Words.{bytes_be32, word_be32, drive_path}
use ctgpr_msc.FatFs.{FatFs, fr_ok, fa_read}
use ctgpr_msc.Blob.{Blob}

-- `memset` with 0.
unfoldable pub clear : ℕ → ℕ → Memory → Memory
clear at n mem = λ a. if leb at a && ltb a (at + n) then 0 else mem a

-- `addr & 0x7FFFFFFF`
abbrev pub physical : ℕ → ℕ
physical addr = addr % 2 ^ 31

-- `round_up(n, 32)` in 32 bits.
unfoldable pub round_up_32 : ℕ → ℕ
round_up_32 n = (n + 31) % 2 ^ 32 / 32 * 32

abbrev pub boot_data : List ℕ
boot_data =
    0x63 ∷ 0x56 ∷ 0xEF ∷ 0xA4 ∷ 0xF6 ∷ 0xE3 ∷ 0x9A ∷ 0xFC ∷ 0x59 ∷ 0xB6 ∷ 0x5E ∷ 0xC9 ∷ 0xAB ∷ 0xE7
    ∷ 0xFF ∷ 0x0A ∷ 0x6E ∷ 0x13 ∷ 0xEF ∷ 0xDF ∷ 0xA4 ∷ 0x2B ∷ 0x75 ∷ 0x34 ∷ 0x25 ∷ 0x49 ∷ 0x98
    ∷ 0xA7 ∷ 0x08 ∷ 0xF4 ∷ 0x41 ∷ 0xFB ∷ 0xE5 ∷ 0x57 ∷ 0x5A ∷ 0xB6 ∷ 0x59 ∷ 0x87 ∷ 0x7D ∷ 0xE0
    ∷ 0x18 ∷ 0xF8 ∷ 0x2D ∷ 0x95 ∷ 0x57 ∷ 0x5E ∷ 0x29 ∷ 0xFE ∷ 0x9A ∷ 0xA0 ∷ 0xDB ∷ 0x78 ∷ 0x45
    ∷ 0x68 ∷ 0x75 ∷ 0xC4 ∷ 0x45 ∷ 0xFB ∷ 0x1E ∷ 0xE3 ∷ 0x62 ∷ 0x57 ∷ 0x57 ∷ 0xE7 ∷ 0xEE ∷ 0x00
    ∷ 0x2B ∷ 0xA2 ∷ 0xE4 ∷ 0x77 ∷ 0x6F ∷ 0x60 ∷ 0x40 ∷ 0x55 ∷ 0x62 ∷ 0x0B ∷ 0x73 ∷ 0xCB ∷ 0x5D
    ∷ 0xA4 ∷ 0x88 ∷ 0xE3 ∷ 0x7D ∷ 0x61 ∷ 0x1C ∷ 0xE5 ∷ 0xBE ∷ 0x14 ∷ 0x3D ∷ 0x98 ∷ 0x0C ∷ 0x15
    ∷ 0x0E ∷ 0x0F ∷ 0x64 ∷ 0x9A ∷ 0x29 ∷ 0x72 ∷ 0x31 ∷ 0xBA ∷ 0x35 ∷ 0x2E ∷ 0x33 ∷ 0xB5 ∷ 0x05
    ∷ 0xF1 ∷ 0x07 ∷ 0x8C ∷ 0x5C ∷ 0xDD ∷ 0xCA ∷ 0xDF ∷ 0x48 ∷ 0xE0 ∷ 0xE5 ∷ 0xE9 ∷ 0x9D ∷ 0x3D
    ∷ 0x7F ∷ 0xC4 ∷ 0x03 ∷ 0x0D ∷ 0x5C ∷ 0x22 ∷ 0x03 ∷ 0x52 ∷ 0xB8 ∷ 0x96 ∷ []

-- The words of `DOL`, in the bytes of the header.
unfoldable pub header_word : List ℕ → ℕ → ℕ
header_word dol i = word_be32 (drop (4 * i) dol)

abbrev pub section_count : ℕ
section_count = 18

abbrev pub sect : List ℕ → ℕ → ℕ
sect dol i = header_word dol i

abbrev pub sect_addr : List ℕ → ℕ → ℕ
sect_addr dol i = header_word dol (18 + i)

abbrev pub sect_size : List ℕ → ℕ → ℕ
sect_size dol i = header_word dol (36 + i)

abbrev pub bss_addr : List ℕ → ℕ
bss_addr dol = header_word dol 54

abbrev pub bss_size : List ℕ → ℕ
bss_size dol = header_word dol 55

abbrev pub entry_point : List ℕ → ℕ
entry_point dol = header_word dol 56

-- The end of `LaunchDOL`: the entry point and the boot data.
unfoldable pub finish : List ℕ → Memory → Memory
finish dol mem =
    store 0x1000 boot_data (clear 0x1000 0x100 (store 0x3400 (bytes_be32 (entry_point dol)) mem))

-- What a load leaves: whether it succeeded, the file, the memory and the disks.
pub record Load (W F : Type 0) : Type 0 where
  pub good : Bool
  pub fil : F
  pub memory : Memory
  pub world : W

-- What `LaunchMainDOL` reaches: `FIL::cltbl` with the size in its first element, `CREATE_LINKMAP`,
-- `IPCLog::Notify`, and a `FIL` that is not initialised.
pub record Boot (W F : Type 0) : Type 0 where
  pub set_cltbl : F → ℕ → F
  pub create_linkmap : ℕ
  pub notify : W → ℕ → W
  pub new_fil : F

-- What `LaunchMainDOL` leaves: its result, the object, `g_emuDevId`, the memory and the disks.
pub record Launch (W F : Type 0) : Type 0 where
  pub good : Bool
  pub blob : Blob F
  pub emu_dev_id : ℤ
  pub memory : Memory
  pub world : W

module _ {W F : Type 0} (fs : FatFs W F) where
  -- Seeking to a section and reading it.
  unfoldable pub load_section : List ℕ → ℕ → Load W F → Load W F
  load_section dol i l =
      let sought = fs.f_lseek l.world l.fil (sect dol i) in
      let r = fs.f_read sought.world sought.fil (sect_size dol i) in
      if not (sought.ret == fr_ok)
      then record l { good = false; fil = sought.fil; world = sought.world }
      else record {
        good = r.ret == fr_ok;
        fil = r.fil;
        memory = store (physical (sect_addr dol i)) r.bytes l.memory;
        world = r.world;
      }

  -- The loop of `LaunchDOL` over `n` sections from section `i` on.
  unfoldable pub load_sections : ℕ → ℕ → List ℕ → Load W F → Load W F
  load_sections zero i dol l = l
  load_sections (suc n) i dol l =
      let next = if sect_size dol i == 0 then l else load_section dol i l in
      elim next.good [ false ↦ next | true ↦ load_sections n (i + 1) dol next ]

  -- `Blob::LaunchDOL`; `stale` are the bytes of `dol` before it is read.
  unfoldable pub launch_dol : Bool → List ℕ → F → Memory → W → Load W F
  launch_dol stub_mode stale fil mem w =
      let r = fs.f_read w fil 0x100 in
      let dol = r.bytes ++ drop (length r.bytes) stale in
      let cleared = clear (physical (bss_addr dol)) (round_up_32 (bss_size dol)) mem in
      let loaded =
        load_sections (if stub_mode then 1 else section_count) 0 dol
          (record { good = true; fil = r.fil; memory = cleared; world = r.world }) in
      if not (r.ret == fr_ok) || not (sect dol 0 == 0x100)
      then record { good = false; fil = r.fil; memory = mem; world = r.world }
      else record loaded {
        memory = if loaded.good then finish dol loaded.memory else loaded.memory;
      }

  module _ (boot : Boot W F) where
    -- The part on stub.dol, whose result is not used: the file, the patched memory and the disks.
    unfoldable pub launch_stub : List ℕ → F → Memory → W → Load W F
    launch_stub stale fil mem w =
        let l = launch_dol true stale fil mem w in
        let closed = fs.f_close l.world l.fil in
        record {
          good = l.good;
          fil = closed.fil;
          memory =
              store 0x9ea0 (bytes_be32 0x4e800020) (store 0x9e98 (bytes_be32 0x4e800020) l.memory);
          world = closed.world;
        }

    -- The part on main.dol, with its link map.
    unfoldable pub launch_main : List ℕ → F → Memory → W → Load W F
    launch_main stale fil mem w =
        let sought = fs.f_lseek w (boot.set_cltbl fil 0x100) boot.create_linkmap in
        let l = launch_dol false stale sought.fil mem sought.world in
        let closed = fs.f_close l.world l.fil in record l { fil = closed.fil; world = closed.world }

    -- `Blob::LaunchMainDOL`
    unfoldable pub launch_main_dol : List ℕ → ℕ → Blob F → ℤ → Memory → W → Launch W F
    launch_main_dol stale dev_id blob emu_dev_id mem w =
        let linked = fs.f_lseek w (boot.set_cltbl blob.fil 0x1000) boot.create_linkmap in
        let opened = record blob { fil = linked.fil } in
        let stub_file =
          fs.f_open linked.world boot.new_fil (drive_path dev_id ":/packages/chan/stub.dol")
            fa_read in
        let stub = launch_stub stale stub_file.fil mem stub_file.world in
        let main_file =
          fs.f_open stub.world stub.fil (drive_path dev_id ":/packages/chan/main.dol") fa_read in
        let main = launch_main stale main_file.fil stub.memory main_file.world in
        if not blob.opened
        then record { good = false; blob = blob; emu_dev_id = emu_dev_id; memory = mem; world = w }
        else if not (stub_file.ret == fr_ok)
        then record {
          good = false;
          blob = opened;
          emu_dev_id = emu_dev_id;
          memory = mem;
          world = stub_file.world;
        }
        else if not (main_file.ret == fr_ok)
        then record {
          good = false;
          blob = opened;
          emu_dev_id = emu_dev_id;
          memory = stub.memory;
          world = main_file.world;
        }
        else record {
          good = main.good;
          blob = opened;
          emu_dev_id = if main.good then blob.dev_id else emu_dev_id;
          memory = main.memory;
          world = if main.good then boot.notify main.world 0 else main.world;
        }
