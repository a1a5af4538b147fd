-- ===== src/SdCard/Card.antt =====
-- SDCard.cpp against an abstract card: a resource manager that serves transfers from a sequence of
-- bytes, and what one command does on it.
use ctgpr_msc.Base.{
  ℕ, ◌+◌, ◌*◌, ◌%◌, ◌^◌, ◌≤◌, ◌<◌, ◌≡◌, ◌≢◌, refl, ◌⊎◌, inl, inr, arith, List, ◌++◌, [], Bool,
  Bool-cases, false, not, ◌||◌, ◌==◌, if◌then◌else◌, take, drop, length,
}
use ctgpr_msc.Base.Int.{pos, ℤ, is_neg}
use ctgpr_msc.Base.Outcome.{done}
use ctgpr_msc.SdCard.{Sdio, Sd, Request, send_command, command, command_ret}
use ctgpr_msc.SdCard.Sectors.{block_offset, multi_block}

-- `bytes` written over a sequence at an offset.
unfoldable pub splice : ℕ → List ℕ → List ℕ → List ℕ
splice at bytes disk = take at disk ++ (bytes ++ drop (at + length bytes) disk)

-- The position on the card that an argument stands for.
unfoldable pub position : ℕ → ℕ → ℕ
position sdhc arg = if sdhc == 0 then arg else 512 * arg

-- A resource manager with a card of a kind whose contents are `disk`, called from process 0: selecting
-- succeeds and leaves the contents, a transfer within the card succeeds and moves the bytes.
pub record IsCard {W : Type 0} (ios : Sdio W) (disk : W → List ℕ) (sdhc : ℕ) : Type 0 where
  pub pid : (w : W) → ios.process_id w ≡ 0
  pub mapped : (addr : ℕ) → addr ≢ 0 → ios.virtual_to_physical addr ≢ 0
  pub rw_buffer_mapped : ios.rw_buffer_addr ≢ 0
  pub select_sent :
      (fd : ℤ) (req : Request) (w : W)
      → req.cmd ≡ 0x07
      → (is_neg (ios.send fd req w).ret ≡ false) × (disk (ios.send fd req w).world ≡ disk w)
  pub select_vector :
      (fd : ℤ) (req : Request) (n : ℕ) (bytes : List ℕ) (w : W)
      → req.cmd ≡ 0x07
      → (is_neg (ios.send_vector fd req n bytes w).ret ≡ false)
        × (disk (ios.send_vector fd req n bytes w).world ≡ disk w)
  pub read :
      (fd : ℤ) (req : Request) (bytes : List ℕ) (w : W)
      → req.cmd ≡ 0x12
      → req.blk_size ≡ 512
      → length bytes ≡ 512 * req.blk_cnt
      → position sdhc req.arg + 512 * req.blk_cnt ≤ length (disk w)
      → (is_neg (ios.send_vector fd req (512 * req.blk_cnt) bytes w).ret ≡ false)
        × ((ios.send_vector fd req (512 * req.blk_cnt) bytes w).data_buffer
            ≡ take (512 * req.blk_cnt) (drop (position sdhc req.arg) (disk w)))
        × (disk (ios.send_vector fd req (512 * req.blk_cnt) bytes w).world ≡ disk w)
  pub write :
      (fd : ℤ) (req : Request) (bytes : List ℕ) (w : W)
      → req.cmd ≡ 0x19
      → req.blk_size ≡ 512
      → length bytes ≡ 512 * req.blk_cnt
      → position sdhc req.arg + 512 * req.blk_cnt ≤ length (disk w)
      → (is_neg (ios.send_vector fd req (512 * req.blk_cnt) bytes w).ret ≡ false)
        × ((ios.send_vector fd req (512 * req.blk_cnt) bytes w).data_buffer ≡ bytes)
        × (disk (ios.send_vector fd req (512 * req.blk_cnt) bytes w).world
            ≡ splice (position sdhc req.arg) bytes (disk w))

-- The resource manager answers a request that does not fail with 0.
abbrev pub AnswersZero : {W : Type 0} → Sdio W → Type 0
AnswersZero {W = W} ios =
    (fd : ℤ) (req : Request) (n : ℕ) (bytes : List ℕ) (w : W)
    → is_neg (ios.send_vector fd req n bytes w).ret ≡ false
    → (ios.send_vector fd req n bytes w).ret ≡ pos 0

-- Then a transfer of at least a sector ends with 0.
abbrev pub EndsZero : {W : Type 0} → Sdio W → ℕ → ℤ → Type 0
EndsZero ios n ret = AnswersZero ios → 0 < n → ret ≡ pos 0

-- Sectors that the 32-bit argument of a command can name.
abbrev pub IsInRange : ℕ → ℕ → ℕ → Type 0
IsInRange sdhc sector n =
    ((sdhc ≡ 0) × ((sector + n) * 512 < 2 ^ 32)) ⊎ ((sdhc ≢ 0) × (sector + n < 2 ^ 32))

-- The statics name the kind of the card, and `rw_buffer` has its size.
abbrev pub IsReady : {W : Type 0} → ℕ → Sd W → Type 0
IsReady sdhc s = (s.sdhc ≡ sdhc) × (length s.rw_buffer ≡ 5120)

pub position-block_offset :
    {W : Type 0} (sdhc sector n : ℕ) (s : Sd W)
    → IsInRange sdhc sector n
    → s.sdhc ≡ sdhc
    → position sdhc (block_offset sector s) ≡ 512 * sector
unfolding position block_offset
position-block_offset sdhc sector n s (inl (kind, small)) e = rw (e, kind) (omega arith)
position-block_offset sdhc sector n s (inr (kind, small)) e =
    let not_zero : (sdhc == 0) ≡ false = ground arith in rw (e, not_zero) refl

-- The request of a transfer.
abbrev pub transfer_request : {W : Type 0} → Sdio W → Bool → ℕ → ℕ → ℕ → Request
transfer_request ios is_write arg n addr = record {
  cmd = multi_block is_write;
  cmd_type = 3;
  rsp_type = 1;
  arg = arg;
  blk_cnt = n;
  blk_size = 512;
  dma_addr = ios.virtual_to_physical addr;
  isdma = 1;
}

module _ {W : Type 0} (ios : Sdio W) (disk : W → List ℕ) (sdhc : ℕ)
    (law : IsCard ios disk sdhc) where
  -- A transfer goes to the resource manager as a vector.
  pub send_command-transfer :
      (is_write : Bool) (arg n addr : ℕ) (bytes : List ℕ) (s : Sd W)
      → addr ≢ 0
      → 512 * n < 2 ^ 32
      → send_command ios (multi_block is_write) 3 1 arg n 512 addr bytes s
        ≡ done (
          ios.send_vector s.fd (transfer_request ios is_write arg n addr) (512 * n) bytes s.world,
          record s {
            world =
                (ios.send_vector s.fd
                  (transfer_request ios is_write arg n addr)
                  (512 * n)
                  bytes
                  s.world).world;
          },
        )
  unfolding send_command
  send_command-transfer is_write arg n addr bytes s some_addr small =
      let physical : (ios.virtual_to_physical addr == 0) ≡ false =
        ground (arith, law.mapped addr some_addr) in
      let size : 512 * n % 2 ^ 32 ≡ 512 * n = omega arith in
      rw (physical, law.pid s.world, size) refl

  -- The request of SELECT and of DESELECT.
  abbrev control_request : ℕ → Request
  control_request arg = record {
    cmd = 0x07;
    cmd_type = 3;
    rsp_type = 2;
    arg = arg;
    blk_cnt = 0;
    blk_size = 0;
    dma_addr = ios.virtual_to_physical 0;
    isdma = if not (ios.virtual_to_physical 0 == 0) then 1 else 0;
  }

  -- Selecting and deselecting leave the card, and all of the statics.
  pub record IsSelected (s : Sd W) (r : ℤ × Sd W) : Type 0 where
    pub good : is_neg r.0 ≡ false
    pub same : disk r.1.world ≡ disk s.world
    pub kind : r.1.sdhc ≡ s.sdhc
    pub rw_same : r.1.rw_buffer ≡ s.rw_buffer

  pub command_ret-IsSelected :
      (arg : ℕ) (s : Sd W)
      → (r : ℤ × Sd W) × (command_ret ios 0x07 3 2 arg s ≡ done r) × IsSelected s r
  unfolding command_ret command send_command
  command_ret-IsSelected arg s =
      let physical = ios.virtual_to_physical 0 in
      elim (Bool-cases (not (physical == 0) || (s.sdhc == 1))) [
        | inl vector ↦
            let req : Request = control_request arg in
            let sent = law.select_vector s.fd req 0 [] s.world refl in
            (
              (
                (ios.send_vector s.fd req 0 [] s.world).ret,
                record s { world = (ios.send_vector s.fd req 0 [] s.world).world },
              ),
              rw (vector, law.pid s.world) refl,
              record { good = sent.0; same = sent.1; kind = refl; rw_same = refl },
            )
        | inr plain ↦
            let req : Request = control_request arg in
            let sent = law.select_sent s.fd req s.world refl in
            (
              (
                (ios.send s.fd req s.world).ret,
                record s { world = (ios.send s.fd req s.world).world },
              ),
              rw (plain, law.pid s.world) refl,
              record { good = sent.0; same = sent.1; kind = refl; rw_same = refl },
            )
      ]
