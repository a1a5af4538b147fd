-- ===== src/UsbStorage/Command.antt =====
-- The command blocks of the mass storage protocol for transfers of sectors, by their fields.
use ctgpr_msc.Base.{
  ℕ, ◌+◌, ◌*◌, ◌^◌, ◌≤◌, ◌<◌, ◌≡◌, refl, List, Bool, arith, length, drop, get_or, if◌then◌else◌,
}
use ctgpr_msc.Base.Words.{word_be32}
use ctgpr_msc.UsbStorage.{word_le32, command_block, sector_command}

-- A command block of 31 bytes with a command of ten: READ(10) where `direction` is 128 and `code` 0x28,
-- WRITE(10) where they are 0 and 0x2a. The block is little-endian, the command big-endian.
pub record IsCommand (direction code tag size lun first n : ℕ) (block : List ℕ) : Type 0 where
  pub block_length : length block ≡ 31
  pub signature : word_le32 block 0 ≡ 0x43425355
  pub tag_is : word_le32 block 4 ≡ tag
  pub size_is : word_le32 block 8 ≡ size
  pub direction_is : get_or block 12 0 ≡ direction
  pub lun_is : get_or block 13 0 ≡ lun
  pub command_length : get_or block 14 0 ≡ 10
  pub code_is : get_or block 15 0 ≡ code
  pub first_is : word_be32 (drop 17 block) ≡ first
  pub count_is : 256 * get_or block 22 0 + get_or block 23 0 ≡ n

pub command_block-IsCommand :
    (is_write : Bool) (code tag size lun first n : ℕ)
    → tag < 2 ^ 32
    → size < 2 ^ 32
    → first < 2 ^ 32
    → n ≤ 65535
    → IsCommand
        (if is_write then 0 else 128)
        code
        tag
        size
        lun
        first
        n
        (command_block is_write tag size lun (sector_command code first n))
unfolding command_block sector_command word_be32
command_block-IsCommand is_write code tag size lun first n ht hs hf hn = record {
  block_length = refl;
  signature = refl;
  tag_is = omega arith;
  size_is = omega arith;
  direction_is = refl;
  lun_is = refl;
  command_length = refl;
  code_is = refl;
  first_is = omega arith;
  count_is = omega arith;
}

pub length-sector_command : (code first n : ℕ) → length (sector_command code first n) ≡ 10
unfolding sector_command
length-sector_command code first n = refl
