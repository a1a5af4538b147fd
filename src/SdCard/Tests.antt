-- ===== src/SdCard/Tests.antt =====
-- A card whose world is its contents, and instances of the theorems at it.
use ctgpr_msc.Base.{
  ℕ, ◌≡◌, refl, inr, arith, List, [], ◌∷◌, Bool, ◌==◌, if◌then◌else◌, take, drop, replicate,
  length-replicate,
}
use ctgpr_msc.Base.Int.{pos}
use ctgpr_msc.Base.Outcome.{done}
use ctgpr_msc.SdCard.{Sdio, Sd, initial_sd}
use ctgpr_msc.SdCard.Startup.{startup, shutdown, open_card}
use ctgpr_msc.SdCard.Sectors.{Moved, read_sectors, write_sectors}
use ctgpr_msc.SdCard.Card.{IsCard, splice, position}
use ctgpr_msc.SdCard.Reads.{ReadsZero, read_sectors_refines}
use ctgpr_msc.SdCard.Writes.{write_sectors_refines}
use ctgpr_msc.SdCard.Splices.{WritesZero}
use ctgpr_msc.SdCard.Reach.{Flags, Started, Reached, Call, startup_lem, reached_lem}
use ctgpr_msc.SdCard.Card.{IsReady, AnswersZero}

abbrev pub slot : Sdio (List ℕ)
slot = record {
  process_id = λ w. 0;
  virtual_to_physical = λ a. a;
  rw_buffer_addr = 32;
  ios_open = λ path mode w. (pos 3, w);
  ios_close = λ fd w. w;
  ioctl = λ fd code input n w. record {
    ret = pos 0;
    out = 0 ∷ 0x11 ∷ 0 ∷ 1 ∷ [];
    data_buffer = [];
    world = w;
  };
  send = λ fd req w. record { ret = pos 0; out = replicate 16 0; data_buffer = []; world = w };
  send_vector = λ fd req n bytes w. record {
    ret = pos 0;
    out = replicate 16 0;
    data_buffer = if req.cmd == 0x12 then take n (drop (position 1 req.arg) w) else bytes;
    world = if req.cmd == 0x19 then splice (position 1 req.arg) bytes w else w;
  };
  usleep = λ n w. w;
}

pub slot-IsCard : IsCard slot (λ w. w) 1
slot-IsCard = record {
  pid = λ w. refl;
  mapped = λ a h. h;
  rw_buffer_mapped = λ e. absurd (omega (arith, e));
  select_sent = λ fd req w e. (refl, refl);
  select_vector = λ fd req n bytes w e. (refl, rw e refl);
  read = λ fd req bytes w e size full inside. (refl, rw e refl, rw e refl);
  write = λ fd req bytes w e size full inside. (refl, rw e refl, rw e refl);
}

pub slot-AnswersZero : AnswersZero slot
slot-AnswersZero fd req n bytes w good = refl

abbrev pub disk : List ℕ
disk = replicate 8192 7

abbrev pub card : Sd (List ℕ)
card = record (initial_sd disk) { fd = pos 3; sdhc = 1 }

pub card-IsReady : IsReady 1 card
card-IsReady = (refl, length-replicate {A = ℕ} 5120 0)

read_sectors_refines_example :
    (m : Moved (List ℕ)) × (read_sectors slot 3 2 9 36 (replicate 5000 1) card ≡ done m)
    × ReadsZero slot 2 9 (replicate 5000 1) disk m.ret m.bytes m.sd.world
    × IsReady 1 m.sd
read_sectors_refines_example =
    read_sectors_refines slot (λ w. w) 1 slot-IsCard 3 2 9 36 (replicate 5000 1) card (omega arith)
      (λ e. absurd (omega (arith, e))) (omega arith)
      (inr (λ e. absurd (omega (arith, e)), omega arith))
      (omega (arith, length-replicate {A = ℕ} 8192 7))
      (omega (arith, length-replicate {A = ℕ} 5000 1)) card-IsReady

write_sectors_refines_example :
    (m : Moved (List ℕ)) × (write_sectors slot 3 2 9 36 (replicate 5000 1) card ≡ done m)
    × WritesZero slot 2 9 (replicate 5000 1) disk m.ret m.sd.world
    × IsReady 1 m.sd
write_sectors_refines_example =
    write_sectors_refines slot (λ w. w) 1 slot-IsCard 3 2 9 36 (replicate 5000 1) card (omega arith)
      (λ e. absurd (omega (arith, e))) (omega arith)
      (inr (λ e. absurd (omega (arith, e)), omega arith))
      (omega (arith, length-replicate {A = ℕ} 8192 7))
      (omega (arith, length-replicate {A = ℕ} 5000 1)) card-IsReady

abbrev running_card : Sd (List ℕ)
running_card = record (initial_sd disk) { initialized = 1; sdhc = 1; sdio_initialized = 1 }

startup_lem_example : (r : Bool × Sd (List ℕ)) × (startup slot running_card ≡ done r) × Started 1 r
startup_lem_example =
    startup_lem slot (λ w. refl) running_card (Flags.running (refl, refl, omega arith))

reached_lem_example : Flags (shutdown (open_card slot (initial_sd disk)).1).1
reached_lem_example =
    reached_lem slot (λ w. refl) disk (shutdown (open_card slot (initial_sd disk)).1).1
      (Reached.then_call (open_card slot (initial_sd disk)).1
        (shutdown (open_card slot (initial_sd disk)).1).1
        (Reached.then_call (initial_sd disk) (open_card slot (initial_sd disk)).1 Reached.at_first
          (Call.opens (initial_sd disk)))
        (Call.shuts (open_card slot (initial_sd disk)).1))
