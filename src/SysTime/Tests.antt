-- ===== src/SysTime/Tests.antt =====
-- A clock whose register wraps around between two rounds.
use ctgpr_msc.Base.{ℕ, ◌+◌, ◌-◌, ◌*◌, ◌/◌, ◌%◌, ◌^◌, ◌<◌, ◌≡◌, arith, [], ◌∷◌, false}
use ctgpr_msc.SysTime.{Clock, set_time, get_time, timer_rounds}
use ctgpr_msc.SysTime.Drift.{wraps, get_time_lem}

abbrev fresh : Clock
fresh = record {
  timer_started = false;
  timer_index = 0;
  base_epoch = 0;
  ctx_0 = record { timer = 0; tick = 0 };
  ctx_1 = record { timer = 0; tick = 0 };
}

get_time_lem_example :
    (count : ℕ) × (get_time (9000000000 % 2 ^ 32) (
        timer_rounds
          (3000000000 ∷ (6000000000 ∷ []))
          (set_time (2000000000 % 2 ^ 32) 1700000000 fresh).0)
      ≡ (1700000000 + count / 1898614) % 2 ^ 64)
    × (count < 2 ^ 64)
    × ((count + wraps 2000000000 9000000000 * (2 ^ 32 + 1)) % 2 ^ 64
        ≡ (9000000000 - 2000000000) % 2 ^ 64)
get_time_lem_example =
    get_time_lem (3000000000 ∷ (6000000000 ∷ [])) 2000000000 9000000000 1700000000 fresh
      (omega arith, omega arith, (omega arith, omega arith, (omega arith, omega arith)))
