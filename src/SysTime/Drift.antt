-- ===== src/SysTime/Drift.antt =====
-- The clock of System.cpp against a count without a bound.
use ctgpr_msc.Base.{
  ℕ, ◌+◌, ◌-◌, ◌*◌, ◌/◌, ◌%◌, ◌^◌, ◌≤◌, ◌<◌, ◌≡◌, refl, ap, ◌∙◌, inl, inr, arith, List, [], ◌∷◌,
  Bool-cases, ltb, ltb→lt, ltb→le, ◌==◌,
}
use ctgpr_msc.SysTime.{
  Clock, current, set_ctx, diff_ticks, timer_round, set_time, get_time, timer_rounds,
}

-- The times of the rounds, and that of a reading after them, do not go back, and between two of them
-- the register does not go all the way round.
abbrev pub IsSpaced : ℕ → List ℕ → ℕ → Type 0
IsSpaced from [] at = (from ≤ at) × (at < from + 2 ^ 32)
IsSpaced from (t ∷ ts) at = (from ≤ t) × (t < from + 2 ^ 32) × IsSpaced t ts at

-- How often the register has wrapped around between two times.
abbrev pub wraps : ℕ → ℕ → ℕ
wraps from at = at / 2 ^ 32 - from / 2 ^ 32

diff_ticks_lem :
    (from at : ℕ)
    → from ≤ at
    → at < from + 2 ^ 32
    → (diff_ticks (from % 2 ^ 32) (at % 2 ^ 32) + wraps from at * (2 ^ 32 + 1)) % 2 ^ 64
      ≡ (at - from) % 2 ^ 64
unfolding diff_ticks
diff_ticks_lem from at after near = elim (Bool-cases (ltb (at % 2 ^ 32) (from % 2 ^ 32))) [
  | inl around ↦ rw around (omega (arith, ltb→lt (at % 2 ^ 32) (from % 2 ^ 32) around))
  | inr straight ↦ rw straight (omega (arith, ltb→le (at % 2 ^ 32) (from % 2 ^ 32) straight))
]

-- The count of the clock at a time: the ticks since `start`, less a lag for each wrap.
abbrev pub Counts : (start at count : ℕ) → Type 0
Counts start at count = (count + wraps start at * (2 ^ 32 + 1)) % 2 ^ 64 ≡ (at - start) % 2 ^ 64

-- What is counted from one time to another.
count_on :
    (start from at count : ℕ)
    → start ≤ from
    → from ≤ at
    → at < from + 2 ^ 32
    → Counts start from count
    → Counts start at ((count + diff_ticks (from % 2 ^ 32) (at % 2 ^ 32)) % 2 ^ 64)
count_on start from at count h after near so_far =
    let more = diff_ticks_lem from at after near in
    let split : wraps start at ≡ wraps start from + wraps from at = omega arith in
    rw split (omega arith)

-- The place in use after a round, and after the time is set.
timer_round-current :
    (timer : ℕ) (c : Clock)
    → current (timer_round timer c) ≡ record {
      timer = timer;
      tick = ((current c).tick + diff_ticks (current c).timer timer) % 2 ^ 64;
    }
unfolding timer_round current set_ctx
timer_round-current timer c = elim (Bool-cases (c.timer_index == 0)) [
  | inl e ↦ simp (e) refl
  | inr e ↦ simp (e) refl
]

timer_round-epoch : (timer : ℕ) (c : Clock) → (timer_round timer c).base_epoch ≡ c.base_epoch
unfolding timer_round set_ctx
timer_round-epoch timer c = elim (Bool-cases (c.timer_index == 0)) [
  | inl e ↦ simp (e) refl
  | inr e ↦ simp (e) refl
]

set_time-current :
    (timer epoch : ℕ) (c : Clock)
    → current (set_time timer epoch c).0 ≡ record { timer = timer; tick = 0 }
unfolding set_time current set_ctx
set_time-current timer epoch c = elim (Bool-cases (c.timer_index == 0)) [
  | inl e ↦ simp (e) refl
  | inr e ↦ simp (e) refl
]

-- A clock that has counted from `start` to `from`.
abbrev Runs : (start from epoch : ℕ) → Clock → Type 0
Runs start from epoch c =
    ((current c).timer ≡ from % 2 ^ 32)
    × Counts start from (current c).tick
    × (c.base_epoch ≡ epoch)

timer_round-Runs :
    (start from at epoch : ℕ) (c : Clock)
    → start ≤ from
    → from ≤ at
    → at < from + 2 ^ 32
    → Runs start from epoch c
    → Runs start at epoch (timer_round (at % 2 ^ 32) c)
timer_round-Runs start from at epoch c h after near (timer, counts, base) =
    let now = timer_round-current (at % 2 ^ 32) c in
    (
      ap (λ x. x.timer) now,
      rw (ap (λ x. x.tick) now, timer)
          (count_on start from at (current c).tick h after near counts),
      timer_round-epoch (at % 2 ^ 32) c ∙ base,
    )

-- What a clock that runs shows after rounds at times that are spaced.
shows :
    (ts : List ℕ) (start from at epoch : ℕ) (c : Clock)
    → start ≤ from
    → IsSpaced from ts at
    → Runs start from epoch c
    → (count : ℕ) × (get_time (at % 2 ^ 32) (timer_rounds ts c)
        ≡ (epoch + count / 1898614) % 2 ^ 64)
      × (count < 2 ^ 64)
      × Counts start at count
unfolding timer_rounds get_time
shows [] start from at epoch c h (after, near) (timer, counts, base) = (
  ((current c).tick + diff_ticks (current c).timer (at % 2 ^ 32)) % 2 ^ 64,
  ap
      (λ e.
        (e + ((current c).tick + diff_ticks (current c).timer (at % 2 ^ 32)) % 2 ^ 64 / 1898614)
        % 2 ^ 64)
      base,
  omega arith,
  rw timer (count_on start from at (current c).tick h after near counts),
)
shows (t ∷ ts) start from at epoch c h (after, near, spaced) runs =
    shows ts start t at epoch (timer_round (t % 2 ^ 32) c) (omega arith) spaced
      (timer_round-Runs start from t epoch c h after near runs)

-- `GetTime` after `SetTime` and any rounds of the thread that come in order and less than 2^32 ticks
-- apart: it shows the epoch that was set and the seconds of a count of 64 bits, and the count is the ticks since then, less 2^32 + 1 for each time that the register has wrapped
-- around. Until it first wraps the clock is right.
pub get_time_lem :
    (ts : List ℕ) (start at epoch : ℕ) (c : Clock)
    → IsSpaced start ts at
    → (count : ℕ) × (get_time (at % 2 ^ 32) (timer_rounds ts (set_time (start % 2 ^ 32) epoch c).0)
        ≡ (epoch + count / 1898614) % 2 ^ 64)
      × (count < 2 ^ 64)
      × ((count + wraps start at * (2 ^ 32 + 1)) % 2 ^ 64 ≡ (at - start) % 2 ^ 64)
unfolding set_time
get_time_lem ts start at epoch c spaced =
    let now = set_time-current (start % 2 ^ 32) epoch c in
    shows ts start start at epoch (set_time (start % 2 ^ 32) epoch c).0 (omega arith) spaced
      (ap (λ x. x.timer) now, rw (ap (λ x. x.tick) now) (omega arith), refl)
