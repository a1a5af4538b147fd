-- ===== src/SysTime.antt =====
-- ios/IOS/System.cpp: the clock. The timer register counts in 32 bits; a thread adds what it has
-- counted to a tick count of 64 bits, in the one of two places that is not in use.
pub mod Drift
mod Tests
use ctgpr_msc.Base.{
  ℕ, ◌+◌, ◌-◌, ◌/◌, ◌%◌, ◌^◌, List, [], ◌∷◌, Bool, true, false, not, ltb, ◌==◌, if◌then◌else◌,
}

-- One of `s_timerCtx`.
pub record TimerCtx : Type 0 where
  pub timer : ℕ
  pub tick : ℕ

-- `s_timerStarted`, `s_timerIndex`, `s_baseEpoch` and `s_timerCtx`.
pub record Clock : Type 0 where
  pub timer_started : Bool
  pub timer_index : ℕ
  pub base_epoch : ℕ
  pub ctx_0 : TimerCtx
  pub ctx_1 : TimerCtx

-- `s_timerCtx[s_timerIndex]`, and a write to `s_timerCtx[i]`.
unfoldable pub current : Clock → TimerCtx
current c = if c.timer_index == 0 then c.ctx_0 else c.ctx_1

unfoldable pub set_ctx : ℕ → TimerCtx → Clock → Clock
set_ctx i ctx c = if i == 0 then record c { ctx_0 = ctx } else record c { ctx_1 = ctx }

-- `diff_ticks`, of 64 bits.
unfoldable pub diff_ticks : ℕ → ℕ → ℕ
diff_ticks tick_0 tick_1 =
    if ltb tick_1 tick_0 then (2 ^ 64 - 1 - tick_0 + tick_1) % 2 ^ 64 else tick_1 - tick_0

-- A round of `TimerThreadEntry` after its sleep, with what it reads from the register.
unfoldable pub timer_round : ℕ → Clock → Clock
timer_round next_timer c =
    let next = if c.timer_index == 0 then 1 else 0 in
    let prev = current c in
    record (set_ctx next
      (record {
        timer = next_timer;
        tick = (prev.tick + diff_ticks prev.timer next_timer) % 2 ^ 64;
      })
      c) { timer_index = next }

-- `System::SetTime`: the clock, and whether the thread is started.
unfoldable pub set_time : ℕ → ℕ → Clock → Clock × Bool
set_time timer epoch c = (
  record (set_ctx c.timer_index (record { timer = timer; tick = 0 }) c) {
    base_epoch = epoch;
    timer_started = true;
  },
  not c.timer_started,
)

-- `System::GetTime`, with what it reads from the register.
unfoldable pub get_time : ℕ → Clock → ℕ
get_time timer c =
    let ctx = current c in
    (c.base_epoch + (ctx.tick + diff_ticks ctx.timer timer) % 2 ^ 64 / 1898614) % 2 ^ 64

-- The rounds of the thread at times that are counted without a bound.
unfoldable pub timer_rounds : List ℕ → Clock → Clock
timer_rounds [] c = c
timer_rounds (t ∷ ts) c = timer_rounds ts (timer_round (t % 2 ^ 32) c)
