-- ===== src/IpcLog/Channel.antt =====
-- channel/Main/IOSBoot.cpp: the PowerPC side of "/dev/saoirse", the class IOSBoot::IPCLog.
use ctgpr_msc.Base.{
  ℕ, zero, suc, ◌+◌, List, [], ◌∷◌, Bool, true, false, if◌then◌else◌, Option, some,
}
use ctgpr_msc.Base.Int.{ℤ, pos, negsuc, is_neg, eq_ℤ}
use ctgpr_msc.Base.Words.{word_be32}

-- `m_eventCount`, `m_triggerEventCount`, how often `m_eventQueue` was sent to,
-- `LaunchState::Error.state` and the lines that were printed, latest first.
pub record Channel : Type 0 where
  pub event_count : ℕ
  pub trigger_event_count : ℤ
  pub wakes : ℕ
  pub launch_error : Option ℕ
  pub lines : List (List ℕ)

-- `setEventWaitingQueue`, which `startGameIOS` calls with 5.
unfoldable pub set_event_waiting_queue : ℤ → Channel → Channel
set_event_waiting_queue count c = record c { trigger_event_count = count }

-- A notice in `handleEvent`.
unfoldable pub count_event : Channel → Channel
count_event c =
    let n = c.event_count + 1 in
    if eq_ℤ (pos n) c.trigger_event_count
    then record c { event_count = n; trigger_event_count = negsuc 0; wakes = c.wakes + 1 }
    else record c { event_count = n }

-- `handleEvent`, with what is in `logBuffer`: whether the thread goes on.
unfoldable pub handle_event : ℤ → List ℕ → Channel → Bool × Channel
handle_event result log_buffer c =
    if is_neg result
    then (false, c)
    else if eq_ℤ result (pos 0)
    then (true, record c { lines = log_buffer ∷ c.lines })
    else if eq_ℤ result (pos 1)
    then (true, count_event c)
    else if eq_ℤ result (pos 3)
    then (true, record c { launch_error = some (word_be32 log_buffer) })
    else if eq_ℤ result (pos 2)
    then (false, c)
    else (true, c)

-- The tries of the constructor to open the device, with what each gives: the descriptor.
unfoldable pub open_tries : ℕ → ℤ → List ℤ → ℤ
open_tries zero fd answers = fd
open_tries (suc n) fd [] = fd
open_tries (suc n) fd (next ∷ answers) =
    let rest = open_tries n next answers in if eq_ℤ fd (negsuc 5) then rest else fd
