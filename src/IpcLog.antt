-- ===== src/IpcLog.antt =====
-- ios/IOS/IPCLog.cpp: "/dev/saoirse", by which the IOS side answers requests of the PowerPC side with
-- lines of the log, notices and launch states. A call that waits for a queue is `none`.
pub mod Channel
pub mod Link
pub mod Heard
pub mod Stage
pub mod Moves
pub mod Delivery
mod Tests
use ctgpr_msc.Base.{
  ℕ, ◌%◌, List, [], ◌∷◌, ◌++◌, Bool, true, false, not, ◌||◌, ◌==◌, leb, if◌then◌else◌, Option, none,
  some, length, take, replicate,
}
use ctgpr_msc.Base.Bytes.{eq_bytes}
use ctgpr_msc.Base.Int.{ℤ, pos, negsuc}
use ctgpr_msc.Base.Words.{bytes_be32, codes, aligned}

-- `printSize`, and `IOSError`.
abbrev pub print_size : ℕ
print_size = 256

abbrev pub ipc_invalid : ℤ
ipc_invalid = negsuc 3

abbrev pub ipc_not_found : ℤ
ipc_not_found = negsuc 5

-- `IOS::Request`, as far as `HandleRequest` reads it: the three ioctls by name.
pub data Request : Type 0 where
  open_cmd : (path : List ℕ) → Request
  close_cmd : Request
  register_print_hook : (input io_len : ℕ) → Request
  start_game_event : (input in_len : ℕ) → Request
  set_time_cmd : (input in_len timer epoch : ℕ) → Request
  other_ioctl : Request
  other_cmd : Request

-- An answer: to which request, with which result and which bytes.
pub record Answer : Type 0 where
  pub id : ℕ
  pub result : ℤ
  pub bytes : List ℕ

-- `Log::ipcLogEnabled`, `m_responseQueue` with the numbers of its requests, the number of entries of
-- `m_startRequestQueue`, `s_dolAddr` and `s_dolSize`, the time that was set last, and the
-- answers that are under way.
pub record IpcLog : Type 0 where
  pub ipc_log_enabled : Bool
  pub response_queue : List ℕ
  pub start_request_queue : ℕ
  pub dol_addr : ℕ
  pub dol_size : ℕ
  pub time : Option (ℕ × ℕ)
  pub answers : List Answer

unfoldable pub answer : ℕ → ℤ → List ℕ → IpcLog → IpcLog
answer id result bytes s = record s {
  answers = s.answers ++ (record { id = id; result = result; bytes = bytes } ∷ []);
}

-- `m_responseQueue.receive()` and a reply to what it gives.
unfoldable pub respond : ℤ → List ℕ → IpcLog → Option IpcLog
respond result bytes s = elim s.response_queue [
  | [] ↦ none
  | hook ∷ rest ↦ some (answer hook result bytes (record s { response_queue = rest }))
]

-- `Print`, `Notify` and `SetLaunchState`.
pub data Event : Type 0 where
  printed : (text : List ℕ) → Event
  notice : (id : ℕ) → Event
  launch_state : (state : ℕ) → Event

-- `IPCLogReply`
abbrev pub reply_of : Event → ℤ
reply_of (Event.printed text) = pos 0
reply_of (Event.notice id) = pos 1
reply_of (Event.launch_state state) = pos 3

abbrev pub bytes_of : Event → List ℕ
bytes_of (Event.printed text) = take print_size text
bytes_of (Event.notice id) = bytes_be32 id
bytes_of (Event.launch_state state) = bytes_be32 state

unfoldable pub send_event : Event → IpcLog → Option IpcLog
send_event e s = respond (reply_of e) (bytes_of e) s

-- `HandleRequest` for the hook: the request waits in the queue, which has one place.
unfoldable pub park_hook : ℕ → ℕ → ℕ → IpcLog → Option IpcLog
park_hook id input io_len s =
    if not (io_len == print_size) || not (aligned input 32)
    then some (answer id ipc_invalid [] s)
    else if leb 1 (length s.response_queue)
    then none
    else some (record s { response_queue = s.response_queue ++ (id ∷ []) })

-- `HandleRequest`
unfoldable pub handle_request : ℕ → Request → IpcLog → Option IpcLog
handle_request id (Request.open_cmd path) s =
    if not (eq_bytes path (codes "/dev/saoirse"))
    then some (answer id ipc_not_found [] s)
    else if not s.ipc_log_enabled
    then some (answer id ipc_not_found [] s)
    else some (answer id (pos 0) [] s)
handle_request id Request.close_cmd s =
    elim (respond (pos 2) [] (record s { ipc_log_enabled = false })) [
      | none ↦ none
      | some t ↦ some (answer id (pos 0) [] t)
    ]
handle_request id (Request.register_print_hook input io_len) s = park_hook id input io_len s
handle_request id (Request.start_game_event input in_len) s =
    if leb 1 s.start_request_queue
    then none
    else some (
        answer id (pos 0) []
          (record s { dol_addr = input; dol_size = in_len; start_request_queue = 1 }))
handle_request id (Request.set_time_cmd input in_len timer epoch) s =
    if not (in_len == 12) || not (aligned input 4)
    then some (answer id ipc_invalid [] s)
    else some (answer id (pos 0) [] (record s { time = some (timer, epoch) }))
handle_request id Request.other_ioctl s = some (answer id ipc_invalid [] s)
handle_request id Request.other_cmd s = some (answer id ipc_invalid [] s)

-- `WaitForStartRequest`
unfoldable pub wait_for_start_request : IpcLog → Option (ℕ × ℕ × IpcLog)
wait_for_start_request s =
    if s.start_request_queue == 0
    then none
    else some (s.dol_addr, s.dol_size, record s { start_request_queue = 0 })
