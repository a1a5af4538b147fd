-- ===== src/IpcLog/Link.antt =====
-- The two sides of "/dev/saoirse" together: the server of IPCLog.cpp, the threads that have something to
-- say, and the thread of IOSBoot.cpp that waits for it. Their steps come in any order.
use ctgpr_msc.Base.{ℕ, zero, suc, ◌≡◌, List, [], ◌∷◌, ◌++◌, if◌then◌else◌, some}
use ctgpr_msc.IpcLog.{IpcLog, Request, Event, Answer, handle_request, send_event, print_size}
use ctgpr_msc.IpcLog.Channel.{Channel, handle_event}

-- Where the thread of the channel is: before its next ioctl, in it, or at its end.
pub data Phase : Type 0 where
  idle waiting stopped : Phase

-- `m_ipcQueue`, what the threads of the IOS side have yet to say, and the two sides.
pub record Link : Type 0 where
  pub requests : List (ℕ × Request)
  pub pending : List Event
  pub log : IpcLog
  pub channel : Channel
  pub phase : Phase

-- The request of `threadEntry`: it has no input.
abbrev pub hook_request : ℕ × Request
hook_request = (0, Request.register_print_hook 0 print_size)

-- What `threadEntry` does with an answer.
unfoldable pub deliver : Answer → List Answer → Link → Link
deliver a rest s =
    let handled = handle_event a.result a.bytes s.channel in
    record s {
      log = record s.log { answers = rest };
      channel = handled.1;
      phase = if handled.0 then Phase.idle else Phase.stopped;
    }

pub data Step : Link → Link → Type 0 where
  register :
      (s : Link)
      → s.phase ≡ Phase.idle
      → Step s (record s { requests = s.requests ++ (hook_request ∷ []); phase = Phase.waiting })
  serve :
      (s : Link) (id : ℕ) (req : Request) (rest : List (ℕ × Request)) (log : IpcLog)
      → s.requests ≡ (id, req) ∷ rest
      → handle_request id req s.log ≡ some log
      → Step s (record s { requests = rest; log = log })
  say :
      (s : Link) (before : List Event) (e : Event) (after : List Event) (log : IpcLog)
      → s.pending ≡ before ++ (e ∷ after)
      → send_event e s.log ≡ some log
      → Step s (record s { pending = before ++ after; log = log })
  hear :
      (s : Link) (a : Answer) (rest : List Answer)
      → s.log.answers ≡ a ∷ rest
      → s.phase ≡ Phase.waiting
      → Step s (deliver a rest s)

-- A run of a number of steps.
pub data Run : ℕ → Link → Link → Type 0 where
  stay : (s : Link) → Run zero s s
  go : (n : ℕ) (s t u : Link) → Run n s t → Step t u → Run (suc n) s u
