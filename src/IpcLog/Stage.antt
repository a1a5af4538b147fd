-- ===== src/IpcLog/Stage.antt =====
-- The link of IPCLog.cpp and IOSBoot.cpp: where its one request is, and what its waiter awaits.
use ctgpr_msc.Base.{
  ℕ, ◌+◌, ◌*◌, ◌≤◌, ◌<◌, ◌≡◌, refl, ◌⊎◌, inl, inr, arith, List, [], ◌∷◌, true, ◌==◌, ==_iff,
  Bool-cases, length,
}
use ctgpr_msc.Base.Int.{pos, negsuc}
use ctgpr_msc.IpcLog.{Request, Event, Answer, reply_of, bytes_of}
use ctgpr_msc.IpcLog.Channel.{Channel, count_event, handle_event}
use ctgpr_msc.IpcLog.Heard.{Tally, notices}
use ctgpr_msc.IpcLog.Link.{Phase, Link, hook_request}

-- The answer that an event makes of the request that waits.
abbrev pub answer_of : Event → Answer
answer_of e = record { id = 0; result = reply_of e; bytes = bytes_of e }

abbrev pub Shape : Phase → List (ℕ × Request) → List ℕ → List Answer → Link → Type 0
Shape phase requests hooks answers s =
    (s.phase ≡ phase)
    × (s.requests ≡ requests)
    × (s.log.response_queue ≡ hooks)
    × (s.log.answers ≡ answers)

-- Where the one request of the channel is, with the steps that are left of its round, and the event that
-- is on its way.
pub data Stage : ℕ → List Event → Link → Type 0 where
  before : (s : Link) → Shape Phase.idle [] [] [] s → Stage 2 [] s
  asked : (s : Link) → Shape Phase.waiting (hook_request ∷ []) [] [] s → Stage 1 [] s
  parked : (s : Link) → Shape Phase.waiting [] (0 ∷ []) [] s → Stage 0 [] s
  answered :
      (s : Link) (e : Event) → Shape Phase.waiting [] [] (answer_of e ∷ []) s → Stage 3 (e ∷ []) s

-- The waiter for the fifth notice: not yet woken, or woken once.
abbrev pub Awaits : Channel → Type 0
Awaits c =
    ((c.trigger_event_count ≡ pos 5) × (c.event_count < 5) × (c.wakes ≡ 0))
    ⊎ ((c.trigger_event_count ≡ negsuc 0) × (5 ≤ c.event_count) × (c.wakes ≡ 1))

-- The steps that are left, what was heard since the start, and the waiter.
abbrev pub Inv : (left : ℕ) (start : Link) → Link → Type 0
Inv left start s =
    (k : ℕ) × (flying : List Event) × Stage k flying s
    × (left ≡ 4 * length s.pending + k)
    × Tally start flying s.pending s.channel
    × Awaits s.channel

pub count_event-Awaits :
    (c : Channel)
    → Awaits c
    → Awaits (count_event c) × ((count_event c).event_count ≡ c.event_count + 1)
unfolding count_event
count_event-Awaits c (inl (trigger, few, none_yet)) = elim (Bool-cases (c.event_count + 1 == 5)) [
  | inl fifth ↦
      simp (trigger, fifth)
        (inr (refl, omega (arith, (==_iff (c.event_count + 1) 5).0 fifth), omega arith), refl)
  | inr other ↦ simp (trigger, other) (inl (refl, ground arith, none_yet), refl)
]
count_event-Awaits c (inr (trigger, many, once)) =
    simp (trigger) (inr (refl, omega arith, once), refl)

-- What the thread does with the answer that an event makes.
pub handle_event_lem :
    (e : Event) (c : Channel)
    → Awaits c
    → ((handle_event (reply_of e) (bytes_of e) c).0 ≡ true)
      × ((handle_event (reply_of e) (bytes_of e) c).1.event_count
          ≡ c.event_count + notices (e ∷ []))
      × Awaits (handle_event (reply_of e) (bytes_of e) c).1
unfolding handle_event notices
handle_event_lem (Event.printed text) c h = (refl, omega arith, h)
handle_event_lem (Event.notice id) c h =
    let (awaits, count) = count_event-Awaits c h in (refl, omega (arith, count), awaits)
handle_event_lem (Event.launch_state state) c h = (refl, omega arith, h)
