-- ===== src/IpcLog/Heard.antt =====
-- The link of IPCLog.cpp and IOSBoot.cpp: what the channel has heard of the events.
use mathlib.Core.List.{Perm, perm_middle}
use mathlib.Core.List.Perm
use ctgpr_msc.Base.{
  ℕ, suc, ◌+◌, ◌%◌, ◌^◌, ◌≡◌, refl, sym, ap, ◌∙◌, arith, List, [], ◌∷◌, ◌++◌, append_assoc,
  append-nil, Bool-cases, inl, inr, Option, some, take,
}
use mathlib.Core.Path.{subst}
use ctgpr_msc.Base.Int.{eq_ℤ, pos}
use ctgpr_msc.Base.Words.{bytes_be32, word_be32}
use ctgpr_msc.IpcLog.{Event, reply_of, bytes_of, print_size}
use ctgpr_msc.IpcLog.Channel.{Channel, count_event, handle_event}
use ctgpr_msc.IpcLog.Link.{Link}

unfoldable pub notices : List Event → ℕ
notices [] = 0
notices (Event.printed text ∷ es) = notices es
notices (Event.notice id ∷ es) = suc (notices es)
notices (Event.launch_state state ∷ es) = notices es

pub notices-append : (es fs : List Event) → notices (es ++ fs) ≡ notices es + notices fs
unfolding notices
notices-append [] fs = omega arith
notices-append (Event.printed text ∷ es) fs = notices-append es fs
notices-append (Event.notice id ∷ es) fs = omega (arith, notices-append es fs)
notices-append (Event.launch_state state ∷ es) fs = notices-append es fs

-- The lines of the log in some events, the latest of which comes first.
unfoldable pub lines_of : List Event → List (List ℕ)
lines_of [] = []
lines_of (Event.printed text ∷ es) = take print_size text ∷ lines_of es
lines_of (Event.notice id ∷ es) = lines_of es
lines_of (Event.launch_state state ∷ es) = lines_of es

-- The launch state after them: that of the latest event that tells one.
unfoldable pub state_of : Option ℕ → List Event → Option ℕ
state_of start [] = start
state_of start (Event.printed text ∷ es) = state_of start es
state_of start (Event.notice id ∷ es) = state_of start es
state_of start (Event.launch_state state ∷ es) = some (state % 2 ^ 32)

-- The channel has the lines and the launch state of the events `heard`, the latest first, on top of
-- those of its start.
abbrev pub HasHeard : Channel → List Event → Channel → Type 0
HasHeard start heard c =
    (c.lines ≡ lines_of heard ++ start.lines) × (c.launch_error ≡ state_of start.launch_error heard)

-- Since the start, each event was heard, or is on its way, or is yet to be said.
pub record Tally (start : Link) (flying pending : List Event) (c : Channel) : Type 0 where
  pub count : c.event_count + notices flying + notices pending ≡ notices start.pending
  pub heard : List Event
  pub accounted : Perm (flying ++ (heard ++ pending)) start.pending
  pub has_heard : HasHeard start.channel heard c

word_be32-bytes_be32 : (n : ℕ) → word_be32 (bytes_be32 n) ≡ n % 2 ^ 32
unfolding word_be32
word_be32-bytes_be32 n = omega arith

-- A notice changes neither the lines nor the launch state.
count_event-heard :
    (c : Channel)
    → ((count_event c).lines ≡ c.lines) × ((count_event c).launch_error ≡ c.launch_error)
unfolding count_event
count_event-heard c = elim (Bool-cases (eq_ℤ (pos (c.event_count + 1)) c.trigger_event_count)) [
  | inl fits ↦ rw (fits) (refl, refl)
  | inr other ↦ rw (other) (refl, refl)
]

-- What the thread does with the answer that an event makes.
pub handle_event-HasHeard :
    (start : Channel) (heard : List Event) (e : Event) (c : Channel)
    → HasHeard start heard c
    → HasHeard start (e ∷ heard) (handle_event (reply_of e) (bytes_of e) c).1
unfolding handle_event lines_of state_of
handle_event-HasHeard start heard (Event.printed text) c h =
    (ap (λ ls. take print_size text ∷ ls) h.0, h.1)
handle_event-HasHeard start heard (Event.notice id) c h =
    let same = count_event-heard c in (same.0 ∙ h.0, same.1 ∙ h.1)
handle_event-HasHeard start heard (Event.launch_state state) c h =
    (h.0, ap some (word_be32-bytes_be32 state))

-- An event that is said is no longer yet to be said.
pub accounted-say :
    (heard xs ys all pending : List Event) (e : Event)
    → pending ≡ xs ++ (e ∷ ys)
    → Perm (heard ++ pending) all
    → Perm ((e ∷ []) ++ (heard ++ (xs ++ ys))) all
accounted-say heard xs ys all pending e here h =
    let moved = perm_middle {a = e} (heard ++ xs) ys in
    let before = append_assoc heard xs (e ∷ ys) ∙ ap (λ p. heard ++ p) (sym here) in
    let after = append_assoc heard xs ys in
    Perm.trans
      (subst (λ p. Perm (e ∷ p) (heard ++ pending)) after
        (subst (λ p. Perm (e ∷ ((heard ++ xs) ++ ys)) p) before (Perm.symm moved)))
      h

-- Once nothing is on its way or yet to be said, the channel has heard every event.
pub Tally-all :
    (start : Link) (pending : List Event) (c : Channel)
    → pending ≡ []
    → Tally start [] pending c
    → (heard : List Event) × Perm heard start.pending × HasHeard start.channel heard c
Tally-all start pending c nothing t = (
  t.heard,
  subst (λ p. Perm p start.pending) (ap (λ p. t.heard ++ p) nothing ∙ append-nil t.heard)
      t.accounted,
  t.has_heard,
)
