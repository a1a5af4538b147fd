-- ===== src/IpcLog/Delivery.antt =====
-- The link of IPCLog.cpp and IOSBoot.cpp: everything that is said is heard.
use mathlib.Core.List.{Perm}
use mathlib.Core.List.Perm
use mathlib.Core.Path.{subst}
use ctgpr_msc.Base.{
  ℕ, ◌+◌, ◌*◌, ◌<◌, ◌≡◌, refl, ap, ◌∙◌, ◌⊎◌, inl, inr, arith, List, [], ◌∷◌, ◌==◌, ==_iff, leb,
  Bool-cases, if◌then◌else◌, length,
}
use ctgpr_msc.Base.Int.{pos}
use ctgpr_msc.IpcLog.{Event}
use ctgpr_msc.IpcLog.Channel.{Channel}
use ctgpr_msc.IpcLog.Heard.{HasHeard, Tally-all, notices, lines_of, state_of}
use ctgpr_msc.IpcLog.Link.{Phase, Link, Step, Run}
use ctgpr_msc.IpcLog.Stage.{Awaits, Inv, Stage, answer_of}
use ctgpr_msc.IpcLog.Moves.{
  Leads, hear-Leads, park_lem, register-Leads, say-Leads, send_event-some, serve-Leads,
}

step-Leads : (left : ℕ) (start s t : Link) → Step s t → Inv left start s → Leads left start t
step-Leads left start s _ (Step.register _ idle) inv = register-Leads left start s idle inv
step-Leads left start s _ (Step.serve _ id req rest log here served) inv =
    serve-Leads left start s id req rest log here served inv
step-Leads left start s _ (Step.say _ xs e ys log here said) inv =
    say-Leads left start s xs e ys log here said inv
step-Leads left start s _ (Step.hear _ a rest here waits) inv =
    hear-Leads left start s a rest here inv

-- A run takes away as many of the steps that are left.
Run-Inv :
    (n left : ℕ) (start s t : Link)
    → Run n s t
    → Inv left start s
    → (after : ℕ) × (left ≡ n + after) × Inv after start t
Run-Inv n left start s _ (Run.stay _) inv = (left, omega arith, inv)
Run-Inv n left start s _ (Run.go m _ t u run step) inv =
    let (after, e, kept) = Run-Inv m left start s t run inv in
    let (fewer, f, next) = step-Leads after start t u step kept in (fewer, omega arith, next)

pending-cases :
    (es : List Event) → (es ≡ []) ⊎ ((e : Event) × (rest : List Event) × (es ≡ e ∷ rest))
pending-cases [] = inl refl
pending-cases (e ∷ rest) = inr (e, rest, refl)

-- While steps are left, one can be taken.
progress : (left : ℕ) (start s : Link) → 0 < left → Inv left start s → (t : Link) × Step s t
progress left start s more (k, flying, Stage.before _ (p, r, q, a), _, _, _) =
    (_, Step.register s p)
progress left start s more (k, flying, Stage.asked _ (p, r, q, a), _, _, _) =
    (_, Step.serve s _ _ [] _ r (park_lem s.log q))
progress left start s more (k, flying, Stage.answered _ e (p, r, q, a), _, _, _) =
    (_, Step.hear s (answer_of e) [] a p)
progress left start s more (k, flying, Stage.parked _ (p, r, q, a), steps, _, _) =
    elim (pending-cases s.pending) [
      | inl nothing ↦ absurd (omega (arith, ap length nothing))
      | inr (e, rest, here) ↦ (_, Step.say s [] e rest _ here (send_event-some e s.log q a))
    ]

Awaits-wakes : (c : Channel) → Awaits c → c.wakes ≡ (if leb 5 c.event_count then 1 else 0)
Awaits-wakes c (inl (trigger, few, none_yet)) = ground arith
Awaits-wakes c (inr (trigger, many, once)) = ground arith

-- The channel has heard all events of the start, in some order, and counted the notices; the waiter was
-- woken once if there were five of them, and else not.
abbrev pub IsDelivered : Link → Link → Type 0
IsDelivered start t =
    (t.pending ≡ [])
    × ((heard : List Event) × Perm heard start.pending × HasHeard start.channel heard t.channel)
    × (t.channel.event_count ≡ notices start.pending)
    × (t.channel.wakes ≡ (if leb 5 (notices start.pending) then 1 else 0))

-- Nothing left: everything was heard.
finished : (start s : Link) → Inv 0 start s → IsDelivered start s
unfolding notices
finished start s (k, flying, Stage.parked _ shape, steps, count, awaits) =
    elim (pending-cases s.pending) [
      | inr (e, rest, here) ↦ absurd (omega (arith, ap length here))
      | inl nothing ↦
          let all : s.channel.event_count ≡ notices start.pending =
            omega (arith, ap notices nothing, count.count) in
          (
            nothing,
            Tally-all start s.pending s.channel nothing count,
            all,
            Awaits-wakes s.channel awaits ∙ ap (λ n. if leb 5 n then 1 else 0) all,
          )
    ]
finished start s (k, flying, Stage.before _ shape, steps, _, _) = absurd (omega arith)
finished start s (k, flying, Stage.asked _ shape, steps, _, _) = absurd (omega arith)
finished start s (k, flying, Stage.answered _ e shape, steps, _, _) = absurd (omega arith)

-- A link at its start, in `startGameIOS`: nothing is under way, and the waiter is to be woken by the
-- fifth notice.
abbrev pub IsStart : Link → Type 0
IsStart s =
    (s.phase ≡ Phase.idle)
    × (s.requests ≡ [])
    × (s.log.response_queue ≡ [])
    × (s.log.answers ≡ [])
    × (s.channel.trigger_event_count ≡ pos 5)
    × (s.channel.event_count ≡ 0)
    × (s.channel.wakes ≡ 0)

-- The link from its start on, with any events that its threads have to say and its steps in any
-- order: a run that has not had four steps for each event and two more can go on, whatever steps it has
-- had; and after so many steps there is an order of all the events so that the lines of the log are
-- those of the events, cut to their size and on top of the ones from before, and the launch state is
-- that of the latest event that tells one; the notices were counted, and the waiter was woken once if
-- there were five of them, and else not.
pub delivery_lem :
    (n : ℕ) (s t : Link)
    → IsStart s
    → Run n s t
    → ((n < 4 * length s.pending + 2) × (u : Link) × Step t u)
      ⊎ ((n ≡ 4 * length s.pending + 2) × IsDelivered s t)
unfolding notices lines_of state_of
delivery_lem n s t (p, r, q, a, trigger, none_yet, asleep) run =
    let left = 4 * length s.pending + 2 in
    let begin : Inv left s s = (
      2,
      [],
      Stage.before s (p, r, q, a),
      refl,
      record {
        count = omega arith;
        heard = [];
        accounted = Perm.refl s.pending;
        has_heard = (refl, refl);
      },
      inl (trigger, omega arith, asleep),
    ) in
    let (after, e, inv) = Run-Inv n left s s t run begin in
    elim (Bool-cases (after == 0)) [
      | inr more ↦
          let (u, step) = progress after s t (ground arith) inv in inl (ground arith, u, step)
      | inl all ↦
          let none_left : after ≡ 0 = (==_iff after 0).0 all in
          inr (omega arith, finished s t (subst (λ k. Inv k s t) none_left inv))
    ]
