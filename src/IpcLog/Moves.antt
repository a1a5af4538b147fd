-- ===== src/IpcLog/Moves.antt =====
-- The link of IPCLog.cpp and IOSBoot.cpp: what each kind of step leads to.
use mathlib.Core.Path.{subst}
use ctgpr_msc.Base.{
  some-inj, drop, get_or, ℕ, suc, ◌+◌, ◌*◌, ◌≡◌, refl, sym, ap, ◌∙◌, arith, List, [], ◌∷◌, ◌++◌,
  none, some, length, length-append,
}
use ctgpr_msc.IpcLog.{
  IpcLog, Request, Event, Answer, answer, respond, send_event, park_hook, handle_request,
}
use ctgpr_msc.IpcLog.Channel.{Channel}
use ctgpr_msc.IpcLog.Heard.{Tally, notices, notices-append, handle_event-HasHeard, accounted-say}
use ctgpr_msc.IpcLog.Link.{Phase, Link, hook_request, deliver}
use ctgpr_msc.IpcLog.Stage.{Awaits, Inv, Shape, Stage, answer_of, handle_event_lem}

-- What a step leads to: a step less is left.
abbrev pub Leads : (left : ℕ) (start : Link) → Link → Type 0
Leads left start t = (fewer : ℕ) × (left ≡ suc fewer) × Inv fewer start t

-- The four kinds of steps. A step that is not of the stage contradicts it.
pub register-Leads :
    (left : ℕ) (start s : Link)
    → s.phase ≡ Phase.idle
    → Inv left start s
    → Leads left start
        (record s { requests = s.requests ++ (hook_request ∷ []); phase = Phase.waiting })
register-Leads left start s idle (k, flying, Stage.before _ (p, r, q, a), steps, count, awaits) = (
  4 * length s.pending + 1,
  omega arith,
  (1, [], Stage.asked _ (refl, ap (λ rs. rs ++ (hook_request ∷ [])) r, q, a), refl, count, awaits),
)
register-Leads left start s idle (k, flying, Stage.asked _ (p, r, q, a), _, _, _) =
    absurd (cc (idle, p))
register-Leads left start s idle (k, flying, Stage.parked _ (p, r, q, a), _, _, _) =
    absurd (cc (idle, p))
register-Leads left start s idle (k, flying, Stage.answered _ e (p, r, q, a), _, _, _) =
    absurd (cc (idle, p))

pub park_lem :
    (log : IpcLog)
    → log.response_queue ≡ []
    → handle_request hook_request.0 hook_request.1 log
      ≡ some (record log { response_queue = 0 ∷ [] })
unfolding handle_request park_hook
park_lem log q = simp (q) refl

pub serve-Leads :
    (left : ℕ) (start s : Link) (id : ℕ) (req : Request) (rest : List (ℕ × Request)) (log : IpcLog)
    → s.requests ≡ (id, req) ∷ rest
    → handle_request id req s.log ≡ some log
    → Inv left start s
    → Leads left start (record s { requests = rest; log = log })
serve-Leads left start s id req rest log here served
      (k, flying, Stage.asked _ (p, r, q, a), steps, count, awaits) =
    let same : (id, req) ≡ hook_request = ap (λ rs. get_or rs 0 hook_request) (sym here ∙ r) in
    let after : log ≡ record s.log { response_queue = 0 ∷ [] } =
      some-inj (sym served ∙ ap (λ x. handle_request x.0 x.1 s.log) same ∙ park_lem s.log q) in
    (
      4 * length s.pending,
      omega arith,
      (
        0,
        [],
        Stage.parked _ (
          p,
          ap (drop 1) (sym here ∙ r),
          ap (λ x. x.response_queue) after,
          ap (λ x. x.answers) after ∙ a,
        ),
        omega arith,
        count,
        awaits,
      ),
    )
serve-Leads left start s id req rest log here served
      (k, flying, Stage.before _ (p, r, q, a), _, _, _) =
    absurd (cc (here, r))
serve-Leads left start s id req rest log here served
      (k, flying, Stage.parked _ (p, r, q, a), _, _, _) =
    absurd (cc (here, r))
serve-Leads left start s id req rest log here served
      (k, flying, Stage.answered _ e (p, r, q, a), _, _, _) =
    absurd (cc (here, r))

pub send_event-none : (e : Event) (log : IpcLog) → log.response_queue ≡ [] → send_event e log ≡ none
unfolding send_event respond
send_event-none e log q = rw (q, respond) refl

pub send_event-some :
    (e : Event) (log : IpcLog)
    → log.response_queue ≡ 0 ∷ []
    → log.answers ≡ []
    → send_event e log ≡ some (record log { response_queue = []; answers = answer_of e ∷ [] })
unfolding send_event respond answer
send_event-some e log q a = rw (q, respond) (rw a refl)

pub length-pick :
    (xs : List Event) (e : Event) (ys : List Event)
    → length (xs ++ (e ∷ ys)) ≡ suc (length (xs ++ ys))
length-pick xs e ys = omega (arith, length-append xs (e ∷ ys), length-append xs ys)

pub notices-pick :
    (xs : List Event) (e : Event) (ys : List Event)
    → notices (xs ++ (e ∷ ys)) ≡ notices (e ∷ []) + notices (xs ++ ys)
unfolding notices
notices-pick xs (Event.printed text) ys =
    omega (arith, notices-append xs (Event.printed text ∷ ys), notices-append xs ys)
notices-pick xs (Event.notice id) ys =
    omega (arith, notices-append xs (Event.notice id ∷ ys), notices-append xs ys)
notices-pick xs (Event.launch_state state) ys =
    omega (arith, notices-append xs (Event.launch_state state ∷ ys), notices-append xs ys)

-- An event that was said is on its way.
said-Tally :
    (start : Link) (pending : List Event) (c : Channel) (xs : List Event) (e : Event)
    (ys : List Event)
    → pending ≡ xs ++ (e ∷ ys)
    → Tally start [] pending c
    → Tally start (e ∷ []) (xs ++ ys) c
unfolding notices
said-Tally start pending c xs e ys here t = record {
  count = omega (arith, ap notices here, notices-pick xs e ys, t.count);
  heard = t.heard;
  accounted = accounted-say t.heard xs ys start.pending pending e here t.accounted;
  has_heard = t.has_heard;
}

pub say-Leads :
    (left : ℕ) (start s : Link) (xs : List Event) (e : Event) (ys : List Event) (log : IpcLog)
    → s.pending ≡ xs ++ (e ∷ ys)
    → send_event e s.log ≡ some log
    → Inv left start s
    → Leads left start (record s { pending = xs ++ ys; log = log })
unfolding notices
say-Leads left start s xs e ys log here said
      (k, flying, Stage.parked _ (p, r, q, a), steps, count, awaits) =
    let after : log ≡ record s.log { response_queue = []; answers = answer_of e ∷ [] } =
      some-inj (sym said ∙ send_event-some e s.log q a) in
    let fewer = length-pick xs e ys in
    (
      4 * length (xs ++ ys) + 3,
      omega (arith, ap length here),
      (
        3,
        e ∷ [],
        Stage.answered _ e (p, r, ap (λ x. x.response_queue) after, ap (λ x. x.answers) after),
        refl,
        said-Tally start s.pending s.channel xs e ys here count,
        awaits,
      ),
    )
say-Leads left start s xs e ys log here said (k, flying, Stage.before _ (p, r, q, a), _, _, _) =
    absurd (cc (said, send_event-none e s.log q))
say-Leads left start s xs e ys log here said (k, flying, Stage.asked _ (p, r, q, a), _, _, _) =
    absurd (cc (said, send_event-none e s.log q))
say-Leads left start s xs e ys log here said (k, flying, Stage.answered _ f (p, r, q, a), _, _, _) =
    absurd (cc (said, send_event-none e s.log q))

pub deliver-Inv :
    (start s : Link) (e : Event) (rest : List Answer)
    → Shape Phase.waiting [] [] (answer_of e ∷ []) s
    → rest ≡ []
    → Tally start (e ∷ []) s.pending s.channel
    → Awaits s.channel
    → Inv (4 * length s.pending + 2) start (deliver (answer_of e) rest s)
unfolding deliver notices
deliver-Inv start s e rest (p, r, q, a) none_left count awaits =
    let (goes, counted, awaits_after) = handle_event_lem e s.channel awaits in
    (
      2,
      [],
      Stage.before _ (rw (goes) refl, r, q, none_left),
      refl,
      record {
        count = omega (arith, counted, count.count);
        heard = e ∷ count.heard;
        accounted = count.accounted;
        has_heard = handle_event-HasHeard start.channel count.heard e s.channel count.has_heard;
      },
      awaits_after,
    )

pub hear-Leads :
    (left : ℕ) (start s : Link) (a : Answer) (rest : List Answer)
    → s.log.answers ≡ a ∷ rest
    → Inv left start s
    → Leads left start (deliver a rest s)
hear-Leads left start s b rest here
      (k, flying, Stage.answered _ e (p, r, q, a), steps, count, awaits) =
    let same : b ≡ answer_of e = ap (λ xs. get_or xs 0 b) (sym here ∙ a) in
    (
      4 * length s.pending + 2,
      omega arith,
      subst (λ x. Inv (4 * length s.pending + 2) start (deliver x rest s)) (sym same)
          (deliver-Inv start s e rest (p, r, q, a) (ap (drop 1) (sym here ∙ a)) count awaits),
    )
hear-Leads left start s b rest here (k, flying, Stage.before _ (p, r, q, a), _, _, _) =
    absurd (cc (here, a))
hear-Leads left start s b rest here (k, flying, Stage.asked _ (p, r, q, a), _, _, _) =
    absurd (cc (here, a))
hear-Leads left start s b rest here (k, flying, Stage.parked _ (p, r, q, a), _, _, _) =
    absurd (cc (here, a))
