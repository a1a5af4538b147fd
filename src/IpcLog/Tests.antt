-- ===== src/IpcLog/Tests.antt =====
-- The link with a line of the log and the five notices of the start, of which one is said first.
use ctgpr_msc.Base.{◌+◌, ◌*◌, ◌<◌, ◌≡◌, ◌⊎◌, refl, List, [], ◌∷◌, true, none, length}
use ctgpr_msc.Base.Int.{pos}
use ctgpr_msc.IpcLog.{Event, handle_request, park_hook}
use ctgpr_msc.IpcLog.Delivery.{IsDelivered, delivery_lem}
use ctgpr_msc.IpcLog.Link.{Link, Phase, Step, Run, hook_request}

abbrev events : List Event
events =
    Event.printed (72 ∷ (105 ∷ []))
    ∷ (Event.notice 2
        ∷ (Event.notice 1 ∷ (Event.notice 0 ∷ (Event.notice 3 ∷ (Event.notice 4 ∷ [])))))

abbrev at_start : Link
at_start = record {
  requests = [];
  pending = events;
  log = record {
    ipc_log_enabled = true;
    response_queue = [];
    start_request_queue = 0;
    dol_addr = 0;
    dol_size = 0;
    time = none;
    answers = [];
  };
  channel = record {
    event_count = 0;
    trigger_event_count = pos 5;
    wakes = 0;
    launch_error = none;
    lines = [];
  };
  phase = Phase.idle;
}

abbrev asked : Link
asked = record at_start { requests = hook_request ∷ []; phase = Phase.waiting }

abbrev parked : Link
parked = record asked { requests = []; log = record at_start.log { response_queue = 0 ∷ [] } }

asked-parked : Step asked parked
unfolding handle_request park_hook
asked-parked = Step.serve asked hook_request.0 hook_request.1 [] parked.log refl refl

two_steps : Run 2 at_start parked
two_steps =
    Run.go 1 at_start asked parked
      (Run.go 0 at_start at_start asked (Run.stay at_start) (Step.register at_start refl))
      asked-parked

delivery_lem_example :
    ((2 < 4 * length events + 2) × (u : Link) × Step parked u)
    ⊎ ((2 ≡ 4 * length events + 2) × IsDelivered at_start parked)
delivery_lem_example =
    delivery_lem 2 at_start parked (refl, refl, refl, refl, refl, refl, refl) two_steps
