-- ===== src/EmuHid/Tests.antt =====
-- A run of EmuHID.cpp in which the third request drops the second.
use ctgpr_msc.Base.{ℕ, ◌+◌, ◌≡◌, arith, List, [], ◌∷◌, false, none, replicate}
use ctgpr_msc.Base.Int.{pos}
use ctgpr_msc.Base.Outcome.{done}
use ctgpr_msc.EmuHid.{HidManager, Command, Message, Hid, run}
use ctgpr_msc.EmuHid.Accounts.{settled}
use ctgpr_msc.EmuHid.Runs.{Fits, arrivals, drops, run_lem}

abbrev manager : HidManager ℕ
manager = record {
  ioctl = λ cmd input io_len w. (pos 0, [], w + 1);
  ioctlv = λ cmd vec w. (pos 0, w + 1);
  get_device_change_async = λ w. (pos 0, w + 1);
  usleep = λ n w. w;
}

abbrev idle : Hid ℕ
idle = record {
  pending = none;
  available = false;
  devices = replicate 384 0;
  device_count = 0;
  answers = [];
  world = 0;
}

abbrev messages : List Message
messages =
    Message.request 1 Command.open_cmd
    ∷ Message.request 2 (Command.ioctl_cmd 1 [] 384)
    ∷ Message.request 3 (Command.ioctl_cmd 1 [] 384)
    ∷ Message.device_change (pos 1) (replicate 12 7)
    ∷ Message.reload
    ∷ []

run_lem_example :
    (t : Hid ℕ) × (run manager messages idle ≡ done t)
    × (settled 2 t + drops manager 2 messages idle ≡ settled 2 idle + arrivals 2 messages)
unfolding Fits
run_lem_example = run_lem manager 2 messages idle (omega arith, tt) (omega arith)
