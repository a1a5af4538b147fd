-- ===== src/DeviceMgr/Slots.antt =====
-- What a change of the state keeps of the device table.
use ctgpr_msc.Base.{
  ℕ, ◌≡◌, ◌≢◌, refl, sym, ◌∙◌, true, false, inl, inr, ◌==◌, ==_iff, Bool-cases, Option, none, some,
  List, ◌∷◌, ◌⊎◌, Bool,
}
use mathlib.Core.Path.{subst}
use ctgpr_msc.Base.Int.{ℤ, pos, eq_ℤ}
use ctgpr_msc.Base.Outcome.{done}
use ctgpr_msc.FatFs.{FatFs}
use ctgpr_msc.Blob.{Blob}
use ctgpr_msc.DeviceMgr.{
  Disk, DeviceHandle, State, Drivers, LaunchError, is_blob, is_sd, get_blob, with_device,
}
use ctgpr_msc.DeviceMgr.Update.{Launcher, leave_no_card, is_no_sd_card, set_launch_state, code_of}
use ctgpr_msc.IpcLog.{IpcLog, Event, send_event, respond, answer, reply_of, bytes_of}

-- The device that the blob of a slot is mounted on, where the slot holds a blob.
unfoldable pub blob_id : {U F : Type 0} → Disk U F → Option ℤ
blob_id Disk.null_device = none
blob_id Disk.sd_card = none
blob_id (Disk.usb_storage u) = none
blob_id (Disk.blob_disk b) = some b.dev_id

pub is_blob-blob_id : {U F : Type 0} (d : Disk U F) (z : ℤ) → blob_id d ≡ some z → is_blob d ≡ true
unfolding blob_id is_blob
is_blob-blob_id Disk.null_device z h = absurd (cc (h))
is_blob-blob_id Disk.sd_card z h = absurd (cc (h))
is_blob-blob_id (Disk.usb_storage u) z h = absurd (cc (h))
is_blob-blob_id (Disk.blob_disk b) z h = refl

pub not_blob-blob_id : {U F : Type 0} (d : Disk U F) → blob_id d ≡ none → is_blob d ≡ false
unfolding blob_id is_blob
not_blob-blob_id Disk.null_device h = refl
not_blob-blob_id Disk.sd_card h = refl
not_blob-blob_id (Disk.usb_storage u) h = refl
not_blob-blob_id (Disk.blob_disk b) h = absurd (cc (h))

pub not_sd-blob_id : {U F : Type 0} (d : Disk U F) (z : ℤ) → blob_id d ≡ some z → is_sd d ≡ false
unfolding blob_id is_sd
not_sd-blob_id Disk.null_device z h = refl
not_sd-blob_id Disk.sd_card z h = absurd (cc (h))
not_sd-blob_id (Disk.usb_storage u) z h = refl
not_sd-blob_id (Disk.blob_disk b) z h = refl

pub get_blob-blob_id :
    {U F : Type 0} (d : Disk U F) (z : ℤ)
    → blob_id d ≡ some z
    → (b : Blob F) × (get_blob d ≡ done b) × (b.dev_id ≡ z)
unfolding blob_id get_blob
get_blob-blob_id Disk.null_device z h = absurd (cc (h))
get_blob-blob_id Disk.sd_card z h = absurd (cc (h))
get_blob-blob_id (Disk.usb_storage u) z h = absurd (cc (h))
get_blob-blob_id (Disk.blob_disk b) z h = (b, refl, cc (h))

-- An event is sent to a request that waits.
send_event-waits :
    (e : Event) (s : IpcLog) (hook : ℕ) (rest : List ℕ)
    → s.response_queue ≡ hook ∷ rest
    → (t : IpcLog) × (send_event e s ≡ some t)
unfolding send_event respond
send_event-waits e s hook rest waits = (
  answer hook (reply_of e) (bytes_of e) (record s { response_queue = rest }),
  rw (waits, respond) refl,
)

module _ {W U F : Type 0} where
  -- Every slot is as it was as to whether a device is inserted and which blob it holds.
  pub record Keeps (s t : State W U F) : Type 0 where
    pub inserted_is : (i : ℕ) → (t.devices i).inserted ≡ (s.devices i).inserted
    pub blob_is : (i : ℕ) → blob_id (t.devices i).disk ≡ blob_id (s.devices i).disk

  pub Keeps-refl : (s : State W U F) → Keeps s s
  Keeps-refl s = record { inserted_is = λ i. refl; blob_is = λ i. refl }

  pub Keeps-trans : (s t u : State W U F) → Keeps s t → Keeps t u → Keeps s u
  Keeps-trans s t u a b = record {
    inserted_is = λ i. b.inserted_is i ∙ a.inserted_is i;
    blob_is = λ i. b.blob_is i ∙ a.blob_is i;
  }

  -- A field of a slot that the change does not touch.
  pub with_device-field :
      {A : Type 0} (field : DeviceHandle U F → A) (i j : ℕ)
      (change : DeviceHandle U F → DeviceHandle U F) (s : State W U F)
      → field (change (s.devices i)) ≡ field (s.devices i)
      → field ((with_device i change s).devices j) ≡ field (s.devices j)
  unfolding with_device
  with_device-field field i j change s h = elim (Bool-cases (j == i)) [
    | inl same ↦ rw same (
        subst (λ k. field (change (s.devices k)) ≡ field (s.devices k)) (sym ((==_iff j i).0 same))
          h)
    | inr other ↦ rw other
  ]

  pub with_device-Keeps :
      (i : ℕ) (change : DeviceHandle U F → DeviceHandle U F) (s : State W U F)
      → ((d : DeviceHandle U F) → (change d).inserted ≡ d.inserted)
      → ((d : DeviceHandle U F) → blob_id (change d).disk ≡ blob_id d.disk)
      → Keeps s (with_device i change s)
  with_device-Keeps i change s hi hd = record {
    inserted_is = λ j. with_device-field (λ d. d.inserted) i j change s (hi (s.devices i));
    blob_is = λ j. with_device-field (λ d. blob_id d.disk) i j change s (hd (s.devices i));
  }

  -- Another slot stays whole.
  pub with_device-other :
      (i j : ℕ) (change : DeviceHandle U F → DeviceHandle U F) (s : State W U F)
      → j ≢ i
      → (with_device i change s).devices j ≡ s.devices j
  unfolding with_device
  with_device-other i j change s h = elim (Bool-cases (j == i)) [
    | inl same ↦ absurd (h ((==_iff j i).0 same))
    | inr other ↦ rw other
  ]

  -- A request of the channel waits for the next state that is told.
  abbrev pub IsListening : Launcher W U F → W → Type 0
  IsListening launcher w =
      (hook : ℕ) × (rest : List ℕ) × ((launcher.ipc_log w).response_queue ≡ hook ∷ rest)

  set_launch_state_lem :
      (drivers : Drivers W U) (fs : FatFs (State W U F) F) (launcher : Launcher W U F) (w : W)
      (state : LaunchError)
      → IsListening launcher w
      → (v : W) × (set_launch_state drivers fs launcher w state ≡ done v)
  unfolding set_launch_state
  set_launch_state_lem drivers fs launcher w state (hook, rest, waits) =
      let (log, sent) =
        send_event-waits (Event.launch_state (code_of state)) (launcher.ipc_log w) hook rest
          waits in
      (launcher.with_ipc_log log w, rw (sent, set_launch_state) refl)

  -- Where no state is to be told, or a request waits for it, `UpdateHandle` goes on with the same table.
  pub leave_no_card_lem :
      (drivers : Drivers W U) (fs : FatFs (State W U F) F) (launcher : Launcher W U F)
      (s : State W U F)
      → (is_no_sd_card s.launch_error ≡ false) ⊎ IsListening launcher s.world
      → (t : State W U F) × (leave_no_card drivers fs launcher s ≡ done t) × (t.devices ≡ s.devices)
  unfolding leave_no_card
  leave_no_card_lem drivers fs launcher s (inl some_yet) = (s, rw (some_yet), refl)
  leave_no_card_lem drivers fs launcher s (inr listening) =
      let (w, told) = set_launch_state_lem drivers fs launcher s.world LaunchError.ok listening in
      elim (Bool-cases (is_no_sd_card s.launch_error)) [
        | inr some_yet ↦ (s, rw (some_yet), refl)
        | inl none_yet ↦
            (record s { launch_error = LaunchError.ok; world = w }, rw (none_yet, told), refl)
      ]

  -- The library changes the table through the four sector operations only: it inserts and takes out
  -- nothing, replaces no blob, and clears no error. Neither does `LaunchMainDOL`, which returns.
  pub record IsQuiet (s t : State W U F) : Type 0 where
    pub keeps : Keeps s t
    pub error_stays : (i : ℕ) → (s.devices i).error ≡ true → (t.devices i).error ≡ true

  pub record IsQuietLibrary (fs : FatFs (State W U F) F) (launcher : Launcher W U F) : Type 0 where
    pub opens :
        (s : State W U F) (f : F) (path : List ℕ) (mode : ℕ)
        → IsQuiet s (fs.f_open s f path mode).world
    pub closes : (s : State W U F) (f : F) → IsQuiet s (fs.f_close s f).world
    pub mounts : (s : State W U F) (path : List ℕ) → IsQuiet s (fs.f_mount s path).1
    pub unmounts : (s : State W U F) (path : List ℕ) → IsQuiet s (fs.f_unmount s path).1
    pub launches :
        (s : State W U F) (dev_id : ℕ)
        → (r : Bool × State W U F) × (launcher.launch_main_dol s dev_id ≡ done r) × IsQuiet s r.1
    pub listens : (w : W) → IsListening launcher w

  -- The last slot holds the blob, which is not mounted on itself.
  abbrev pub IsReady : State W U F → Type 0
  IsReady s = (z : ℤ) × (blob_id (s.devices 8).disk ≡ some z) × (eq_ℤ z (pos 8) ≡ false)

  pub Keeps-IsReady : (s t : State W U F) → Keeps s t → IsReady s → IsReady t
  Keeps-IsReady s t k ready = (ready.0, k.blob_is 8 ∙ ready.1, ready.2)
