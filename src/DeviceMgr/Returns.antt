-- ===== src/DeviceMgr/Returns.antt =====
-- `UpdateHandle` on a storage device returns, and its calls of itself end at depth two; where another
-- device holds a mounted blob already, it stops in `std::get`.
use ctgpr_msc.Base.{
  ℕ, suc, ◌≡◌, ◌<◌, refl, ap, ◌∙◌, Bool, true, false, ◌&&◌, inl, inr, ◌⊎◌, arith, lt→ltb,
  Bool-cases, if◌then◌else◌, none,
}
use ctgpr_msc.Base.Outcome.{Outcome, done}
use ctgpr_msc.FatFs.{FatFs}
use ctgpr_msc.DeviceMgr.{DeviceHandle, State, Drivers, is_sd, with_world}
use ctgpr_msc.DeviceMgr.Update.{Launcher, refresh, mount_new, update_body, update_handle}
use ctgpr_msc.DeviceMgr.Slots.{
  blob_id, with_device-field, with_device-other, IsQuietLibrary, IsReady,
}
use ctgpr_msc.DeviceMgr.Nested.{update_blob}
use ctgpr_msc.DeviceMgr.Unmount.{other, Nested, IsUnmounted, unmount_gone_lem}
use ctgpr_msc.DeviceMgr.Mounting.{IsFree, IsFree-other, mount_new_lem, mount_new_out}

same_branches : {A : Type 0} (b : Bool) (x : A) → (if b then x else x) ≡ x
same_branches true x = refl
same_branches false x = refl

module _ {W U F : Type 0} (drivers : Drivers W U) (fs : FatFs (State W U F) F)
    (launcher : Launcher W U F) (quiet : IsQuietLibrary fs launcher) (dev_id : ℕ)
    (small : dev_id < 8) where
  abbrev S : Type 0
  S = State W U F

  refresh_lem :
      (s : S)
      → ((refresh drivers fs launcher dev_id s).devices 8 ≡ s.devices 8)
        × (blob_id ((refresh drivers fs launcher dev_id s).devices dev_id).disk
            ≡ blob_id (s.devices dev_id).disk)
  unfolding refresh with_world
  refresh_lem s =
      let disk = (s.devices dev_id).disk in
      let card = drivers.sd_is_inserted s.world in
      let apart = other drivers fs launcher quiet dev_id small in
      let change : Bool → DeviceHandle U F → DeviceHandle U F =
        λ b d. record d { inserted = b; error = b && d.error } in
      elim (Bool-cases (is_sd disk)) [
        | inl sd ↦ simp (sd) (
          with_device-other dev_id 8 (change card.0) (with_world card.1 s) apart,
          with_device-field (λ d. blob_id d.disk) dev_id dev_id (change card.0)
              (with_world card.1 s) refl,
        )
        | inr none_such ↦
            let stays = change (s.devices dev_id).inserted in
            simp (none_such) (
              with_device-other dev_id 8 stays s apart,
              with_device-field (λ d. blob_id d.disk) dev_id dev_id stays s refl,
            )
      ]

  -- What follows the unmount.
  finish :
      (update : ℕ → S → Outcome S) (s : S) (r : Bool × S)
      → Nested drivers fs launcher quiet dev_id small update
      → IsUnmounted drivers fs launcher quiet dev_id small s r
      → blob_id (s.devices dev_id).disk ≡ none
      → IsFree s
      → (t : S) × ((if r.0 then done r.1 else mount_new drivers fs launcher update dev_id r.1)
          ≡ done t)
        × IsReady t
  finish update s r nested u storage free = go u.next
    where
      go :
          (r.0 ≡ true) ⊎ (((r.1.devices dev_id).inserted ≡ false) ⊎ (r.1 ≡ s))
          → (t : S) × ((if r.0 then done r.1 else mount_new drivers fs launcher update dev_id r.1)
              ≡ done t)
            × IsReady t
      go (inl returned) = (r.1, rw returned, u.is_ready)
      go (inr (inl out)) = (
        r.1,
        rw (mount_new_out drivers fs launcher quiet dev_id small update r.1 out)
            (same_branches r.0 (done r.1)),
        u.is_ready,
      )
      go (inr (inr same)) =
          let (t, e, ready_t) =
            mount_new_lem drivers fs launcher quiet dev_id small update r.1 nested u.is_ready
              (ap (λ k. blob_id (k.devices dev_id).disk) same ∙ storage)
              (IsFree-other drivers fs launcher quiet dev_id small s r.1
                (ap (λ k. k.devices 8) same) free) in
          elim (Bool-cases r.0) [
            | inl returned ↦ (r.1, rw returned, u.is_ready)
            | inr goes_on ↦ (t, rw goes_on e, ready_t)
          ]

  -- A storage device whose turn it is while no blob is in use: the update returns, whatever the
  -- drivers and the library answer, wherever `LaunchMainDOL` returns and a request of the channel waits
  -- for each state that `SetLaunchState` tells. The calls that it makes of itself end at depth two. The
  -- library and the launch may set error flags, but put no device in or out and replace no blob. Slot 8
  -- then still holds a `Blob`, which is on another device or on none.
  pub update_handle-returns :
      (fuel : ℕ) (s : S)
      → IsReady s
      → blob_id (s.devices dev_id).disk ≡ none
      → IsFree s
      → (t : S) × (update_handle drivers fs launcher (suc (suc fuel)) dev_id s ≡ done t) × IsReady t
  unfolding update_handle update_body
  update_handle-returns fuel s ready storage free =
      let fresh = refresh drivers fs launcher dev_id s in
      let (whole, same_disk) = refresh_lem s in
      let ready' : IsReady fresh = (ready.0, ap (λ d. blob_id d.disk) whole ∙ ready.1, ready.2) in
      let nested : Nested drivers fs launcher quiet dev_id small
          (update_handle drivers fs launcher (suc fuel)) =
        λ t h. update_blob drivers fs launcher quiet (update_handle drivers fs launcher fuel) t h in
      let (r, gone, u) =
        unmount_gone_lem drivers fs launcher quiet dev_id small
          (update_handle drivers fs launcher (suc fuel)) fresh nested ready' in
      let (t, e, ready_t) =
        finish (update_handle drivers fs launcher (suc fuel)) fresh r nested u (same_disk ∙ storage)
          (IsFree-other drivers fs launcher quiet dev_id small s fresh whole free) in
      elim (Bool-cases (s.devices dev_id).enabled) [
        | inr off ↦ (s, simp (lt→ltb dev_id 9 (omega arith), off), ready)
        | inl on ↦ (t, simp (lt→ltb dev_id 9 (omega arith), on, gone) e, ready_t)
      ]
