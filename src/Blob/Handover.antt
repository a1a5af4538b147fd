-- ===== src/Blob/Handover.antt =====
-- `LaunchMainDOL` of Blob.cpp: when the SD emulation is given a device.
use ctgpr_msc.Base.{ℕ, ◌≡◌, refl, inl, inr, List, Bool-cases, true, false, ◌==◌}
use ctgpr_msc.Base.Int.{ℤ}
use ctgpr_msc.Base.Words.{drive_path}
use ctgpr_msc.FatFs.{FatFs, fr_ok, fa_read}
use ctgpr_msc.Blob.{Blob}
use ctgpr_msc.Base.Memory.{Memory}
use ctgpr_msc.Blob.Launch.{Boot, Launch, launch_stub, launch_main, launch_main_dol}

-- The two ways in which a launch ends.
pub data IsLaunched {W F : Type 0} (blob : Blob F) (emu_dev_id : ℤ) (r : Launch W F) : Type 0 where
  launched :
      r.good ≡ true
      → blob.opened ≡ true
      → r.emu_dev_id ≡ blob.dev_id
      → r.blob.dev_id ≡ blob.dev_id
      → IsLaunched blob emu_dev_id r
  kept :
      r.good ≡ false
      → r.emu_dev_id ≡ emu_dev_id
      → r.blob.dev_id ≡ blob.dev_id
      → IsLaunched blob emu_dev_id r

module _ {W F : Type 0} (fs : FatFs W F) (boot : Boot W F) where
  -- Either the launch succeeds, and then the image was open and the SD emulation has its
  -- device, or it fails, and then the SD emulation keeps the device that it had. The object keeps its
  -- device in both cases.
  pub launch_main_dol_lem :
      (stale : List ℕ) (dev_id : ℕ) (blob : Blob F) (emu_dev_id : ℤ) (mem : Memory) (w : W)
      → IsLaunched blob emu_dev_id (launch_main_dol fs boot stale dev_id blob emu_dev_id mem w)
  unfolding launch_main_dol
  launch_main_dol_lem stale dev_id blob emu_dev_id mem w =
      let linked = fs.f_lseek w (boot.set_cltbl blob.fil 0x1000) boot.create_linkmap in
      let stub_file =
        fs.f_open linked.world boot.new_fil (drive_path dev_id ":/packages/chan/stub.dol")
          fa_read in
      let stub = launch_stub fs boot stale stub_file.fil mem stub_file.world in
      let main_file =
        fs.f_open stub.world stub.fil (drive_path dev_id ":/packages/chan/main.dol") fa_read in
      let main = launch_main fs boot stale main_file.fil stub.memory main_file.world in
      elim (Bool-cases blob.opened) [
        | inr closed ↦ simp (closed) (IsLaunched.kept refl refl refl)
        | inl opened ↦ elim (Bool-cases (stub_file.ret == fr_ok)) [
          | inr no_stub ↦ simp (opened, no_stub) (IsLaunched.kept refl refl refl)
          | inl stub_there ↦ elim (Bool-cases (main_file.ret == fr_ok)) [
            | inr no_main ↦ simp (opened, stub_there, no_main) (IsLaunched.kept refl refl refl)
            | inl main_there ↦ elim (Bool-cases main.good) [
              | inl good ↦
                  simp (opened, stub_there, main_there, good)
                    (IsLaunched.launched refl opened refl refl)
              | inr bad ↦
                  simp (opened, stub_there, main_there, bad) (IsLaunched.kept refl refl refl)
            ]
          ]
        ]
      ]
