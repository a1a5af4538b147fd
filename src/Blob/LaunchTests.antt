-- ===== src/Blob/LaunchTests.antt =====
-- An executable of one section, and instances of the theorems on loading.
use ctgpr_msc.Base.{
  ℕ, ◌≡◌, refl, arith, List, [], ◌∷◌, true, false, replicate, take, length-replicate,
}
use ctgpr_msc.Base.Int.{pos, negsuc}
use ctgpr_msc.Base.Words.{word_be32}
use ctgpr_msc.Blob.{Blob}
use ctgpr_msc.Base.Memory.{Memory}
use ctgpr_msc.Blob.Launch.{Boot, header_word, finish, launch_dol, launch_main_dol}
use ctgpr_msc.Blob.Image.{NeverFails, image, launch_dol_lem}
use ctgpr_msc.Blob.Handover.{IsLaunched, launch_main_dol_lem}
use ctgpr_msc.Blob.Tests.{memory, memory-IsReadable}

memory-NeverFails : NeverFails memory
memory-NeverFails = record { seeks = λ w f to. refl; reads = λ w f n. refl }

-- The first word is 0x100, all others are 0.
abbrev executable : List ℕ
executable = 0 ∷ 0 ∷ 1 ∷ 0 ∷ replicate 300 0

abbrev blank : Memory
blank a = 0

launch_dol_lem_example :
    ((launch_dol memory false (replicate 256 9) (executable, 0) blank tt).good ≡ true)
    × ((launch_dol memory false (replicate 256 9) (executable, 0) blank tt).memory
        ≡ finish (take 256 executable) (image 18 executable (take 256 executable) blank))
unfolding header_word word_be32
launch_dol_lem_example =
    launch_dol_lem memory _ memory-IsReadable memory-NeverFails false (replicate 256 9) executable
      (executable, 0) blank tt (refl, refl) (omega (arith, length-replicate {A = ℕ} 300 0))
      (length-replicate {A = ℕ} 256 9) refl

abbrev boot : Boot (Unit {0}) (List ℕ × ℕ)
boot = record { set_cltbl = λ f n. f; create_linkmap = 0; notify = λ w id. w; new_fil = ([], 0) }

abbrev mounted : Blob (List ℕ × ℕ)
mounted = record { fil = ([], 0); dev_id = pos 2; opened = true }

launch_main_dol_lem_example :
    IsLaunched mounted
      (negsuc 0)
      (launch_main_dol memory boot (replicate 256 9) 2 mounted (negsuc 0) blank tt)
launch_main_dol_lem_example =
    launch_main_dol_lem memory boot (replicate 256 9) 2 mounted (negsuc 0) blank tt
