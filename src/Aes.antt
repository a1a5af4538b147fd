-- ===== src/Aes.antt =====
-- common/System/AES.hpp: the interface to the AES engine. The engine itself, reached by an ioctlv of
-- /dev/aes, is a parameter; a world `W` stands for all that a call may change.
pub mod Cbc
pub mod Decrypt
mod Tests
use ctgpr_msc.Base.{
  ℕ, zero, suc, ◌^◌, List, [], ◌++◌, if◌then◌else◌, true, false, ◌||◌, not, ltb, length, take, drop,
}
use ctgpr_msc.Base.Int.{ℤ, pos, eq_ℤ}
use ctgpr_msc.Base.Outcome.{Outcome, done, stuck}

-- What a call of the engine leaves: its code, the output buffer, the IV buffer and the world.
pub record Reply (W : Type 0) : Type 0 where
  pub ret : ℤ
  pub output : List ℕ
  pub iv : List ℕ
  pub world : W

-- The two ioctlvs of the engine: world, key, IV and input.
pub record Engine (W : Type 0) : Type 0 where
  pub encrypt : W → List ℕ → List ℕ → List ℕ → Reply W
  pub decrypt : W → List ℕ → List ℕ → List ℕ → Reply W

abbrev pub max_input_size : ℕ
max_input_size = 2 ^ 16

module _ {W : Type 0} (engine : Engine W) (key : List ℕ) where
  -- `AES::Encrypt`
  unfoldable pub encrypt : W → List ℕ → List ℕ → Reply W
  encrypt w iv input = engine.encrypt w key iv input

  -- The loop of `AES::Decrypt`: the last reply, with the output so far, and the input left.
  pub decrypt_loop : ℕ → Reply W → List ℕ → Outcome (Reply W)
  decrypt_loop zero r input = stuck
  decrypt_loop (suc fuel) r input = elim (ltb 0 (length input) || not (eq_ℤ r.ret (pos 0))) [
    | true ↦
        let next = engine.decrypt r.world key r.iv (take max_input_size input) in
        decrypt_loop fuel (record next { output = r.output ++ next.output })
          (drop max_input_size input)
    | false ↦ done r
  ]

  -- `AES::Decrypt`, its loop held to `fuel` tests.
  pub decrypt : ℕ → W → List ℕ → List ℕ → Outcome (Reply W)
  decrypt fuel w iv input =
      let looped =
        decrypt_loop fuel (record { ret = pos 0; output = []; iv = iv; world = w }) input in
      if ltb (length input) max_input_size then done (engine.decrypt w key iv input) else looped
