-- ===== src/Aes/Tests.antt =====
-- An engine over a toy block cipher, and instances of the theorems on `AES::Decrypt`.
use ctgpr_msc.Base.{ℕ, ◌≡◌, refl, List, [], arith, replicate, length-replicate}
use ctgpr_msc.Base.Int.{pos, negsuc}
use ctgpr_msc.Base.Outcome.{done, stuck}
use ctgpr_msc.Aes.{Engine, decrypt}
use ctgpr_msc.Aes.Cbc.{cbc, last_block, IsCbc}
use ctgpr_msc.Aes.Decrypt.{decrypt-cbc, decrypt_hangs}

-- The block cipher that leaves a block as it is.
abbrev plain : List ℕ → List ℕ
plain x = x

abbrev chaining : Engine (Unit {0})
chaining = record {
  encrypt = λ w key iv xs. record { ret = pos 0; output = xs; iv = iv; world = w };
  decrypt = λ w key iv xs. record {
    ret = pos 0;
    output = cbc plain iv xs;
    iv = last_block xs;
    world = w;
  };
}

chaining-IsCbc : IsCbc chaining [] plain
chaining-IsCbc = record { deciphers = λ w iv xs h. refl }

abbrev broken : Engine (Unit {0})
broken = record {
  encrypt = λ w key iv xs. record { ret = negsuc 0; output = xs; iv = iv; world = w };
  decrypt = λ w key iv xs. record { ret = negsuc 0; output = xs; iv = iv; world = w };
}

decrypt-cbc_example :
    decrypt chaining [] 3 tt (replicate 16 1) (replicate 80000 7)
    ≡ done (record {
      ret = pos 0;
      output = cbc plain (replicate 16 1) (replicate 80000 7);
      iv = last_block (replicate 80000 7);
      world = tt;
    })
decrypt-cbc_example =
    decrypt-cbc chaining [] plain chaining-IsCbc 2 tt (replicate 16 1) (replicate 80000 7)
      (omega (arith, length-replicate {A = ℕ} 80000 7))
      (omega (arith, length-replicate {A = ℕ} 80000 7))

decrypt_hangs_example : decrypt broken [] 1000 tt (replicate 16 1) (replicate 65536 7) ≡ stuck
decrypt_hangs_example =
    decrypt_hangs broken [] (λ w iv xs. refl) 1000 tt (replicate 16 1) (replicate 65536 7)
      (omega (arith, length-replicate {A = ℕ} 65536 7))
