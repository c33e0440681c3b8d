-- ===== src/Checksum/Tests.antt =====
-- The checksum at concrete inputs.
use xdp.Base.{◌%◌, ◌<◌, [], ◌∷◌, ◌≡◌, refl, arith}
use xdp.Checksum.{fold32, fold64, sum_words, compute}
use xdp.Checksum.Sum.{sum16, compute_mod}

compute_mod_example :
    (compute (1 ∷ 2 ∷ 255 ∷ 255 ∷ 7 ∷ []) % 65535 ≡ sum16 (1 ∷ 2 ∷ 255 ∷ 255 ∷ 7 ∷ []) % 65535)
    × (compute (1 ∷ 2 ∷ 255 ∷ 255 ∷ 7 ∷ []) < 65536)
compute_mod_example =
    compute_mod (1 ∷ 2 ∷ 255 ∷ 255 ∷ 7 ∷ [])
      (omega arith, (omega arith, (omega arith, (omega arith, (omega arith, tt))))) (omega arith)

-- The fold of an odd block.
compute_odd : compute (1 ∷ 2 ∷ 255 ∷ 255 ∷ 7 ∷ []) ≡ 520
unfolding compute sum_words fold64 fold32
compute_odd = refl
