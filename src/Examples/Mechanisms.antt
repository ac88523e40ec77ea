-- ===== src/Examples/Mechanisms.antt =====
-- A mechanism with an IV of sixteen bytes as its parameter.
use gopkcs.Prelude.{ℕ, ◌<◌, ◌≡◌, refl, ◌≢◌, true, [], ◌∷◌, arith}
use gopkcs.Examples.Worlds.{plain_world, plain_env}
use gopkcs.Machine.Laws.{elem}
use gopkcs.Machine.Effects.{Slice, World, Env, ok}
use gopkcs.Types.{Mechanism, absent}
use gopkcs.Params.Layout.{Builds}
use gopkcs.Arena.{param_bytes, marshal_mechanism}
use gopkcs.Arena.Mechanisms.{marshal_mechanism-Builds}

abbrev world : World (Unit {0})
world = plain_world 1000 tt

abbrev env : Env (Unit {0})
env = plain_env (λ args t m. record { rv = 0; mem = m; token = t })

abbrev iv : Slice
iv = record { ptr = 600; len = 16 }

-- CKM_AES_CBC.
abbrev cbc : Mechanism
cbc = record { mechanism = 0x1082; parameter = iv; generator = absent }

ready : param_bytes env 0 cbc.parameter cbc.generator world ≡ ok iv world
unfolding param_bytes
ready = refl

marshal_mechanism-Builds_example :
    (b : Slice) × (w' : World (Unit {0})) × (marshal_mechanism env 0 (cbc ∷ []) world ≡ ok b.ptr w')
    × Builds (0x1082 ∷ 600 ∷ 16 ∷ []) world b w'
    × (elem b.ptr (w'.pins 0) ≡ true)
    × (0 < 16 → elem 600 (w'.pins 0) ≡ true)
    × ((x : ℕ) → 0 ≢ x → w'.pins x ≡ [])
marshal_mechanism-Builds_example =
    marshal_mechanism-Builds env 0 cbc [] world world iv ready
      (omega arith, (omega arith, (omega arith, tt)))
