-- ===== src/Examples/Parameters.antt =====
-- Parameter structures, and a GCMParams object through an operation.
use gopkcs.Prelude.{ℕ, ◌<◌, ◌≡◌, refl, ◌≢◌, inr, true, [], ◌∷◌, arith, count}
use gopkcs.Prelude.Int.{pos}
use gopkcs.Examples.Worlds.{plain_world, plain_env}
use gopkcs.Machine.Laws.{elem}
use gopkcs.Machine.Effects.{Slice, GcmParams, World, Env, ok}
use gopkcs.Types.{OaepParams, Ecdh1DeriveParams}
use gopkcs.Params.{oaep_marshal, ecdh_marshal, gcm_free, gcm_iv}
use gopkcs.Params.Layout.{Builds, oaep_marshal-Builds, ecdh_marshal-Builds}
use gopkcs.Params.Gcm.{bases, Owns, Marshals, gcm_marshal-Marshals}
use gopkcs.Params.Release.{Copies, gcm_free-Owns, gcm_iv-newest}

-- An IV of twelve bytes and an AAD of three.
abbrev object : GcmParams
object = record {
  iv = record { ptr = 600; len = 12 };
  aad = record { ptr = 700; len = 3 };
  tag_size = pos 128;
  ops = [];
}

abbrev world : World (Unit {0})
world = record (plain_world 1000 tt) {
  maps = record { base = 900; size = 50 } ∷ [];
  gcms = λ _. object;
}

abbrev env : Env (Unit {0})
env = plain_env (λ args t m. record { rv = 0; mem = m; token = t })

world-Owns : Owns (900 ∷ []) 0 world
world-Owns b = omega arith

gcm_marshal-Marshals_example :
    (b : Slice) × (w' : World (Unit {0})) × Marshals env 0 world (900 ∷ []) b w'
gcm_marshal-Marshals_example =
    gcm_marshal-Marshals env 0 world (omega arith) (omega arith) (900 ∷ []) world-Owns refl
      (omega arith) (omega arith)

-- The object with one operation, whose mapping is at 800.
abbrev in_use : World (Unit {0})
in_use = record world {
  maps = record { base = 800; size = 63 } ∷ record { base = 900; size = 50 } ∷ [];
  gcms = λ _. record object {
    ops =
        record { mem = record { base = 800; size = 63 }; iv = record { ptr = 848; len = 12 } } ∷ [];
  };
}

in_use-Owns : Owns (900 ∷ []) 0 in_use
in_use-Owns b = ground arith

gcm_free-Owns_example :
    (w' : World (Unit {0})) × (gcm_free 0 in_use ≡ ok tt w')
    × ((b : ℕ) → count b (bases w'.maps) ≡ count b (900 ∷ []))
    × ((w'.gcms 0).ops ≡ [])
    × ((w'.gcms 0).iv ≡ object.iv)
    × ((w'.gcms 0).aad ≡ object.aad)
gcm_free-Owns_example = gcm_free-Owns 0 in_use (900 ∷ []) in_use-Owns

gcm_iv-newest_example :
    (c : Slice) × (w' : World (Unit {0})) × (gcm_iv 0 in_use ≡ ok c w')
    × Copies (record { ptr = 848; len = 12 }) in_use c w'
gcm_iv-newest_example =
    gcm_iv-newest 0 in_use (record { ptr = 848; len = 12 }) (inr ([], _, refl, refl))

abbrev oaep : OaepParams
oaep = record {
  hash_alg = 0x220;
  mgf = 1;
  source_type = 1;
  source_data = record { ptr = 600; len = 4 };
}

oaep_marshal-Builds_example :
    (b : Slice) × (w' : World (Unit {0})) × (oaep_marshal 0 oaep world ≡ ok b w')
    × Builds (0x220 ∷ 1 ∷ 1 ∷ 600 ∷ 4 ∷ []) world b w'
    × (0 < 4 → elem 600 (w'.pins 0) ≡ true)
    × ((x : ℕ) → 0 ≢ x → w'.pins x ≡ [])
oaep_marshal-Builds_example =
    oaep_marshal-Builds world 0 oaep
      (omega arith, (omega arith, (omega arith, (omega arith, (omega arith, tt)))))

-- No shared data, and a public key of 65 bytes.
abbrev ecdh : Ecdh1DeriveParams
ecdh = record {
  kdf = 1;
  shared_data = record { ptr = 0; len = 0 };
  public_key_data = record { ptr = 600; len = 65 };
}

ecdh_marshal-Builds_example :
    (b : Slice) × (w' : World (Unit {0})) × (ecdh_marshal 0 ecdh world ≡ ok b w')
    × Builds (1 ∷ 0 ∷ 0 ∷ 65 ∷ 600 ∷ []) world b w'
    × (0 < 0 → elem 0 (w'.pins 0) ≡ true)
    × (0 < 65 → elem 600 (w'.pins 0) ≡ true)
    × ((x : ℕ) → 0 ≢ x → w'.pins x ≡ [])
ecdh_marshal-Builds_example =
    ecdh_marshal-Builds world 0 ecdh
      (omega arith, (omega arith, (omega arith, (omega arith, (omega arith, tt)))))
