-- ===== src/Examples/Registries.antt =====
-- A module that is loaded twice, and the locks of two tokens.
use gopkcs.Prelude.{ℕ, suc, ◌≡◌, ◌↔◌, List, [], ◌∷◌}
use gopkcs.Examples.Worlds.{plain_world, plain_env}
use gopkcs.Machine.Words.{store_word}
use gopkcs.Machine.Effects.{World, Env, Reply}
use gopkcs.Signer.Registry.{locked, TokenId, login_lock, initialize_module}
use gopkcs.Signer.Registry.Cached.{login_lock-shared}
use gopkcs.Signer.Registry.Kept.{Caches, initialize_module-Caches}

-- C_GetFunctionList, which is called with one argument, gives the table at 500.
abbrev answer : List ℕ → ℕ → (ℕ → ℕ) → Reply ℕ
answer (p ∷ []) t m = record { rv = 0; mem = store_word m p 500; token = suc t }
answer args t m = record { rv = 0; mem = m; token = suc t }

abbrev env : Env ℕ
env = plain_env answer

abbrev world : World ℕ
world = plain_world 2000 0

initialize_module-Caches_example :
    Caches env "/lib/module.so" [] (initialize_module env "/lib/module.so" [] world)
initialize_module-Caches_example = initialize_module-Caches env "/lib/module.so" [] world

abbrev first : TokenId
first = record { module_id = 0; label = b'A' ∷ [] }

abbrev second : TokenId
second = record { module_id = 0; label = b'B' ∷ [] }

login_lock-shared_example :
    ((login_lock second (locked (second ∷ []) (login_lock first []).1)).0 ≡ (login_lock first []).0)
    ↔ (first ≡ second)
login_lock-shared_example = login_lock-shared first second [] (second ∷ [])
