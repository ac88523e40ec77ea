-- ===== src/Examples/Labels.antt =====
-- A token that keeps its label.
use gopkcs.Prelude.{ℕ, ◌≡◌, refl, sym, some, List, [], ◌∷◌, arith}
use mathlib.Core.List.{append-nil}
use gopkcs.Examples.Worlds.{plain_world, plain_env}
use gopkcs.Machine.Bytes.{Memory, load, store}
use gopkcs.Machine.Effects.{World, Env, Reply, ok}
use gopkcs.Types.Padding.{pad_string}
use gopkcs.FuncList.{FunctionList, read_function_list}
use gopkcs.Ctx.Slots.{init_token, get_token_info}
use gopkcs.Ctx.Slots.Label.{label_of, get_token_info-init_token}
use gopkcs.Examples.Texts.{label, label-IsTrimmed}

-- The state is the label as it is stored. C_InitToken has four arguments, C_GetTokenInfo two.
abbrev answer : List ℕ → List ℕ → Memory → Reply (List ℕ)
answer (slot ∷ p_pin ∷ n ∷ p_label ∷ []) t m = record { rv = 0; mem = m; token = load m p_label 32 }
answer (slot ∷ buf ∷ []) t m = record { rv = 0; mem = store m buf t; token = t }
answer args t m = record { rv = 7; mem = m; token = t }

abbrev env : Env (List ℕ)
env = plain_env answer

abbrev world : World (List ℕ)
world = plain_world 2000 []

abbrev table : FunctionList
table = read_function_list world.mem 400 7

get_token_info-init_token_example :
    (w' : World (List ℕ)) × (init_token env (record { fl = some table }) 0 (b'1' ∷ []) label world
      ≡ ok tt w')
    × (w'.token ≡ pad_string label 32)
    × (label_of (get_token_info env (record { fl = some table }) 0 w') ≡ some label)
get_token_info-init_token_example =
    get_token_info-init_token env table (λ slot pass l t. l) (λ slot p n l t m. refl) (λ t. t)
      (λ t. []) (λ slot buf t m. refl) (λ slot pass l t. sym (append-nil l)) 0 (b'1' ∷ []) label
      world (omega arith) label-IsTrimmed
