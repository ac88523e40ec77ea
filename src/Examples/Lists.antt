-- ===== src/Examples/Lists.antt =====
-- A module with two slots, or two mechanisms.
use gopkcs.Prelude.{ℕ, refl, true, some, List, [], ◌∷◌, arith, ◌==◌, if◌then◌else◌}
use gopkcs.Examples.Worlds.{plain_world, plain_env}
use gopkcs.Machine.Bytes.{Memory}
use gopkcs.Machine.Structures.{store_words}
use gopkcs.Machine.Words.{store_word}
use gopkcs.Machine.Effects.{World, Env, Reply}
use gopkcs.FuncList.{FunctionList, read_function_list}
use gopkcs.Ctx.Slots.{get_slot_list, get_mechanism_list}
use gopkcs.Ctx.Slots.Lists.{plain, Enumerates, Gives, get_slot_list-Gives, get_mechanism_list-Gives}

abbrev items : ℕ → List ℕ
items t = t ∷ 7 ∷ []

abbrev reply : List ℕ → ℕ → Memory → Reply ℕ
reply (first ∷ q ∷ p ∷ []) t m =
    if q == 0
    then record { rv = 0; mem = store_word m p 2; token = t }
    else record { rv = 0; mem = store_word (store_words m q (items t)) p 2; token = t }
reply args t m = record { rv = 7; mem = m; token = t }

abbrev env : Env ℕ
env = plain_env reply

abbrev world : World ℕ
world = plain_world 2000 10

abbrev table : FunctionList
table = read_function_list world.mem 400 7

env-Enumerates : (fn first : ℕ) → Enumerates env fn first items
env-Enumerates fn first = record {
  query = λ t m p. refl;
  fill = λ t m q p not_null room. ground arith;
}

get_slot_list-Gives_example :
    Gives world (10 ∷ 7 ∷ []) (get_slot_list env (record { fl = some table }) true world)
get_slot_list-Gives_example =
    get_slot_list-Gives env table items world (omega arith) (omega arith) (omega arith) true
      (env-Enumerates table.c_get_slot_list 1)

get_mechanism_list-Gives_example :
    Gives world
      (plain 10 ∷ plain 7 ∷ [])
      (get_mechanism_list env (record { fl = some table }) 5 world)
get_mechanism_list-Gives_example =
    get_mechanism_list-Gives env table items world (omega arith) (omega arith) (omega arith) 5
      (env-Enumerates table.c_get_mechanism_list 5)
