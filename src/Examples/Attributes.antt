-- ===== src/Examples/Attributes.antt =====
-- A module that has a value of three bytes for attribute 3 and an empty one for any other.
use gopkcs.Prelude.{ℕ, refl, some, List, [], ◌∷◌, arith, ◌==◌, if◌then◌else◌}
use gopkcs.Examples.Worlds.{plain_world, plain_env}
use gopkcs.Machine.Bytes.{Memory}
use gopkcs.Machine.Effects.{nil, World, Env, Reply}
use gopkcs.Types.{Attribute}
use gopkcs.FuncList.{FunctionList, read_function_list}
use gopkcs.Ctx.Objects.{get_attribute_value}
use gopkcs.Ctx.Objects.Convention.{answer, Answers}
use gopkcs.Ctx.Objects.GetAttributes.{Gets, get_attribute_value-Gets}

abbrev value : ℕ → ℕ → List ℕ
value t typ = if typ == 3 then t ∷ 20 ∷ 30 ∷ [] else []

abbrev reply : List ℕ → ℕ → Memory → Reply ℕ
reply (sh ∷ o ∷ p ∷ n ∷ []) t m = record { rv = 0; mem = answer (value t) m p n; token = t }
reply args t m = record { rv = 7; mem = m; token = t }

abbrev env : Env ℕ
env = plain_env reply

abbrev world : World ℕ
world = plain_world 2000 10

abbrev table : FunctionList
table = read_function_list world.mem 400 7

env-Answers : Answers env table.c_get_attribute_value (5 ∷ 6 ∷ []) value
env-Answers = record { reply = λ t m p n room. refl }

abbrev template : List Attribute
template =
    record { type = 1; value = nil }
    ∷ record { type = 3; value = record { ptr = 600; len = 9 } }
    ∷ []

get_attribute_value-Gets_example :
    Gets world
      ((1, []) ∷ (3, 10 ∷ 20 ∷ 30 ∷ []) ∷ [])
      (get_attribute_value env (record { fl = some table }) 5 6 template world)
get_attribute_value-Gets_example =
    get_attribute_value-Gets env table 5 6 value env-Answers template world (omega arith)
      (omega arith) (omega arith) (omega arith) (omega arith)
