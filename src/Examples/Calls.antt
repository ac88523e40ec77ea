-- ===== src/Examples/Calls.antt =====
-- A module that rejects the PIN and has no slots, and a program of calls on it.
use gopkcs.Prelude.{ℕ, suc, ◌≡◌, refl, true, some, List, [], ◌∷◌}
use gopkcs.Examples.Worlds.{plain_world, plain_env}
use gopkcs.Machine.Bytes.{Memory}
use gopkcs.Machine.Effects.{World, Env, Reply}
use gopkcs.Machine.Effects.{
  new_word, allocate, new_pinner, pin, unpin, syscall_n, get_word, with_pinner, bytes_of_string,
  put_bytes,
}
use gopkcs.Machine.Bytes.{store}
use gopkcs.Machine.Words.{load_word}
use gopkcs.Params.{pin_bytes}
use gopkcs.Ctx.Slots.{get_slot_list}
use gopkcs.Ctx.Sessions.{login, logout}
use gopkcs.FuncList.{read_function_list}
use gopkcs.Ctx.Base.{Ctx, invoke}
use gopkcs.Ctx.Methods.{run, Method, call_get_slot_list, call_login, call_logout, calls}
use gopkcs.Machine.Reports.{Reported}
use gopkcs.Ctx.Reports.Refusals.{run-Reported}
use gopkcs.Ctx.Pins.Release.{calls-pins}

-- C_Login is the only function here with four arguments.
abbrev answer : List ℕ → ℕ → Memory → Reply ℕ
answer (sh ∷ typ ∷ p ∷ n ∷ []) t m = record { rv = 0xa0; mem = m; token = t }
answer args t m = record { rv = 0; mem = m; token = suc t }

abbrev env : Env ℕ
env = plain_env answer

abbrev world : World ℕ
world = plain_world 2000 0

abbrev ctx : Ctx
ctx = record { fl = some (read_function_list world.mem 400 7) }

abbrev program : List Method
program = call_get_slot_list true ∷ call_login 1 1 (b'1' ∷ b'2' ∷ []) ∷ call_logout 1 ∷ []

program_runs : (w' : World ℕ) × (calls env ctx program world ≡ some w')
unfolding calls get_slot_list login logout new_word allocate new_pinner pin unpin invoke syscall_n
    get_word load_word store with_pinner bytes_of_string put_bytes pin_bytes
program_runs = (_, refl)

-- Pinner 1 is the first that the program makes.
calls-pins_example : program_runs.0.pins 1 ≡ world.pins 1
calls-pins_example = calls-pins env ctx program world program_runs.0 (λ o h. refl) program_runs.1 1

-- The same answers from a module that keeps them.
abbrev code_of : List ℕ → ℕ
code_of (sh ∷ typ ∷ p ∷ n ∷ []) = 0xa0
code_of args = 0

abbrev logging : Env (List ℕ)
logging = plain_env (λ args t m. record { rv = code_of args; mem = m; token = code_of args ∷ t })

run-Reported_example :
    Reported
      (λ t. t)
      (plain_world 2000 [])
      (run logging ctx (call_login 1 1 (b'1' ∷ [])) (plain_world 2000 []))
run-Reported_example =
    run-Reported (λ t. t) logging (record { logs = λ fn args t m. refl }) ctx
      (call_login 1 1 (b'1' ∷ [])) (plain_world 2000 []) (λ flags e. cc)
