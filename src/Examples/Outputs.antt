-- ===== src/Examples/Outputs.antt =====
-- A module of one digest operation that follows the convention on outputs and reports two bytes too many, and the two helpers on it.
use gopkcs.Prelude.{ℕ, suc, ◌+◌, ◌%◌, refl, List, [], ◌∷◌, arith, leb, ◌==◌, if◌then◌else◌, length}
use gopkcs.Examples.Worlds.{plain_world, plain_env}
use gopkcs.Machine.Bytes.{Memory, load, store}
use gopkcs.Machine.Words.{store_word, load_word}
use gopkcs.Machine.Effects.{Slice, World, Env, Reply}
use gopkcs.Ctx.Output.{two_pass_output, two_pass_output_no_input}
use gopkcs.Ctx.Output.Convention.{Follows}
use gopkcs.Ctx.Output.TwoPass.{
  bytes_in, Delivers, two_pass_output_no_input-Delivers, two_pass_output-Delivers,
}

abbrev reply : List ℕ → ℕ → ℕ → ℕ → ℕ → Memory → Reply ℕ
reply bs t' p_out p_len t m =
    if p_out == 0
    then record { rv = 0; mem = store_word m p_len (length bs + 2); token = t }
    else (if leb (length bs) (load_word m p_len)
        then record { rv = 0; mem = store_word (store m p_out bs) p_len (length bs); token = t' }
        else record { rv = 0x150; mem = m; token = t })

-- Without an input the output is a byte that counts the calls, with an input the input behind it.
abbrev answer : List ℕ → ℕ → Memory → Reply ℕ
answer (sh ∷ p_out ∷ p_len ∷ []) t m = reply (t % 256 ∷ []) (suc t) p_out p_len t m
answer (sh ∷ p ∷ n ∷ p_out ∷ p_len ∷ []) t m = reply (t % 256 ∷ load m p n) (suc t) p_out p_len t m
answer args t m = record { rv = 7; mem = m; token = t }

abbrev env : Env ℕ
env = plain_env answer

abbrev world : World ℕ
world = plain_world 1000 41

env-Follows : Follows env 9 (5 ∷ []) (λ t m. 3) (λ t m. t % 256 ∷ []) (λ t m. suc t)
env-Follows = record {
  enough = λ t m. omega arith;
  query = λ t m p_len. refl;
  fill = λ t m p_out p_len h room. ground arith;
}

env-Follows_input :
    (p : ℕ) → Follows env 9 (5 ∷ p ∷ 3 ∷ []) (λ t m. 6) (λ t m. t % 256 ∷ load m p 3) (λ t m. suc t)
unfolding load
env-Follows_input p = record {
  enough = λ t m. omega arith;
  query = λ t m p_len. refl;
  fill = λ t m p_out p_len h room. ground arith;
}

abbrev message : Slice
message = record { ptr = 600; len = 3 }

two_pass_output_no_input-Delivers_example :
    Delivers world (41 ∷ []) 42 (two_pass_output_no_input env 9 5 world)
two_pass_output_no_input-Delivers_example =
    two_pass_output_no_input-Delivers env 9 5 world (omega arith) refl (λ t. 3) (λ t. t % 256 ∷ [])
      suc env-Follows (omega arith)

two_pass_output-Delivers_example :
    Delivers world (41 ∷ bytes_in world.mem message) 42 (two_pass_output env 9 5 message world)
unfolding load
two_pass_output-Delivers_example =
    two_pass_output-Delivers env 9 5 world (omega arith) refl message (λ t bs. 6)
      (λ t bs. t % 256 ∷ bs) (λ t bs. suc t) (omega arith) env-Follows_input (omega arith)
