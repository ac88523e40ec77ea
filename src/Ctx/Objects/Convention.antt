-- ===== src/Ctx/Objects/Convention.antt =====
-- C_GetAttributeValue of a module that has every attribute it is asked for: where pValue is NULL it
-- reports the length of the value, where pValue has room it writes the value and its length.
use gopkcs.Prelude.{
  ℕ, zero, suc, ◌+◌, ◌≤◌, ◌≡◌, ◌⊎◌, List, [], ◌∷◌, ◌++◌, ◌==◌, if◌then◌else◌, length, All,
}
use gopkcs.Machine.Bytes.{Memory, store}
use gopkcs.Machine.Words.{load_word, store_word}
use gopkcs.Machine.Effects.{Env}
use gopkcs.Arena.Layout.{Entry, read_entries}

-- The values by their types; m is the memory, p the place of the entry or of the array.
unfoldable pub answer_entry : (ℕ → List ℕ) → Memory → ℕ → Memory
answer_entry value m p =
    let bs = value (load_word m p) in
    let q = load_word m (p + 8) in
    if q == 0
    then store_word m (p + 16) (length bs)
    else store_word (store m q bs) (p + 16) (length bs)

unfoldable pub answer : (ℕ → List ℕ) → Memory → ℕ → ℕ → Memory
answer value m p zero = m
answer value m p (suc n) = answer value (answer_entry value m p) (p + 24) n

abbrev pub HasRoom : (ℕ → List ℕ) → Entry → Type 0
HasRoom value e = (e.p_value ≡ 0) ⊎ (length (value e.type) ≤ e.value_len)

pub record Answers {S : Type 0} (env : Env S) (fn : ℕ) (args : List ℕ) (value : S → ℕ → List ℕ)
    : Type 0 where
  pub reply :
      (t : S) (m : Memory) (p n : ℕ)
      → All (HasRoom (value t)) (read_entries m p n)
      → env.call fn (args ++ p ∷ n ∷ []) t m
        ≡ record { rv = 0; mem = answer (value t) m p n; token = t }
