-- ===== src/Examples/Loading.antt =====
-- A module that opens and then refuses C_GetFunctionList. The linker counts the open handles.
use gopkcs.Prelude.{
  ℕ, suc, ◌-◌, ◌≡◌, refl, ◌≢◌, Bool, true, false, ◌&&◌, not, none, some, arith, ◌==◌, if◌then◌else◌,
}
use Prim.Native.String.{String}
use text.Mathlib.Text.{◌==◌ as str_eq}
use gopkcs.Examples.Worlds.{plain_world, plain_env}
use gopkcs.Machine.Effects.{Env}
use gopkcs.FuncList.Load.{load_module}
use gopkcs.FuncList.Load.Handles.{IsOther, Links, Balanced, load_module-Balanced}

abbrev file : String
file = "/usr/lib/softhsm/libsofthsm2.so"

abbrev env : Env ℕ
env = record (plain_env (λ args t m. record { rv = 5; mem = m; token = t })) {
  dlopen = λ path global t. if str_eq path file && not global then (some 7, suc t) else (none, t);
  dlclose = λ handle t. t - 1;
}

some_inj : {a b : ℕ} → some a ≡ some b → a ≡ b
some_inj e = cc

env-opens :
    (global : Bool) (t h : ℕ)
    → (env.dlopen file global t).0 ≡ some h
    → ((h == 7) ≡ true) × (h ≢ 0) × ((env.dlopen file global t).1 ≡ suc t)
env-opens true t h e = cc
env-opens false t h e =
    let seven : 7 ≡ h = some_inj e in (ground arith, λ z. omega (arith, z), refl)

env-fails :
    (global : Bool) (t : ℕ) → (env.dlopen file global t).0 ≡ none → (env.dlopen file global t).1 ≡ t
env-fails true t e = refl
env-fails false t e = cc

env-Links : Links env file (λ t. t) (λ h. h == 7)
env-Links = record {
  opens = env-opens;
  fails = env-fails;
  others = λ p global t e. rw e refl;
  closes = λ h t e. refl;
  calls = λ fn args t m. refl;
}

file-IsOther : IsOther file
file-IsOther = (
  (refl, (refl, (refl, (refl, (refl, tt))))),
  (
    (refl, (refl, (refl, (refl, (refl, tt))))),
    (
      (refl, (refl, (refl, (refl, (refl, tt))))),
      (
        (refl, (refl, (refl, (refl, (refl, tt))))),
        (
          (refl, (refl, (refl, (refl, (refl, tt))))),
          ((refl, (refl, (refl, (refl, (refl, tt))))), tt),
        ),
      ),
    ),
  ),
)

load_module-Balanced_example :
    Balanced env file
      (λ t. t)
      (λ h. h == 7)
      env-Links
      (plain_world 2000 3)
      (load_module env file (plain_world 2000 3))
load_module-Balanced_example =
    load_module-Balanced env file (λ t. t) (λ h. h == 7) env-Links (plain_world 2000 3) file-IsOther
