-- ===== src/Signer/Registry.antt =====
-- The registry of modules and the login locks of signer.go. `initialize` is over the binding of the
-- parent library; a lock is its place in the list of tokens seen.
pub mod Cached
pub mod Kept
use gopkcs.Prelude.{ℕ, suc, Bool, ◌&&◌, Option, none, some, List, [], ◌∷◌, ◌==◌, if◌then◌else◌}
use Prim.Native.String.{String}
use text.Mathlib.Text.{◌==◌ as str_eq}
use gopkcs.Machine.Effects.{World, Env, Outcome, ok, err, panic, message, wrap}
use gopkcs.Ctx.Base.{Ctx, new}
use gopkcs.Ctx.General.{initialize}
use gopkcs.Signer.Setup.{same_text}

-- `modules`
abbrev pub Modules : Type 0
Modules = List (String × Ctx)

unfoldable pub find_module : String → Modules → Option Ctx
find_module path [] = none
find_module path ((p, c) ∷ rest) = if str_eq path p then some c else find_module path rest

module _ {S : Type 0} (env : Env S) where
  unfoldable pub keep_module :
      String → Modules → Ctx → Outcome S (Unit {0}) → Outcome S Ctx × Modules
  keep_module path modules c (ok _ w) = (ok c w, (path, c) ∷ modules)
  keep_module path modules c (err e w) = (err (wrap "pkcs11key: initialize" e) w, modules)
  keep_module path modules c panic = (panic, modules)

  unfoldable pub load_new : String → Modules → Outcome S (Option Ctx) → Outcome S Ctx × Modules
  unfolding keep_module
  load_new path modules (ok none w) = (err (message "pkcs11key: failed to load module") w, modules)
  load_new path modules (ok (some c) w) = keep_module path modules c (initialize env c [] w)
  load_new path modules (err e w) = (err e w, modules)
  load_new path modules panic = (panic, modules)

  unfoldable pub find_or_load : String → Modules → World S → Option Ctx → Outcome S Ctx × Modules
  unfolding load_new
  find_or_load path modules w (some c) = (ok c w, modules)
  find_or_load path modules w none = load_new path modules (new env path w)

  -- `initialize` of signer.go: the result, and the modules afterwards.
  unfoldable pub initialize_module : String → Modules → World S → Outcome S Ctx × Modules
  unfolding find_or_load
  initialize_module path modules w = find_or_load path modules w (find_module path modules)

  -- The modules after calls of `initialize` with these paths, each in any world.
  unfoldable pub initialized : List (String × World S) → Modules → Modules
  initialized [] modules = modules
  initialized ((path, w) ∷ calls) modules = initialized calls (initialize_module path modules w).1

-- `token`: a module, by number, and a label.
pub record TokenId : Type 0 where
  pub module_id : ℕ
  pub label : List ℕ

unfoldable pub same_token : TokenId → TokenId → Bool
same_token t u = t.module_id == u.module_id && same_text t.label u.label

-- `loginLock`: the lock, and the tokens seen afterwards.
unfoldable pub login_lock : TokenId → List TokenId → ℕ × List TokenId
login_lock t [] = (0, t ∷ [])
login_lock t (u ∷ seen) =
    let (i, seen') = login_lock t seen in
    if same_token t u then (0, u ∷ seen) else (suc i, u ∷ seen')

-- The tokens seen after calls of `loginLock` with these.
unfoldable pub locked : List TokenId → List TokenId → List TokenId
locked [] seen = seen
locked (t ∷ calls) seen = locked calls (login_lock t seen).1
