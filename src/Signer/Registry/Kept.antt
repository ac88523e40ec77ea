-- ===== src/Signer/Registry/Kept.antt =====
-- What the registry of modules keeps.
use gopkcs.Prelude.{
  ◌≡◌, refl, sym, ap, ◌∙◌, ◌⊎◌, inl, inr, true, false, Option, none, some, List, [], ◌∷◌,
  Bool-cases, Option-cases,
}
use Prim.Native.String.{String}
use text.Mathlib.TextPositions.{eq_refl}
use text.Mathlib.TextEquality.{eq_iff}
use gopkcs.Machine.Effects.{World, Env, Outcome, ok, err, panic}
use gopkcs.Ctx.Base.{Ctx, new}
use gopkcs.Ctx.General.{initialize}
use text.Mathlib.Text.{◌==◌ as str_eq}
use gopkcs.Signer.Registry.{
  initialized, Modules, find_module, keep_module, load_new, find_or_load, initialize_module,
}

-- Whether the texts are equal or not, as texts.
eq_cases : (p q : String) → ((p ≡ q) × (str_eq p q ≡ true)) ⊎ (str_eq p q ≡ false)
eq_cases p q = elim (Bool-cases (str_eq p q)) [
  | inl hit ↦ inl ((eq_iff p q).0 hit, hit)
  | inr miss ↦ inr miss
]

module _ {S : Type 0} (env : Env S) (path : String) where
  -- What is registered stays registered.
  keep_module-finds :
      (q : String) (modules : Modules) (c d : Ctx) (r : Outcome S (Unit {0}))
      → find_module path modules ≡ some c
      → find_module q modules ≡ none
      → find_module path (keep_module env q modules d r).1 ≡ some c
  unfolding keep_module find_module
  keep_module-finds q modules c d (ok _ w) e f = elim (eq_cases path q) [
    | inl (same, hit) ↦
        absurd (let no : some c ≡ none = sym e ∙ ap (λ x. find_module x modules) same ∙ f in cc)
    | inr miss ↦ rw miss e
  ]
  keep_module-finds q modules c d (err x w) e f = e
  keep_module-finds q modules c d panic e f = e

  load_new-finds :
      (q : String) (modules : Modules) (c : Ctx) (r : Outcome S (Option Ctx))
      → find_module path modules ≡ some c
      → find_module q modules ≡ none
      → find_module path (load_new env q modules r).1 ≡ some c
  unfolding load_new
  load_new-finds q modules c (ok none w) e f = e
  load_new-finds q modules c (ok (some d) w) e f =
      keep_module-finds q modules c d (initialize env d [] w) e f
  load_new-finds q modules c (err x w) e f = e
  load_new-finds q modules c panic e f = e

  initialize_module-finds :
      (q : String) (modules : Modules) (c : Ctx) (w : World S)
      → find_module path modules ≡ some c
      → find_module path (initialize_module env q modules w).1 ≡ some c
  unfolding initialize_module find_or_load
  initialize_module-finds q modules c w e = elim (Option-cases (find_module q modules)) [
    | inl f ↦ rw f (load_new-finds q modules c (new env q w) e f)
    | inr (d, f) ↦ rw f e
  ]

  initialized-finds :
      (calls : List (String × World S)) (modules : Modules) (c : Ctx)
      → find_module path modules ≡ some c
      → find_module path (initialized env calls modules) ≡ some c
  unfolding initialized
  initialized-finds [] modules c e = e
  initialized-finds ((q, w) ∷ calls) modules c e =
      initialized-finds calls (initialize_module env q modules w).1 c
        (initialize_module-finds q modules c w e)

  module _ (modules : Modules) where
    -- After a success, and any calls of `initialize` after it, a further call gives the same module
    -- without any other effect; a failure leaves the registry as it was.
    abbrev pub Caches : Outcome S Ctx × Modules → Type 0
    Caches (ok c w, later) =
        (calls : List (String × World S)) (v : World S)
        → initialize_module env path (initialized env calls later) v
          ≡ (ok c v, initialized env calls later)
    Caches (err e w, later) = later ≡ modules
    Caches (panic, later) = later ≡ modules

    found-Caches :
        (later : Modules) (c : Ctx) (w : World S)
        → find_module path later ≡ some c
        → Caches (ok c w, later)
    unfolding initialize_module find_or_load
    found-Caches later c w e = λ calls v. rw (initialized-finds calls later c e) refl

    keep_module-Caches :
        (c : Ctx) (r : Outcome S (Unit {0})) → Caches (keep_module env path modules c r)
    unfolding keep_module find_module
    keep_module-Caches c (ok _ w) = found-Caches ((path, c) ∷ modules) c w (rw (eq_refl path) refl)
    keep_module-Caches c (err e w) = refl
    keep_module-Caches c panic = refl

    load_new-Caches : (r : Outcome S (Option Ctx)) → Caches (load_new env path modules r)
    unfolding load_new
    load_new-Caches (ok none w) = refl
    load_new-Caches (ok (some c) w) = keep_module-Caches c (initialize env c [] w)
    load_new-Caches (err e w) = refl
    load_new-Caches panic = refl

    -- After a success of initialize, and any further calls of it with whatever paths and
    -- outcomes, a call with the path gives the same module and leaves world and registry as they
    -- are; after a failure the registry is as it was.
    pub initialize_module-Caches : (w : World S) → Caches (initialize_module env path modules w)
    unfolding initialize_module find_or_load
    initialize_module-Caches w = elim (Option-cases (find_module path modules)) [
      | inl e ↦ rw e (load_new-Caches (new env path w))
      | inr (c, e) ↦ rw e (found-Caches modules c w e)
    ]
