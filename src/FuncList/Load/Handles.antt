-- ===== src/FuncList/Load/Handles.antt =====
-- How many handles of a module's file loadModule leaves open.
use gopkcs.Prelude.{
  ℕ, suc, ◌-◌, ◌≡◌, refl, ap, ◌∙◌, ◌≢◌, inl, inr, Bool, true, false, Option, none, some, List, [],
  ◌∷◌, arith, ◌==◌, Bool-cases, Option-cases, replicate, All,
}
use Prim.Native.String.{String, ◌++◌ as ◌+++◌}
use text.Mathlib.Text.{◌==◌ as str_eq}
use gopkcs.Machine.Bytes.{Memory, store}
use gopkcs.Machine.Words.{load_word}
use gopkcs.Machine.Effects.{
  message, World, Env, Outcome, ok, err, panic, new_word, allocate, get_word, syscall_n, dl_open,
  dl_sym, dl_close,
}
use gopkcs.FuncList.{FunctionList, read_function_list}
use gopkcs.FuncList.Load.{
  lib_dirs, libs, preload_dir, preload_dirs, preload_system_libs, resolve, retry, load_module,
  close,
}

-- The dynamic linker, as far as the file at `path` goes: `held` is the number of its open handles.
pub record Links {S : Type 0} (env : Env S) (path : String) (held : S → ℕ) (is_handle : ℕ → Bool)
    : Type 0 where
  pub opens :
      (global : Bool) (t : S) (h : ℕ)
      → (env.dlopen path global t).0 ≡ some h
      → (is_handle h ≡ true) × (h ≢ 0) × (held (env.dlopen path global t).1 ≡ suc (held t))
  pub fails :
      (global : Bool) (t : S)
      → (env.dlopen path global t).0 ≡ none
      → held (env.dlopen path global t).1 ≡ held t
  pub others :
      (p : String) (global : Bool) (t : S)
      → str_eq p path ≡ false
      → held (env.dlopen p global t).1 ≡ held t
  pub closes : (h : ℕ) (t : S) → is_handle h ≡ true → held (env.dlclose h t) ≡ held t - 1
  pub calls :
      (fn : ℕ) (args : List ℕ) (t : S) (m : ℕ → ℕ) → held (env.call fn args t m).token ≡ held t

-- The file is none of those that are loaded in advance.
abbrev pub IsOther : String → Type 0
IsOther path =
    All (λ dir. All (λ lib. str_eq (◌+++◌ dir (◌+++◌ "/" lib)) path ≡ false) libs) lib_dirs

module _ {S : Type 0} (env : Env S) (path : String) (held : S → ℕ) (is_handle : ℕ → Bool)
    (links : Links env path held is_handle) where
  -- One handle more after success, which close gives back; none more after an error.
  abbrev pub Balanced : World S → Outcome S FunctionList → Type 0
  Balanced w (ok fl w') =
      (held w'.token ≡ suc (held w.token))
      × ((fl' : FunctionList) × (w'' : World S) × (close env fl w' ≡ ok fl' w'')
          × (held w''.token ≡ held w.token))
  Balanced w (err e w') = held w'.token ≡ held w.token
  Balanced w panic = Unit

  preload_dir-held :
      (dir : String) (names : List String) (w : World S)
      → All (λ lib. str_eq (◌+++◌ dir (◌+++◌ "/" lib)) path ≡ false) names
      → (w' : World S) × (preload_dir env dir names w ≡ ok tt w') × (held w'.token ≡ held w.token)
  unfolding preload_dir dl_open
  preload_dir-held dir [] w h = (w, refl, refl)
  preload_dir-held dir (lib ∷ rest) w (ne, h) =
      let file = ◌+++◌ dir (◌+++◌ "/" lib) in
      let (w', run, same) =
        preload_dir-held dir rest (record w { token = (env.dlopen file true w.token).1 }) h in
      (w', run, same ∙ links.others file true w.token ne)

  preload_dirs-held :
      (dirs : List String) (w : World S)
      → All (λ dir. All (λ lib. str_eq (◌+++◌ dir (◌+++◌ "/" lib)) path ≡ false) libs) dirs
      → (w' : World S) × (preload_dirs env dirs w ≡ ok tt w') × (held w'.token ≡ held w.token)
  unfolding preload_dirs
  preload_dirs-held [] w h = (w, refl, refl)
  preload_dirs-held (dir ∷ dirs) w (h, hs) =
      let (v, run, same) = preload_dir-held dir libs w h in
      let (w', run', same') = preload_dirs-held dirs v hs in (w', rw run run', same' ∙ same)

  preload-held :
      (w : World S)
      → IsOther path
      → (v : World S) × (preload_system_libs env w ≡ ok tt v) × (held v.token ≡ held w.token)
  unfolding preload_system_libs
  preload-held w other = preload_dirs-held lib_dirs w other

  module _ (w v : World S) (run : preload_system_libs env w ≡ ok tt v) where
    retry_fails :
        (env.dlopen path false v.token).0 ≡ none
        → retry env path none w
          ≡ err (message "pkcs11: dlopen") (record v { token = (env.dlopen path false v.token).1 })
    unfolding retry dl_open
    retry_fails e = rw (run, e) refl

    retry_opens :
        (h : ℕ)
        → (env.dlopen path false v.token).0 ≡ some h
        → retry env path none w ≡ ok h (record v { token = (env.dlopen path false v.token).1 })
    unfolding retry dl_open
    retry_opens h e = rw (run, e) refl

  close_run :
      (fl : FunctionList) (w : World S)
      → fl.handle ≢ 0
      → close env fl w
        ≡ ok (record fl { handle = 0 }) (record w { token = env.dlclose fl.handle w.token })
  unfolding close dl_close
  close_run fl w ne =
      let some_handle : (fl.handle == 0) ≡ false = ground arith in rw some_handle refl

  -- From an open handle on.
  resolve-Balanced :
      (h : ℕ) (sym : Option ℕ) (w : World S) (n : ℕ)
      → is_handle h ≡ true
      → h ≢ 0
      → held w.token ≡ suc n
      → (v : World S) → held v.token ≡ n
      → Balanced v (resolve env h sym w)
  unfolding resolve dl_close new_word allocate syscall_n get_word read_function_list
  resolve-Balanced h none w n is ne e v f = links.closes h w.token is ∙ omega (arith, e, f)
  resolve-Balanced h (some f0) w n is ne e v f =
      let m : Memory = store w.mem w.next (replicate 8 0) in
      let r = env.call f0 (w.next ∷ []) w.token m in
      let same : held r.token ≡ suc n = links.calls f0 (w.next ∷ []) w.token m ∙ e in
      elim (Bool-cases (r.rv == 0)) [
        | inr bad ↦ rw bad (links.closes h r.token is ∙ omega (arith, same, f))
        | inl fine ↦ elim (Bool-cases (load_word r.mem w.next == 0)) [
          | inl null ↦ rw (fine, null) (links.closes h r.token is ∙ omega (arith, same, f))
          | inr table ↦
              rw (fine, table)
                (
                  omega (arith, same, f),
                  (_, _, close_run _ _ ne, links.closes h r.token is ∙ omega (arith, same, f)),
                )
        ]
      ]

  -- loadModule, for a file that is none of the system libraries loaded in advance, and whatever
  -- the module does short of opening or closing the file itself: after an error no more handles
  -- of the file are open than before, and after success one more, which close gives back.
  pub load_module-Balanced : (w : World S) → IsOther path → Balanced w (load_module env path w)
  unfolding load_module dl_open dl_sym
  load_module-Balanced w other = elim (Bool-cases (str_eq path "")) [
    | inl e ↦ rw e refl
    | inr e ↦ elim (Option-cases (env.dlopen path true w.token).0) [
      | inr (h, first) ↦
          let (is, ne, more) = links.opens true w.token h first in
          rw (e, first, retry)
            (resolve-Balanced h _ (record w { token = (env.dlopen path true w.token).1 })
              (held w.token) is ne more w refl)
      | inl none_first ↦
          let u : World S = record w { token = (env.dlopen path true w.token).1 } in
          let (v, run, same) = preload-held u other in
          let before : held v.token ≡ held w.token = same ∙ links.fails true w.token none_first in
          elim (Option-cases (env.dlopen path false v.token).0) [
            | inl none_second ↦
                rw (e, none_first, retry_fails u v run none_second)
                  (links.fails false v.token none_second ∙ before)
            | inr (h, second) ↦
                let (is, ne, more) = links.opens false v.token h second in
                rw (e, none_first, retry_opens u v run h second)
                  (resolve-Balanced h _ (record v { token = (env.dlopen path false v.token).1 })
                    (held w.token) is ne (more ∙ ap suc before) w refl)
          ]
    ]
  ]
