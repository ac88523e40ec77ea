-- ===== src/FuncList/Load.antt =====
-- loadModule, close and preloadSystemLibs of funclist.go. The messages of errors are cut to their
-- fixed parts.
pub mod Handles
use Prim.Native.String.{String, ◌++◌ as ◌+++◌}
use text.Mathlib.Text.{◌==◌ as str_eq}
use gopkcs.Prelude.{
  ℕ, ◌+◌, ◌-◌, ◌/◌, sym, true, false, Option, none, some, List, [], ◌∷◌, ◌++◌, ◌==◌, if◌then◌else◌,
}
use gopkcs.Machine.Effects.{
  Env, message, wrap, M, ok, pure, fail, ◌>>=◌, ◌>>◌, new_word, get_word, syscall_n, dl_open,
  dl_sym, dl_close,
}
use gopkcs.Errors.{to_error}
use gopkcs.FuncList.{FunctionList, read_function_list}

abbrev pub lib_dirs : List String
lib_dirs =
    "/lib/x86_64-linux-gnu" ∷ "/usr/lib/x86_64-linux-gnu" ∷ "/lib/aarch64-linux-gnu"
    ∷ "/usr/lib/aarch64-linux-gnu" ∷ "/lib64" ∷ "/usr/lib64" ∷ []

abbrev pub libs : List String
libs =
    "libstdc++.so.6" ∷ "libcrypto.so.3" ∷ "libcrypto.so.1.1" ∷ "libssl.so.3" ∷ "libssl.so.1.1" ∷ []

module _ {S : Type 0} (env : Env S) where
  -- The inner loop: the libraries of one directory.
  preload_dir : String → List String → M S (Unit {0})
  preload_dir dir [] = pure tt
  preload_dir dir (lib ∷ rest) = do
    _ ← dl_open env (◌+++◌ dir (◌+++◌ "/" lib)) true
    preload_dir dir rest

  preload_dirs : List String → M S (Unit {0})
  unfolding preload_dir
  preload_dirs [] = pure tt
  preload_dirs (dir ∷ rest) = do preload_dir dir libs; preload_dirs rest

  unfoldable pub preload_system_libs : M S (Unit {0})
  unfolding preload_dirs
  preload_system_libs = preload_dirs lib_dirs

  -- From the open handle on: every failure closes it.
  resolve : ℕ → Option ℕ → M S FunctionList
  resolve handle none = do dl_close env handle; fail (message "pkcs11: dlsym C_GetFunctionList")
  resolve handle (some sym) = do
    fl_ptr ← new_word
    rv ← syscall_n env sym (fl_ptr ∷ [])
    ptr ← get_word fl_ptr
    elim (to_error rv) [
      | some e ↦ (do dl_close env handle; fail (wrap "pkcs11: C_GetFunctionList" e))
      | none ↦
          if ptr == 0
          then (do dl_close env handle; fail (message "pkcs11: C_GetFunctionList returned nil"))
          else λ w. ok (read_function_list w.mem ptr handle) w
    ]

  -- The second attempt, without RTLD_GLOBAL.
  retry : String → Option ℕ → M S ℕ
  retry path (some handle) = pure handle
  retry path none = do
    preload_system_libs
    second ← dl_open env path false
    elim second [ some handle ↦ pure handle | none ↦ fail (message "pkcs11: dlopen") ]

  unfoldable pub load_module : String → M S FunctionList
  unfolding resolve retry
  load_module path = if str_eq path "" then fail (message "pkcs11: module path is empty") else (do
    first ← dl_open env path true
    handle ← retry path first
    sym ← dl_sym env handle "C_GetFunctionList"
    resolve handle sym)

  unfoldable pub close : FunctionList → M S FunctionList
  close fl =
      if fl.handle == 0
      then pure fl
      else (do dl_close env fl.handle; pure (record fl { handle = 0 }))
