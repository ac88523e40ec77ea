-- ===== src/Ctx/Base.antt =====
-- `Ctx`, its construction and release, and what its methods share.
use Prim.Native.String.{String}
use gopkcs.Prelude.{ℕ, ◌+◌, Option, none, some, List, leb, if◌then◌else◌}
use gopkcs.Machine.Effects.{
  Slice, Env, ok, err, panic, M, pure, crash, ◌>>=◌, get_byte, get_bytes, get_words, syscall_n,
}
use gopkcs.Types.{Version}
use gopkcs.Types.Padding.{trim_padded_string}
use gopkcs.FuncList.{FunctionList}
use gopkcs.FuncList.Load.{load_module, close}

pub record Ctx : Type 0 where
  pub fl : Option FunctionList

module _ {S : Type 0} where
  -- `New`: nil where the module cannot be loaded.
  unfoldable pub new : Env S → String → M S (Option Ctx)
  new env path w = elim (load_module env path w) [
    | ok fl w' ↦ ok (some (record { fl = some fl })) w'
    | err e w' ↦ ok none w'
    | panic ↦ panic
  ]

  close_opened : Env S → Option FunctionList → M S Ctx
  close_opened env none = pure (record { fl = none })
  close_opened env (some fl) = do _ ← close env fl; pure (record { fl = none })

  -- `Destroy`; the context afterwards.
  unfoldable pub destroy : Env S → Ctx → M S Ctx
  unfolding close_opened
  destroy env c = close_opened env c.fl

  -- `c.fl`, dereferenced: nil after Destroy.
  unfoldable pub functions : Ctx → M S FunctionList
  functions c = elim c.fl [ some fl ↦ pure fl | none ↦ crash ]

  -- `purego.SyscallN(c.fl.C_…, …)`
  unfoldable pub invoke : Env S → Ctx → (FunctionList → ℕ) → List ℕ → M S ℕ
  unfolding functions
  invoke env c function args = do fl ← functions c; syscall_n env (function fl) args

  -- A fixed-width text field of a structure.
  unfoldable pub get_text : ℕ → ℕ → M S (List ℕ)
  get_text p n = do b ← get_bytes p n; pure (trim_padded_string b)

  unfoldable pub get_version : ℕ → M S Version
  get_version p = do
    major ← get_byte p
    minor ← get_byte (p + 1)
    pure (record { major = major; minor = minor })

  -- `make([]uint, n)` filled from the first n elements of an array of words, out of whose range the
  -- program panics.
  unfoldable pub first_words : Slice → ℕ → M S (List ℕ)
  first_words s n = if leb n s.len then get_words s.ptr n else crash
