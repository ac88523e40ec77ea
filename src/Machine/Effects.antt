-- ===== src/Machine/Effects.antt =====
-- The state and failure monad of the binding: memory and allocator, `runtime.Pinner`,
-- `purego.SyscallN`, error results and panics.
use gopkcs.Prelude.{
  ℕ, suc, ◌+◌, ◌*◌, ◌^◌, Bool, Option, List, [], ◌∷◌, ltb, leb, ◌==◌, if◌then◌else◌, length,
  replicate,
}
use Prim.Native.String.{String}
use gopkcs.Prelude.Int.{ℤ, pos, negsuc}
use gopkcs.Machine.Bytes.{Memory, store, load}
use gopkcs.Machine.Words.{load_words, load_word, store_word}

-- A Go slice of bytes or of words: the address of its first element, and its length in elements.
pub record Slice : Type 0 where
  pub ptr : ℕ
  pub len : ℕ

abbrev pub nil : Slice
nil = record { ptr = 0; len = 0 }

-- A mapping made by `mmap`.
pub record Mapping : Type 0 where
  pub base : ℕ
  pub size : ℕ

-- One operation's native memory of params.go: the whole mapping, and the IV within it.
pub record GcmOp : Type 0 where
  pub mem : Mapping
  pub iv : Slice

-- A GCMParams object; `ops` in the order in which they were appended.
pub record GcmParams : Type 0 where
  pub iv : Slice
  pub aad : Slice
  pub tag_size : ℤ
  pub ops : List GcmOp

-- `next` is the first address never handed out; `pins o` are the addresses that pinner `o` holds;
-- `maps` are the live mappings; `gcms g` is the GCMParams object that `g` points to; `token` is the module's own state.
pub record World (S : Type 0) : Type 0 where
  pub mem : Memory
  pub next : ℕ
  pub pinners : ℕ
  pub pins : ℕ → List ℕ
  pub maps : List Mapping
  pub gcms : ℕ → GcmParams
  pub token : S

-- What a function of the module leaves behind.
pub record Reply (S : Type 0) : Type 0 where
  pub rv : ℕ
  pub mem : Memory
  pub token : S

-- What the program does not implement: what the module's function at an address does with its
-- arguments, whether the kernel grants an anonymous mapping of a size, and purego's dynamic linker
-- (`dlopen` is told whether RTLD_GLOBAL is set; a handle or symbol is an address).
pub record Env (S : Type 0) : Type 0 where
  pub call : ℕ → List ℕ → S → Memory → Reply S
  pub grants : ℕ → S → Bool
  pub dlopen : String → Bool → S → Option ℕ × S
  pub dlsym : ℕ → String → S → Option ℕ
  pub dlclose : ℕ → S → S

-- Go's error values: an `Error` of error.go, a message, and a message that wraps an error (`%w`).
pub data Error : Type 0 where
  code : ℕ → Error
  message : String → Error
  wrap : String → Error → Error

-- A Go call returns its results, returns a non-nil error, or panics.
pub data Outcome (S A : Type 0) : Type 0 where
  ok : A → World S → Outcome S A
  err : Error → World S → Outcome S A
  panic : Outcome S A

abbrev pub M : Type 0 → Type 0 → Type 0
M S A = World S → Outcome S A

abbrev pub pure : {S A : Type 0} → A → M S A
pure a w = ok a w

abbrev pub fail : {S A : Type 0} → Error → M S A
fail e w = err e w

abbrev pub crash : {S A : Type 0} → M S A
crash w = panic

abbrev pub and_then : {S A B : Type 0} → Outcome S A → (A → M S B) → Outcome S B
and_then (ok a w) f = f a w
and_then (err e w) f = err e w
and_then panic f = panic

infixl 5 ◌>>=◌ ◌>>◌
abbrev pub ◌>>=◌ : {S A B : Type 0} → M S A → (A → M S B) → M S B
◌>>=◌ m f w = and_then (m w) f

abbrev pub ◌>>◌ : {S B : Type 0} → M S (Unit {0}) → M S B → M S B
m >> k = m >>= λ _. k

-- Go's limit on one allocation on 64-bit Linux; `make` panics above it.
abbrev pub max_alloc : ℕ
max_alloc = 2 ^ 48

abbrev pub set_pins : (ℕ → List ℕ) → ℕ → List ℕ → ℕ → List ℕ
set_pins f o ps x = if o == x then ps else f x

module _ {S : Type 0} where
  -- Fresh zeroed memory of n bytes. The gap keeps the addresses of empty objects apart.
  unfoldable pub allocate : ℕ → M S ℕ
  allocate n w =
      ok w.next (record w { mem = store w.mem w.next (replicate n 0); next = w.next + suc n })

  -- `make([]byte, n)`
  unfoldable pub make_bytes : ℕ → M S Slice
  make_bytes n =
      if ltb max_alloc n then crash else (do p ← allocate n; pure (record { ptr = p; len = n }))

  -- `make([]uintptr, n)`
  unfoldable pub make_words : ℕ → M S Slice
  make_words n =
      if ltb max_alloc (n * 8)
      then crash
      else (do p ← allocate (n * 8); pure (record { ptr = p; len = n }))

  -- `make` with a length of type `int`.
  unfoldable pub make_bytes_int : ℤ → M S Slice
  make_bytes_int (pos n) = make_bytes n
  make_bytes_int (negsuc n) = crash

  unfoldable pub make_words_int : ℤ → M S Slice
  make_words_int (pos n) = make_words n
  make_words_int (negsuc n) = crash

  unfoldable pub put_bytes : ℕ → List ℕ → M S (Unit {0})
  put_bytes p bs w = ok tt (record w { mem = store w.mem p bs })

  unfoldable pub put_word : ℕ → ℕ → M S (Unit {0})
  put_word p v w = ok tt (record w { mem = store_word w.mem p v })

  unfoldable pub get_bytes : ℕ → ℕ → M S (List ℕ)
  get_bytes p n w = ok (load w.mem p n) w

  unfoldable pub get_word : ℕ → M S ℕ
  get_word p w = ok (load_word w.mem p) w

  -- `var x uintptr`, as far as its address is taken.
  unfoldable pub new_word : M S ℕ
  new_word = allocate 8

  -- `[]byte(s)`: a copy of the string's bytes.
  unfoldable pub bytes_of_string : List ℕ → M S Slice
  bytes_of_string s = do
    p ← allocate (length s)
    put_bytes p s
    pure (record { ptr = p; len = length s })

  -- `s[:n]`, which panics past the capacity. Every slice here is as long as its array.
  unfoldable pub prefix : Slice → ℕ → M S Slice
  prefix s n = if leb n s.len then pure (record { ptr = s.ptr; len = n }) else crash

  -- `var pinner runtime.Pinner`
  unfoldable pub new_pinner : M S ℕ
  new_pinner w = ok w.pinners (record w { pinners = suc w.pinners })

  -- `pinner.Pin(p)`
  unfoldable pub pin : ℕ → ℕ → M S (Unit {0})
  pin o p w = ok tt (record w { pins = set_pins w.pins o (p ∷ w.pins o) })

  -- `pinner.Unpin()`
  unfoldable pub unpin : ℕ → M S (Unit {0})
  unpin o w = ok tt (record w { pins = set_pins w.pins o [] })

  abbrev pub finally : {A : Type 0} → Outcome S A → (World S → World S) → Outcome S A
  finally (ok a w) f = ok a (f w)
  finally (err e w) f = err e (f w)
  finally panic f = panic

  abbrev pub unpinned : ℕ → World S → World S
  unpinned o w = record w { pins = set_pins w.pins o [] }

  -- `var pinner runtime.Pinner; defer pinner.Unpin()` around the rest of a function.
  unfoldable pub with_pinner : {A : Type 0} → (ℕ → M S A) → M S A
  with_pinner body w =
      finally (body w.pinners (record w { pinners = suc w.pinners })) (unpinned w.pinners)

  -- `purego.SyscallN`
  unfoldable pub syscall_n : Env S → ℕ → List ℕ → M S ℕ
  syscall_n env fn args w =
      let r = env.call fn args w.token w.mem in ok r.rv (record w { mem = r.mem; token = r.token })

  unfoldable pub get_byte : ℕ → M S ℕ
  get_byte p w = ok (w.mem p) w

  unfoldable pub get_words : ℕ → ℕ → M S (List ℕ)
  get_words p n w = ok (load_words w.mem p n) w

  unfoldable pub dl_open : Env S → String → Bool → M S (Option ℕ)
  dl_open env path global w =
      let (h, token) = env.dlopen path global w.token in ok h (record w { token = token })

  unfoldable pub dl_sym : Env S → ℕ → String → M S (Option ℕ)
  dl_sym env handle name w = ok (env.dlsym handle name w.token) w

  unfoldable pub dl_close : Env S → ℕ → M S (Unit {0})
  dl_close env handle w = ok tt (record w { token = env.dlclose handle w.token })
