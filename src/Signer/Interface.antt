-- ===== src/Signer/Interface.antt =====
-- The `ctx` interface of signer.go, with errors as results, over the module's own state. At this
-- level slices are the lists of their bytes.
use Prim.Native.String.{String}
use gopkcs.Prelude.{ℕ, Bool, false, Option, List, ◌==◌}
use gopkcs.Prelude.Int.{ℤ}
use gopkcs.Machine.Effects.{Error, code, message, wrap}
use gopkcs.Types.{TokenInfo}

pub data Ret (A : Type 0) : Type 0 where
  ok : A → Ret A
  err : Error → Ret A

abbrev pub Act : Type 0 → Type 0 → Type 0
Act T A = T → Ret A × T

abbrev pub pure : {T A : Type 0} → A → Act T A
pure a t = (ok a, t)

abbrev pub fail : {T A : Type 0} → Error → Act T A
fail e t = (err e, t)

abbrev pub and_then : {T A B : Type 0} → Ret A × T → (A → Act T B) → Ret B × T
and_then (ok a, t) f = f a t
and_then (err e, t) f = (err e, t)

infixl 5 ◌>>=◌ ◌>>◌
abbrev pub ◌>>=◌ : {T A B : Type 0} → Act T A → (A → Act T B) → Act T B
◌>>=◌ m f t = and_then (m t) f

abbrev pub ◌>>◌ : {T B : Type 0} → Act T (Unit {0}) → Act T B → Act T B
m >> k = m >>= λ _. k

-- `if err != nil { return …, fmt.Errorf("…: %w", err) }`
abbrev pub wrapped : {A : Type 0} → String → Ret A → Ret A
wrapped text (ok a) = ok a
wrapped text (err e) = err (wrap text e)

abbrev pub wrapping : {T A : Type 0} → String → Act T A → Act T A
wrapping text m t = let (r, t') = m t in (wrapped text r, t')

-- A call whose error is ignored.
abbrev pub best_effort : {T A : Type 0} → Act T A → Act T (Unit {0})
best_effort m t = let (r, t') = m t in (ok tt, t')

-- `errors.Is(err, pkcs11.Error(rv))`
unfoldable pub errors_is : Error → ℕ → Bool
errors_is (code n) rv = n == rv
errors_is (message text) rv = false
errors_is (wrap text e) rv = errors_is e rv

pub record Attr : Type 0 where
  pub type : ℕ
  pub value : List ℕ

pub record Mech : Type 0 where
  pub mechanism : ℕ
  pub parameter : List ℕ

-- The interface `ctx`. `initialize` is left to the registry of modules.
pub record Module (T : Type 0) : Type 0 where
  pub close_session : ℕ → Act T (Unit {0})
  pub find_objects_final : ℕ → Act T (Unit {0})
  pub find_objects_init : ℕ → List Attr → Act T (Unit {0})
  pub find_objects : ℕ → ℕ → Act T (List ℕ × Bool)
  pub get_attribute_value : ℕ → ℕ → List Attr → Act T (List Attr)
  pub get_slot_list : Bool → Act T (List ℕ)
  pub get_token_info : ℕ → Act T TokenInfo
  pub login : ℕ → ℕ → List ℕ → Act T (Unit {0})
  pub logout : ℕ → Act T (Unit {0})
  pub open_session : ℕ → ℕ → Act T ℕ
  pub sign_init : ℕ → List Mech → ℕ → Act T (Unit {0})
  pub sign : ℕ → List ℕ → Act T (List ℕ)

pub data Curve : Type 0 where
  p224 p256 p384 p521 other_curve : Curve

-- `crypto.Hash`
pub data Hash : Type 0 where
  sha1 sha224 sha256 sha384 sha512 other_hash : Hash

-- `crypto.PublicKey`: modulus and exponent; curve and what `PublicKey.Bytes` gives, none for a point
-- that it rejects.
pub data PublicKey : Type 0 where
  rsa : ℕ → ℤ → PublicKey
  ecdsa : Curve → Option (List ℕ) → PublicKey
  other_key : PublicKey

-- `crypto.SignerOpts`: `*rsa.PSSOptions` with its hash and salt length, or any other with its hash.
pub data SignerOpts : Type 0 where
  pss : Hash → ℤ → SignerOpts
  plain : Hash → SignerOpts

-- `session` is none for a nil session.
pub record Key : Type 0 where
  pub token_label : List ℕ
  pub pin : List ℕ
  pub public_key : PublicKey
  pub private_key_handle : ℕ
  pub session : Option ℕ
  pub always_authenticate : Bool
