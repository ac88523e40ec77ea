-- ===== src/Machine/Bytes.antt =====
-- Byte strings in little-endian order, and the flat memory that Go code and the module share.
use native.Mathlib.Nat.{pow-suc}
use gopkcs.Prelude.{
  ℕ, zero, suc, ◌+◌, ◌*◌, ◌/◌, ◌%◌, ◌^◌, ◌≤◌, ◌<◌, ◌≡◌, refl, ap, ◌∙◌, ◌⊎◌, List, [], ◌∷◌, arith,
  length, ◌==◌, if◌then◌else◌,
}

-- `binary.LittleEndian` at a width of n bytes.
unfoldable pub le_bytes : ℕ → ℕ → List ℕ
le_bytes zero v = []
le_bytes (suc n) v = (v % 256) ∷ le_bytes n (v / 256)

unfoldable pub from_le : List ℕ → ℕ
from_le [] = 0
from_le (b ∷ bs) = b + 256 * from_le bs

pub length-le_bytes : (n v : ℕ) → length (le_bytes n v) ≡ n
unfolding le_bytes
length-le_bytes zero v = refl
length-le_bytes (suc n) v = ap suc (length-le_bytes n (v / 256))

pub from_le-le_bytes : (n v : ℕ) → v < 256 ^ n → from_le (le_bytes n v) ≡ v
unfolding le_bytes from_le
from_le-le_bytes zero v h = omega arith
from_le-le_bytes (suc n) v h =
    omega (arith, from_le-le_bytes n (v / 256) (omega (arith, pow-suc 256 n)))

-- The content of each address.
abbrev pub Memory : Type 0
Memory = ℕ → ℕ

unfoldable pub store : Memory → ℕ → List ℕ → Memory
store m p [] x = m x
store m p (b ∷ bs) x = if x == p then b else store m (suc p) bs x

unfoldable pub load : Memory → ℕ → ℕ → List ℕ
load m p zero = []
load m p (suc n) = m p ∷ load m (suc p) n

pub length-load : (m : Memory) (p n : ℕ) → length (load m p n) ≡ n
unfolding load
length-load m p zero = refl
length-load m p (suc n) = ap suc (length-load m (suc p) n)

pub store-outside :
    (m : Memory) (p : ℕ) (bs : List ℕ) (x : ℕ)
    → (x < p) ⊎ (p + length bs ≤ x)
    → store m p bs x ≡ m x
unfolding store
store-outside m p [] x h = refl
store-outside m p (b ∷ bs) x h = ground (arith, store-outside m (suc p) bs x)

-- Loads agree where the memories do.
pub load-congr :
    (m k : Memory) (p n : ℕ) → ((x : ℕ) → p ≤ x → x < p + n → m x ≡ k x) → load m p n ≡ load k p n
unfolding load
load-congr m k p zero h = refl
load-congr m k p (suc n) h =
    let here : m p ≡ k p = h p (omega arith) (omega arith) in
    let rest : load m (suc p) n ≡ load k (suc p) n =
      load-congr m k (suc p) n (λ x a b. h x (omega arith) (omega arith)) in
    ground (arith, here, rest)

pub load-store_self : (m : Memory) (p : ℕ) (bs : List ℕ) → load (store m p bs) p (length bs) ≡ bs
unfolding load store
load-store_self m p [] = refl
load-store_self m p (b ∷ bs) =
    let rest : load (store m p (b ∷ bs)) (suc p) (length bs) ≡ bs =
      load-congr _ (store m (suc p) bs) (suc p) (length bs) (λ x h k. ground arith)
      ∙ load-store_self m (suc p) bs in
    ground (arith, rest)

pub load-store_apart :
    (m : Memory) (p : ℕ) (bs : List ℕ) (q n : ℕ)
    → (q + n ≤ p) ⊎ (p + length bs ≤ q)
    → load (store m p bs) q n ≡ load m q n
load-store_apart m p bs q n h = load-congr _ _ q n (λ x a b. store-outside m p bs x (omega arith))
