-- ===== src/Signer/Params/Pss.antt =====
-- The parameter of an RSA-PSS signature, as a module reads it.
use gopkcs.Prelude.{
  ℕ, zero, suc, ◌+◌, ◌^◌, ◌≤◌, ◌<◌, ◌≡◌, refl, sym, ap, ◌∙◌, ◌≢◌, ◌⊎◌, inl, inr, ◌&&◌, Option, none,
  some, List, [], ◌∷◌, ◌++◌, arith, ◌==◌, if◌then◌else◌, length, take, drop, replicate,
}
use gopkcs.Prelude.Int.{ℤ, pos, negsuc}
use mathlib.Core.Path.{ap₂}
use gopkcs.Machine.Bytes.{
  Memory, load, store, le_bytes, from_le, from_le-le_bytes, load-store_self, load-store_apart,
}
use gopkcs.Machine.Words.{store_word}
use gopkcs.Machine.Effects.{put_word}
use gopkcs.Machine.Laws.{make_bytes_run}
use gopkcs.Params.{new_pss_params}
use gopkcs.Signer.Interface.{ok, Mech, Hash, sha1, sha224, sha256, sha384, sha512, other_hash, pss}
use gopkcs.Signer.Params.{
  rsa_signing_params, pss_hash_to_mechanism, salt_length, hash_size, unused, bytes_of,
}

-- The hash that CKM_SHA_… and CKG_MGF1_SHA… of PKCS#11 name together.
abbrev named : ℕ → ℕ → Option Hash
named hash_alg mgf =
    if hash_alg == 0x220 && mgf == 1
    then some sha1
    else (if hash_alg == 0x250 && mgf == 2
        then some sha256
        else (if hash_alg == 0x260 && mgf == 3
            then some sha384
            else (if hash_alg == 0x270 && mgf == 4
                then some sha512
                else (if hash_alg == 0x255 && mgf == 5 then some sha224 else none))))

with_salt : ℕ → Option Hash → Option (Hash × ℕ)
with_salt salt none = none
with_salt salt (some hash) = some (hash, salt)

-- CK_RSA_PKCS_PSS_PARAMS: the hash, for the digest and for the mask, and the length of the salt.
pub read_pss : List ℕ → Option (Hash × ℕ)
read_pss bs =
    if length bs == 24
    then with_salt (from_le (drop 16 bs))
        (named (from_le (take 8 bs)) (from_le (take 8 (drop 8 bs))))
    else none

-- The length of the salt that the options ask for: that of the hash, for the two special values, or
-- the number given.
abbrev pub Asks : Hash → ℤ → ℕ → Type 0
Asks hash salt n =
    (((salt ≡ pos 0) ⊎ (salt ≡ negsuc 0)) × (n ≡ hash_size hash)) ⊎ ((0 < n) × (salt ≡ pos n))

abbrev pub pss_with : List ℕ → List Mech
pss_with parameter = record { mechanism = 0xd; parameter = parameter } ∷ []

load-append : (m : Memory) (p a b : ℕ) → load m p (a + b) ≡ load m p a ++ load m (p + a) b
unfolding load
load-append m p zero b =
    let e : p + 0 ≡ p = omega arith in let f : 0 + b ≡ b = omega arith in rw (e, f) refl
load-append m p (suc a) b =
    let e : suc p + a ≡ p + suc a = omega arith in
    let f : suc a + b ≡ suc (a + b) = omega arith in
    rw (f, ← e) (ap (λ xs. m p ∷ xs) (load-append m (suc p) a b))

-- A word as its bytes, and the words after it.
load_word_bytes : (m : Memory) (p v : ℕ) → load (store_word m p v) p 8 ≡ le_bytes 8 v
unfolding store_word
load_word_bytes m p v = load-store_self m p (le_bytes 8 v)

load_past : (m : Memory) (p v q n : ℕ) → q + n ≤ p → load (store_word m p v) q n ≡ load m q n
unfolding store_word
load_past m p v q n h = load-store_apart m p (le_bytes 8 v) q n (inl h)

load_pss :
    (m : Memory) (p hash_alg mgf salt : ℕ)
    → load (store_word (store_word (store_word m p hash_alg) (p + 8) mgf) (p + 16) salt) p 24
      ≡ le_bytes 8 hash_alg ++ (le_bytes 8 mgf ++ le_bytes 8 salt)
load_pss m p hash_alg mgf salt =
    let e : p + 8 + 8 ≡ p + 16 = omega arith in
    load-append _ p 8 16
    ∙ ap₂ ◌++◌
        (load_past _ (p + 16) salt p 8 (omega arith)
          ∙ load_past _ (p + 8) mgf p 8 (omega arith)
          ∙ load_word_bytes m p hash_alg)
        (load-append _ (p + 8) 8 8
          ∙ ap₂ ◌++◌
              (load_past _ (p + 16) salt (p + 8) 8 (omega arith) ∙ load_word_bytes _ (p + 8) mgf)
              (rw e (load_word_bytes _ (p + 16) salt)))

params_bytes :
    (hash_alg mgf salt : ℕ)
    → bytes_of (new_pss_params hash_alg mgf salt unused)
      ≡ le_bytes 8 hash_alg ++ (le_bytes 8 mgf ++ le_bytes 8 salt)
unfolding new_pss_params put_word
params_bytes hash_alg mgf salt =
    rw (make_bytes_run 24 unused (omega arith))
      (load_pss (store unused.mem unused.next (replicate 24 0)) unused.next hash_alg mgf salt)

read_params :
    (hash_alg mgf salt : ℕ)
    → hash_alg < 2 ^ 64
    → mgf < 2 ^ 64
    → salt < 2 ^ 64
    → read_pss (le_bytes 8 hash_alg ++ (le_bytes 8 mgf ++ le_bytes 8 salt))
      ≡ with_salt salt (named hash_alg mgf)
unfolding read_pss le_bytes
read_params hash_alg mgf salt h k l =
    let first : from_le (le_bytes 8 hash_alg) ≡ hash_alg = from_le-le_bytes 8 hash_alg h in
    let second : from_le (le_bytes 8 mgf) ≡ mgf = from_le-le_bytes 8 mgf k in
    let third : from_le (le_bytes 8 salt) ≡ salt = from_le-le_bytes 8 salt l in
    rw (first, second, third) refl

-- What the signer's table has for a hash names that hash.
module _ (hash : Hash) where
  record Listed : Type 0 where
    hash_alg : ℕ
    mgf : ℕ
    lists : pss_hash_to_mechanism hash ≡ ok (hash_alg, mgf)
    names : named hash_alg mgf ≡ some hash
    small : (hash_alg < 2 ^ 64) × (mgf < 2 ^ 64)

listed : (hash : Hash) → hash ≢ other_hash → Listed hash
unfolding pss_hash_to_mechanism
listed sha1 h = record {
  hash_alg = 0x220;
  mgf = 1;
  lists = refl;
  names = refl;
  small = omega arith;
}
listed sha224 h = record {
  hash_alg = 0x255;
  mgf = 5;
  lists = refl;
  names = refl;
  small = omega arith;
}
listed sha256 h = record {
  hash_alg = 0x250;
  mgf = 2;
  lists = refl;
  names = refl;
  small = omega arith;
}
listed sha384 h = record {
  hash_alg = 0x260;
  mgf = 3;
  lists = refl;
  names = refl;
  small = omega arith;
}
listed sha512 h = record {
  hash_alg = 0x270;
  mgf = 4;
  lists = refl;
  names = refl;
  small = omega arith;
}
listed other_hash h = absurd (h refl)

salt_length-Asks :
    (hash : Hash) (salt : ℤ) (n : ℕ) → Asks hash salt n → n < 2 ^ 63 → salt_length hash salt ≡ n
unfolding salt_length
salt_length-Asks hash salt n (inl (inl e, f)) h = rw e (sym f)
salt_length-Asks hash salt n (inl (inr e, f)) h = rw e (sym f)
salt_length-Asks hash salt zero (inr (some_bytes, e)) h = absurd (omega arith)
salt_length-Asks hash salt (suc n) (inr (some_bytes, e)) h = rw e (omega arith)

-- The choice of rsaSigningParams for PSS: the parameter names the hash and has the length of the salt.
pub rsa_signing_params-pss :
    (msg : List ℕ) (hash : Hash) (salt : ℤ) (n : ℕ)
    → hash ≢ other_hash
    → Asks hash salt n
    → n < 2 ^ 63
    → (p : List ℕ) × (rsa_signing_params msg (pss hash salt) ≡ ok (pss_with p, msg))
      × (read_pss p ≡ some (hash, n))
unfolding rsa_signing_params with_salt
rsa_signing_params-pss msg hash salt n known asks small =
    let row = listed hash known in
    let length_is : salt_length hash salt ≡ n = salt_length-Asks hash salt n asks small in
    (
      bytes_of (new_pss_params row.hash_alg row.mgf (salt_length hash salt) unused),
      rw row.lists refl,
      ap read_pss (params_bytes row.hash_alg row.mgf (salt_length hash salt))
          ∙ read_params row.hash_alg row.mgf (salt_length hash salt) row.small.0 row.small.1
              (omega (arith, length_is))
          ∙ ap₂ with_salt length_is row.names,
    )
