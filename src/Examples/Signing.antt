-- ===== src/Examples/Signing.antt =====
-- A module whose raw signatures have four bytes, with an ECDSA and an RSA key on it.
use gopkcs.Prelude.{
  ℕ, suc, ◌≡◌, refl, ap, ◌≢◌, inl, Bool, true, false, ◌&&◌, Option, none, some, List, [], ◌∷◌,
  arith, ◌==◌, if◌then◌else◌, replicate, length-replicate,
}
use gopkcs.Prelude.Int.{pos}
use gopkcs.Signer.Params.Pss.{read_pss, pss_with}
use gopkcs.Signer.Sign.Pss.{key_sign-pss}
use gopkcs.Machine.Effects.{message}
use gopkcs.Signer.Interface.{
  Hash, other_hash, err, pss, p256, ok, Module, Key, PublicKey, ecdsa, rsa, Mech, plain, sha256,
}
use gopkcs.Signer.Sign.{key_sign}
use gopkcs.Signer.Der.{from_be}
use gopkcs.Signer.Der.Read.{read_signature}
use gopkcs.Signer.Params.{digest_info_prefix, hash_size}
use gopkcs.Signer.Params.Signatures.{read_digest_info, oid_of}
use gopkcs.Signer.Sign.Verifies.{
  Works, ecdsa_mechanism, rsa_mechanism, key_sign-ecdsa, key_sign-rsa,
}
use gopkcs.Examples.Keys.{token_info}

-- The state is the number of calls.
abbrev raw : List ℕ → List ℕ
raw d = 0 ∷ 145 ∷ 18 ∷ 52 ∷ []

abbrev signing_module : Module ℕ
signing_module = record {
  close_session = λ s t. (ok tt, suc t);
  find_objects_final = λ s t. (ok tt, suc t);
  find_objects_init = λ s a t. (ok tt, suc t);
  find_objects = λ s n t. (ok (7 ∷ [], false), suc t);
  get_attribute_value = λ s o a t. (ok a, suc t);
  get_slot_list = λ b t. (ok (0 ∷ []), suc t);
  get_token_info = λ slot t. (ok token_info, suc t);
  login = λ s u p t. (ok tt, suc t);
  logout = λ s t. (ok tt, suc t);
  open_session = λ slot flags t. (ok 4, suc t);
  sign_init = λ s m k t. (ok tt, suc t);
  sign = λ s d t. (ok (raw d), suc t);
}

abbrev key : PublicKey → Key
key public = record {
  token_label = b'T' ∷ [];
  pin = b'1' ∷ [];
  public_key = public;
  private_key_handle = 7;
  session = some 4;
  always_authenticate = true;
}

works : (mechanism : List Mech) → Works signing_module 4 7 mechanism raw
works mechanism = record {
  logged = suc;
  armed = suc;
  signed = λ d t. suc (suc t);
  login = λ u p t. refl;
  sign_init = λ t. refl;
  sign = λ d t. refl;
}

-- Any two numbers that are those of `raw` verify.
abbrev verify : List ℕ → ℕ → ℕ → Bool
verify d r s = r == 145 && s == 4660

key_sign-ecdsa_example :
    (der : List ℕ) × (r : ℕ) × (s : ℕ) × (t' : ℕ) × (key_sign signing_module
        (key (ecdsa p256 none))
        (1 ∷ 2 ∷ [])
        (plain sha256)
        0
      ≡ (ok der, t'))
    × (read_signature der ≡ some (r, s))
    × (verify (1 ∷ 2 ∷ []) r s ≡ true)
unfolding from_be
key_sign-ecdsa_example =
    key_sign-ecdsa signing_module (key (ecdsa p256 none)) 4 2 p256 none raw verify (1 ∷ 2 ∷ [])
      (plain sha256) 0 refl refl (works ecdsa_mechanism) (omega arith) (λ d. refl) (λ d. refl)

abbrev prefix : List ℕ
prefix =
    0x30 ∷ 0x31 ∷ 0x30 ∷ 0x0d ∷ 0x06 ∷ 0x09 ∷ 0x60 ∷ 0x86 ∷ 0x48 ∷ 0x01 ∷ 0x65 ∷ 0x03 ∷ 0x04 ∷ 0x02
    ∷ 0x01 ∷ 0x05 ∷ 0x00 ∷ 0x04 ∷ 0x20 ∷ []

prefix_known : digest_info_prefix sha256 ≡ ok prefix
unfolding digest_info_prefix
prefix_known = refl

key_sign-rsa_example :
    (input : List ℕ) × (t' : ℕ) × (key_sign signing_module
        (key (rsa 3233 (pos 17)))
        (replicate 32 7)
        (plain sha256)
        0
      ≡ (ok (raw input), t'))
    × (read_digest_info input ≡ some (oid_of sha256, replicate 32 7))
key_sign-rsa_example =
    key_sign-rsa signing_module (key (rsa 3233 (pos 17))) 4 3233 (pos 17) raw sha256
      (replicate 32 7) prefix 0 refl refl (works rsa_mechanism) prefix_known
      (unfold hash_size in length-replicate {A = ℕ} 32 7)

-- A module that refuses a parameter other than that of SHA-256 with a salt of 32 bytes.
abbrev is_pss : Option (Hash × ℕ) → Bool
is_pss (some (sha256, n)) = n == 32
is_pss other = false

abbrev parameter_of : List Mech → List ℕ
parameter_of [] = []
parameter_of (m ∷ rest) = m.parameter

abbrev pss_module : Module ℕ
pss_module = record signing_module {
  sign_init = λ s m k t.
      if is_pss (read_pss (parameter_of m)) then (ok tt, suc t) else (err (message "refused"), t);
}

pss_works : (p : List ℕ) → read_pss p ≡ some (sha256, 32) → Works pss_module 4 7 (pss_with p) raw
pss_works p e = record {
  logged = suc;
  armed = suc;
  signed = λ d t. suc (suc t);
  login = λ u pass t. refl;
  sign_init = λ t. rw e refl;
  sign = λ d t. refl;
}

is_sha256 : Hash → Bool
is_sha256 sha256 = true
is_sha256 other = false

sha256_known : sha256 ≢ other_hash
unfolding is_sha256
sha256_known e = let no : true ≡ false = ap is_sha256 e in cc

key_sign-pss_example :
    (t' : ℕ) × (key_sign pss_module (key (rsa 3233 (pos 17))) (1 ∷ 2 ∷ []) (pss sha256 (pos 0)) 0
      ≡ (ok (raw (1 ∷ 2 ∷ [])), t'))
key_sign-pss_example =
    key_sign-pss pss_module (key (rsa 3233 (pos 17))) 4 3233 (pos 17) raw sha256 (pos 0) 32
      (1 ∷ 2 ∷ []) 0 refl refl sha256_known (inl (inl refl, unfold hash_size in refl)) (omega arith)
      pss_works
