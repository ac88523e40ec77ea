-- ===== src/Examples/Keys.antt =====
-- A token with one slot, one key pair and sessions numbered in their order, and keys on it.
use gopkcs.Prelude.{ℕ, suc, refl, sym, ap, ◌∙◌, ◌≢◌, Bool, true, false, some, List, [], ◌∷◌}
use gopkcs.Prelude.Int.{pos}
use gopkcs.Types.{TokenInfo}
use gopkcs.Signer.Interface.{Ret, ok, err, Attr, Module, Key, rsa}
use gopkcs.Signer.Setup.{setup}
use gopkcs.Signer.Setup.Accounts.{remove, Accounts}
use gopkcs.Signer.Setup.Sessions.{SetUp, setup-SetUp}
use gopkcs.Signer.Sign.{blank}
use gopkcs.Signer.Pool.{new_pool}
use gopkcs.Signer.Pool.Sessions.{Makes, new_pool-Makes}

record Token : Type 0 where
  sessions : List ℕ
  next : ℕ

abbrev pub token_info : TokenInfo
token_info = record {
  label = b'T' ∷ [];
  manufacturer_id = [];
  model = [];
  serial_number = [];
  flags = 0;
  max_session_count = 0;
  session_count = 0;
  max_rw_session_count = 0;
  rw_session_count = 0;
  max_pin_len = 0;
  min_pin_len = 0;
  total_public_memory = 0;
  free_public_memory = 0;
  total_private_memory = 0;
  free_private_memory = 0;
  hardware_version = record { major = 0; minor = 0 };
  firmware_version = record { major = 0; minor = 0 };
  utc_time = [];
}

abbrev values : List Attr → List Attr
values [] = []
values (a ∷ rest) = record { type = a.type; value = 1 ∷ [] } ∷ values rest

abbrev held : Token → List ℕ
held t = t.sessions

abbrev token_module : Module Token
token_module = record {
  close_session = λ s t. (ok tt, record t { sessions = remove s t.sessions });
  find_objects_final = λ s t. (ok tt, t);
  find_objects_init = λ s a t. (ok tt, t);
  find_objects = λ s n t. (ok (7 ∷ [], false), t);
  get_attribute_value = λ s o a t. (ok (values a), t);
  get_slot_list = λ b t. (ok (0 ∷ 3 ∷ []), t);
  get_token_info = λ slot t. (ok token_info, t);
  login = λ s u p t. (ok tt, t);
  logout = λ s t. (ok tt, t);
  open_session =
      λ slot flags t. (ok t.next, record { sessions = t.next ∷ t.sessions; next = suc t.next });
  sign_init = λ s m k t. (ok tt, t);
  sign = λ s d t. (ok d, t);
}

abbrev number_of : Ret ℕ → ℕ
number_of (ok s) = s
number_of (err e) = 0

abbrev is_ok : Ret ℕ → Bool
is_ok (ok s) = true
is_ok (err e) = false

token_module-Accounts : Accounts token_module held
token_module-Accounts = record {
  opens = λ slot flags t s t' e.
      sym (ap (λ p. held p.1) e) ∙ ap (λ (p : Ret ℕ × Token). number_of p.0 ∷ held t) e;
  open_fails =
      λ slot flags t x t' e. absurd (true_ne_false (ap (λ (p : Ret ℕ × Token). is_ok p.0) e));
  closes = λ s t. refl;
  final_keeps = λ s t. refl;
  init_keeps = λ s a t. refl;
  find_keeps = λ s n t. refl;
  attribute_keeps = λ s o a t. refl;
  slots_keep = λ b t. refl;
  info_keeps = λ slot t. refl;
  login_keeps = λ s u p t. refl;
}
  where
    true_ne_false : true ≢ false
    true_ne_false h = cc

abbrev start : Token
start = record { sessions = 4 ∷ []; next = 5 }

abbrev fresh : Key
fresh = blank (b'T' ∷ []) (b'1' ∷ []) (rsa 3233 (pos 17))

setup-SetUp_example :
    SetUp token_module held token_module-Accounts start (setup token_module fresh start)
setup-SetUp_example = setup-SetUp token_module held token_module-Accounts fresh start refl

abbrev in_use : Key
in_use = record fresh { session = some 4 }

new_pool-Makes_example :
    Makes token_module held token_module-Accounts
      (pos 2)
      (rsa 3233 (pos 17))
      start
      (new_pool token_module (pos 2) (b'T' ∷ []) (b'1' ∷ []) (rsa 3233 (pos 17)) start)
new_pool-Makes_example =
    new_pool-Makes token_module held token_module-Accounts (pos 2) (b'T' ∷ []) (b'1' ∷ [])
      (rsa 3233 (pos 17)) start
