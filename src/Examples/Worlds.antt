-- ===== src/Examples/Worlds.antt =====
-- Worlds and environments that the examples share.
use gopkcs.Prelude.{ℕ, ◌%◌, true, some, List, []}
use gopkcs.Prelude.Int.{pos}
use gopkcs.Machine.Bytes.{Memory}
use gopkcs.Machine.Effects.{nil, World, Reply, Env}

-- Every byte is the low byte of its address; memory is handed out from `next` on.
abbrev pub plain_world : {S : Type 0} → ℕ → S → World S
plain_world next token = record {
  mem = λ x. x % 256;
  next = next;
  pinners = 1;
  pins = λ _. [];
  maps = [];
  gcms = λ _. record { iv = nil; aad = nil; tag_size = pos 0; ops = [] };
  token = token;
}

-- A module whose functions all do the same; a kernel and a linker that never fail.
abbrev pub plain_env : {S : Type 0} → (List ℕ → S → Memory → Reply S) → Env S
plain_env answer = record {
  call = λ fn. answer;
  grants = λ n t. true;
  dlopen = λ path global t. (some 1, t);
  dlsym = λ handle name t. some 2;
  dlclose = λ handle t. t;
}
