-- ===== src/Signer/Pool/Concurrent.antt =====
-- `Pool.Sign` and `Pool.Destroy` of signer.go, run by any number of goroutines over one channel of
-- idle keys. Keys are numbered by their place in the pool.
pub mod Families
pub mod Invariant
pub mod Safety
pub mod Termination
pub mod Owners
pub mod Handover
pub mod Refinement
use gopkcs.Prelude.{
  ℕ, zero, suc, ◌+◌, ◌-◌, ◌<◌, ◌≡◌, Bool, true, false, List, [], ◌∷◌, ◌++◌, length,
}
use gopkcs.Signer.Pool.Concurrent.Families.{update}

-- Where a goroutine stands.
pub data Pc : Type 0 where
  idle : Pc  -- outside of the pool's methods, or waiting to receive or for `destroyOnce`
  signing : ℕ → Pc  -- in `Sign`, with its key
  collecting : List ℕ → Pc  -- in the first loop of `Destroy`, with `keys[:i]`
  returning : List ℕ → Pc  -- in the second loop, with the keys still to send

-- `free` is the channel's buffer, the next key to come out first; `started` and `finished` are the
-- state of `destroyOnce`.
pub record System : Type 0 where
  pub free : List ℕ
  pub destroyed : ℕ → Bool
  pub started : Bool
  pub finished : Bool
  pub pc : ℕ → Pc

abbrev pub below : ℕ → List ℕ
below zero = []
below (suc n) = below n ++ n ∷ []

-- newPool sends every key.
unfoldable pub init : ℕ → System
init size = record {
  free = below size;
  destroyed = λ _. false;
  started = false;
  finished = false;
  pc = λ _. idle;
}

-- One step of goroutine i out of n, in a pool of the given size. A receive needs a key in the
-- channel, a send needs room.
pub data Step (n size : ℕ) (s : System) : System → Type 0 where
  receive :
      (i k : ℕ) (rest : List ℕ)
      → i < n
      → s.pc i ≡ idle
      → s.free ≡ k ∷ rest
      → Step n size s (record s { free = rest; pc = update s.pc i (signing k) })
  send :
      (i k : ℕ)
      → i < n
      → s.pc i ≡ signing k
      → length s.free < size
      → Step n size s (record s { free = s.free ++ k ∷ []; pc = update s.pc i idle })
  start :
      (i : ℕ)
      → i < n
      → s.pc i ≡ idle
      → s.started ≡ false
      → Step n size s (record s { started = true; pc = update s.pc i (collecting []) })
  collect :
      (i k : ℕ) (keys rest : List ℕ)
      → i < n
      → s.pc i ≡ collecting keys
      → length keys < size
      → s.free ≡ k ∷ rest
      → Step n size s (record s {
        free = rest;
        destroyed = update s.destroyed k true;
        pc = update s.pc i (collecting (keys ++ k ∷ []));
      })
  turn :
      (i : ℕ) (keys : List ℕ)
      → i < n
      → s.pc i ≡ collecting keys
      → length keys ≡ size
      → Step n size s (record s { pc = update s.pc i (returning keys) })
  give_back :
      (i k : ℕ) (keys : List ℕ)
      → i < n
      → s.pc i ≡ returning (k ∷ keys)
      → length s.free < size
      → Step n size s (record s { free = s.free ++ k ∷ []; pc = update s.pc i (returning keys) })
  finish :
      (i : ℕ)
      → i < n
      → s.pc i ≡ returning []
      → Step n size s (record s { finished = true; pc = update s.pc i idle })

pub data Reach (n size : ℕ) : System → Type 0 where
  initial : Reach n size (init size)
  later : {s t : System} → Reach n size s → Step n size s t → Reach n size t
