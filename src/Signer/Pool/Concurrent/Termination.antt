-- ===== src/Signer/Pool/Concurrent/Termination.antt =====
-- How long a pool can run: every step but the receipt of a key brings it closer to rest.
use gopkcs.Prelude.{
  ℕ, suc, ◌+◌, ◌-◌, ◌*◌, ◌≤◌, ◌<◌, ◌≡◌, refl, ap, [], ◌∷◌, ◌++◌, arith, if◌then◌else◌, length,
  length-append,
}
use gopkcs.Signer.Pool.Concurrent.{
  Pc, idle, signing, collecting, returning, System, init, Step, receive, send, start, collect, turn,
  give_back, finish,
}
use gopkcs.Signer.Pool.Concurrent.Families.{update, total, total-update, total-zero}

-- An execution from s to t.
pub data Run (n size : ℕ) : System → System → Type 0 where
  stop : {s : System} → Run n size s s
  step : {s t u : System} → Step n size s t → Run n size t u → Run n size s u

-- Whether a step is the receipt of a key by Sign.
abbrev pub receipt : {n size : ℕ} {s t : System} → Step n size s t → ℕ
receipt (receive i k rest low here next) = 1
receipt (send i k low here room) = 0
receipt (start i low here fresh) = 0
receipt (collect i k keys rest low here short next) = 0
receipt (turn i keys low here full) = 0
receipt (give_back i k keys low here room) = 0
receipt (finish i low here) = 0

unfoldable pub steps : {n size : ℕ} {s t : System} → Run n size s t → ℕ
steps stop = 0
steps (step x r) = suc (steps r)

-- How many calls of Sign get their key.
unfoldable pub receipts : {n size : ℕ} {s t : System} → Run n size s t → ℕ
receipts stop = 0
receipts (step x r) = receipt x + receipts r

-- How many steps a goroutine has to go at most.
abbrev rank : ℕ → Pc → ℕ
rank size idle = 0
rank size (signing k) = 1
rank size (collecting keys) = size + size + 2 - length keys
rank size (returning keys) = suc (length keys)

abbrev measure : ℕ → ℕ → System → ℕ
measure n size s = total (rank size) n s.pc + (if s.started then 0 else size + size + 3)

module _ (n size : ℕ) where
  ranked :
      (s : System) (i : ℕ) (p q : Pc)
      → i < n
      → s.pc i ≡ p
      → total (rank size) n (update s.pc i q) + rank size p ≡ total (rank size) n s.pc + rank size q
  ranked s i p q low e = omega (arith, total-update (rank size) s.pc i q n low, ap (rank size) e)

  step-measure :
      (s t : System) (x : Step n size s t)
      → suc (measure n size t) ≤ measure n size s + 2 * receipt x
  step-measure s _ (receive i k rest low here next) =
      omega (arith, ranked s i idle (signing k) low here)
  step-measure s _ (send i k low here room) = omega (arith, ranked s i (signing k) idle low here)
  step-measure s _ (start i low here fresh) =
      rw fresh (omega (arith, ranked s i idle (collecting []) low here))
  step-measure s _ (collect i k keys rest low here short next) = omega (
    arith,
    ranked s i (collecting keys) (collecting (keys ++ k ∷ [])) low here,
    length-append keys (k ∷ []),
  )
  step-measure s _ (turn i keys low here full) =
      omega (arith, ranked s i (collecting keys) (returning keys) low here)
  step-measure s _ (give_back i k keys low here room) =
      omega (arith, ranked s i (returning (k ∷ keys)) (returning keys) low here)
  step-measure s _ (finish i low here) = omega (arith, ranked s i (returning []) idle low here)

  run-measure :
      (s t : System) (r : Run n size s t)
      → steps r + measure n size t ≤ measure n size s + 2 * receipts r
  unfolding steps receipts
  run-measure s _ stop = omega arith
  run-measure s u (step {t} x r) = omega (arith, step-measure s t x, run-measure t u r)

  -- Whatever the goroutines do and in whatever order, an execution from the new pool in which r
  -- calls of Sign get a key has at most 2 r + 2 size + 3 steps, Destroy's included: no method of
  -- the pool runs on without end.
  pub run-steps :
      (t : System) (r : Run n size (init size) t) → steps r ≤ 2 * receipts r + 2 * size + 3
  unfolding init
  run-steps t r =
      omega (arith, run-measure (init size) t r, total-zero (rank size) (λ _. idle) n (λ i h. refl))
