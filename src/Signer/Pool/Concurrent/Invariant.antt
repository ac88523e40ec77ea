-- ===== src/Signer/Pool/Concurrent/Invariant.antt =====
-- What holds in every reachable state of a pool in use.
use gopkcs.Prelude.{
  ℕ, zero, suc, ◌+◌, ◌≤◌, ◌<◌, ◌≡◌, refl, ap, subst, inl, inr, Bool, true, [], ◌∷◌, ◌++◌, arith,
  ltb, ◌==◌, if◌then◌else◌, Bool-cases, count, count-append,
}
use gopkcs.Signer.Pool.Concurrent.{
  Pc, idle, signing, collecting, returning, System, below, init, Step, receive, send, start,
  collect, turn, give_back, finish, Reach, initial, later,
}
use gopkcs.Signer.Pool.Concurrent.Families.{
  update, total, total-update, total-zero, total-member, full_has_all,
}

-- How often a goroutine holds key x.
abbrev pub holds : ℕ → Pc → ℕ
holds x idle = 0
holds x (signing k) = if x == k then 1 else 0
holds x (collecting keys) = count x keys
holds x (returning keys) = count x keys

-- In `Destroy`, past the guard of `destroyOnce`.
abbrev pub destroying : Pc → ℕ
destroying idle = 0
destroying (signing k) = 0
destroying (collecting keys) = 1
destroying (returning keys) = 1

abbrev pub AllDestroyed : ℕ → (ℕ → Bool) → Type 0
AllDestroyed size destroyed = (x : ℕ) → x < size → destroyed x ≡ true

-- The keys that a goroutine has collected are destroyed, and when it returns them, all are.
abbrev pub Collected : ℕ → (ℕ → Bool) → Pc → Type 0
Collected size destroyed idle = Unit
Collected size destroyed (signing k) = Unit
Collected size destroyed (collecting keys) = (x : ℕ) → 0 < count x keys → destroyed x ≡ true
Collected size destroyed (returning keys) = AllDestroyed size destroyed

pub record Inv (n size : ℕ) (s : System) : Type 0 where
  pub conserved : (x : ℕ) → count x s.free + total (holds x) n s.pc ≡ (if ltb x size then 1 else 0)
  pub once : total destroying n s.pc + (if s.finished then 1 else 0) ≡ (if s.started then 1 else 0)
  pub collected : (i : ℕ) → i < n → Collected size s.destroyed (s.pc i)
  pub done : s.finished ≡ true → AllDestroyed size s.destroyed

count-below : (x n : ℕ) → count x (below n) ≡ (if ltb x n then 1 else 0)
count-below x zero = ground arith
count-below x (suc n) = ground (arith, count-below x n, count-append x (below n) (n ∷ []))

init-Inv : (n size : ℕ) → Inv n size (init size)
unfolding init
init-Inv n size = record {
  conserved =
      λ x. omega (arith, count-below x size, total-zero (holds x) (λ _. idle) n (λ i h. refl));
  once = omega (arith, total-zero destroying (λ _. idle) n (λ i h. refl));
  collected = λ i h. tt;
  done = λ h. cc;
}

-- What is destroyed stays so.
abbrev Keeps : (ℕ → Bool) → (ℕ → Bool) → Type 0
Keeps d d' = (x : ℕ) → d x ≡ true → d' x ≡ true

Collected-keeps :
    (size : ℕ) (d d' : ℕ → Bool) (p : Pc) → Keeps d d' → Collected size d p → Collected size d' p
Collected-keeps size d d' idle k h = tt
Collected-keeps size d d' (signing x) k h = tt
Collected-keeps size d d' (collecting keys) k h = λ x l. k x (h x l)
Collected-keeps size d d' (returning keys) k h = λ x l. k x (h x l)

-- A move of one goroutine.
Collected-update :
    (size n : ℕ) (d d' : ℕ → Bool) (pc : ℕ → Pc) (i : ℕ) (p : Pc)
    → Keeps d d'
    → Collected size d' p
    → ((j : ℕ) → j < n → Collected size d (pc j))
    → (j : ℕ) → j < n
    → Collected size d' (update pc i p j)
Collected-update size n d d' pc i p keep new old j h = elim (Bool-cases (i == j)) [
  | inl here ↦ rw here new
  | inr there ↦ rw there (Collected-keeps size d d' (pc j) keep (old j h))
]

Keeps-refl : (d : ℕ → Bool) → Keeps d d
Keeps-refl d x h = h

Keeps-update : (d : ℕ → Bool) (k : ℕ) → Keeps d (update d k true)
Keeps-update d k x h = ground arith

module _ (n size : ℕ) (s : System) (inv : Inv n size s) where
  open inv use {conserved, once, collected, done}

  -- What goroutine i holds is its part of the sum.
  share :
      (x i : ℕ) (p : Pc)
      → i < n
      → s.pc i ≡ p
      → count x s.free + holds x p ≤ (if ltb x size then 1 else 0)
  share x i p low e =
      omega (arith, conserved x, total-member (holds x) s.pc n i low, ap (holds x) e)

  place : (i : ℕ) (p : Pc) → i < n → s.pc i ≡ p → Collected size s.destroyed p
  place i p low e = subst (Collected size s.destroyed) e (collected i low)

  moved :
      (x i : ℕ) (p q : Pc)
      → i < n
      → s.pc i ≡ p
      → total (holds x) n (update s.pc i q) + holds x p ≡ total (holds x) n s.pc + holds x q
  moved x i p q low e = omega (arith, total-update (holds x) s.pc i q n low, ap (holds x) e)

  turned :
      (i : ℕ) (p q : Pc)
      → i < n
      → s.pc i ≡ p
      → total destroying n (update s.pc i q) + destroying p ≡ total destroying n s.pc + destroying q
  turned i p q low e = omega (arith, total-update destroying s.pc i q n low, ap destroying e)

  stays :
      (i : ℕ) (p : Pc)
      → Collected size s.destroyed p
      → (j : ℕ) → j < n
      → Collected size s.destroyed (update s.pc i p j)
  stays i p new =
      Collected-update size n s.destroyed s.destroyed s.pc i p (Keeps-refl s.destroyed) new
        collected

  step-Inv : (t : System) → Step n size s t → Inv n size t
  step-Inv _ (receive i k rest low here next) = record {
    conserved =
        λ x. ground (arith, moved x i idle (signing k) low here, conserved x, ap (count x) next);
    once = omega (arith, turned i idle (signing k) low here, once);
    collected = stays i (signing k) tt;
    done = done;
  }
  step-Inv _ (send i k low here room) = record {
    conserved = λ x.
        ground
          (arith, moved x i (signing k) idle low here, conserved x, count-append x s.free (k ∷ []));
    once = omega (arith, turned i (signing k) idle low here, once);
    collected = stays i idle tt;
    done = done;
  }
  step-Inv _ (start i low here fresh) = record {
    conserved = λ x. omega (arith, moved x i idle (collecting []) low here, conserved x);
    once = ground (arith, turned i idle (collecting []) low here, once);
    collected = stays i (collecting []) (λ x h. absurd (omega arith));
    done = done;
  }
  step-Inv _ (collect i k keys rest low here short next) = record {
    conserved = λ x. ground (
      arith,
      moved x i (collecting keys) (collecting (keys ++ k ∷ [])) low here,
      conserved x,
      ap (count x) next,
      count-append x keys (k ∷ []),
    );
    once = omega (arith, turned i (collecting keys) (collecting (keys ++ k ∷ [])) low here, once);
    collected =
        Collected-update size n s.destroyed (update s.destroyed k true) s.pc i
          (collecting (keys ++ k ∷ [])) (Keeps-update s.destroyed k)
          (λ x h.
            ground (arith, place i (collecting keys) low here x, count-append x keys (k ∷ [])))
          collected;
    done = λ h x l. Keeps-update s.destroyed k x (done h x l);
  }
  step-Inv _ (turn i keys low here full) = record {
    conserved =
        λ x. omega (arith, moved x i (collecting keys) (returning keys) low here, conserved x);
    once = omega (arith, turned i (collecting keys) (returning keys) low here, once);
    collected = stays i (returning keys) (λ x l. place i (collecting keys) low here x (
        omega (
          arith,
          full_has_all size keys (λ y. omega (arith, share y i (collecting keys) low here)) full x
              l,
        )));
    done = done;
  }
  step-Inv _ (give_back i k keys low here room) = record {
    conserved = λ x. ground (
      arith,
      moved x i (returning (k ∷ keys)) (returning keys) low here,
      conserved x,
      count-append x s.free (k ∷ []),
    );
    once = omega (arith, turned i (returning (k ∷ keys)) (returning keys) low here, once);
    collected = stays i (returning keys) (place i (returning (k ∷ keys)) low here);
    done = done;
  }
  step-Inv _ (finish i low here) = record {
    conserved = λ x. omega (arith, moved x i (returning []) idle low here, conserved x);
    once = ground (arith, turned i (returning []) idle low here, once);
    collected = stays i idle tt;
    done = λ h. place i (returning []) low here;
  }

pub Reach-Inv : (n size : ℕ) (s : System) → Reach n size s → Inv n size s
Reach-Inv n size _ initial = init-Inv n size
Reach-Inv n size t (later {s} r step) = step-Inv n size s (Reach-Inv n size s r) t step
