-- ===== src/Signer/Pool/Concurrent/Refinement.antt =====
-- The channel and the two methods implement the table of owners.
use gopkcs.Prelude.{
  ℕ, ◌<◌, ◌≡◌, refl, ap, subst, inl, inr, true, none, some, List, [], ◌∷◌, ◌++◌, arith,
  Option-cases, count, count-append,
}
use gopkcs.Signer.Pool.Concurrent.{
  idle, signing, collecting, returning, System, init, Step, receive, send, start, collect, turn,
  give_back, finish, Reach, initial, later,
}
use gopkcs.Signer.Pool.Concurrent.Families.{update, total-member}
use gopkcs.Signer.Pool.Concurrent.Invariant.{holds, Collected, Inv, Reach-Inv, AllDestroyed}
use gopkcs.Signer.Pool.Concurrent.Owners.{
  Owners, vacant, Move, acquire, seize, release, close, stay, Possible, unused, after, Abstracts,
}
use gopkcs.Signer.Pool.Concurrent.Handover.{none-ne-some, takes, drops, keeps}

module _ (n size : ℕ) where
  init-Abstracts : Abstracts n (init size) vacant
  unfolding init
  init-Abstracts = record {
    held = λ x j e. absurd (none-ne-some e);
    owned = λ x j high e. absurd (omega (arith, e));
    destroyed = refl;
    over = refl;
  }

  module _ (s : System) (inv : Inv n size s) (a : Owners) (abs : Abstracts n s a) where
    -- A key in the channel is one of the pool's and has no owner.
    unowned : (k : ℕ) (rest : List ℕ) → s.free ≡ k ∷ rest → (k < size) × (a.owner k ≡ none)
    unowned k rest next =
        let one : 0 < count k s.free = rw next (ground arith) in
        (
          ground (arith, inv.conserved k),
          elim (Option-cases (a.owner k)) [
            | inl e ↦ e
            | inr (j, e) ↦
                let (high, has) = abs.held k j e in
                absurd (ground (arith, inv.conserved k, total-member (holds k) s.pc n j high))
          ],
        )

    simulates : (t : System) → Step n size s t → (a' : Owners) × Move size a a' × Abstracts n t a'
    simulates t (receive i k rest low here next) =
        let (known, free) = unowned k rest next in
        (
          record a { owner = update a.owner k (some i) },
          acquire i k known free,
          takes n s a i idle (signing k) low here abs t _ k (λ x ne. ground arith) (ground arith)
              free refl refl abs.destroyed abs.over,
        )
    simulates t (send i k low here room) = (
      record a { owner = update a.owner k none },
      release i k (abs.owned k i low (rw here (ground arith))),
      drops n s a i (signing k) idle low here abs t k (λ x ne. ground arith) (ground arith) refl
          refl refl refl,
    )
    simulates t (start i low here fresh) = (
      a,
      stay,
      keeps n s a i idle (collecting []) low here abs (λ x. refl) t a.over refl refl abs.over,
    )
    simulates t (collect i k keys rest low here short next) =
        let (known, free) = unowned k rest next in
        (
          record a { owner = update a.owner k (some i); destroyed = update a.destroyed k true },
          seize i k known free,
          takes n s a i (collecting keys) (collecting (keys ++ k ∷ [])) low here abs t _ k
              (λ x ne. ground (arith, count-append x keys (k ∷ [])))
              (ground (arith, count-append k keys (k ∷ []))) free refl refl
              (ap (λ d. update d k true) abs.destroyed) abs.over,
        )
    simulates t (turn i keys low here full) = (
      a,
      stay,
      keeps n s a i (collecting keys) (returning keys) low here abs (λ x. refl) t a.over refl refl
          abs.over,
    )
    simulates t (give_back i k keys low here room) = (
      record a { owner = update a.owner k none },
      release i k (abs.owned k i low (rw here (ground arith))),
      drops n s a i (returning (k ∷ keys)) (returning keys) low here abs t k (λ x ne. ground arith)
          (ground arith)
          (ground (arith, inv.conserved k, total-member (holds k) s.pc n i low, ap (holds k) here))
          refl refl refl,
    )
    simulates t (finish i low here) =
        let all : AllDestroyed size s.destroyed =
          subst (Collected size s.destroyed) here (inv.collected i low) in
        (
          record a { over = true },
          close (rw abs.destroyed all),
          keeps n s a i (returning []) idle low here abs (λ x. refl) t true refl refl refl,
        )

-- The pool implements a table of owners that forgets the channel and its order: every reachable
-- state has a table, reached from the vacant one by moves of the table, in which a key's owner is
-- the goroutine that holds it, and every step from the state is a move of the table: a key
-- without owner is taken (by Destroy also destroyed), its owner gives it back, the pool is over
-- once all its keys are destroyed, or nothing changes.
pub Reach-refines :
    (n size : ℕ) (s : System)
    → Reach n size s
    → (a : Owners) × Possible size a
      × Abstracts n s a
      × ((t : System) → Step n size s t → (b : Owners) × Move size a b × Abstracts n t b)
Reach-refines n size s initial = (
  vacant,
  unused,
  init-Abstracts n size,
  simulates n size s (Reach-Inv n size s initial) vacant (init-Abstracts n size),
)
Reach-refines n size t (later {s} r step) =
    let (a, possible, abs, steps) = Reach-refines n size s r in
    let (b, move, abs') = steps t step in
    (b, after possible move, abs', simulates n size t (Reach-Inv n size t (later r step)) b abs')
