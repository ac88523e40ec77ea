-- ===== src/Signer/Shared/Waiting.antt =====
-- What goroutines that share keys wait for, and which of them can go on.
use gopkcs.Prelude.{ℕ, ◌+◌, ◌≤◌, ◌<◌, ◌≡◌, Bool, arith}
use gopkcs.Signer.Shared.{
  Stage, Keys, KeyStep, enters, prepares, operates, reads, writes, away, signing, entered, waiting,
  prepared, initialised, destroying, closing, opening, opened, sign_call, sign_lock, sign_refuse,
  read_lock, write_wait, write_lock, sign_fail, sign_init, sign_end, destroy_call, destroy_lock,
  destroy_again, destroy_close, setup_call, setup_lock, setup_end,
}

-- Whether a step is a new call of Sign, Destroy or New.
abbrev pub call : {n : ℕ} {always : ℕ → Bool} {s t : Keys} → KeyStep n always s t → ℕ
call (sign_call i k low here) = 1
call (sign_lock i k low here free) = 0
call (sign_refuse i k low here closed) = 0
call (read_lock i k low here has plain free) = 0
call (write_wait i k low here has always_so free) = 0
call (write_lock i k low here free) = 0
call (sign_fail i k b low here) = 0
call (sign_init i k b low here) = 0
call (sign_end i k b low here) = 0
call (destroy_call i k low here) = 1
call (destroy_lock i k low here free) = 0
call (destroy_again i k low here closed) = 0
call (destroy_close i k low here has) = 0
call (setup_call i low here) = 1
call (setup_lock i low here free) = 0
call (setup_end i low here) = 0

-- How many steps a goroutine has to go at most.
abbrev pub rank : Stage → ℕ
rank away = 0
rank (signing k) = 5
rank (entered k) = 4
rank (waiting k) = 3
rank (prepared k b) = 2
rank (initialised k b) = 1
rank (destroying k) = 2
rank (closing k) = 1
rank opening = 2
rank opened = 1

-- A goroutine that waits for nothing, and one that does not wait for sessionMu.
abbrev pub free : Stage → ℕ
free away = 0
free (signing k) = 0
free (entered k) = 0
free (waiting k) = 0
free (prepared k b) = 1
free (initialised k b) = 1
free (destroying k) = 0
free (closing k) = 1
free opening = 0
free opened = 1

abbrev pub engaged : Stage → ℕ
engaged away = 0
engaged (signing k) = 0
engaged (entered k) = 1
engaged (waiting k) = 1
engaged (prepared k b) = 1
engaged (initialised k b) = 1
engaged (destroying k) = 0
engaged (closing k) = 1
engaged opening = 0
engaged opened = 1

pub reads-free : (p : Stage) → reads p ≤ free p
reads-free away = omega arith
reads-free (signing k) = omega arith
reads-free (entered k) = omega arith
reads-free (waiting k) = omega arith
reads-free (prepared k b) = ground arith
reads-free (initialised k b) = ground arith
reads-free (destroying k) = omega arith
reads-free (closing k) = omega arith
reads-free opening = omega arith
reads-free opened = omega arith

pub writes-free : (p : Stage) → writes p ≤ free p
writes-free away = omega arith
writes-free (signing k) = omega arith
writes-free (entered k) = omega arith
writes-free (waiting k) = omega arith
writes-free (prepared k b) = ground arith
writes-free (initialised k b) = ground arith
writes-free (destroying k) = omega arith
writes-free (closing k) = omega arith
writes-free opening = omega arith
writes-free opened = omega arith

pub holds-engaged : (k : ℕ) (p : Stage) → enters k p + prepares k p + operates k p ≤ engaged p
holds-engaged k away = omega arith
holds-engaged k (signing j) = omega arith
holds-engaged k (entered j) = ground arith
holds-engaged k (waiting j) = ground arith
holds-engaged k (prepared j b) = ground arith
holds-engaged k (initialised j b) = ground arith
holds-engaged k (destroying j) = omega arith
holds-engaged k (closing j) = ground arith
holds-engaged k opening = omega arith
holds-engaged k opened = omega arith

-- Nobody is in a call, and: somebody in a call can go on.
abbrev pub Rests : ℕ → Keys → Type 0
Rests n t = (i : ℕ) → i < n → t.stage i ≡ away

abbrev pub GoesOn : ℕ → (ℕ → Bool) → Keys → Type 0
GoesOn n always t = (u : Keys) × (x : KeyStep n always t u) × (call x ≡ 0)
