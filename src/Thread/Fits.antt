-- ===== src/Thread/Fits.antt =====
-- src/base/Thread.cc: where the owner and the new thread can be at once, and what holds there.
use network_library.Prelude.{
  ℕ, ◌+◌, ◌≡◌, ◌≢◌, ◌⊎◌, refl, sym, ap, ◌∙◌, Bool, true, false, List, [], ◌∷◌, Option, none, some,
  arith, inl, inr,
}
use network_library.Thread.{
  Thread, absent, joinable, released, Owner, before, waiting, has_started, joining, has_joined,
  destroyed, Runner, unborn, setting, posting, calling, ended, terminated, stray, World,
}

-- The new thread has set the id.
abbrev pub has_tid : Runner → Bool
has_tid unborn = false
has_tid setting = false
has_tid _ = true

-- How often the new thread has posted.
abbrev pub posted : Runner → ℕ
posted unborn = 0
posted setting = 0
posted posting = 0
posted _ = 1

-- What has run by then, of a thread with this function.
abbrev pub done : Option ℕ → Runner → List ℕ
done none r = []
done (some f) ended = f ∷ []
done (some f) _ = []

-- What holds of the new thread, the semaphore and the object, for each place where the owner can be.
abbrev pub Fits : Owner → Runner → ℕ → Thread → Type 0
Fits before r sem t =
    (r ≡ unborn) × (sem ≡ 0) × (t.thread ≡ absent) × (t.started ≡ false) × (t.joined ≡ false)
Fits waiting r sem t =
    (r ≢ unborn)
    × (sem ≡ posted r)
    × (t.thread ≡ joinable)
    × (t.started ≡ true)
    × (t.joined ≡ false)
Fits has_started r sem t =
    (posted r ≡ 1) × (sem ≡ 0) × (t.thread ≡ joinable) × (t.started ≡ true) × (t.joined ≡ false)
Fits joining r sem t = (posted r ≡ 1) × (t.started ≡ true) × (t.joined ≡ true)
Fits has_joined r sem t = (r ≡ ended) × (t.thread ≡ released) × (t.joined ≡ true)
Fits destroyed r sem t = ((r ≡ unborn) ⊎ (posted r ≡ 1)) × (t.thread ≢ joinable)

-- For an object that holds this function, in a process with this id.
pub record IsSound (func : Option ℕ) (pid : ℕ) (w : World) : Type 0 where
  pub same : w.object.func ≡ func
  pub numbered : has_tid w.runner ≡ true → w.object.tid ≡ pid
  pub effect : w.ran ≡ done func w.runner
  pub fits : Fits w.owner w.runner w.sem w.object

-- The steps of the new thread, at every place of the owner.
pub set_tid-Fits :
    (o : Owner) (sem n : ℕ) (t : Thread)
    → Fits o setting sem t
    → Fits o posting sem (record t { tid = n })
set_tid-Fits before sem n t (r, s, h, st, j) = cc
set_tid-Fits waiting sem n t (r, s, h, st, j) = ((λ e. cc), s, h, st, j)
set_tid-Fits has_started sem n t (r, s, h, st, j) = absurd (omega (arith, r))
set_tid-Fits joining sem n t (r, st, j) = absurd (omega (arith, r))
set_tid-Fits has_joined sem n t (r, h, j) = cc
set_tid-Fits destroyed sem n t (inl r, h) = cc
set_tid-Fits destroyed sem n t (inr r, h) = absurd (omega (arith, r))

pub post-Fits :
    (o : Owner) (sem : ℕ) (t : Thread) → Fits o posting sem t → Fits o calling (sem + 1) t
post-Fits before sem t (r, s, h, st, j) = cc
post-Fits waiting sem t (r, s, h, st, j) = ((λ e. cc), omega (arith, s), h, st, j)
post-Fits has_started sem t (r, s, h, st, j) = absurd (omega (arith, r))
post-Fits joining sem t (r, st, j) = absurd (omega (arith, r))
post-Fits has_joined sem t (r, h, j) = cc
post-Fits destroyed sem t (inl r, h) = cc
post-Fits destroyed sem t (inr r, h) = absurd (omega (arith, r))

-- Behind its post the new thread may go anywhere.
pub call-Fits :
    (o : Owner) (r : Runner) (sem : ℕ) (t : Thread)
    → posted r ≡ 1
    → Fits o calling sem t
    → Fits o r sem t
call-Fits before r sem t p (q, s, h, st, j) = cc
call-Fits waiting r sem t p (q, s, h, st, j) =
    ((λ e. absurd (omega (arith, p, ap posted e))), s ∙ sym p, h, st, j)
call-Fits has_started r sem t p (q, s, h, st, j) = (p, s, h, st, j)
call-Fits joining r sem t p (q, st, j) = (p, st, j)
call-Fits has_joined r sem t p (q, h, j) = cc
call-Fits destroyed r sem t p (q, h) = (inr p, h)

-- Where the semaphore is up, the new thread has posted.
pub posted-one : (r : Runner) (n : ℕ) → n + 1 ≡ posted r → (posted r ≡ 1) × (n ≡ 0)
posted-one unborn n e = absurd (omega (arith, e))
posted-one setting n e = absurd (omega (arith, e))
posted-one posting n e = absurd (omega (arith, e))
posted-one calling n e = (refl, omega (arith, e))
posted-one ended n e = (refl, omega (arith, e))
posted-one terminated n e = (refl, omega (arith, e))
posted-one stray n e = (refl, omega (arith, e))

-- Nothing has run before the call.
pub done-nothing : (func : Option ℕ) (r : Runner) → r ≢ ended → done func r ≡ []
done-nothing none r e = refl
done-nothing (some f) unborn e = refl
done-nothing (some f) setting e = refl
done-nothing (some f) posting e = refl
done-nothing (some f) calling e = refl
done-nothing (some f) terminated e = refl
done-nothing (some f) stray e = refl
done-nothing (some f) ended e = absurd (e refl)
