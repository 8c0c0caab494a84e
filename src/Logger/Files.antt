-- ===== src/Logger/Files.antt =====
-- src/logger/logger.cc: which file the next message is written to.
use network_library.Prelude.{
  ℕ, ◌≡◌, refl, sym, ap, ◌∙◌, ◌⊎◌, inl, inr, List, [], ◌∷◌, ◌++◌, Option, none, some, List-cases,
  arith,
}
use mathlib.Core.List.{append_assoc, append-nil}
use network_library.Prelude.Options.{some_inj}
use network_library.Logger.{
  Writer, opening, gone, taking, waiting, writing, Entry, World, notified, push, log, pop, write,
  Step, Reach,
}
use network_library.Logger.Stamp.{Tm, to_string}
use network_library.Logger.Order.{pop-nil, pop-cons}

-- The file that the writer has open.
abbrev pub open_file : Writer → Option (List ℕ)
open_file opening = none
open_file gone = none
open_file (taking name) = some name
open_file (waiting name) = some name
open_file (writing name msg) = some name

-- The next message behind these entries goes to this file, if the process does not exit before.
abbrev pub GoesNext : List ℕ → List Entry → World → Type 0
GoesNext name entries w =
    ((w.entries ≡ entries) × ((w.writer ≡ gone) ⊎ (open_file w.writer ≡ some name)))
    ⊎ ((e : Entry) × (rest : List Entry) × (w.entries ≡ entries ++ e ∷ rest) × (e.name ≡ name))

open_file-notified : (u : Writer) → open_file (notified u) ≡ open_file u
open_file-notified opening = refl
open_file-notified gone = refl
open_file-notified (taking name) = refl
open_file-notified (waiting name) = refl
open_file-notified (writing name msg) = refl

open_file-pop :
    (name : List ℕ) (v : World)
    → (open_file (pop name v).writer ≡ some name) × ((pop name v).entries ≡ v.entries)
open_file-pop name v = elim (List-cases v.lock_que) [
  | inl empty ↦ rw (pop-nil name v empty) (refl, refl)
  | inr (msg, rest, que) ↦ rw (pop-cons name v msg rest que) (refl, refl)
]

module _ (localtime : ℕ → Tm) where
  Step-entries :
      {v w : World} → Step localtime v w → (more : List Entry) × (w.entries ≡ v.entries ++ more)
  unfolding write log push
  Step-entries (Step.opens v p) = ([], sym (append-nil v.entries))
  Step-entries (Step.fails_to_open v p) = ([], sym (append-nil v.entries))
  Step-entries (Step.pops n v p) = ([], (open_file-pop n v).1 ∙ sym (append-nil v.entries))
  Step-entries (Step.wakes n v p) = ([], sym (append-nil v.entries))
  Step-entries (Step.writes n msg v p) = (_, refl)
  Step-entries (Step.sets_level level v r) = ([], sym (append-nil v.entries))
  Step-entries (Step.logs text v r) = ([], sym (append-nil v.entries))
  Step-entries (Step.exits v) = ([], sym (append-nil v.entries))
  Step-entries (Step.passes later v) = ([], sym (append-nil v.entries))

  -- A writer that has a file open has this one.
  still :
      {u : Writer} {name n : List ℕ}
      → (u ≡ gone) ⊎ (open_file u ≡ some name)
      → {t : Writer} → u ≡ t
      → open_file t ≡ some n
      → some n ≡ some name
  still (inl q) p o = absurd (ground (arith, q, p, o))
  still (inr q) p o = sym o ∙ ap open_file (sym p) ∙ q

  Step-GoesNext :
      {name : List ℕ} {entries : List Entry} {v w : World}
      → Step localtime v w
      → GoesNext name entries v
      → GoesNext name entries w
  unfolding write log push
  Step-GoesNext {v = v} s (inr (e, rest, all, n)) =
      let (more, grown) = Step-entries s in
      inr (e, rest ++ more, grown ∙ ap (λ es. es ++ more) all ∙ append_assoc _ (e ∷ rest) more, n)
  Step-GoesNext (Step.opens v p) (inl (same, inl q)) = cc
  Step-GoesNext (Step.opens v p) (inl (same, inr q)) = absurd (ground (arith, p, q))
  Step-GoesNext (Step.fails_to_open v p) (inl (same, u)) = inl (same, inl refl)
  Step-GoesNext (Step.pops n v p) (inl (same, u)) =
      let (has_file, kept) = open_file-pop n v in inl (kept ∙ same, inr (has_file ∙ still u p refl))
  Step-GoesNext (Step.wakes n v p) (inl (same, u)) = inl (same, inr (still u p refl))
  Step-GoesNext (Step.writes n msg v p) (inl (same, u)) =
      let e : Entry = record { name = n; stamp = to_string localtime v.now; message = msg } in
      inr (e, [], ap (λ es. es ++ e ∷ []) same, some_inj (still u p refl))
  Step-GoesNext (Step.sets_level level v r) (inl (same, u)) = inl (same, u)
  Step-GoesNext (Step.logs text v r) (inl (same, inl q)) = absurd (ground (arith, r, q))
  Step-GoesNext (Step.logs text v r) (inl (same, inr q)) =
      inl (same, inr (open_file-notified v.writer ∙ q))
  Step-GoesNext (Step.exits v) (inl (same, u)) = inl (same, inl refl)
  Step-GoesNext (Step.passes later v) (inl (same, u)) = inl (same, u)

  -- The file of a message is the one that the writer opened before it took the message, even where it waited for the
  -- message: whatever the others do and however late it has become, the next message is written to that file.
  pub Reach-GoesNext :
      {name : List ℕ} {v w : World}
      → open_file v.writer ≡ some name
      → Reach localtime v w
      → GoesNext name v.entries w
  Reach-GoesNext e Reach.here = inl (refl, inr e)
  Reach-GoesNext e (Reach.then r s) = Step-GoesNext s (Reach-GoesNext e r)

  pub then_reach : {u v w : World} → Reach localtime u v → Reach localtime v w → Reach localtime u w
  then_reach r Reach.here = r
  then_reach r (Reach.then q s) = Reach.then (then_reach r q) s
