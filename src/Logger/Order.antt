-- ===== src/Logger/Order.antt =====
-- src/logger/lockqueue.h and logger.cc: what becomes of the messages that are logged.
use network_library.Prelude.{
  ℕ, ◌≤◌, ◌≡◌, refl, sym, ap, ap₂, subst, ◌∙◌, true, List, [], ◌∷◌, ◌++◌, arith, length,
  if◌then◌else◌, Bool-cases, List-cases, inl, inr,
}
use mathlib.Core.List.{append_assoc, append-nil}
use network_library.Http.Text.{same_bytes}
use network_library.Logger.{
  LogLevel, Writer, opening, gone, taking, waiting, writing, Entry, World, new_logger, is_running,
  notified, push, log, pop, line, append_to, write, Step, Reach,
}
use network_library.Logger.Stamp.{Tm, to_string}

abbrev pub messages : List Entry → List (List ℕ)
messages [] = []
messages (e ∷ es) = e.message ∷ messages es

-- What the entries have put into a file.
abbrev pub text_of : List ℕ → List Entry → List ℕ
text_of name [] = []
text_of name (e ∷ es) =
    let rest = text_of name es in
    if same_bytes name e.name then line e.stamp e.message ++ rest else rest

-- The message that the writer has taken out of the queue.
abbrev pub held : Writer → List (List ℕ)
held (writing name msg) = msg ∷ []
held _ = []

-- The messages that were logged are those that were written, at most one that was being written, and those in the
-- queue, in this order; the entries are what the files have got; and a writer that waits has an empty queue.
pub record IsInOrder (files : List ℕ → List ℕ) (w : World) : Type 0 where
  pub taken : List (List ℕ)
  pub whole : w.logged ≡ messages w.entries ++ taken ++ w.lock_que
  pub single : length taken ≤ 1
  pub kept : is_running w.writer ≡ true → taken ≡ held w.writer
  pub stored : (name : List ℕ) → w.files name ≡ files name ++ text_of name w.entries
  pub drained : (name : List ℕ) → w.writer ≡ waiting name → w.lock_que ≡ []

messages-append : (es fs : List Entry) → messages (es ++ fs) ≡ messages es ++ messages fs
messages-append [] fs = refl
messages-append (e ∷ es) fs = ap (λ ms. e.message ∷ ms) (messages-append es fs)

text_of-append :
    (name : List ℕ) (es : List Entry) (e : Entry)
    → text_of name (es ++ e ∷ [])
      ≡ text_of name es ++ (if same_bytes name e.name then line e.stamp e.message else [])
text_of-append name [] e = elim (Bool-cases (same_bytes name e.name)) [
  | inl same ↦ rw same (append-nil (line e.stamp e.message))
  | inr other ↦ rw other refl
]
text_of-append name (f ∷ es) e = elim (Bool-cases (same_bytes name f.name)) [
  | inl same ↦ rw same (
      ap (λ t. line f.stamp f.message ++ t) (text_of-append name es e)
      ∙ sym (append_assoc (line f.stamp f.message) (text_of name es) _))
  | inr other ↦ rw other (text_of-append name es e)
]

eq_of_append_to :
    (name text : List ℕ) (files : List ℕ → List ℕ) (other : List ℕ)
    → append_to name text files other ≡ files other ++ (if same_bytes other name then text else [])
eq_of_append_to name text files other = elim (Bool-cases (same_bytes other name)) [
  | inl same ↦ rw same refl
  | inr apart ↦ rw apart (sym (append-nil (files other)))
]

pub pop-nil :
    (name : List ℕ) (v : World) → v.lock_que ≡ [] → pop name v ≡ record v { writer = waiting name }
unfolding pop
pop-nil name v e = rw e refl

pub pop-cons :
    (name : List ℕ) (v : World) (msg : List ℕ) (rest : List (List ℕ))
    → v.lock_que ≡ msg ∷ rest
    → pop name v ≡ record v { lock_que = rest; writer = writing name msg }
unfolding pop
pop-cons name v msg rest e = rw e refl

held-notified : (u : Writer) → held u ≡ held (notified u)
held-notified opening = refl
held-notified gone = refl
held-notified (taking name) = refl
held-notified (waiting name) = refl
held-notified (writing name msg) = refl

notified-waiting : (u : Writer) (name : List ℕ) → ¬ (notified u ≡ waiting name)
notified-waiting opening name e = cc
notified-waiting gone name e = cc
notified-waiting (taking other) name e = cc
notified-waiting (waiting other) name e = cc
notified-waiting (writing other msg) name e = cc

module _ (localtime : ℕ → Tm) (files : List ℕ → List ℕ) where
  -- A step of the writer that takes nothing and gives nothing, and does not wait.
  idle-IsInOrder :
      (v : World) (u : Writer)
      → IsInOrder files v
      → is_running v.writer ≡ true
      → held v.writer ≡ held u
      → ((name : List ℕ) → u ≡ waiting name → v.lock_que ≡ [])
      → IsInOrder files (record v { writer = u })
  idle-IsInOrder v u o r e d = record {
    taken = o.taken;
    whole = o.whole;
    single = o.single;
    kept = λ _. o.kept r ∙ e;
    stored = o.stored;
    drained = d;
  }

  gone-IsInOrder : (v : World) → IsInOrder files v → IsInOrder files (record v { writer = gone })
  gone-IsInOrder v o = record {
    taken = o.taken;
    whole = o.whole;
    single = o.single;
    kept = λ r. cc;
    stored = o.stored;
    drained = λ name q. cc;
  }

  pop-IsInOrder :
      (name : List ℕ) (v : World)
      → v.writer ≡ taking name
      → IsInOrder files v
      → IsInOrder files (pop name v)
  pop-IsInOrder name v e o = elim (List-cases v.lock_que) [
    | inl empty ↦ subst (IsInOrder files) (sym (pop-nil name v empty)) (
        idle-IsInOrder v (waiting name) o (ground (arith, e)) (ground (arith, e))
          (λ other q. empty))
    | inr (msg, rest, que) ↦ subst (IsInOrder files) (sym (pop-cons name v msg rest que)) (record {
      taken = msg ∷ [];
      whole =
          o.whole
          ∙ ap₂ (λ t q. messages v.entries ++ t ++ q) (none_taken o.kept) que
          ∙ ap (λ t. t ++ msg ∷ rest) (append-nil (messages v.entries))
          ∙ sym (append_assoc (messages v.entries) (msg ∷ []) rest);
      single = omega arith;
      kept = λ r. refl;
      stored = o.stored;
      drained = λ other q. cc;
    })
  ]
    where
      none_taken :
          {taken : List (List ℕ)}
          → (is_running v.writer ≡ true → taken ≡ held v.writer)
          → taken ≡ []
      none_taken k = k (ground (arith, e)) ∙ ap held e

  write-IsInOrder :
      (name msg : List ℕ) (v : World)
      → v.writer ≡ writing name msg
      → IsInOrder files v
      → IsInOrder files (write localtime name msg v)
  unfolding write
  write-IsInOrder name msg v e o =
      let stamp = to_string localtime v.now in
      let entry : Entry = record { name = name; stamp = stamp; message = msg } in
      record {
        taken = [];
        whole =
            o.whole
            ∙ ap (λ t. messages v.entries ++ t ++ v.lock_que)
                (o.kept (ground (arith, e)) ∙ ap held e)
            ∙ ap (λ ms. ms ++ v.lock_que)
                (sym (messages-append v.entries (entry ∷ [])) ∙ sym (append-nil _));
        single = omega arith;
        kept = λ r. refl;
        stored = λ other.
            eq_of_append_to name (line stamp msg) v.files other
            ∙ ap (λ t. t ++ (if same_bytes other name then line stamp msg else [])) (o.stored other)
            ∙ append_assoc (files other) (text_of other v.entries) _
            ∙ ap (λ t. files other ++ t) (sym (text_of-append other v.entries entry));
        drained = λ other q. cc;
      }

  log-IsInOrder :
      (msg : List ℕ) (v : World)
      → is_running v.writer ≡ true
      → IsInOrder files v
      → IsInOrder files (log msg v)
  unfolding log push
  log-IsInOrder msg v r o = record {
    taken = o.taken;
    whole =
        ap (λ l. l ++ msg ∷ []) o.whole
        ∙ append_assoc (messages v.entries ++ o.taken) v.lock_que (msg ∷ []);
    single = o.single;
    kept = λ q. o.kept r ∙ held-notified v.writer;
    stored = o.stored;
    drained = λ name q. absurd (notified-waiting v.writer name q);
  }

  Step-IsInOrder : {v w : World} → Step localtime v w → IsInOrder files v → IsInOrder files w
  Step-IsInOrder (Step.opens v e) o =
      idle-IsInOrder v _ o (ground (arith, e)) (ground (arith, e)) (λ name q. cc)
  Step-IsInOrder (Step.fails_to_open v e) o = gone-IsInOrder v o
  Step-IsInOrder (Step.pops name v e) o = pop-IsInOrder name v e o
  Step-IsInOrder (Step.wakes name v e) o =
      idle-IsInOrder v _ o (ground (arith, e)) (ground (arith, e)) (λ name q. cc)
  Step-IsInOrder (Step.writes name msg v e) o = write-IsInOrder name msg v e o
  Step-IsInOrder (Step.sets_level level v r) o = record {
    taken = o.taken;
    whole = o.whole;
    single = o.single;
    kept = o.kept;
    stored = o.stored;
    drained = o.drained;
  }
  Step-IsInOrder (Step.logs text v r) o = log-IsInOrder _ v r o
  Step-IsInOrder (Step.exits v) o = gone-IsInOrder v o
  Step-IsInOrder (Step.passes later v) o = record {
    taken = o.taken;
    whole = o.whole;
    single = o.single;
    kept = o.kept;
    stored = o.stored;
    drained = o.drained;
  }

  pub Reach-keeps : {v w : World} → IsInOrder files v → Reach localtime v w → IsInOrder files w
  Reach-keeps o Reach.here = o
  Reach-keeps o (Reach.then r s) = Step-IsInOrder s (Reach-keeps o r)

  -- In every interleaving of the threads that log with the writer: the messages that were logged are those that were
  -- written, in the order in which they were logged, at most one that the writer has taken, and those in the queue; each
  -- file holds what it held before and the lines of the messages that went to it, in that order; and the writer waits
  -- only while the queue is empty. When the process exits, at most one message is lost beside those in the queue.
  pub Reach-IsInOrder :
      (level : LogLevel) (now : ℕ) (w : World)
      → Reach localtime (new_logger level now files) w
      → IsInOrder files w
  Reach-IsInOrder level now w r =
      Reach-keeps
        (record {
          taken = [];
          whole = refl;
          single = omega arith;
          kept = λ _. refl;
          stored = λ name. sym (append-nil (files name));
          drained = λ name e. refl;
        })
        r
