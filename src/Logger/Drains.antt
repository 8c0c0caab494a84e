-- ===== src/Logger/Drains.antt =====
-- src/logger/logger.cc and lockqueue.h: what the writer does by itself.
--
-- The steps of the writer's own thread, where every file opens and no other thread wakes it.
use network_library.Prelude.{
  ℕ, ◌≡◌, refl, sym, ap, ap₂, ◌∙◌, inl, inr, true, List, [], ◌∷◌, ◌++◌, List-cases, arith,
}
use mathlib.Core.List.{append-nil}
use network_library.Logger.{
  LogLevel, Writer, new_logger, opening, gone, taking, waiting, writing, World, is_running, pop,
  write, Step, Reach,
}
use network_library.Logger.Stamp.{Tm, file_name}
use network_library.Logger.Order.{messages, held, IsInOrder, Reach-IsInOrder, Reach-keeps, pop-cons}

module _ (localtime : ℕ → Tm) where
  pub data OwnStep : World → World → Type 0 where
    opens :
        (w : World)
        → w.writer ≡ opening
        → OwnStep w (record w { writer = taking (file_name (localtime w.now)) })
    pops : (name : List ℕ) (w : World) → w.writer ≡ taking name → OwnStep w (pop name w)
    writes :
        (name msg : List ℕ) (w : World)
        → w.writer ≡ writing name msg
        → OwnStep w (write localtime name msg w)

  pub data OwnReach (w : World) : World → Type 0 where
    here : OwnReach w w
    then : {u v : World} → OwnReach w u → OwnStep u v → OwnReach w v

  step : {v w : World} → OwnStep v w → Step localtime v w
  step (OwnStep.opens v p) = Step.opens v p
  step (OwnStep.pops name v p) = Step.pops name v p
  step (OwnStep.writes name msg v p) = Step.writes name msg v p

  reach : {v w : World} → OwnReach v w → Reach localtime v w
  reach OwnReach.here = Reach.here
  reach (OwnReach.then r s) = Reach.then (reach r) (step s)

  then_own : {u v w : World} → OwnReach u v → OwnReach v w → OwnReach u w
  then_own r OwnReach.here = r
  then_own r (OwnReach.then q s) = OwnReach.then (then_own r q) s

  -- One message.
  abbrev Done : World → List (List ℕ) → Type 0
  Done v rest =
      (u : World) × OwnReach v u
      × (u.writer ≡ opening)
      × (u.lock_que ≡ rest)
      × (u.logged ≡ v.logged)

  take_one :
      (name msg : List ℕ) (rest : List (List ℕ)) (v : World)
      → v.writer ≡ taking name
      → v.lock_que ≡ msg ∷ rest
      → Done v rest
  unfolding write
  take_one name msg rest v e q =
      let p = pop-cons name v msg rest q in
      (
        write localtime name msg (pop name v),
        OwnReach.then (OwnReach.then OwnReach.here (OwnStep.pops name v e))
            (OwnStep.writes name msg (pop name v) (ap (λ w. w.writer) p)),
        refl,
        ap (λ w. w.lock_que) p,
        ap (λ w. w.logged) p,
      )

  take_all : (que : List (List ℕ)) (v : World) → v.writer ≡ opening → v.lock_que ≡ que → Done v []
  take_all [] v e q = (v, OwnReach.here, e, q, refl)
  take_all (msg ∷ rest) v e q =
      let name = file_name (localtime v.now) in
      let (u, r, o, left, same) =
        take_one name msg rest (record v { writer = taking name }) refl q in
      let (t, r', o', left', same') = take_all rest u o left in
      (
        t,
        then_own (then_own (OwnReach.then OwnReach.here (OwnStep.opens v e)) r) r',
        o',
        left',
        same' ∙ same,
      )

  abbrev pub Written : World → Type 0
  Written w =
      (u : World) × OwnReach w u
      × (u.lock_que ≡ [])
      × (u.logged ≡ w.logged)
      × (messages u.entries ≡ w.logged)

  -- An order in which the messages of a world are all written, where the queue is empty and none is held.
  settled :
      {files : List ℕ → List ℕ} {w : World} (u : World)
      → IsInOrder files w
      → OwnReach w u
      → held u.writer ≡ []
      → is_running u.writer ≡ true
      → u.lock_que ≡ []
      → u.logged ≡ w.logged
      → Written w
  settled u o r h run empty same =
      let i = Reach-keeps localtime _ o (reach r) in
      (
        u,
        r,
        empty,
        same,
        sym (
            sym same
            ∙ i.whole
            ∙ ap₂ (λ t q. messages u.entries ++ t ++ q) (i.kept run ∙ h) empty
            ∙ append-nil (messages u.entries ++ [])
            ∙ append-nil (messages u.entries)),
      )

  drains_from :
      {files : List ℕ → List ℕ} (w : World) (t : Writer)
      → w.writer ≡ t
      → IsInOrder files w
      → is_running w.writer ≡ true
      → Written w
  unfolding write
  drains_from w opening e o run =
      let (u, r, p, l, s) = take_all w.lock_que w e refl in
      settled u o r (ap held p) (ap is_running p) l s
  drains_from w gone e o run = absurd (ground (arith, e, run))
  drains_from w (taking name) e o run = elim (List-cases w.lock_que) [
    | inl empty ↦ settled w o OwnReach.here (ap held e) run empty refl
    | inr (msg, rest, q) ↦
        let (u, r, p, l, s) = take_one name msg rest w e q in
        let (t, r', p', l', s') = take_all rest u p l in
        settled t o (then_own r r') (ap held p') (ap is_running p') l' (s' ∙ s)
  ]
  drains_from w (waiting name) e o run =
      settled w o OwnReach.here (ap held e) run (o.drained name e) refl
  drains_from w (writing name msg) e o run =
      let v = write localtime name msg w in
      let (u, r, p, l, s) = take_all v.lock_que v refl refl in
      settled u o (then_own (OwnReach.then OwnReach.here (OwnStep.writes name msg w e)) r)
        (ap held p) (ap is_running p) l s

  -- At any point of any interleaving at which the process has not exited, the writer brings every message that was
  -- logged to a file by steps of its own alone, in which no file fails to open, without a notification or a wake-up
  -- that nobody sent: it never waits with a message in the queue.
  pub writer_drains :
      (level : LogLevel) (now : ℕ) (files : List ℕ → List ℕ) (w : World)
      → Reach localtime (new_logger level now files) w
      → is_running w.writer ≡ true
      → Written w
  writer_drains level now files w r run =
      drains_from w w.writer refl (Reach-IsInOrder localtime files level now w r) run
