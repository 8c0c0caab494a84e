-- ===== src/Thread/Start.antt =====
-- src/base/Thread.cc: what holds when start, join and the destructor have returned.
use network_library.Prelude.{
  ℕ, ◌≡◌, ◌≢◌, ◌⊎◌, refl, sym, ap, ◌∙◌, true, ◌&&◌, not, List, [], ◌∷◌, ◌++◌, Option, none, some,
  arith, Bool-cases, inl, inr, subst,
}
use network_library.Thread.{
  Thread, new_thread, joinable, released, Owner, before, waiting, has_started, joining, has_joined,
  destroyed, Runner, unborn, setting, posting, calling, ended, terminated, stray, World, made, tid,
  cached_tid, start, set_tid, post, call_func, destroy, Step, Reach,
}
use network_library.Thread.Fits.{
  has_tid, posted, done, Fits, IsSound, set_tid-Fits, post-Fits, call-Fits, posted-one,
  done-nothing,
}

module _ (func : Option ℕ) (pid : ℕ) where
  owner-Fits :
      {w : World} (o : Owner) → w.owner ≡ o → IsSound func pid w → Fits o w.runner w.sem w.object
  owner-Fits {w} o e v = subst (λ q. Fits q w.runner w.sem w.object) e v.fits

  -- A step of the owner that leaves the new thread and the object's function alone.
  owner-IsSound :
      {w : World} (t : Thread) (sem : ℕ) (o : Owner)
      → IsSound func pid w
      → t.func ≡ w.object.func
      → t.tid ≡ w.object.tid
      → Fits o w.runner sem t
      → IsSound func pid (record w { object = t; sem = sem; owner = o })
  owner-IsSound t sem o v f n fits = record {
    same = f ∙ v.same;
    numbered = λ h. n ∙ v.numbered h;
    effect = v.effect;
    fits = fits;
  }

  silent :
      {w : World} (r next : Runner)
      → w.runner ≡ r
      → r ≢ ended
      → next ≢ ended
      → IsSound func pid w
      → w.ran ≡ done func next
  silent r next e n m v =
      v.effect ∙ ap (done func) e ∙ done-nothing func r n ∙ sym (done-nothing func next m)

  runner-Fits :
      {w : World} (r : Runner) → w.runner ≡ r → IsSound func pid w → Fits w.owner r w.sem w.object
  runner-Fits {w} r e v = subst (λ q. Fits w.owner q w.sem w.object) e v.fits

  start-IsSound : (w : World) → w.owner ≡ before → IsSound func pid w → IsSound func pid (start w)
  start-IsSound w e v =
      let (r, s, h, st, j) = owner-Fits before e v in
      record {
        same = v.same;
        numbered = λ q. cc;
        effect = silent unborn setting r (λ q. cc) (λ q. cc) v;
        fits = ((λ q. cc), refl, refl, refl, j);
      }

  set_tid-IsSound :
      (w : World) → w.runner ≡ setting → IsSound func pid w → IsSound func pid (set_tid pid w)
  unfolding tid cached_tid
  set_tid-IsSound w e v = record {
    same = v.same;
    numbered = λ q. refl;
    effect = silent setting posting e (λ q. cc) (λ q. cc) v;
    fits = set_tid-Fits w.owner w.sem _ w.object (runner-Fits _ e v);
  }

  post-IsSound : (w : World) → w.runner ≡ posting → IsSound func pid w → IsSound func pid (post w)
  post-IsSound w e v = record {
    same = v.same;
    numbered = λ q. v.numbered (ap has_tid e);
    effect = silent posting calling e (λ q. cc) (λ q. cc) v;
    fits = post-Fits w.owner w.sem w.object (runner-Fits _ e v);
  }

  -- The new thread goes on without a call.
  pass-IsSound :
      (r : Runner) (w : World)
      → w.runner ≡ calling
      → posted r ≡ 1
      → r ≢ ended
      → IsSound func pid w
      → IsSound func pid (record w { runner = r })
  pass-IsSound r w e p n v = record {
    same = v.same;
    numbered = λ q. v.numbered (ap has_tid e);
    effect = silent calling r e (λ q. cc) n v;
    fits = call-Fits w.owner r w.sem w.object p (runner-Fits calling e v);
  }

  call-IsSound :
      (g : Option ℕ) (w : World)
      → w.runner ≡ calling
      → g ≡ func
      → IsSound func pid w
      → IsSound func pid (call_func g w)
  call-IsSound none w e same v = pass-IsSound terminated w e refl (λ q. cc) v
  call-IsSound (some f) w e same v = record {
    same = v.same;
    numbered = λ q. v.numbered (ap has_tid e);
    effect =
        ap (λ r. r ++ f ∷ []) (v.effect ∙ ap (done func) e ∙ done-nothing func calling (λ q. cc))
        ∙ ap (λ g. done g ended) same;
    fits = call-Fits w.owner ended w.sem w.object refl (runner-Fits calling e v);
  }

  destroy-IsSound :
      (w : World)
      → (w.runner ≡ unborn) ⊎ (posted w.runner ≡ 1)
      → ((w.object.started && not w.object.joined) ≡ true) ⊎ (w.object.thread ≢ joinable)
      → IsSound func pid w
      → IsSound func pid (destroy w)
  unfolding destroy
  destroy-IsSound w r h v = elim (Bool-cases (w.object.started && not w.object.joined)) [
    | inl detaches ↦ rw detaches (
        owner-IsSound (record w.object { thread = released }) w.sem destroyed v refl refl
          (r, λ q. cc))
    | inr stays ↦ rw stays (
        owner-IsSound w.object w.sem destroyed v refl refl
          (r, elim h [ inl detaches ↦ absurd (ground (arith, stays, detaches)) | inr free ↦ free ]))
  ]

  Step-IsSound : {v w : World} → Step pid v w → IsSound func pid v → IsSound func pid w
  Step-IsSound (Step.starts w e) v = start-IsSound w e v
  Step-IsSound (Step.sets_tid w e) v = set_tid-IsSound w e v
  Step-IsSound (Step.posts w e) v = post-IsSound w e v
  Step-IsSound (Step.calls w e there) v = call-IsSound w.object.func w e v.same v
  Step-IsSound (Step.calls_astray w e gone) v = pass-IsSound stray w e refl (λ q. cc) v
  Step-IsSound (Step.wait_returns n w e up) v =
      let (r, s, h, st, j) = owner-Fits waiting e v in
      let (p, z) = posted-one w.runner n (sym up ∙ s) in
      owner-IsSound w.object n has_started v refl refl (p, z, h, st, j)
  Step-IsSound (Step.joins w e) v =
      let (p, s, h, st, j) = owner-Fits has_started e v in
      owner-IsSound (record w.object { joined = true }) w.sem joining v refl refl (p, st, refl)
  Step-IsSound (Step.join_returns w e r) v =
      let (p, st, j) = owner-Fits joining e v in
      owner-IsSound (record w.object { thread = released }) w.sem has_joined v refl refl
        (r, refl, j)
  Step-IsSound (Step.destroys_unstarted w e) v =
      let (r, s, h, st, j) = owner-Fits before e v in
      destroy-IsSound w (inl r) (inr (λ q. ground (arith, h, q))) v
  Step-IsSound (Step.destroys_started w e) v =
      let (p, s, h, st, j) = owner-Fits has_started e v in
      destroy-IsSound w (inr p) (inl (ground (arith, st, j))) v
  Step-IsSound (Step.destroys_joined w e) v =
      let (r, h, j) = owner-Fits has_joined e v in
      destroy-IsSound w (inr (ap posted r)) (inr (λ q. ground (arith, h, q))) v

  Reach-keeps : {v w : World} → IsSound func pid v → Reach pid v w → IsSound func pid w
  Reach-keeps v Reach.here = v
  Reach-keeps v (Reach.then r s) = Step-IsSound s (Reach-keeps v r)

-- In every interleaving of the owner of a thread object with its thread: the thread has set `tid_` when it posts, so
-- start returns only when it is set; what has run is the function that the object holds, once the thread is at its end,
-- which it is when join has returned; and the destructor never leaves a std::thread that can be joined.
pub Reach-IsSound :
    (moved given : Option ℕ) (name : List ℕ) (num_created pid : ℕ) (w : World)
    → Reach pid (made (new_thread moved given name num_created).0) w
    → IsSound moved pid w
unfolding new_thread
Reach-IsSound moved given name num_created pid w r =
    Reach-keeps moved pid
      (record {
        same = refl;
        numbered = λ q. cc;
        effect = sym (done-nothing moved unborn (λ q. cc));
        fits = (refl, refl, refl, refl, refl);
      })
      r

-- The function that is given to a thread object never runs, whichever it is, where a std::function that is moved from
-- itself is empty: nothing does.
pub Reach-runs_nothing :
    (given : Option ℕ) (name : List ℕ) (num_created pid : ℕ) (w : World)
    → Reach pid (made (new_thread none given name num_created).0) w
    → w.ran ≡ []
Reach-runs_nothing given name num_created pid w r =
    let v = Reach-IsSound none given name num_created pid w r in v.effect ∙ done_none w.runner
  where
    done_none : (r : Runner) → done none r ≡ []
    done_none r = refl
