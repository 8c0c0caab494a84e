-- ===== src/Memory/CentralCache/Fetch.antt =====
-- src/memory/CentralCache.cc: the objects that fetch_range_obj hands out.
use network_library.Prelude.{
  ℕ, zero, suc, ◌+◌, ◌-◌, ◌≤◌, ◌<◌, ◌≡◌, refl, sym, ap, ◌∙◌, subst, true, false, List, [], ◌∷◌,
  ◌++◌, ◌⊎◌, some, arith, length, length-append, ◌==◌, inl, inr,
}
use mathlib.Core.List.{append_assoc}
use network_library.Memory.FreeList.Batch.{distinct-middle}
use network_library.Prelude.Words.{add_size, sub_size, size_mod}
use network_library.Memory.SizeClass.{index}
use network_library.Memory.Heap.{
  Heap, Run, returned, write, distinct, leads, leads-write, leads-append,
}
use network_library.Memory.PageCache.{Pool, set_span}
use network_library.Memory.CentralCache.{usable_span, take_objects, get_one_span, fetch_range_obj}

-- Where the walk stops: behind `front`, at `end`, before `back`.
record Stops (n : ℕ) (h : Heap) (x : ℕ) (xs : List ℕ) (r : ℕ × ℕ) (actual : ℕ) : Type 0 where
  front : List ℕ
  end : ℕ
  back : List ℕ
  split : x ∷ xs ≡ front ++ end ∷ back
  walked : r ≡ (actual + length front, end)
  most : length front ≤ n
  whole : (back ≡ []) ⊎ (length front ≡ n)
  until : leads h x front end ≡ true
  onward : leads h (h end) back 0 ≡ true
  some_end : (end == 0) ≡ false

take_objects-Stops :
    (n actual x : ℕ) (xs : List ℕ) (h : Heap)
    → leads h x (x ∷ xs) 0 ≡ true
    → Stops n h x xs (take_objects n actual x h) actual
unfolding take_objects
take_objects-Stops zero actual x xs h c = record {
  front = [];
  end = x;
  back = xs;
  split = refl;
  walked = ap (λ a. (a, x)) (omega arith);
  most = omega arith;
  whole = inr refl;
  until = ground arith;
  onward = ground (arith, c);
  some_end = ground (arith, c);
}
take_objects-Stops (suc n) actual x [] h c =
    let last : (h x == 0) ≡ true = ground (arith, c) in
    record {
      front = [];
      end = x;
      back = [];
      split = refl;
      walked = rw (last, take_objects) (ap (λ a. (a, x)) (omega arith));
      most = omega arith;
      whole = inl refl;
      until = ground arith;
      onward = ground (arith, c);
      some_end = ground (arith, c);
    }
take_objects-Stops (suc n) actual x (y ∷ ys) h c =
    let next : h x ≡ y = ground (arith, c) in
    let more : (h x == 0) ≡ false = ground (arith, c) in
    let rest : leads h y (y ∷ ys) 0 ≡ true =
      subst (λ p. leads h p (y ∷ ys) 0 ≡ true) next (ground (arith, c)) in
    let s = take_objects-Stops n (actual + 1) y ys h rest in
    record {
      front = x ∷ s.front;
      end = s.end;
      back = s.back;
      split = ap (λ zs. x ∷ zs) s.split;
      walked =
          rw (more, take_objects)
            (ap (λ p. take_objects n (actual + 1) p h) next
              ∙ s.walked
              ∙ ap (λ a. (a, s.end)) (omega arith));
      most = omega (arith, s.most);
      whole = longer s.whole;
      until = ground (arith, c, next, s.until, ap (λ p. leads h p s.front s.end) next);
      onward = s.onward;
      some_end = s.some_end;
    }
  where
    longer : {back : List ℕ} {k : ℕ} → (back ≡ []) ⊎ (k ≡ n) → (back ≡ []) ⊎ (suc k ≡ suc n)
    longer (inl e) = inl e
    longer (inr e) = inr (ap suc e)

-- What a fetch hands out of a span that holds `objs`: a chain of objects from the front, that ends in null; the span
-- keeps the others, and counts those that are out.
pub record Fetches (num span : ℕ) (objs : List ℕ) (c : Pool) (r : Run ((ℕ × ℕ × ℕ) × Pool))
    : Type 0 where
  pub given : List ℕ
  pub left : List ℕ
  pub end : ℕ
  pub after : Pool
  pub split : objs ≡ given ++ left
  pub returns : r ≡ returned (((c.spans span).objlist, end, length given), after)
  pub chain : leads after.words (c.spans span).objlist given 0 ≡ true
  pub keeps : leads after.words (after.spans span).objlist left 0 ≡ true
  pub counted : (after.spans span).usecount ≡ add_size (c.spans span).usecount (length given)
  pub few : length given ≤ num
  pub whole : (left ≡ []) ⊎ (length given ≡ num)

-- The pool behind a fetch that ends at `end`.
abbrev fetched : ℕ → ℕ → ℕ → Pool → Pool
fetched span end actual c =
    let c2 =
      set_span span
        (record (c.spans span) {
          objlist = c.words end;
          usecount = add_size (c.spans span).usecount actual;
        })
        c in
    record c2 { words = write end 0 c2.words }

fetch_range_obj-run :
    (page_memory pool_memory : ℕ → ℕ) (num size i span actual end : ℕ) (c : Pool)
    → index size ≡ some i
    → usable_span (c.span_lists i) c ≡ some span
    → (span == 0) ≡ false
    → ((c.spans span).objlist == 0) ≡ false
    → take_objects (sub_size num 1) 1 (c.spans span).objlist c.words ≡ (actual, end)
    → (end == 0) ≡ false
    → fetch_range_obj page_memory pool_memory num size c
      ≡ returned (((c.spans span).objlist, end, actual), fetched span end actual c)
unfolding fetch_range_obj get_one_span
fetch_range_obj-run page_memory pool_memory num size i span actual end c class usable some_span
      some_objs walked some_end =
    rw (class, fetch_range_obj)
      (rw (usable, get_one_span) (rw (some_span, some_objs, walked, some_end) refl))

-- fetch_range_obj of at least one object, where the first span of the bucket that has objects holds those of a chain
-- without repetition: it hands out as many objects from the front as are asked for, or all if there are fewer, as a
-- chain that ends in null; the span keeps the others in their order, and adds those that are out to its count.
pub fetch_range_obj-Fetches :
    (page_memory pool_memory : ℕ → ℕ) (num size i span x : ℕ) (xs : List ℕ) (c : Pool)
    → index size ≡ some i
    → usable_span (c.span_lists i) c ≡ some span
    → 0 < span
    → leads c.words (c.spans span).objlist (x ∷ xs) 0 ≡ true
    → distinct (x ∷ xs) ≡ true
    → 0 < num
    → num < size_mod
    → Fetches num span (x ∷ xs) c (fetch_range_obj page_memory pool_memory num size c)
fetch_range_obj-Fetches page_memory pool_memory num size i span x xs c class usable some_span chain
      apart some_num small =
    let top : (c.spans span).objlist ≡ x = ground (arith, chain) in
    let chained : leads c.words x (x ∷ xs) 0 ≡ true =
      subst (λ p. leads c.words p (x ∷ xs) 0 ≡ true) top chain in
    let s = take_objects-Stops (sub_size num 1) 1 x xs c.words chained in
    let (before, behind) =
      distinct-middle s.front s.end s.back (subst (λ zs. distinct zs ≡ true) s.split apart) in
    let count : 1 + length s.front ≡ length (s.front ++ s.end ∷ []) =
      omega (arith, length-append s.front (s.end ∷ [])) in
    let run =
      fetch_range_obj-run page_memory pool_memory num size i span (1 + length s.front) s.end c class
        usable (ground (arith, some_span)) (ground (arith, chain))
        (ap (λ p. take_objects (sub_size num 1) 1 p c.words) top ∙ s.walked) s.some_end in
    let own : (span == span) ≡ true = ground arith in
    let steps : sub_size num 1 ≡ num - 1 = omega (arith, some_num, small) in
    record {
      given = s.front ++ s.end ∷ [];
      left = s.back;
      end = s.end;
      after = fetched span s.end (length (s.front ++ s.end ∷ [])) c;
      split = s.split ∙ sym (append_assoc s.front (s.end ∷ []) s.back);
      returns =
          run
          ∙ ap (λ a. returned (((c.spans span).objlist, s.end, a), fetched span s.end a c)) count;
      chain =
          subst (λ p. leads (write s.end 0 c.words) p (s.front ++ s.end ∷ []) 0 ≡ true) (sym top)
            (leads-append (write s.end 0 c.words) x s.front (s.end ∷ []) s.end 0
              (leads-write c.words s.end 0 x s.front s.end before ∙ s.until)
              (ground (arith, s.some_end)));
      keeps = rw own (leads-write c.words s.end 0 (c.words s.end) s.back 0 behind ∙ s.onward);
      counted = rw own refl;
      few = omega (arith, count, s.most, steps, some_num);
      whole = all_or s.front s.end s.whole;
    }
  where
    all_or :
        (front : List ℕ) (end : ℕ) {back : List ℕ}
        → (back ≡ []) ⊎ (length front ≡ sub_size num 1)
        → (back ≡ []) ⊎ (length (front ++ end ∷ []) ≡ num)
    all_or front end (inl e) = inl e
    all_or front end (inr e) =
        inr (omega (arith, e, length-append front (end ∷ []), some_num, small))
