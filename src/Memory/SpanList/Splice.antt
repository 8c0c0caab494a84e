-- ===== src/Memory/SpanList/Splice.antt =====
-- src/memory/common.hpp: what insert and erase of a SpanList do to its ring.
use network_library.Prelude.{ℕ, ◌≡◌, true, false, List, ◌∷◌, ◌++◌, arith, ◌==◌}
use network_library.Memory.Heap.{returned, has, distinct, has-append}
use network_library.Memory.SpanList.{Links, insert, erase}
use network_library.Memory.SpanList.Ring.{
  Rings, linked, inserted, bridged, front, distinct-insert, distinct-apart, distinct-first,
  distinct-last, linked-append, linked-has_prev, linked-bridge, linked-before, linked-behind,
  linked-next, linked-closes, has-part, has-front, has-other, has-parts, front-out,
}

module _ {head : ℕ} {l : Links} (ys zs : List ℕ) (newspan : ℕ) (v : Rings head l (ys ++ zs))
    (new : has newspan (head ∷ ys ++ zs) ≡ false) (some_span : (newspan == 0) ≡ false) where
  pub insert-Rings :
      (insert (front head zs) newspan l
        ≡ returned (inserted (l.prev (front head zs)) newspan (front head zs) l))
      × Rings head
          (inserted (l.prev (front head zs)) newspan (front head zs) l)
          (ys ++ newspan ∷ zs)
  unfolding insert
  insert-Rings =
      let cur = front head zs in
      let m = inserted (l.prev cur) newspan cur l in
      let before = linked-before l head ys zs v.ring in
      let in_ys = linked-has_prev l head ys cur before in
      let in_ring : has (l.prev cur) (head ∷ ys ++ zs) ≡ true =
        ground (arith, in_ys, has-part (l.prev cur) ys zs) in
      let prev_out = distinct-apart (head ∷ ys) zs (l.prev cur) v.apart in_ys in
      let parts = has-parts newspan head ys zs in
      let prev_old = has-other (l.prev cur) newspan (head ∷ ys ++ zs) in_ring new in
      let cur_old = has-other cur newspan (head ∷ ys ++ zs) (has-front head ys zs) new in
      let prev_real = has-other (l.prev cur) 0 (head ∷ ys ++ zs) in_ring v.real in
      let cur_real = has-other cur 0 (head ∷ ys ++ zs) (has-front head ys zs) v.real in
      (
        ground (arith, prev_real, cur_real, some_span),
        record {
          ring =
              linked-behind l m head ys newspan zs v.ring v.apart
                (linked-bridge l m head ys cur newspan before
                  (distinct-first (head ∷ ys) zs v.apart) (ground (arith, prev_old))
                  (ground (arith, cur_old))
                  (λ p i o.
                    ground
                      (arith, o, has-other p newspan (head ∷ ys) i (ground (arith, new, parts))))
                  (λ p i. ground (
                    arith,
                    has-other p newspan ys i (ground (arith, new, parts)),
                    has-other p cur ys i (front-out head ys zs v.apart),
                  )))
                (ground arith) (ground arith)
                (λ p i. ground (
                  arith,
                  has-other p newspan zs i (ground (arith, new, parts)),
                  has-other p (l.prev cur) zs i prev_out,
                ))
                (λ p i o.
                  ground
                    (arith, o, has-other p newspan (head ∷ zs) i (ground (arith, new, parts))));
          apart = ground (arith, v.apart, new, distinct-insert (head ∷ ys) zs newspan);
          real =
              ground (arith, v.real, some_span, has-append 0 ys zs, has-append 0 ys (newspan ∷ zs));
        },
      )

pub erase-Rings :
    {head : ℕ} {l : Links} (ys : List ℕ) (x : ℕ) (zs : List ℕ)
    → Rings head l (ys ++ x ∷ zs)
    → (erase head x l ≡ returned (bridged (l.prev x) (l.next x) l))
      × Rings head (bridged (l.prev x) (l.next x) l) (ys ++ zs)
unfolding erase
erase-Rings {head} {l} ys x zs v =
    let m = bridged (l.prev x) (l.next x) l in
    let before = linked-before l head ys (x ∷ zs) v.ring in
    let behind : linked l x zs head ≡ true =
      ground (arith, v.ring, linked-append l head ys x zs head) in
    let next = linked-next l x zs head behind in
    let apart : distinct (head ∷ ys ++ zs) ≡ true =
      ground (arith, v.apart, distinct-insert (head ∷ ys) zs x) in
    let real : has 0 (head ∷ ys ++ zs) ≡ false =
      ground (arith, v.real, has-append 0 ys zs, has-append 0 ys (x ∷ zs)) in
    let in_ys = linked-has_prev l head ys x before in
    let in_ring : has (l.prev x) (head ∷ ys ++ zs) ≡ true =
      ground (arith, in_ys, has-part (l.prev x) ys zs) in
    let prev_out = distinct-apart (head ∷ ys) zs (l.prev x) apart in_ys in
    let prev_real = has-other (l.prev x) 0 (head ∷ ys ++ zs) in_ring real in
    let next_real = has-other (front head zs) 0 (head ∷ ys ++ zs) (has-front head ys zs) real in
    let x_real : (x == 0) ≡ false = ground (arith, v.real, has-append 0 ys (x ∷ zs)) in
    let x_inside : (x == head) ≡ false = ground (arith, v.apart, has-append head ys (x ∷ zs)) in
    let joined : linked m head ys (front head zs) ≡ true =
      linked-bridge l m head ys x (front head zs) before (distinct-first (head ∷ ys) zs apart)
        (ground (arith, next)) (ground (arith, next)) (λ p i o. ground (arith, o))
        (λ p i.
          ground (arith, next, has-other p (front head zs) ys i (front-out head ys zs apart))) in
    (
      ground (arith, prev_real, next_real, next, x_real, x_inside),
      record {
        ring =
            linked-closes l m head ys x zs behind
              (ground (arith, apart, has-append head ys zs, distinct-last (head ∷ ys) zs apart))
              joined (λ p i. ground (arith, has-other p (l.prev x) zs i prev_out))
              (λ p i o. ground (arith, o, next));
        apart = apart;
        real = real;
      },
    )
