-- ===== src/Memory/SpanList/Ring.antt =====
-- src/memory/common.hpp: the ring of a SpanList, and what its operations do to it.
use network_library.Prelude.{
  ℕ, ◌≡◌, refl, sym, subst, Bool, true, false, not, ◌&&◌, ◌||◌, List, [], ◌∷◌, ◌++◌, arith, ◌==◌,
}
use mathlib.Core.List.{append-nil}
use network_library.Memory.Heap.{write, has, distinct, has-append}
use network_library.Memory.SpanList.{Links}

-- Behind `a` come the spans, and then `b`, by `_next` and back by `_prev`.
abbrev pub linked : Links → ℕ → List ℕ → ℕ → Bool
linked l a [] b = (l.next a == b) && (l.prev b == a)
linked l a (x ∷ xs) b = (l.next a == x) && (l.prev x == a) && linked l x xs b

-- The list with its head at `head` holds these spans, each once, front first.
pub record Rings (head : ℕ) (l : Links) (xs : List ℕ) : Type 0 where
  pub ring : linked l head xs head ≡ true
  pub apart : distinct (head ∷ xs) ≡ true
  pub real : has 0 (head ∷ xs) ≡ false

-- A stretch of a ring stays where `_next` is changed only of spans behind it and `_prev` only of spans before it.
pub linked-same :
    (l m : Links) (a : ℕ) (xs : List ℕ) (b : ℕ)
    → ((p : ℕ) → has p (a ∷ xs) ≡ true → m.next p ≡ l.next p)
    → ((p : ℕ) → has p (b ∷ xs) ≡ true → m.prev p ≡ l.prev p)
    → linked m a xs b ≡ linked l a xs b
linked-same l m a [] b n p = ground (arith, n a, p b)
linked-same l m a (x ∷ xs) b n p = ground (
  arith,
  n a,
  p x,
  linked-same l m x xs b (λ q e. n q (ground (arith, e))) (λ q e. p q (ground (arith, e))),
)

pub linked-append :
    (l : Links) (a : ℕ) (xs : List ℕ) (y : ℕ) (ys : List ℕ) (b : ℕ)
    → linked l a (xs ++ y ∷ ys) b ≡ (linked l a xs y && linked l y ys b)
linked-append l a [] y ys b = ground arith
linked-append l a (x ∷ xs) y ys b = ground (arith, linked-append l x xs y ys b)

-- The last span before `b` is `b`'s `_prev`.
pub linked-has_prev :
    (l : Links) (a : ℕ) (xs : List ℕ) (b : ℕ)
    → linked l a xs b ≡ true
    → has (l.prev b) (a ∷ xs) ≡ true
linked-has_prev l a [] b e = ground (arith, e)
linked-has_prev l a (x ∷ xs) b e = ground (arith, e, linked-has_prev l x xs b (ground (arith, e)))

-- A stretch that ended before `x` ends before `c` when the links between its last span and `c` are set.
pub linked-bridge :
    (l m : Links) (a : ℕ) (ys : List ℕ) (x c : ℕ)
    → linked l a ys x ≡ true
    → distinct (a ∷ ys) ≡ true
    → m.next (l.prev x) ≡ c
    → m.prev c ≡ l.prev x
    → ((p : ℕ) → has p (a ∷ ys) ≡ true → (p == l.prev x) ≡ false → m.next p ≡ l.next p)
    → ((p : ℕ) → has p ys ≡ true → m.prev p ≡ l.prev p)
    → linked m a ys c ≡ true
linked-bridge l m a [] x c e d n p sn sp = ground (arith, e, n, p)
linked-bridge l m a (y ∷ ys) x c e d n p sn sp = ground (
  arith,
  e,
  d,
  sn a,
  sp y,
  linked-has_prev l y ys x (ground (arith, e)),
  linked-bridge l m y ys x c (ground (arith, e)) (ground (arith, d)) n p
      (λ q i o. sn q (ground (arith, i)) o) (λ q i. sp q (ground (arith, i))),
)

abbrev pub front : ℕ → List ℕ → ℕ
front head [] = head
front head (z ∷ zs) = z

-- `newspan` between `prev` and `cur`.
abbrev pub inserted : ℕ → ℕ → ℕ → Links → Links
inserted prev newspan cur l = record {
  next = write newspan cur (write prev newspan l.next);
  prev = write cur newspan (write newspan prev l.prev);
}

abbrev pub bridged : ℕ → ℕ → Links → Links
bridged prev next l = record { next = write prev next l.next; prev = write next prev l.prev }

pub distinct-insert :
    (ys zs : List ℕ) (a : ℕ)
    → distinct (ys ++ a ∷ zs) ≡ (distinct (ys ++ zs) && not (has a (ys ++ zs)))
distinct-insert [] zs a = ground arith
distinct-insert (y ∷ ys) zs a =
    ground (arith, distinct-insert ys zs a, has-append y ys (a ∷ zs), has-append y ys zs)

-- No span of a list without repetition stands in two parts of it.
pub distinct-apart :
    (ys zs : List ℕ) (p : ℕ) → distinct (ys ++ zs) ≡ true → has p ys ≡ true → has p zs ≡ false
distinct-apart [] zs p d e = ground (arith, e)
distinct-apart (y ∷ ys) zs p d e =
    ground (arith, d, e, has-append y ys zs, distinct-apart ys zs p (ground (arith, d)))

pub distinct-first : (ys zs : List ℕ) → distinct (ys ++ zs) ≡ true → distinct ys ≡ true
distinct-first [] zs d = refl
distinct-first (y ∷ ys) zs d =
    ground (arith, d, has-append y ys zs, distinct-first ys zs (ground (arith, d)))

pub distinct-last : (ys zs : List ℕ) → distinct (ys ++ zs) ≡ true → distinct zs ≡ true
distinct-last [] zs d = d
distinct-last (y ∷ ys) zs d = distinct-last ys zs (ground (arith, d))

pub linked-before :
    (l : Links) (head : ℕ) (ys zs : List ℕ)
    → linked l head (ys ++ zs) head ≡ true
    → linked l head ys (front head zs) ≡ true
linked-before l head ys [] e = subst (λ xs. linked l head xs head ≡ true) (append-nil ys) e
linked-before l head ys (z ∷ zs) e = ground (arith, e, linked-append l head ys z zs head)

-- The ring is whole again where the links from `c` to the spans behind it are set.
pub linked-behind :
    (l m : Links) (head : ℕ) (ys : List ℕ) (c : ℕ) (zs : List ℕ)
    → linked l head (ys ++ zs) head ≡ true
    → distinct (head ∷ ys ++ zs) ≡ true
    → linked m head ys c ≡ true
    → m.next c ≡ front head zs
    → m.prev (front head zs) ≡ c
    → ((p : ℕ) → has p zs ≡ true → m.next p ≡ l.next p)
    → ((p : ℕ) → has p (head ∷ zs) ≡ true → (p == front head zs) ≡ false → m.prev p ≡ l.prev p)
    → linked m head (ys ++ c ∷ zs) head ≡ true
linked-behind l m head ys c [] r d b e f n p =
    ground (arith, linked-append m head ys c [] head, b, e, f)
linked-behind l m head ys c (z ∷ zs) r d b e f n p =
    let out = distinct-insert ys zs z in
    ground (
      arith,
      linked-append m head ys c (z ∷ zs) head,
      linked-append l head ys z zs head,
      r,
      b,
      e,
      f,
      linked-same l m z zs head n (λ q i.
          p q (ground (arith, i))
            (ground (arith, i, d, out, has-append z ys zs, has-append head ys (z ∷ zs)))),
    )

-- What is in neither part of a ring, and what is in one of them.
pub has-part : (p : ℕ) (ys zs : List ℕ) → has p ys ≡ true → has p (ys ++ zs) ≡ true
has-part p ys zs e = ground (arith, e, has-append p ys zs)

pub has-front : (head : ℕ) (ys zs : List ℕ) → has (front head zs) (head ∷ ys ++ zs) ≡ true
has-front head ys [] = ground arith
has-front head ys (z ∷ zs) = ground (arith, has-append z ys (z ∷ zs))

-- No other element is one that the list has not.
pub has-other : (p q : ℕ) (xs : List ℕ) → has p xs ≡ true → has q xs ≡ false → (p == q) ≡ false
has-other p q (x ∷ xs) e f = ground (arith, e, f, has-other p q xs)
has-other p q [] e f = ground (arith, e)

pub front-out :
    (head : ℕ) (ys zs : List ℕ) → distinct (head ∷ ys ++ zs) ≡ true → has (front head zs) ys ≡ false
front-out head ys [] d = ground (arith, d, append-nil ys)
front-out head ys (z ∷ zs) d = ground (arith, d, distinct-insert ys zs z, has-append z ys zs)

pub has-parts :
    (p head : ℕ) (ys zs : List ℕ) → has p (head ∷ ys ++ zs) ≡ (has p (head ∷ ys) || has p zs)
has-parts p head ys zs = has-append p (head ∷ ys) zs

pub linked-next :
    (l : Links) (x : ℕ) (zs : List ℕ) (b : ℕ) → linked l x zs b ≡ true → l.next x ≡ front b zs
linked-next l x [] b e = ground (arith, e)
linked-next l x (z ∷ zs) b e = ground (arith, e)

pub linked-closes :
    (l m : Links) (head : ℕ) (ys : List ℕ) (x : ℕ) (zs : List ℕ)
    → linked l x zs head ≡ true
    → distinct (head ∷ zs) ≡ true
    → linked m head ys (front head zs) ≡ true
    → ((p : ℕ) → has p zs ≡ true → m.next p ≡ l.next p)
    → ((p : ℕ) → has p (head ∷ zs) ≡ true → (p == front head zs) ≡ false → m.prev p ≡ l.prev p)
    → linked m head (ys ++ zs) head ≡ true
linked-closes l m head ys x [] r d b n p =
    subst (λ xs. linked m head xs head ≡ true) (sym (append-nil ys)) b
linked-closes l m head ys x (z ∷ zs) r d b n p = ground (
  arith,
  linked-append m head ys z zs head,
  r,
  b,
  linked-same l m z zs head n
      (λ q i. p q (ground (arith, i)) (has-other q z (head ∷ zs) i (ground (arith, d)))),
)
