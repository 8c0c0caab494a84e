-- ===== src/Http/Text.antt =====
-- `std::string` as the list of its bytes: literals, comparison, and splitting at a byte.
use Prim.Native.Char.{code}
use Prim.Native.String.{String}
use network_library.Prelude.{
  ℕ, ◌≡◌, refl, Bool, true, false, not, ◌&&◌, List, [], ◌∷◌, ◌++◌, Option, none, some, arith, ◌==◌,
  if◌then◌else◌, Bool-cases, Option-cases, inl, inr,
}

-- The bytes of an ASCII literal.
abbrev pub bytes_of : String → List ℕ
bytes_of String.[] = []
bytes_of (String.◌∷◌ first rest) = code first ∷ bytes_of rest

abbrev pub same_bytes : List ℕ → List ℕ → Bool
same_bytes [] [] = true
same_bytes (x ∷ xs) (y ∷ ys) = (x == y) && same_bytes xs ys
same_bytes _ _ = false

pub same_bytes_refl : (xs : List ℕ) → same_bytes xs xs ≡ true
same_bytes_refl [] = refl
same_bytes_refl (x ∷ xs) = ground (arith, same_bytes_refl xs)

pub eq_of_same_bytes : (xs ys : List ℕ) → same_bytes xs ys ≡ true → xs ≡ ys
eq_of_same_bytes [] [] h = refl
eq_of_same_bytes [] (y ∷ ys) h = cc
eq_of_same_bytes (x ∷ xs) [] h = cc
eq_of_same_bytes (x ∷ xs) (y ∷ ys) h = ground (arith, eq_of_same_bytes xs ys)

-- No byte of the text is `b`.
abbrev pub lacks : ℕ → List ℕ → Bool
lacks b [] = true
lacks b (x ∷ xs) = not (x == b) && lacks b xs

-- What stands before the first `b`, and after it.
unfoldable pub split_at_byte : ℕ → List ℕ → Option (List ℕ × List ℕ)
split_at_byte b [] = none
split_at_byte b (x ∷ xs) =
    let later = split_at_byte b xs in
    if x == b
    then some ([], xs)
    else elim later [ none ↦ none | some (front, back) ↦ some (x ∷ front, back) ]

-- The rest of a text behind a prefix that it starts with.
unfoldable pub strip_prefix : List ℕ → List ℕ → Option (List ℕ)
strip_prefix [] text = some text
strip_prefix (p ∷ ps) [] = none
strip_prefix (p ∷ ps) (x ∷ xs) = if p == x then strip_prefix ps xs else none

pub split_at_byte-append :
    (b : ℕ) (front back : List ℕ)
    → lacks b front ≡ true
    → split_at_byte b (front ++ b ∷ back) ≡ some (front, back)
unfolding split_at_byte
split_at_byte-append b [] back h = ground arith
split_at_byte-append b (x ∷ front) back h = ground (arith, split_at_byte-append b front back)

pub eq_of_split_at_byte :
    (b : ℕ) (text front back : List ℕ)
    → split_at_byte b text ≡ some (front, back)
    → (text ≡ front ++ b ∷ back) × (lacks b front ≡ true)
unfolding split_at_byte
eq_of_split_at_byte b [] front back h = cc
eq_of_split_at_byte b (x ∷ xs) front back h = elim (Bool-cases (x == b)) [
  | inl here ↦ ground arith
  | inr later ↦ elim (Option-cases (split_at_byte b xs)) [
    | inl absent ↦ ground arith
    | inr ((inner, rest), found) ↦ ground (arith, eq_of_split_at_byte b xs inner rest found)
  ]
]

pub strip_prefix-append : (p text : List ℕ) → strip_prefix p (p ++ text) ≡ some text
unfolding strip_prefix
strip_prefix-append [] text = refl
strip_prefix-append (x ∷ p) text = ground (arith, strip_prefix-append p text)

pub eq_of_strip_prefix : (p text rest : List ℕ) → strip_prefix p text ≡ some rest → text ≡ p ++ rest
unfolding strip_prefix
eq_of_strip_prefix [] text rest h = ground arith
eq_of_strip_prefix (x ∷ p) [] rest h = cc
eq_of_strip_prefix (x ∷ p) (y ∷ text) rest h = ground (arith, eq_of_strip_prefix p text rest)

pub lacks-append : (b : ℕ) (xs ys : List ℕ) → lacks b (xs ++ ys) ≡ (lacks b xs && lacks b ys)
lacks-append b [] ys = refl
lacks-append b (x ∷ xs) ys = ground (arith, lacks-append b xs ys)
