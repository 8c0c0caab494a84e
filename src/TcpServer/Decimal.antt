-- ===== src/TcpServer/Decimal.antt =====
-- The decimal text of a number, as `snprintf` prints it, tells the number.
use network_library.Prelude.{
  true, false, ℕ, zero, suc, ◌+◌, ◌-◌, ◌*◌, ◌/◌, ◌%◌, ◌^◌, ◌≤◌, ◌<◌, ◌≡◌, refl, sym, ap, ◌∙◌, List,
  [], ◌∷◌, ◌++◌, arith, length, length-append, ◌==◌, Bool-cases, inl, inr,
}
use network_library.Http.Response.{digits, decimal}

value : ℕ → List ℕ → ℕ
value n [] = n
value n (d ∷ ds) = value (n * 10 + (d - 48)) ds

value-append : (n : ℕ) (xs ys : List ℕ) → value n (xs ++ ys) ≡ value (value n xs) ys
unfolding value
value-append n [] ys = refl
value-append n (x ∷ xs) ys = value-append (n * 10 + (x - 48)) xs ys

value-digits : (fuel n : ℕ) → n < fuel → value 0 (digits fuel n) ≡ n
unfolding value
value-digits zero n h = absurd (omega (arith, h))
value-digits (suc fuel) n h = elim (Bool-cases (n / 10 == 0)) [
  | inl small ↦ rw small (omega (arith, eq_of (n / 10) small))
  | inr large ↦ rw large (
      value-append 0 (digits fuel (n / 10)) ((n % 10 + 48) ∷ [])
      ∙ ap (λ v. v * 10 + (n % 10 + 48 - 48))
          (value-digits fuel (n / 10) (omega (arith, h, ne_of (n / 10) large)))
      ∙ omega arith)
]
  where
    eq_of : (m : ℕ) → (m == 0) ≡ true → m ≡ 0
    eq_of m e = ground (arith, e)

    ne_of : (m : ℕ) → (m == 0) ≡ false → 0 < m
    ne_of m e = ground (arith, e)

pub decimal_inj : (a b : ℕ) → decimal a ≡ decimal b → a ≡ b
decimal_inj a b e =
    sym (value-digits (suc a) a (omega arith))
    ∙ ap (value 0) e
    ∙ value-digits (suc b) b (omega arith)

ten_times : (j : ℕ) → 10 ^ suc j ≡ 10 * 10 ^ j
ten_times j = grind arith

length-digits : (fuel k n : ℕ) → n < 10 ^ suc k → length (digits fuel n) ≤ suc k
length-digits zero k n h = omega arith
length-digits (suc fuel) k n h = elim (Bool-cases (n / 10 == 0)) [
  | inl small ↦ rw small (omega arith)
  | inr large ↦ rw large (longer k h (positive (n / 10) large) (λ j. length-digits fuel j (n / 10)))
]
  where
    positive : (m : ℕ) → (m == 0) ≡ false → 0 < m
    positive m e = ground (arith, e)

    longer :
        (k : ℕ)
        → n < 10 ^ suc k
        → 0 < n / 10
        → ((j : ℕ) → n / 10 < 10 ^ suc j → length (digits fuel (n / 10)) ≤ suc j)
        → length (digits fuel (n / 10) ++ (n % 10 + 48) ∷ []) ≤ suc k
    longer zero h more shorter = absurd (omega (arith, h, more))
    longer (suc j) h more shorter = omega (
      arith,
      length-append (digits fuel (n / 10)) ((n % 10 + 48) ∷ []),
      shorter j (omega (arith, h, ten_times (suc j))),
    )

pub length-decimal : (n k : ℕ) → n < 10 ^ suc k → length (decimal n) ≤ suc k
length-decimal n k h = length-digits (suc n) k n h
