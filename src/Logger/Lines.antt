-- ===== src/Logger/Lines.antt =====
-- src/logger/logger.h and logger.cc: the line that is written for a message of one of the macros.
use network_library.Prelude.{
  ℕ, ◌≤◌, ◌≡◌, refl, sym, subst, true, List, [], ◌∷◌, ◌++◌, arith, length, length-append,
  length-take, take,
}
use network_library.Http.Text.{lacks, lacks-append}
use network_library.Logger.{c_str, printed, line}
use network_library.Logger.Stamp.{Tm, to_string, IsDated, to_string_lem}

c_str-lacks : (xs : List ℕ) → lacks 0 xs ≡ true → c_str xs ≡ xs
unfolding c_str
c_str-lacks [] e = refl
c_str-lacks (x ∷ xs) e = ground (arith, e, c_str-lacks xs)

lacks-c_str : (xs : List ℕ) → lacks 0 (c_str xs) ≡ true
unfolding c_str
lacks-c_str [] = refl
lacks-c_str (x ∷ xs) = ground (arith, lacks-c_str xs)

length-c_str : (xs : List ℕ) → length (c_str xs) ≤ length xs
unfolding c_str
length-c_str [] = omega arith
length-c_str (x ∷ xs) = ground (arith, length-c_str xs)

-- The line of a message that a macro made, up to the year 9999, is the time, the message and a line feed: nothing of it
-- is lost, and it has at most 1043 bytes.
pub line-printed :
    (localtime : ℕ → Tm) (now : ℕ) (text : List ℕ)
    → IsDated (localtime now)
    → (line (to_string localtime now) (printed text)
        ≡ to_string localtime now ++ printed text ++ 10 ∷ [])
      × (length (line (to_string localtime now) (printed text)) ≤ 1043)
line-printed localtime now text d =
    let stamp = to_string localtime now in
    let (long, clean) = to_string_lem localtime now d in
    let whole : c_str (stamp ++ printed text ++ 10 ∷ []) ≡ stamp ++ printed text ++ 10 ∷ [] =
      c_str-lacks (stamp ++ printed text ++ 10 ∷ []) (
        ground (
          arith,
          clean,
          lacks-c_str (take 1023 text),
          lacks-append 0 (stamp ++ printed text) (10 ∷ []),
          lacks-append 0 stamp (printed text),
        )) in
    (
      whole,
      subst (λ l. length l ≤ 1043) (sym whole)
          (omega (
            arith,
            long,
            length-c_str (take 1023 text),
            length-take 1023 text,
            length-append (stamp ++ printed text) (10 ∷ []),
            length-append stamp (printed text),
          )),
    )
