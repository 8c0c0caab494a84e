-- ===== src/Logger/Stamp.antt =====
-- src/base/Timestamp.cc (toString) and src/logger/logger.cc: a moment as text, and the file that its day has.
--
-- `localtime` is outside; a `struct tm` has the fields that are printed, with the year and the month counted as in C,
-- from 1900 and from 0. Its fields are at least 0, as those of a moment since 1970 are.
use network_library.Prelude.{
  ℕ, zero, suc, ◌+◌, ◌-◌, ◌/◌, ◌%◌, ◌≤◌, ◌<◌, ◌≡◌, refl, sym, ap, ◌∙◌, true, false, List, [], ◌∷◌,
  ◌++◌, arith, length, length-append, length-replicate, replicate, take, take-all, ◌==◌, Bool-cases,
  inl, inr,
}
use network_library.Prelude.Options.{some_inj}
use network_library.Http.Text.{bytes_of, lacks, lacks-append, split_at_byte, split_at_byte-append}
use network_library.Http.Response.{digits, decimal}
use network_library.TcpServer.Decimal.{decimal_inj, length-decimal}

-- `struct tm`
pub record Tm : Type 0 where
  pub tm_year : ℕ
  pub tm_mon : ℕ
  pub tm_mday : ℕ
  pub tm_hour : ℕ
  pub tm_min : ℕ
  pub tm_sec : ℕ

-- `%4d` and `%02d`
abbrev pub padded : ℕ → ℕ → ℕ → List ℕ
padded fill width n = replicate (width - length (decimal n)) fill ++ decimal n

-- `Timestamp::toString`, of what `localtime` makes of the timestamp.
unfoldable pub to_string : (ℕ → Tm) → ℕ → List ℕ
to_string localtime timestamp =
    let tm = localtime timestamp in
    take 127 (
      padded 32 4 (tm.tm_year + 1900)
      ++ 47
        ∷ (padded 48 2 (tm.tm_mon + 1)
            ++ 47
              ∷ (padded 48 2 tm.tm_mday
                  ++ 32
                    ∷ (padded 48 2 tm.tm_hour
                        ++ 58 ∷ (padded 48 2 tm.tm_min ++ 58 ∷ padded 48 2 tm.tm_sec)))))

-- The name of the file of a day.
unfoldable pub file_name : Tm → List ℕ
file_name tm =
    decimal (tm.tm_year + 1900)
    ++ 45 ∷ (decimal (tm.tm_mon + 1) ++ 45 ∷ (decimal tm.tm_mday ++ bytes_of "-log.txt"))

pub lacks-digits : (b fuel n : ℕ) → b < 48 → lacks b (digits fuel n) ≡ true
lacks-digits b zero n h = refl
lacks-digits b (suc fuel) n h = elim (Bool-cases (n / 10 == 0)) [
  | inl small ↦ rw small (ground (arith, h))
  | inr large ↦ rw large (
      lacks-append b (digits fuel (n / 10)) ((n % 10 + 48) ∷ [])
      ∙ ground (arith, lacks-digits b fuel (n / 10) h, h))
]

-- Two texts that agree up to a byte that neither has before, and behind it.
pub cut_inj :
    (b : ℕ) (xs us ys vs : List ℕ)
    → lacks b xs ≡ true
    → lacks b ys ≡ true
    → xs ++ b ∷ us ≡ ys ++ b ∷ vs
    → (xs ≡ ys) × (us ≡ vs)
cut_inj b xs us ys vs h k e =
    let same = some_inj (
      sym (split_at_byte-append b xs us h)
      ∙ ap (split_at_byte b) e
      ∙ split_at_byte-append b ys vs k) in
    (ap (λ p. p.0) same, ap (λ p. p.1) same)

-- Two moments whose messages go to the same file are of the same day.
pub file_name_inj :
    (a b : Tm)
    → file_name a ≡ file_name b
    → (a.tm_year ≡ b.tm_year) × (a.tm_mon ≡ b.tm_mon) × (a.tm_mday ≡ b.tm_mday)
unfolding file_name
file_name_inj a b e =
    let (years, rest) =
      cut_inj 45 (decimal (a.tm_year + 1900)) (decimal (a.tm_mon + 1) ++ 45 ∷ day a)
        (decimal (b.tm_year + 1900)) (decimal (b.tm_mon + 1) ++ 45 ∷ day b)
        (no_dash (a.tm_year + 1900)) (no_dash (b.tm_year + 1900)) e in
    let (months, rest') =
      cut_inj 45 (decimal (a.tm_mon + 1)) (day a) (decimal (b.tm_mon + 1)) (day b)
        (no_dash (a.tm_mon + 1)) (no_dash (b.tm_mon + 1)) rest in
    let (days, _) =
      cut_inj 45 (decimal a.tm_mday) (bytes_of "log.txt") (decimal b.tm_mday) (bytes_of "log.txt")
        (no_dash a.tm_mday) (no_dash b.tm_mday) rest' in
    (
      omega (arith, decimal_inj (a.tm_year + 1900) (b.tm_year + 1900) years),
      omega (arith, decimal_inj (a.tm_mon + 1) (b.tm_mon + 1) months),
      decimal_inj a.tm_mday b.tm_mday days,
    )
  where
    day : Tm → List ℕ
    day tm = decimal tm.tm_mday ++ bytes_of "-log.txt"

    no_dash : (n : ℕ) → lacks 45 (decimal n) ≡ true
    no_dash n = lacks-digits 45 (suc n) n (omega arith)

-- A moment up to the year 9999.
pub record IsDated (tm : Tm) : Type 0 where
  pub year : tm.tm_year + 1900 < 10000
  pub mon : tm.tm_mon < 12
  pub mday : tm.tm_mday < 32
  pub hour : tm.tm_hour < 24
  pub min : tm.tm_min < 60
  pub sec : tm.tm_sec < 61

length-padded :
    (fill width n : ℕ) → length (decimal n) ≤ width → length (padded fill width n) ≡ width
length-padded fill width n h = omega (
  arith,
  h,
  length-append (replicate (width - length (decimal n)) fill) (decimal n),
  length-replicate (width - length (decimal n)) fill,
)

length-two : (n : ℕ) → n < 100 → length (padded 48 2 n) ≡ 2
length-two n h = length-padded 48 2 n (length-decimal n 1 h)

-- `length` of a text, a byte and another text.
length-joined :
    (xs : List ℕ) (b : ℕ) (ys : List ℕ) {m n : ℕ}
    → length xs ≡ m
    → length ys ≡ n
    → length (xs ++ b ∷ ys) ≡ m + (n + 1)
length-joined xs b ys e f = omega (arith, length-append xs (b ∷ ys), e, f)

lacks-replicate : (b n x : ℕ) → (x == b) ≡ false → lacks b (replicate n x) ≡ true
lacks-replicate b zero x e = refl
lacks-replicate b (suc n) x e = ground (arith, e, lacks-replicate b n x e)

lacks-padded : (fill width n : ℕ) → (fill == 0) ≡ false → lacks 0 (padded fill width n) ≡ true
lacks-padded fill width n e = ground (
  arith,
  lacks-append 0 (replicate (width - length (decimal n)) fill) (decimal n),
  lacks-replicate 0 (width - length (decimal n)) fill e,
  lacks-digits 0 (suc n) n (omega arith),
)

-- `toString` of a moment up to the year 9999 has 19 bytes, none of them NUL.
pub to_string_lem :
    (localtime : ℕ → Tm) (t : ℕ)
    → IsDated (localtime t)
    → (length (to_string localtime t) ≡ 19) × (lacks 0 (to_string localtime t) ≡ true)
unfolding to_string
to_string_lem localtime t d =
    let tm = localtime t in
    let year = padded 32 4 (tm.tm_year + 1900) in
    let mon = padded 48 2 (tm.tm_mon + 1) in
    let mday = padded 48 2 tm.tm_mday in
    let hour = padded 48 2 tm.tm_hour in
    let minute = padded 48 2 tm.tm_min in
    let sec = padded 48 2 tm.tm_sec in
    let r1 = minute ++ 58 ∷ sec in
    let r2 = hour ++ 58 ∷ r1 in
    let r3 = mday ++ 32 ∷ r2 in
    let r4 = mon ++ 47 ∷ r3 in
    let n1 =
      length-joined minute 58 sec (length-two tm.tm_min (omega (arith, d.min)))
        (length-two tm.tm_sec (omega (arith, d.sec))) in
    let n2 = length-joined hour 58 r1 (length-two tm.tm_hour (omega (arith, d.hour))) n1 in
    let n3 = length-joined mday 32 r2 (length-two tm.tm_mday (omega (arith, d.mday))) n2 in
    let n4 = length-joined mon 47 r3 (length-two (tm.tm_mon + 1) (omega (arith, d.mon))) n3 in
    let n5 =
      length-joined year 47 r4
        (length-padded 32 4 (tm.tm_year + 1900) (length-decimal (tm.tm_year + 1900) 3 d.year)) n4 in
    rw (take-all 127 (year ++ 47 ∷ r4) (omega (arith, n5))) (
      n5,
      ground (
        arith,
        lacks-append 0 year (47 ∷ r4),
        lacks-append 0 mon (47 ∷ r3),
        lacks-append 0 mday (32 ∷ r2),
        lacks-append 0 hour (58 ∷ r1),
        lacks-append 0 minute (58 ∷ sec),
        lacks-padded 32 4 (tm.tm_year + 1900) refl,
        lacks-padded 48 2 (tm.tm_mon + 1) refl,
        lacks-padded 48 2 tm.tm_mday refl,
        lacks-padded 48 2 tm.tm_hour refl,
        lacks-padded 48 2 tm.tm_min refl,
        lacks-padded 48 2 tm.tm_sec refl,
      ),
    )
