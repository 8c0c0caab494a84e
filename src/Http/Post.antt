-- ===== src/Http/Post.antt =====
-- src/http/HttpContext.cc: the decoding of a posted form.
--
-- An `int` is a 32-bit word in two's complement. `none` is a write at or past the end of the body string, which C++
-- leaves undefined.
use network_library.Prelude.{
  ℕ, zero, suc, ◌+◌, ◌-◌, ◌*◌, ◌/◌, ◌%◌, ◌^◌, Bool, true, false, ◌&&◌, List, [], Option, none, some,
  if◌then◌else◌, ltb, leb, ◌==◌, length, take, drop, get_or, set,
}
use network_library.Prelude.Options.{◌>>=◌}
use network_library.Http.Text.{bytes_of, same_bytes}
use network_library.Http.Request.{Request, Method, add_post, get_header}

-- A `char` as an `int`: bytes from 128 on are negative.
abbrev pub int_of_char : ℕ → ℕ
int_of_char ch = if ltb ch 128 then ch else 2 ^ 32 - 256 + ch

-- `convertHex`
pub convert_hex : ℕ → ℕ
convert_hex ch =
    if leb 65 ch && leb ch 70
    then ch - 65 + 10
    else if leb 97 ch && leb ch 102
    then ch - 97 + 10
    else int_of_char ch

-- `num / 10` and `num % 10`, which round towards zero.
abbrev pub quotient_10 : ℕ → ℕ
quotient_10 n = if ltb n (2 ^ 31) then n / 10 else (2 ^ 32 - (2 ^ 32 - n) / 10) % 2 ^ 32

abbrev pub remainder_10 : ℕ → ℕ
remainder_10 n = if ltb n (2 ^ 31) then n % 10 else (2 ^ 32 - (2 ^ 32 - n) % 10) % 2 ^ 32

-- The `char` that an `int` is stored in.
abbrev pub char_of_int : ℕ → ℕ
char_of_int n = n % 256

-- The locals of the loop.
pub record Form : Type 0 where
  pub i : ℕ
  pub j : ℕ
  pub key : List ℕ
  pub body : List ℕ
  pub request : Request

-- `body.substr(j, i - j)`
abbrev pub field : Form → List ℕ
field f = take (f.i - f.j) (drop f.j f.body)

-- The case of `'%'`.
pub percent : Form → Option Form
percent f =
    if leb (length f.body) (f.i + 2)
    then none
    else let num =
        (convert_hex (get_or f.body (f.i + 1) 0) * 16 + convert_hex (get_or f.body (f.i + 2) 0))
        % 2 ^ 32 in
      some (record f {
        body =
            set (set f.body (f.i + 2) (char_of_int (remainder_10 num + 48))) (f.i + 1)
              (char_of_int (quotient_10 num + 48));
        i = f.i + 2;
      })

-- The switch on `body[i]`, and the `++i` of the loop.
unfoldable pub read_char : Form → Option Form
read_char f =
    let ch = get_or f.body f.i 0 in
    let after =
      if ch == 61
      then some (record f { key = field f; j = f.i + 1 })
      else if ch == 43
      then some (record f { body = set f.body f.i 32 })
      else if ch == 37
      then percent f
      else if ch == 38
      then some (record f { j = f.i + 1; request = add_post f.key (field f) f.request })
      else some f in
    after >>= λ g. some (record g { i = g.i + 1 })

-- The loop. `i` grows in every round, so as many rounds as the body has bytes take it past the end.
unfoldable pub read_form : ℕ → Form → Option Form
read_form zero f = some f
read_form (suc rounds) f = elim (ltb f.i (length f.body)) [
  | false ↦ some f
  | true ↦ read_char f >>= read_form rounds
]

abbrev is_post : Method → Bool
is_post Method.post = true
is_post _ = false

-- `parsePost_`
unfoldable pub parse_post : Request → Option Request
parse_post r =
    elim (is_post r.method
      && same_bytes (get_header (bytes_of "Content-Type") r)
          (bytes_of "application/x-www-form-urlencoded")) [
            | false ↦ some r
            | true ↦ elim (length r.body == 0) [
              | true ↦ some r
              | false ↦
                  read_form (length r.body)
                    (record { i = 0; j = 0; key = []; body = r.body; request = r })
                  >>= λ f. some (record f.request { body = f.body })
            ]
          ]
