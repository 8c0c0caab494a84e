-- ===== src/Http/Parse.antt =====
-- src/http/HttpContext.cc: the parse as a function of the readable text alone, and the end of its loop.
use network_library.Prelude.{
  ℕ, zero, suc, ◌+◌, ◌≤◌, ◌<◌, ◌≡◌, ◌≢◌, refl, sym, ap, ◌∙◌, ap₂, subst, Bool, true, false, not,
  ◌&&◌, List, [], ◌∷◌, arith, ◌==◌, take, drop, length, length-drop, Bool-cases, inl, inr,
}
use network_library.Prelude.Words.{add_size, sub_size}
use network_library.Buffer.{Buffer, readable_bytes, peek, begin_write, retrieve_until}
use network_library.Buffer.Valid.{IsValid, retrieve-IsValid}
use network_library.Buffer.Contents.{contents, contents-retrieve, length-contents}
use network_library.Http.Context.{
  HttpContext, Outcome, returned, undefined, out_of_fuel, Effect, round, go, refuse, stray,
  read_line, search_crlf, got_all, line_end, parse_loop, parse_request,
}

-- The parse, from the text to the text that it leaves.
unfoldable pub parse_text : ℕ → List ℕ → HttpContext → Outcome (List ℕ × HttpContext)
parse_text zero text c = out_of_fuel
parse_text (suc fuel) text c =
    round (not (length text == 0) && not (got_all c))
      (read_line (take (search_crlf text) text) (length text) c) (search_crlf text == length text)
      text c (parse_text fuel (drop (search_crlf text + 2) text))

-- A parse on a buffer does what the other does on its text, and leaves a valid buffer with the text that is left.
pub data Agrees : Outcome (Buffer × HttpContext) → Outcome (List ℕ × HttpContext) → Type 0 where
  same_answer :
      (answer : Bool) (b : Buffer) (c : HttpContext)
      → IsValid b
      → Agrees (returned answer (b, c)) (returned answer (contents b, c))
  both_undefined : Agrees undefined undefined
  both_out_of_fuel : Agrees out_of_fuel out_of_fuel

pub search_crlf_le : (text : List ℕ) → search_crlf text ≤ length text
unfolding search_crlf
search_crlf_le [] = omega arith
search_crlf_le (x ∷ []) = omega arith
search_crlf_le (x ∷ y ∷ rest) = ground (arith, search_crlf_le (y ∷ rest))

-- CR LF that is found has both its bytes in the text.
pub search_crlf-fits :
    (text : List ℕ) → search_crlf text ≢ length text → search_crlf text + 2 ≤ length text
unfolding search_crlf
search_crlf-fits [] h = ground arith
search_crlf-fits (x ∷ []) h = ground arith
search_crlf-fits (x ∷ y ∷ rest) h = ground (arith, search_crlf-fits (y ∷ rest))

pub contents-retrieve_until :
    {b : Buffer}
    → IsValid b
    → (search_crlf (contents b) ≢ length (contents b))
    → IsValid (retrieve_until (add_size (line_end b) 2) b)
      × (contents (retrieve_until (add_size (line_end b) 2) b)
          ≡ drop (search_crlf (contents b) + 2) (contents b))
unfolding retrieve_until
contents-retrieve_until {b} v h =
    let fits = search_crlf-fits (contents b) h in
    let span : sub_size (add_size (line_end b) 2) (peek b) ≡ search_crlf (contents b) + 2 =
      omega (arith, fits, length-contents v) in
    rw span (
      retrieve-IsValid (search_crlf (contents b) + 2) v,
      contents-retrieve (search_crlf (contents b) + 2) v,
    )

pub line_end-begin_write :
    {b : Buffer}
    → IsValid b
    → (line_end b == begin_write b) ≡ (search_crlf (contents b) == length (contents b))
line_end-begin_write {b} v = ground (arith, length-contents v, search_crlf_le (contents b))

round-Agrees :
    (more : Bool) (e : Effect) (last : Bool) (b : Buffer) (c : HttpContext)
    {f : HttpContext → Outcome (Buffer × HttpContext)}
    {g : HttpContext → Outcome (List ℕ × HttpContext)}
    → IsValid b
    → (last ≡ false → (c' : HttpContext) → Agrees (f c') (g c'))
    → Agrees (round more e last b c f) (round more e last (contents b) c g)
unfolding round
round-Agrees false e last b c v again = same_answer true b c v
round-Agrees true refuse last b c v again = same_answer false b c v
round-Agrees true stray last b c v again = both_undefined
round-Agrees true (go c') true b c v again = same_answer true b c' v
round-Agrees true (go c') false b c v again = again refl c'

pub parse_loop-Agrees :
    (fuel : ℕ) (b : Buffer) (c : HttpContext)
    → IsValid b
    → Agrees (parse_loop fuel b c) (parse_text fuel (contents b) c)
unfolding parse_loop parse_text
parse_loop-Agrees zero b c v = both_out_of_fuel
parse_loop-Agrees (suc fuel) b c v =
    subst
      (λ (n, last).
        Agrees
          (round (not (n == 0) && not (got_all c))
            (read_line (take (search_crlf (contents b)) (contents b)) n c) last b c
            (parse_loop fuel (retrieve_until (add_size (line_end b) 2) b)))
          (parse_text (suc fuel) (contents b) c))
      (ap₂ (λ n last. (n, last)) (length-contents v) (sym (line_end-begin_write v)))
      (round-Agrees _ _ _ b c v (λ more c'.
        let (valid, left) = contents-retrieve_until v (ground (arith, more)) in
        rw (sym left)
          (parse_loop-Agrees fuel (retrieve_until (add_size (line_end b) 2) b) c' valid)))

round-IsTotal :
    {A : Type 0} (more : Bool) (e : Effect) (last : Bool) (a : A) (c : HttpContext)
    {f : HttpContext → Outcome (A × HttpContext)}
    → (last ≡ false → (c' : HttpContext) → f c' ≢ out_of_fuel)
    → round more e last a c f ≢ out_of_fuel
unfolding round
round-IsTotal false e last a c again = λ h. cc
round-IsTotal true refuse last a c again = λ h. cc
round-IsTotal true stray last a c again = λ h. cc
round-IsTotal true (go c') true a c again = λ h. cc
round-IsTotal true (go c') false a c again = again refl c'

-- More fuel than the text has bytes ends the loop.
pub parse_text-IsTotal :
    (fuel : ℕ) (text : List ℕ) (c : HttpContext)
    → length text < fuel
    → parse_text fuel text c ≢ out_of_fuel
unfolding parse_text
parse_text-IsTotal zero text c h = omega arith
parse_text-IsTotal (suc fuel) text c h = round-IsTotal _ _ _ text c (λ more c'.
    let fits = search_crlf-fits text (ground (arith, more)) in
    parse_text-IsTotal fuel (drop (search_crlf text + 2) text) c'
      (omega (arith, length-drop (search_crlf text + 2) text, fits)))

parse_request-empty :
    (b : Buffer) (c : HttpContext)
    → (readable_bytes b == 0) ≡ true
    → parse_request b c ≡ returned false (b, c)
unfolding parse_request
parse_request-empty b c h = cc

parse_request-more :
    (b : Buffer) (c : HttpContext)
    → (readable_bytes b == 0) ≡ false
    → parse_request b c ≡ parse_loop (suc (readable_bytes b)) b c
unfolding parse_request
parse_request-more b c h = cc

-- parseRequest on a valid buffer that is not empty answers what the parse of its readable text answers: the same
-- verdict and context, a valid buffer with the text that is left, or the same write outside a string.
pub parse_request-Agrees :
    {b : Buffer} (c : HttpContext)
    → IsValid b
    → (readable_bytes b == 0) ≡ false
    → Agrees (parse_request b c) (parse_text (suc (length (contents b))) (contents b) c)
parse_request-Agrees {b} c v more =
    subst (λ o. Agrees o (parse_text (suc (length (contents b))) (contents b) c))
      (ap (λ n. parse_loop (suc n) b c) (length-contents v) ∙ sym (parse_request-more b c more))
      (parse_loop-Agrees (suc (length (contents b))) b c v)

-- What a parse of the text answers, the parse of the buffer answers.
pub Agrees-returned :
    {o : Outcome (Buffer × HttpContext)} {o' : Outcome (List ℕ × HttpContext)} {answer : Bool}
    {text : List ℕ} {c : HttpContext}
    → Agrees o o'
    → o' ≡ returned answer (text, c)
    → (b : Buffer) × (o ≡ returned answer (b, c)) × IsValid b × (contents b ≡ text)
Agrees-returned {answer} {text} {c} (same_answer answer' b c' v) h = (b, cc, v, cc)
Agrees-returned both_undefined h = absurd cc
Agrees-returned both_out_of_fuel h = absurd cc

Agrees-out_of_fuel :
    {o : Outcome (Buffer × HttpContext)} {o' : Outcome (List ℕ × HttpContext)}
    → Agrees o o'
    → o ≡ out_of_fuel
    → o' ≡ out_of_fuel
Agrees-out_of_fuel (same_answer answer b c v) h = cc
Agrees-out_of_fuel both_undefined h = cc
Agrees-out_of_fuel both_out_of_fuel h = refl

-- parseRequest ends on every valid buffer, from every state of the context.
pub parse_request-IsTotal :
    (b : Buffer) (c : HttpContext) → IsValid b → parse_request b c ≢ out_of_fuel
parse_request-IsTotal b c v h = elim (Bool-cases (readable_bytes b == 0)) [
  | inl empty ↦ apart (sym (parse_request-empty b c empty) ∙ h)
  | inr more ↦
      parse_text-IsTotal (suc (length (contents b))) (contents b) c (omega arith)
        (Agrees-out_of_fuel (parse_request-Agrees c v more) h)
]
  where
    apart : {answer : Bool} {a : Buffer × HttpContext} → returned answer a ≢ out_of_fuel
    apart e = cc
