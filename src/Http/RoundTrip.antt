-- ===== src/Http/RoundTrip.antt =====
-- src/http/HttpContext.cc: parsing the text of a GET request gives the request back.
use network_library.Prelude.{
  ℕ, zero, suc, ◌+◌, ◌≤◌, ◌≡◌, refl, ap, ap₂, ◌∙◌, Bool, true, false, ◌&&◌, List, [], ◌∷◌, ◌++◌,
  arith, leb, take, drop, length, length-append, take-append_length,
}
use network_library.Buffer.{Buffer}
use network_library.Buffer.Valid.{IsValid}
use network_library.Buffer.Contents.{contents, length-contents}
use network_library.Http.Text.{bytes_of, lacks, split_at_byte, lacks-append}
use network_library.Http.Request.{Request, Entries, Method, Version, add_header, empty_request}
use network_library.Http.Lines.{RequestLine, match_header, space, colon, cr, lf}
use network_library.Http.Matching.{request_line_text, match_request_line-text, match_header-text}
use network_library.Http.Context.{
  HttpContext, new_context, Outcome, returned, Effect, round, go, read_line, search_crlf, got_all,
  parse_request, parse_request_header, parse_request_line, page, headers, finish,
}
use network_library.Http.Parse.{parse_text, Agrees-returned, parse_request-Agrees}

-- Header fields that can be printed: no key holds a colon or CR, no value CR or LF.
abbrev pub are_fields : Entries → Bool
are_fields [] = true
are_fields ((k, v) ∷ fs) = lacks colon k && lacks cr k && lacks cr v && lacks lf v && are_fields fs

abbrev pub field_line : List ℕ → List ℕ → List ℕ
field_line k v = k ++ colon ∷ space ∷ v

-- The header lines and the empty line behind them.
abbrev pub fields_text : Entries → List ℕ
fields_text [] = cr ∷ lf ∷ []
fields_text ((k, v) ∷ fs) = field_line k v ++ cr ∷ lf ∷ fields_text fs

abbrev pub get_line : List ℕ → RequestLine
get_line path = record { method = bytes_of "GET"; path = path; version = bytes_of "1.1" }

-- The text of a GET request.
abbrev pub request_text : List ℕ → Entries → List ℕ
request_text path fs = request_line_text (get_line path) ++ cr ∷ lf ∷ fields_text fs

-- The request that it stands for.
abbrev pub add_fields : Entries → Request → Request
add_fields [] r = r
add_fields ((k, v) ∷ fs) r = add_fields fs (add_header k v r)

abbrev pub parsed : List ℕ → Entries → HttpContext
parsed path fs = record {
  request =
      add_fields fs
        (record empty_request { method = Method.get; version = Version.http11; path = page path });
  state = finish;
}

pub search_crlf-append :
    (line rest : List ℕ) → lacks cr line ≡ true → search_crlf (line ++ cr ∷ lf ∷ rest) ≡ length line
unfolding search_crlf
search_crlf-append [] rest h = refl
search_crlf-append (x ∷ []) rest h = ground arith
search_crlf-append (x ∷ y ∷ line) rest h = ground (arith, search_crlf-append (y ∷ line) rest)

round-go :
    {A : Type 0} {more : Bool} {e : Effect} {last : Bool} (a : A) (c : HttpContext)
    {c' : HttpContext} (f : HttpContext → Outcome (A × HttpContext))
    → more ≡ true
    → e ≡ go c'
    → last ≡ false
    → round more e last a c f ≡ f c'
unfolding round
round-go a c f h1 h2 h3 = cc (h1, h2, h3)

step : (n : ℕ) → suc n + 2 ≡ suc (n + 2)
step n = omega arith

drop-past : (line rest : List ℕ) (x y : ℕ) → drop (length line + 2) (line ++ x ∷ y ∷ rest) ≡ rest
drop-past [] rest x y = refl
drop-past (z ∷ line) rest x y =
    ap (λ n. drop n (z ∷ (line ++ x ∷ y ∷ rest))) (step (length line)) ∙ drop-past line rest x y

-- A line that ends in CR LF is read and taken.
pub parse_text-line :
    (fuel : ℕ) (line rest : List ℕ) (c : HttpContext) {c' : HttpContext}
    → lacks cr line ≡ true
    → got_all c ≡ false
    → read_line line (length line + 2 + length rest) c ≡ go c'
    → parse_text (suc fuel) (line ++ cr ∷ lf ∷ rest) c ≡ parse_text fuel rest c'
unfolding parse_text
parse_text-line fuel line rest c {c'} h fresh reads =
    let text = line ++ cr ∷ lf ∷ rest in
    let found = search_crlf-append line rest h in
    let size : length text ≡ length line + 2 + length rest =
      omega (arith, length-append line (cr ∷ lf ∷ rest)) in
    round-go text c (parse_text fuel (drop (search_crlf text + 2) text))
      (ground (arith, size, fresh))
      (ap (λ n. read_line (take n text) (length text) c) found
        ∙ ap₂ (λ l n. read_line l n c) (take-append_length line (cr ∷ lf ∷ rest)) size
        ∙ reads)
      (ground (arith, size, found))
    ∙ ap (λ n. parse_text fuel (drop (n + 2) text) c') found
    ∙ ap (λ t. parse_text fuel t c') (drop-past line rest cr lf)

read_field :
    (k v : List ℕ) (n : ℕ) (r : Request)
    → (lacks colon k && lacks cr k && lacks cr v && lacks lf v) ≡ true
    → read_line
        (field_line k v)
        (length (field_line k v) + 2 + n)
        (record { request = r; state = headers })
      ≡ go (record { request = add_header k v r; state = headers })
unfolding read_line parse_request_header
read_field k v n r h =
    let matched =
      match_header-text k v (ground (arith, h)) (ground (arith, h)) (ground (arith, h)) in
    let long : leb (length (field_line k v) + 2 + n) 2 ≡ false =
      ground (arith, length-append k (colon ∷ space ∷ v)) in
    cc (matched, long)

pub parse_text-fields :
    (fuel : ℕ) (fs : Entries) (r : Request)
    → are_fields fs ≡ true
    → length fs + 2 ≤ fuel
    → parse_text fuel (fields_text fs) (record { request = r; state = headers })
      ≡ returned true ([], record { request = add_fields fs r; state = finish })
unfolding parse_text read_line parse_request_header match_header split_at_byte round
parse_text-fields zero fs r h enough = absurd (omega arith)
parse_text-fields (suc zero) [] r h enough = absurd (omega arith)
parse_text-fields (suc (suc fuel)) [] r h enough =
    parse_text-line (suc fuel) [] [] (record { request = r; state = headers }) refl refl refl ∙ refl
parse_text-fields (suc fuel) ((k, v) ∷ fs) r h enough =
    parse_text-line fuel (field_line k v) (fields_text fs) (record { request = r; state = headers })
      (lacks-append cr k (colon ∷ space ∷ v) ∙ ground (arith, h)) refl
      (read_field k v (length (fields_text fs)) r (ground (arith, h)))
    ∙ parse_text-fields fuel fs (add_header k v r) (ground (arith, h)) (omega arith)

read_get_line :
    (path : List ℕ) (n : ℕ)
    → lacks space path ≡ true
    → read_line (request_line_text (get_line path)) n new_context
      ≡ go (record {
        request = record empty_request {
          method = Method.get;
          version = Version.http11;
          path = page path;
        };
        state = headers;
      })
unfolding read_line parse_request_line
read_get_line path n h =
    cc
      (match_request_line-text (get_line path) (record { method = refl; path = h; version = refl }))

fields_text-length : (fs : Entries) → length fs + 2 ≤ length (fields_text fs)
fields_text-length [] = omega arith
fields_text-length ((k, v) ∷ fs) =
    omega (arith, fields_text-length fs, length-append (field_line k v) (cr ∷ lf ∷ fields_text fs))

request_text-length : (path : List ℕ) (fs : Entries) → length fs + 2 ≤ length (request_text path fs)
request_text-length path fs = omega (
  arith,
  fields_text-length fs,
  length-append (request_line_text (get_line path)) (cr ∷ lf ∷ fields_text fs),
)

get_line-lacks :
    (path : List ℕ) → lacks cr path ≡ true → lacks cr (request_line_text (get_line path)) ≡ true
get_line-lacks path h = lacks-append cr path (space ∷ bytes_of "HTTP/1.1") ∙ ground (arith, h)

-- The parse of the text of a GET request, headers and all, into a new context.
pub parse_text-request :
    (path : List ℕ) (fs : Entries)
    → (lacks space path && lacks cr path) ≡ true
    → are_fields fs ≡ true
    → parse_text (suc (length (request_text path fs))) (request_text path fs) new_context
      ≡ returned true ([], parsed path fs)
parse_text-request path fs h k =
    parse_text-line (length (request_text path fs)) (request_line_text (get_line path))
      (fields_text fs) new_context (get_line-lacks path (ground (arith, h))) refl
      (read_get_line path _ (ground (arith, h)))
    ∙ parse_text-fields (length (request_text path fs)) fs _ k (request_text-length path fs)

-- parse_request on a valid buffer that reads a GET request of HTTP/1.1, any path without a space or CR and any
-- printable header fields, answers true: the context is finished, with the page of the path and all the fields, and
-- the buffer is left empty and valid.
pub parse_request-request_text :
    (b : Buffer) (path : List ℕ) (fs : Entries)
    → IsValid b
    → contents b ≡ request_text path fs
    → (lacks space path && lacks cr path) ≡ true
    → are_fields fs ≡ true
    → (b' : Buffer) × (parse_request b new_context ≡ returned true (b', parsed path fs))
      × IsValid b'
      × (contents b' ≡ [])
parse_request-request_text b path fs v reads h k =
    Agrees-returned
      (parse_request-Agrees new_context v
        (ground (arith, length-contents v, reads, request_text-length path fs)))
      (ap (λ t. parse_text (suc (length t)) t new_context) reads ∙ parse_text-request path fs h k)
