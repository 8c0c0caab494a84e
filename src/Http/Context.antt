-- ===== src/Http/Context.antt =====
-- src/http/HttpContext.h and src/http/HttpContext.cc: the state machine that parses a request out of a connection's
-- buffer.
use network_library.Prelude.{
  ℕ, zero, suc, Bool, true, false, not, ◌&&◌, List, [], ◌∷◌, ◌++◌, Option, none, some,
  if◌then◌else◌, leb, ◌==◌, take,
}
use network_library.Prelude.Words.{add_size}
use network_library.Prelude.Options.{◌>>=◌}
use network_library.Buffer.{Buffer, readable_bytes, peek, begin_write, retrieve_until}
use network_library.Buffer.Contents.{contents}
use network_library.Http.Text.{bytes_of, same_bytes}
use network_library.Http.Request.{
  Request, Method, Version, empty_request, default_html, add_header, swap,
}
use network_library.Http.Lines.{match_request_line, match_header, cr, lf}
use network_library.Http.Post.{parse_post}

pub data State : Type 0 where
  request_line headers body finish : State

pub record HttpContext : Type 0 where
  pub request : Request
  pub state : State

-- The constructor.
abbrev pub new_context : HttpContext
new_context = record { request = empty_request; state = request_line }

abbrev pub is_finish : State → Bool
is_finish finish = true
is_finish _ = false

abbrev pub got_all : HttpContext → Bool
got_all c = is_finish c.state

pub reset : HttpContext → HttpContext
reset c = record { request = swap c.request empty_request; state = request_line }

-- The method of a request line: one that is not GET leaves the method as it was.
abbrev pub set_method : List ℕ → Method → Method
set_method text old = if same_bytes text (bytes_of "GET") then Method.get else old

abbrev pub set_version : List ℕ → Version → Version
set_version text old =
    if same_bytes text (bytes_of "1.1")
    then Version.http11
    else if same_bytes text (bytes_of "1.0")
    then Version.http10
    else old

-- `parseRequestLine_`; `none` is its `false`.
unfoldable pub parse_request_line : List ℕ → HttpContext → Option HttpContext
parse_request_line line c = match_request_line line >>= λ m. some (record {
  request = record c.request {
    method = set_method m.method c.request.method;
    path = m.path;
    version = set_version m.version c.request.version;
  };
  state = headers;
})

abbrev pub listed : List ℕ → List (List ℕ) → Bool
listed path [] = false
listed path (item ∷ items) = if same_bytes item path then true else listed path items

-- The path that `parsePath_` leaves.
unfoldable pub page : List ℕ → List ℕ
page path =
    if same_bytes path (bytes_of "/")
    then bytes_of "/index.html"
    else if listed path default_html
    then path ++ bytes_of ".html"
    else path

abbrev pub parse_path : HttpContext → HttpContext
parse_path c = record c { request = record c.request { path = page c.request.path } }

unfoldable pub parse_request_header : List ℕ → HttpContext → HttpContext
parse_request_header line c = elim (match_header line) [
  | none ↦ record c { state = body }
  | some (key, value) ↦ record c { request = add_header key value c.request }
]

-- `none` is a write outside the body string, in `parsePost_`.
unfoldable pub parse_data_body : List ℕ → HttpContext → Option HttpContext
parse_data_body line c = parse_post (record c.request { body = line }) >>= λ r.
    some (record { request = r; state = finish })

-- How far from the start `std::search` finds CR LF; the length where it does not.
unfoldable pub search_crlf : List ℕ → ℕ
search_crlf [] = 0
search_crlf (x ∷ []) = 1
search_crlf (x ∷ y ∷ rest) =
    let later = search_crlf (y ∷ rest) in if (x == cr) && (y == lf) then 0 else suc later

pub data Outcome (A : Type 0) : Type 0 where
  returned : Bool → A → Outcome A
  undefined : Outcome A
  out_of_fuel : Outcome A

-- What the switch of the loop does with a line: go on, return false, or write outside a string.
pub data Effect : Type 0 where
  go : HttpContext → Effect
  refuse : Effect
  stray : Effect

-- The switch, when the buffer still reads `readable` bytes, those of the line among them.
unfoldable pub read_line : List ℕ → ℕ → HttpContext → Effect
read_line line readable c = elim c.state [
  | request_line ↦ elim (parse_request_line line c) [ none ↦ refuse | some c' ↦ go (parse_path c') ]
  | headers ↦
      let c' = parse_request_header line c in
      go (if leb readable 2 then record c' { state = finish } else c')
  | body ↦ elim (parse_data_body line c) [ none ↦ stray | some c' ↦ go c' ]
  | finish ↦ go c
]

-- `lineEnd`
abbrev pub line_end : Buffer → ℕ
line_end b = add_size (peek b) (search_crlf (contents b))

-- One round of the loop, given whether its condition holds, what the switch does, whether the line was the last, and
-- the rounds that follow.
unfoldable pub round :
    {A : Type 0}
    → Bool
    → Effect
    → Bool
    → A
    → HttpContext
    → (HttpContext → Outcome (A × HttpContext))
    → Outcome (A × HttpContext)
round false e last b c again = returned true (b, c)
round true refuse last b c again = returned false (b, c)
round true stray last b c again = undefined
round true (go c') true b c again = returned true (b, c')
round true (go c') false b c again = again c'

-- The while loop. The last line has no CR LF, and is left in the buffer.
unfoldable pub parse_loop : ℕ → Buffer → HttpContext → Outcome (Buffer × HttpContext)
parse_loop zero b c = out_of_fuel
parse_loop (suc fuel) b c =
    round (not (readable_bytes b == 0) && not (got_all c))
      (read_line (take (search_crlf (contents b)) (contents b)) (readable_bytes b) c)
      (line_end b == begin_write b) b c
      (parse_loop fuel (retrieve_until (add_size (line_end b) 2) b))

-- `parseRequest`. Each round takes at least the two bytes of CR LF.
unfoldable pub parse_request : Buffer → HttpContext → Outcome (Buffer × HttpContext)
parse_request b c = elim (readable_bytes b == 0) [
  | true ↦ returned false (b, c)
  | false ↦ parse_loop (suc (readable_bytes b)) b c
]
