-- ===== src/Http/Response.antt =====
-- src/http/HttpResponse_test.h and src/http/HttpResponse_test.cc: a response, and its printing into a buffer.
--
-- The fields of the `std::unordered_map` are printed in the order of their first insertion, which is one of those that
-- C++ allows. No `snprintf` fills its 64 bytes.
use network_library.Prelude.{
  ℕ, zero, suc, ◌+◌, ◌/◌, ◌%◌, Bool, List, [], ◌∷◌, ◌++◌, Option, some, ◌==◌, if◌then◌else◌, length,
}
use network_library.Prelude.Options.{◌>>=◌}
use network_library.Buffer.{Buffer, append}
use network_library.Http.Text.{bytes_of}
use network_library.Http.Request.{Entries, assign}

pub record Response : Type 0 where
  pub code : ℕ
  pub status_message : List ℕ
  pub is_keep_alive : Bool
  pub header : Entries
  pub body : List ℕ

-- The constructor, whose argument says that the connection is to be closed.
abbrev pub new_response : Bool → Response
new_response close = record {
  code = 0;
  status_message = [];
  is_keep_alive = close;
  header = [];
  body = [];
}

-- The setters.
abbrev pub set_status_code : ℕ → Response → Response
set_status_code code r = record r { code = code }

abbrev pub set_status_message : List ℕ → Response → Response
set_status_message message r = record r { status_message = message }

abbrev pub set_is_keep_alive : Bool → Response → Response
set_is_keep_alive on r = record r { is_keep_alive = on }

abbrev pub set_body : List ℕ → Response → Response
set_body body r = record r { body = body }

-- `addHeader_`
abbrev pub add_header : List ℕ → List ℕ → Response → Response
add_header key value r = record r { header = assign key value r.header }

-- `setContentType`
unfoldable pub set_content_type : List ℕ → Response → Response
set_content_type content_type r = add_header (bytes_of "Content-Type") content_type r

-- The digits of a number, from `fuel` of them at most: a number has no more digits than its successor counts.
abbrev pub digits : ℕ → ℕ → List ℕ
digits zero n = []
digits (suc fuel) n =
    let front = digits fuel (n / 10) in (if n / 10 == 0 then [] else front) ++ (n % 10 + 48) ∷ []

-- `%d` and `%zd`
abbrev pub decimal : ℕ → List ℕ
decimal n = digits (suc n) n

abbrev pub crlf : List ℕ
crlf = 13 ∷ 10 ∷ []

-- The strings of one header field.
abbrev pub field_pieces : Entries → List (List ℕ)
field_pieces [] = []
field_pieces ((k, v) ∷ fs) = k ∷ bytes_of ": " ∷ v ∷ crlf ∷ field_pieces fs

abbrev pub connection_pieces : Response → List (List ℕ)
connection_pieces r =
    if r.is_keep_alive
    then (bytes_of "Connection: close" ++ crlf) ∷ []
    else (bytes_of "Content-Length: " ++ decimal (length r.body) ++ crlf)
      ∷ (bytes_of "Connection: Keep-Alive" ++ crlf)
      ∷ []

-- Appends one string after the other.
unfoldable pub append_pieces : List (List ℕ) → Buffer → Option Buffer
append_pieces [] output = some output
append_pieces (piece ∷ pieces) output = append piece output >>= append_pieces pieces

-- `appendToBuffer`, its `append`s in their order.
unfoldable pub append_to_buffer : Response → Buffer → Option Buffer
append_to_buffer r output = do
  status ←
      append_pieces
        ((bytes_of "HTTP/1.1 " ++ decimal r.code ++ bytes_of " ") ∷ r.status_message ∷ crlf ∷ [])
        output
  connection ← append_pieces (connection_pieces r) status
  fields ← append_pieces (field_pieces r.header) connection
  append_pieces (crlf ∷ r.body ∷ []) fields
