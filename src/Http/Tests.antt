-- ===== src/Http/Tests.antt =====
-- Parses of concrete texts, and the theorems of the parser at concrete inputs.
use network_library.Prelude.{
  false, ℕ, ◌+◌, ◌≡◌, ◌↔◌, ◌≢◌, refl, true, false, List, [], ◌∷◌, ◌++◌, some, arith, length, suc,
}
use network_library.Buffer.{Buffer}
use network_library.Buffer.Valid.{IsValid}
use network_library.Buffer.Contents.{contents}
use network_library.Http.Text.{bytes_of}
use network_library.Http.Request.{Entries}
use network_library.Http.Lines.{RequestLine, match_request_line}
use network_library.Http.Context.{new_context, returned, out_of_fuel, parse_request}
use network_library.Http.Response.{Response, new_response, append_to_buffer}
use network_library.Http.Printing.{response_text, append_to_buffer_lem}
use network_library.Http.Matching.{request_line_text, match_request_line_iff, IsRequestLine}
use network_library.Http.Parse.{parse_text, Agrees, parse_request-IsTotal, parse_request-Agrees}
use network_library.Http.RoundTrip.{request_text, parsed, parse_request-request_text}

abbrev host : Entries
host = (bytes_of "Host", bytes_of "a b") ∷ (bytes_of "Connection", bytes_of "keep-alive") ∷ []

abbrev text : List ℕ
text = request_text (bytes_of "/") host

abbrev holding : List ℕ → Buffer
holding bytes = record {
  buffer = (0 ∷ 0 ∷ 0 ∷ 0 ∷ 0 ∷ 0 ∷ 0 ∷ 0 ∷ []) ++ bytes;
  reader_index = 8;
  writer_index = 8 + length bytes;
}

holding-text-IsValid : IsValid (holding text)
holding-text-IsValid = omega arith

parse_request-request_text_example :
    (b' : Buffer) × (parse_request (holding text) new_context
      ≡ returned true (b', parsed (bytes_of "/") host))
    × IsValid b'
    × (contents b' ≡ [])
parse_request-request_text_example =
    parse_request-request_text (holding text) (bytes_of "/") host holding-text-IsValid refl refl
      refl

parse_request-IsTotal_example : parse_request (holding text) new_context ≢ out_of_fuel
parse_request-IsTotal_example =
    parse_request-IsTotal (holding text) new_context holding-text-IsValid

abbrev line : RequestLine
line = record { method = bytes_of "GET"; path = bytes_of "/x"; version = bytes_of "1.0" }

match_request_line_iff_example :
    (match_request_line (bytes_of "GET /x HTTP/1.0") ≡ some line)
    ↔ ((bytes_of "GET /x HTTP/1.0" ≡ request_line_text line) × IsRequestLine line)
match_request_line_iff_example = match_request_line_iff (bytes_of "GET /x HTTP/1.0") line

parse_request-Agrees_example :
    Agrees
      (parse_request (holding text) new_context)
      (parse_text (suc (length text)) text new_context)
parse_request-Agrees_example =
    parse_request-Agrees {b = holding text} new_context holding-text-IsValid refl

abbrev hello : Response
hello = record (new_response false) {
  code = 200;
  status_message = bytes_of "OK";
  header = (bytes_of "Content-Type", bytes_of "text/html") ∷ [];
  body = bytes_of "hello";
}

append_to_buffer_lem_example :
    (b' : Buffer) × (append_to_buffer hello (holding []) ≡ some b')
    × IsValid b'
    × (contents b' ≡ contents (holding []) ++ response_text hello)
append_to_buffer_lem_example = append_to_buffer_lem hello (holding []) (omega arith) (omega arith)
