-- ===== src/HttpServer/Target.antt =====
-- src/http/HttpServer_test.cc: what a request is to be answered with.
use network_library.Prelude.{
  ℕ, ◌≡◌, Option, List, [], ◌∷◌, ◌++◌, none, some, take, arith, ◌==◌, if◌then◌else◌,
}
use network_library.Http.Text.{bytes_of}
use network_library.Http.Request.{assign, find}
use network_library.Http.Response.{Response, decimal, set_content_type}
use network_library.HttpServer.{
  FileStat, FileSystem, suffix_type, suffix, starts_with_ones, add_response_header,
}

-- The content type that belongs to a path.
pub type_of : List ℕ → List ℕ
type_of path = elim (suffix path) [
  | none ↦ bytes_of "text/plain"
  | some s ↦ elim (find s suffix_type) [
    | some content_type ↦ content_type
    | none ↦ bytes_of "text/plain"
  ]
]

pub add_response_header-type_of :
    (path : List ℕ) (r : Response) → add_response_header path r ≡ set_content_type (type_of path) r
unfolding add_response_header type_of
add_response_header-type_of path r = ground arith

-- What a request is answered with: a path, what `stat` says of it, a code and its message.
pub record Target : Type 0 where
  pub path : List ℕ
  pub file : FileStat
  pub code : ℕ
  pub message : List ℕ

-- The file of the request, if it is there, is no directory and others may read it; the page for 403 if others may not
-- read it, and the page for 404 otherwise.
abbrev pub target : FileSystem → FileStat → FileStat → List ℕ → List ℕ → Target
target files forbidden missing root path =
    let not_found : Target = record {
      path = bytes_of "/404.html";
      file = missing;
      code = 404;
      message = bytes_of "Not Found";
    } in
    elim (files.stat (root ++ path)) [
      | none ↦ not_found
      | some file ↦
          if file.is_directory
          then not_found
          else if file.others_read
          then record { path = path; file = file; code = 200; message = bytes_of "OK" }
          else record {
            path = bytes_of "/403.html";
            file = forbidden;
            code = 403;
            message = bytes_of "Forbidden";
          }
    ]

-- The response that carries a content: it has code 200, whatever the message of its status is.
abbrev pub carrying : Target → List ℕ → Response → Response
carrying t content r = record r {
  code = 200;
  status_message = t.message;
  header =
      assign (bytes_of "Server") (bytes_of "mymuduo") (set_content_type (type_of t.path) r).header;
  body = take t.file.size content;
}

-- The response that says that there is no file.
abbrev pub refusing : Target → Response → Response
refusing t r = record (set_content_type (type_of t.path) r) {
  code = t.code;
  status_message = t.message;
  body =
      bytes_of "<html><tile>Error</title>"
      ++ bytes_of "<body bgcolor=\"ffffff\">"
      ++ decimal t.code
      ++ bytes_of " : "
      ++ t.message
      ++ 10 ∷ []
      ++ bytes_of "<p>"
      ++ bytes_of "File NotFound!"
      ++ bytes_of "</p>"
      ++ bytes_of "<hr><em>TinyWebServer</em></body></html>";
}

-- The response, by what `open` answers for the path.
abbrev pub answer : Target → Response → Option (List ℕ) → Option Response
answer t r none = some (refusing t r)
answer t r (some content) =
    if t.file.size == 0
    then none
    else if starts_with_ones content
    then some (refusing t r)
    else some (carrying t content r)
