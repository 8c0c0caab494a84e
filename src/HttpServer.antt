-- ===== src/HttpServer.antt =====
-- src/http/HttpServer_test.h and src/http/HttpServer_test.cc: the callback that answers a request with a file.
--
-- The file system is a parameter: what `stat` and `open` answer for a path, whose file has as many bytes as `stat` says. `mmap` of an open file gives its bytes, and
-- zeros behind them to the end of the page; it refuses a length of 0, whose answer the code then reads through, which
-- is `none`. Text is bytes.
pub mod Target
pub mod Pages
mod Tests
use network_library.Prelude.{
  ℕ, zero, suc, ◌+◌, ◌-◌, Bool, true, false, not, ◌&&◌, ◌||◌, List, [], ◌∷◌, ◌++◌, Option, none,
  some, take, ◌==◌, if◌then◌else◌,
}
use network_library.Prelude.Options.{◌>>=◌}
use network_library.Http.Text.{bytes_of, same_bytes}
use network_library.Http.Request.{Request, Entries, assign, find}
use network_library.Http.Response.{
  Response, set_content_type, decimal, set_status_code, set_status_message,
}

-- The fields of `struct stat` that are used.
pub record FileStat : Type 0 where
  pub size : ℕ
  pub is_directory : Bool
  pub others_read : Bool

pub record FileSystem : Type 0 where
  pub stat : List ℕ → Option FileStat
  pub open_file : List ℕ → Option (List ℕ)

pub record HttpServer : Type 0 where
  pub headers : Entries
  pub path : List ℕ
  pub static_file_path : List ℕ
  pub file_stat : FileStat

-- `SUFFIX_TYPE`
abbrev pub suffix_type : Entries
suffix_type =
    (bytes_of ".html", bytes_of "text/html")
    ∷ (bytes_of ".xml", bytes_of "text/xml")
    ∷ (bytes_of ".xhtml", bytes_of "application/xhtml+xml")
    ∷ (bytes_of ".txt", bytes_of "text/plain")
    ∷ (bytes_of ".rtf", bytes_of "application/rtf")
    ∷ (bytes_of ".pdf", bytes_of "application/pdf")
    ∷ (bytes_of ".word", bytes_of "application/nsword")
    ∷ (bytes_of ".png", bytes_of "image/png")
    ∷ (bytes_of ".gif", bytes_of "image/gif")
    ∷ (bytes_of ".jpg", bytes_of "image/jpeg")
    ∷ (bytes_of ".jpeg", bytes_of "image/jpeg")
    ∷ (bytes_of ".au", bytes_of "audio/basic")
    ∷ (bytes_of ".mpeg", bytes_of "video/mpeg")
    ∷ (bytes_of ".mpg", bytes_of "video/mpeg")
    ∷ (bytes_of ".avi", bytes_of "video/x-msvideo")
    ∷ (bytes_of ".gz", bytes_of "application/x-gzip")
    ∷ (bytes_of ".tar", bytes_of "application/x-tar")
    ∷ (bytes_of ".css", bytes_of "text/css ")
    ∷ (bytes_of ".js", bytes_of "text/javascript ")
    ∷ []

-- `CODE_STATUS`
abbrev pub code_status : ℕ → Option (List ℕ)
code_status code =
    if code == 200
    then some (bytes_of "OK")
    else if code == 400
    then some (bytes_of "Bad Request")
    else if code == 403
    then some (bytes_of "Forbidden")
    else if code == 404
    then some (bytes_of "Not Found")
    else none

-- `CODE_PATH`
abbrev pub code_path : ℕ → Option (List ℕ)
code_path code =
    if code == 400
    then some (bytes_of "/400.html")
    else if code == 403
    then some (bytes_of "/403.html")
    else if code == 404
    then some (bytes_of "/404.html")
    else none

-- `find_last_of('.')` and `substr`: the last dot and what stands behind it.
abbrev pub suffix : List ℕ → Option (List ℕ)
suffix [] = none
suffix (b ∷ bs) = elim (suffix bs) [
  | some s ↦ some s
  | none ↦ if b == 46 then some (b ∷ bs) else none
]

abbrev pub status_or : List ℕ → ℕ → List ℕ
status_or otherwise code = elim (code_status code) [ some status ↦ status | none ↦ otherwise ]

-- `errorContent`
unfoldable pub error_content : List ℕ → Response → Response
error_content message r = record r {
  body =
      bytes_of "<html><tile>Error</title>"
      ++ bytes_of "<body bgcolor=\"ffffff\">"
      ++ decimal r.code
      ++ bytes_of " : "
      ++ status_or (bytes_of "Bad Request") r.code
      ++ 10 ∷ []
      ++ bytes_of "<p>"
      ++ message
      ++ bytes_of "</p>"
      ++ bytes_of "<hr><em>TinyWebServer</em></body></html>";
}

-- `*mmRet == -1`, on the first four bytes of a mapping.
abbrev pub starts_with_ones : List ℕ → Bool
starts_with_ones content = same_bytes (take 4 content) (255 ∷ 255 ∷ 255 ∷ 255 ∷ [])

-- `addStateLine_`
unfoldable pub add_state_line : Response → Response
add_state_line r = elim (code_status r.code) [
  | some status ↦ set_status_message status r
  | none ↦ set_status_message (bytes_of "Bad Request") (set_status_code 400 r)
]

-- `addResponseHeader_`
unfoldable pub add_response_header : List ℕ → Response → Response
add_response_header path r = elim (suffix path) [
  | none ↦ set_content_type (bytes_of "text/plain") r
  | some s ↦ elim (find s suffix_type) [
    | some content_type ↦ set_content_type content_type r
    | none ↦ set_content_type (bytes_of "text/plain") r
  ]
]

module _ (files : FileSystem) where
  -- The first part of `makeResponse`. A `stat` that fails leaves the record as it was.
  unfoldable pub choose_status : HttpServer → Response → HttpServer × Response
  choose_status s r = elim (files.stat (s.static_file_path ++ s.path)) [
    | none ↦ (s, set_status_code 404 r)
    | some file ↦
        let s1 : HttpServer = record s { file_stat = file } in
        if file.is_directory
        then (s1, set_status_code 404 r)
        else if not file.others_read
        then (s1, set_status_code 403 r)
        else if r.code == 0
        then (s1, set_status_code 200 r)
        else (s1, r)
  ]

  -- `errorHTML_`
  unfoldable pub error_html : Response → HttpServer → HttpServer
  error_html r s = elim (code_path r.code) [
    | none ↦ s
    | some page ↦ elim (files.stat (s.static_file_path ++ page)) [
      | none ↦ record s { path = page }
      | some file ↦ record s { path = page; file_stat = file }
    ]
  ]

  -- `addResponseContent_`
  unfoldable pub add_response_content : HttpServer → Response → Option Response
  add_response_content s r = elim (files.open_file (s.static_file_path ++ s.path)) [
    | none ↦ some (error_content (bytes_of "File NotFound!") r)
    | some content ↦
        if s.file_stat.size == 0
        then none
        else if starts_with_ones content
        then some (error_content (bytes_of "File NotFound!") r)
        else some (record r {
          code = 200;
          header = assign (bytes_of "Server") (bytes_of "mymuduo") r.header;
          body = take s.file_stat.size content;
        })
  ]

  -- The last three calls of `makeResponse`.
  unfoldable pub fill_response : HttpServer → Response → Option (HttpServer × Response)
  fill_response s r = do
    filled ← add_response_content s (add_response_header s.path (add_state_line r))
    some (s, filled)

  -- `makeResponse`
  unfoldable pub make_response : HttpServer → Response → Option (HttpServer × Response)
  make_response s r = let (s1, r1) = choose_status s r in fill_response (error_html r1 s1) r1

  -- `onRequest`, in the working directory `cwd`.
  unfoldable pub on_request :
      List ℕ → Request → HttpServer → Response → Option (HttpServer × Response)
  on_request cwd request s r =
      make_response
        (record s {
          static_file_path = cwd ++ bytes_of "/resources/";
          headers = request.header;
          path = request.path;
        })
        r
