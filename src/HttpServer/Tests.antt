-- ===== src/HttpServer/Tests.antt =====
-- A directory with two pages.
use network_library.Prelude.{
  ℕ, ◌≡◌, refl, true, false, List, [], Option, none, some, length, if◌then◌else◌,
}
use network_library.Http.Text.{bytes_of, same_bytes}
use network_library.Http.Request.{Request, empty_request}
use network_library.Http.Response.{new_response}
use network_library.HttpServer.{FileStat, FileSystem, HttpServer, on_request}
use network_library.HttpServer.Target.{carrying}
use network_library.HttpServer.Pages.{on_request-answers}

abbrev page_of : List ℕ → Option (List ℕ)
page_of path =
    if same_bytes path (bytes_of "/w/resources//index.html")
    then some (bytes_of "hello")
    else if same_bytes path (bytes_of "/w/resources//404.html")
    then some (bytes_of "oops!")
    else if same_bytes path (bytes_of "/w/resources//403.html")
    then some []
    else none

abbrev page_stat : List ℕ → Option FileStat
page_stat path = elim (page_of path) [
  | none ↦ none
  | some content ↦ some (record { size = length content; is_directory = false; others_read = true })
]

abbrev files : FileSystem
files = record { stat = page_stat; open_file = page_of }

abbrev five_bytes : FileStat
five_bytes = record { size = 5; is_directory = false; others_read = true }

abbrev start : HttpServer
start = record { headers = []; path = []; static_file_path = []; file_stat = five_bytes }

abbrev asking : List ℕ → Request
asking path = record empty_request { path = path }

-- The page for 403 is there, and its file is empty.
abbrev no_bytes : FileStat
no_bytes = record { size = 0; is_directory = false; others_read = true }

abbrev asked : List ℕ
asked = bytes_of "/index.html"

on_request-answers_example :
    (s' : HttpServer) × (on_request files (bytes_of "/w") (asking asked) start (new_response true)
      ≡ some (
        s',
        carrying
            (record { path = asked; file = five_bytes; code = 200; message = bytes_of "OK" })
            (bytes_of "hello")
            (new_response true),
      ))
on_request-answers_example =
    on_request-answers files no_bytes five_bytes (bytes_of "/w") (asking asked) start
      (new_response true) refl refl refl
