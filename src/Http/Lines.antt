-- ===== src/Http/Lines.antt =====
-- src/http/HttpContext.cc: the regular expressions that the request line and the header lines are matched with.
--
-- `regex_match` wants the whole line; the parts before a literal hold no byte of it, so every match is the one that
-- splits at the first such byte.
use network_library.Prelude.{ℕ, ◌&&◌, List, [], ◌∷◌, Option, none, some, if◌then◌else◌, ◌==◌}
use network_library.Prelude.Options.{◌>>=◌}
use network_library.Http.Text.{bytes_of, lacks, split_at_byte, strip_prefix}

abbrev pub space : ℕ
space = 32

abbrev pub colon : ℕ
colon = 58

abbrev pub cr : ℕ
cr = 13

abbrev pub lf : ℕ
lf = 10

-- A match of three groups: the method, the target and the version.
pub record RequestLine : Type 0 where
  pub method : List ℕ
  pub path : List ℕ
  pub version : List ℕ

-- `^([^ ]*) ([^ ]*) HTTP/([^ ]*)$`
unfoldable pub match_request_line : List ℕ → Option RequestLine
match_request_line line = do
  (method, rest) ← split_at_byte space line
  (path, protocol) ← split_at_byte space rest
  version ← strip_prefix (bytes_of "HTTP/") protocol
  if lacks space version
      then some (record { method = method; path = path; version = version })
      else none

-- ` ?`, which takes a space where there is one.
unfoldable pub skip_space : List ℕ → List ℕ
skip_space [] = []
skip_space (x ∷ xs) = if x == space then xs else x ∷ xs

-- `^([^:]*): ?(.*)$`, where `.` is any byte but CR and LF.
unfoldable pub match_header : List ℕ → Option (List ℕ × List ℕ)
match_header line = do
  (key, rest) ← split_at_byte colon line
  if lacks cr (skip_space rest) && lacks lf (skip_space rest)
      then some (key, skip_space rest)
      else none
