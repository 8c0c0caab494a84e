-- ===== src/Http/Request.antt =====
-- src/http/HttpRequest_test.h: a parsed request.
use network_library.Prelude.{ℕ, Bool, true, false, ◌&&◌, List, [], ◌∷◌, Option, none, some}
use network_library.Http.Text.{bytes_of, same_bytes}

pub data Method : Type 0 where
  invalid get post head put delete : Method

pub data Version : Type 0 where
  unknown http10 http11 : Version

-- A `std::unordered_map<std::string, std::string>`, in the order of first insertion.
abbrev pub Entries : Type 0
Entries = List (List ℕ × List ℕ)

pub record Request : Type 0 where
  pub method : Method
  pub version : Version
  pub path : List ℕ
  pub query : List ℕ
  pub body : List ℕ
  pub receive_time : ℕ
  pub header : Entries
  pub post_entries : Entries

-- The constructor.
abbrev pub empty_request : Request
empty_request = record {
  method = invalid;
  version = unknown;
  path = [];
  query = [];
  body = [];
  receive_time = 0;
  header = [];
  post_entries = [];
}

-- `DEFAULT_HTML_`
abbrev pub default_html : List (List ℕ)
default_html =
    bytes_of "/index" ∷ bytes_of "/welcome" ∷ bytes_of "/video" ∷ bytes_of "/picture" ∷ []

-- `methodString_`
pub method_string : Method → List ℕ
method_string get = bytes_of "GET"
method_string post = bytes_of "POST"
method_string head = bytes_of "HEAD"
method_string put = bytes_of "PUT"
method_string delete = bytes_of "DELETE"
method_string invalid = bytes_of "UNKNOWN"

-- `entries[key] = value`
unfoldable pub assign : List ℕ → List ℕ → Entries → Entries
assign key value [] = (key, value) ∷ []
assign key value ((k, v) ∷ rest) = elim (same_bytes k key) [
  | true ↦ (k, value) ∷ rest
  | false ↦ (k, v) ∷ assign key value rest
]

unfoldable pub find : List ℕ → Entries → Option (List ℕ)
find key [] = none
find key ((k, v) ∷ rest) = elim (same_bytes k key) [ true ↦ some v | false ↦ find key rest ]

-- `addHeader_`, `addPost_`
abbrev pub add_header : List ℕ → List ℕ → Request → Request
add_header key value r = record r { header = assign key value r.header }

abbrev pub add_post : List ℕ → List ℕ → Request → Request
add_post key value r = record r { post_entries = assign key value r.post_entries }

abbrev pub or_empty : Option (List ℕ) → List ℕ
or_empty none = []
or_empty (some v) = v

-- `getHeader_`, `getPost_`
pub get_header : List ℕ → Request → List ℕ
get_header field r = or_empty (find field r.header)

pub get_post : List ℕ → Request → List ℕ
get_post key r = or_empty (find key r.post_entries)

-- `swap` with a copy: `this` takes its method, version, path, time, query and headers, and keeps its own body
-- and posted values.
pub swap : Request → Request → Request
swap this that = record this {
  method = that.method;
  version = that.version;
  path = that.path;
  receive_time = that.receive_time;
  query = that.query;
  header = that.header;
}

-- `isKeepAlive`
pub is_keep_alive : Request → Bool
is_keep_alive r = elim (find (bytes_of "Connection") r.header) [
  | none ↦ false
  | some v ↦ same_bytes v (bytes_of "keep-alive") && is_http11 r.version
]
  where
    is_http11 : Version → Bool
    is_http11 http11 = true
    is_http11 _ = false
