-- ===== src/Http/Matching.antt =====
-- src/http/HttpContext.cc: what the regular expressions of HttpContext match, against the texts that they describe.
use network_library.Prelude.{
  ℕ, ◌≡◌, ◌↔◌, refl, subst, Bool, true, false, List, ◌∷◌, ◌++◌, none, some, if◌then◌else◌,
}
use network_library.Prelude.Options.{>>=-eq-some, some_inj}
use network_library.Http.Text.{
  bytes_of, lacks, split_at_byte, strip_prefix, split_at_byte-append, eq_of_split_at_byte,
  strip_prefix-append, eq_of_strip_prefix,
}
use network_library.Http.Lines.{
  RequestLine, match_request_line, match_header, skip_space, space, colon, cr, lf,
}

-- A line of `^([^ ]*) ([^ ]*) HTTP/([^ ]*)$` with its groups.
abbrev pub request_line_text : RequestLine → List ℕ
request_line_text m = m.method ++ space ∷ (m.path ++ space ∷ (bytes_of "HTTP/" ++ m.version))

pub record IsRequestLine (m : RequestLine) : Type 0 where
  pub method : lacks space m.method ≡ true
  pub path : lacks space m.path ≡ true
  pub version : lacks space m.version ≡ true

pub match_request_line-text :
    (m : RequestLine) → IsRequestLine m → match_request_line (request_line_text m) ≡ some m
unfolding match_request_line
match_request_line-text m h =
    let e1 =
      split_at_byte-append space m.method (m.path ++ space ∷ (bytes_of "HTTP/" ++ m.version))
        h.method in
    let e2 = split_at_byte-append space m.path (bytes_of "HTTP/" ++ m.version) h.path in
    let e3 = strip_prefix-append (bytes_of "HTTP/") m.version in cc (e1, e2, e3, h.version)

guarded :
    {A : Type 0} (test : Bool) (a : A) {b : A} (P : A → Type 0)
    → (test ≡ true → P a)
    → (if test then some a else none) ≡ some b
    → P b
guarded true a P ok h = subst P (some_inj h) (ok refl)
guarded false a P ok h = cc

groups :
    (line method rest path protocol version : List ℕ) (m : RequestLine)
    → split_at_byte space line ≡ some (method, rest)
    → split_at_byte space rest ≡ some (path, protocol)
    → strip_prefix (bytes_of "HTTP/") protocol ≡ some version
    → (if lacks space version
        then some (record { method = method; path = path; version = version })
        else none)
      ≡ some m
    → (line ≡ request_line_text m) × IsRequestLine m
groups line method rest path protocol version m h1 h2 h3 h4 =
    let (e1, l1) = eq_of_split_at_byte space line method rest h1 in
    let (e2, l2) = eq_of_split_at_byte space rest path protocol h2 in
    let e3 = eq_of_strip_prefix (bytes_of "HTTP/") protocol version h3 in
    guarded (lacks space version) (record { method = method; path = path; version = version })
      (λ m'. (line ≡ request_line_text m') × IsRequestLine m')
      (λ l3. (cc (e1, e2, e3), record { method = l1; path = l2; version = l3 })) h4

pub text-match_request_line :
    (line : List ℕ) (m : RequestLine)
    → match_request_line line ≡ some m
    → (line ≡ request_line_text m) × IsRequestLine m
unfolding match_request_line
text-match_request_line line m h =
    let ((method, rest), split1, h1) = >>=-eq-some (split_at_byte space line) _ h in
    let ((path, protocol), split2, h2) = >>=-eq-some (split_at_byte space rest) _ h1 in
    let (version, strip, h3) = >>=-eq-some (strip_prefix (bytes_of "HTTP/") protocol) _ h2 in
    groups line method rest path protocol version m split1 split2 strip h3

-- A line matches the regular expression of the request line, with these groups, exactly when it is the groups joined
-- by single spaces and "HTTP/", and none of them holds a space.
pub match_request_line_iff :
    (line : List ℕ) (m : RequestLine)
    → (match_request_line line ≡ some m) ↔ ((line ≡ request_line_text m) × IsRequestLine m)
match_request_line_iff line m =
    (text-match_request_line line m, λ (e, h). rw e (match_request_line-text m h))

pub match_header-text :
    (key value : List ℕ)
    → lacks colon key ≡ true
    → lacks cr value ≡ true
    → lacks lf value ≡ true
    → match_header (key ++ colon ∷ space ∷ value) ≡ some (key, value)
unfolding match_header skip_space
match_header-text key value h hc hl =
    let e = split_at_byte-append colon key (space ∷ value) h in cc (e, hc, hl)
