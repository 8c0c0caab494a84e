-- ===== src/Http/Printing.antt =====
-- src/http/HttpResponse_test.cc: what appendToBuffer leaves in the buffer.
use network_library.Prelude.{
  ℕ, ◌+◌, ◌≤◌, ◌≡◌, refl, sym, ap, subst, ◌∙◌, Bool, true, false, List, [], ◌∷◌, ◌++◌, some, length,
  length-append, arith, if◌then◌else◌,
}
use mathlib.Core.List.{append_assoc, append-nil}
use network_library.Prelude.Options.{◌>>=◌, >>=-some}
use network_library.Buffer.{Buffer, max_size}
use network_library.Buffer.Valid.{IsValid}
use network_library.Buffer.Contents.{contents}
use network_library.Buffer.Append.{append_lem}
use network_library.Http.Text.{bytes_of}
use network_library.Http.Request.{Entries}
use network_library.Http.Response.{
  Response, decimal, crlf, field_pieces, connection_pieces, append_pieces, append_to_buffer,
}

abbrev concat : List (List ℕ) → List ℕ
concat [] = []
concat (xs ∷ rest) = xs ++ concat rest

-- A header section.
abbrev pub header_text : Entries → List ℕ
header_text [] = crlf
header_text ((k, v) ∷ fs) = k ++ (bytes_of ": " ++ (v ++ (crlf ++ header_text fs)))

-- The fields that say what becomes of the connection.
abbrev pub connection_fields : Response → Entries
connection_fields r =
    if r.is_keep_alive
    then (bytes_of "Connection", bytes_of "close") ∷ []
    else (bytes_of "Content-Length", decimal (length r.body))
      ∷ (bytes_of "Connection", bytes_of "Keep-Alive")
      ∷ []

-- A response as HTTP writes it: the status line, the header section with the fields of the connection first, the body.
abbrev pub response_text : Response → List ℕ
response_text r =
    (bytes_of "HTTP/1.1 " ++ decimal r.code ++ bytes_of " ")
    ++ (r.status_message ++ (crlf ++ (header_text (connection_fields r ++ r.header) ++ r.body)))

pub append_pieces_lem :
    (pieces : List (List ℕ)) {b : Buffer}
    → IsValid b
    → b.writer_index + length (concat pieces) ≤ max_size
    → (b' : Buffer) × (append_pieces pieces b ≡ some b')
      × IsValid b'
      × (contents b' ≡ contents b ++ concat pieces)
      × (b'.writer_index ≤ b.writer_index + length (concat pieces))
unfolding append_pieces
append_pieces_lem [] {b} v h = (b, refl, v, sym (append-nil (contents b)), omega arith)
append_pieces_lem (piece ∷ pieces) {b} v h =
    let size = length-append piece (concat pieces) in
    let (b', e, w, c, behind) = append_lem piece v (omega (arith, size, h)) in
    let (b'', e', w', c', behind') = append_pieces_lem pieces w (omega (arith, size, h, behind)) in
    (
      b'',
      >>=-some (append_pieces pieces) e e',
      w',
      c' ∙ ap (λ xs. xs ++ concat pieces) c ∙ append_assoc (contents b) piece (concat pieces),
      omega (arith, size, behind, behind'),
    )

fields-text :
    (fs : Entries) (rest : List ℕ)
    → header_text fs ++ rest ≡ concat (field_pieces fs) ++ (crlf ++ rest)
fields-text [] rest = refl
fields-text ((k, v) ∷ fs) rest =
    append_assoc k (bytes_of ": " ++ (v ++ (crlf ++ header_text fs))) rest
    ∙ ap (λ xs. k ++ 58 ∷ 32 ∷ xs)
        (append_assoc v (crlf ++ header_text fs) rest
          ∙ ap (λ xs. v ++ 13 ∷ 10 ∷ xs) (fields-text fs rest))
    ∙ sym (
        append_assoc k (bytes_of ": " ++ (v ++ (crlf ++ concat (field_pieces fs)))) (crlf ++ rest)
        ∙ ap (λ xs. k ++ 58 ∷ 32 ∷ xs)
            (append_assoc v (crlf ++ concat (field_pieces fs)) (crlf ++ rest)))

status-text :
    (first message rest : List ℕ)
    → concat (first ∷ message ∷ crlf ∷ []) ++ rest ≡ first ++ (message ++ (crlf ++ rest))
status-text first message rest =
    append_assoc first (message ++ crlf) rest
    ∙ ap (λ xs. first ++ xs) (append_assoc message crlf rest)

connection-text :
    (close : Bool) (size rest : List ℕ) (fs : Entries)
    → concat (
          if close
          then (bytes_of "Connection: close" ++ crlf) ∷ []
          else (bytes_of "Content-Length: " ++ size ++ crlf)
            ∷ (bytes_of "Connection: Keep-Alive" ++ crlf)
            ∷ [])
        ++ (concat (field_pieces fs) ++ (crlf ++ rest))
      ≡ header_text (
          (if close
            then (bytes_of "Connection", bytes_of "close") ∷ []
            else (bytes_of "Content-Length", size)
              ∷ (bytes_of "Connection", bytes_of "Keep-Alive")
              ∷ [])
          ++ fs)
        ++ rest
connection-text true size rest fs =
    ap (λ xs. bytes_of "Connection: close" ++ (crlf ++ xs)) (sym (fields-text fs rest))
connection-text false size rest fs =
    ap (λ xs. bytes_of "Content-Length: " ++ xs)
      (append_assoc (size ++ crlf) (bytes_of "Connection: Keep-Alive" ++ crlf) _
        ∙ append_assoc size crlf _
        ∙ ap (λ xs. size ++ (crlf ++ (bytes_of "Connection: Keep-Alive" ++ (crlf ++ xs))))
            (sym (fields-text fs rest))
        ∙ sym (
            append_assoc size
              (crlf ++ (bytes_of "Connection: Keep-Alive" ++ (crlf ++ header_text fs))) rest))

pieces-text :
    (r : Response)
    → concat
          ((bytes_of "HTTP/1.1 " ++ decimal r.code ++ bytes_of " ") ∷ r.status_message ∷ crlf ∷ [])
        ++ (concat (connection_pieces r)
            ++ (concat (field_pieces r.header) ++ concat (crlf ∷ r.body ∷ [])))
      ≡ response_text r
pieces-text r =
    status-text (bytes_of "HTTP/1.1 " ++ decimal r.code ++ bytes_of " ") r.status_message _
    ∙ ap
        (λ xs.
          (bytes_of "HTTP/1.1 " ++ decimal r.code ++ bytes_of " ")
          ++ (r.status_message ++ (crlf ++ xs)))
        (ap (λ xs. concat (connection_pieces r) ++ (concat (field_pieces r.header) ++ (crlf ++ xs)))
            (append-nil r.body)
          ∙ connection-text r.is_keep_alive (decimal (length r.body)) r.body r.header)

-- Four groups of strings, appended one after the other.
four_pieces :
    (p q r s : List (List ℕ)) (b : Buffer)
    → IsValid b
    → b.writer_index + length (concat p ++ (concat q ++ (concat r ++ concat s))) ≤ max_size
    → (b' : Buffer) × ((append_pieces p b >>= λ b1.
          append_pieces q b1 >>= λ b2. append_pieces r b2 >>= append_pieces s)
        ≡ some b')
      × IsValid b'
      × (contents b' ≡ contents b ++ (concat p ++ (concat q ++ (concat r ++ concat s))))
four_pieces p q r s b v h =
    let l1 = length-append (concat p) (concat q ++ (concat r ++ concat s)) in
    let l2 = length-append (concat q) (concat r ++ concat s) in
    let l3 = length-append (concat r) (concat s) in
    let (b1, e1, v1, c1, w1) = append_pieces_lem p v (omega (arith, h, l1)) in
    let (b2, e2, v2, c2, w2) = append_pieces_lem q v1 (omega (arith, h, l1, l2, w1)) in
    let (b3, e3, v3, c3, w3) = append_pieces_lem r v2 (omega (arith, h, l1, l2, l3, w1, w2)) in
    let (b4, e4, v4, c4, w4) = append_pieces_lem s v3 (omega (arith, h, l1, l2, l3, w1, w2, w3)) in
    (
      b4,
      >>=-some _ e1 (>>=-some _ e2 (>>=-some _ e3 e4)),
      v4,
      c4
          ∙ ap (λ xs. xs ++ concat s)
              (c3 ∙ ap (λ xs. xs ++ concat r) (c2 ∙ ap (λ xs. xs ++ concat q) c1))
          ∙ append_assoc ((contents b ++ concat p) ++ concat q) (concat r) (concat s)
          ∙ append_assoc (contents b ++ concat p) (concat q) (concat r ++ concat s)
          ∙ append_assoc (contents b) (concat p) (concat q ++ (concat r ++ concat s)),
    )

-- appendToBuffer, on a valid buffer that may grow by the response, puts the text of the response behind the readable
-- bytes: the status line, the header section in which the connection's own fields stand first, an empty line, the body.
pub append_to_buffer_lem :
    (r : Response) (b : Buffer)
    → IsValid b
    → b.writer_index + length (response_text r) ≤ max_size
    → (b' : Buffer) × (append_to_buffer r b ≡ some b')
      × IsValid b'
      × (contents b' ≡ contents b ++ response_text r)
unfolding append_to_buffer
append_to_buffer_lem r b v h =
    let text = pieces-text r in
    let (b', e, w, c) =
      four_pieces
        ((bytes_of "HTTP/1.1 " ++ decimal r.code ++ bytes_of " ") ∷ r.status_message ∷ crlf ∷ [])
        (connection_pieces r) (field_pieces r.header) (crlf ∷ r.body ∷ []) b v
        (subst (λ xs. b.writer_index + length xs ≤ max_size) (sym text) h) in
    (b', e, w, c ∙ ap (λ xs. contents b ++ xs) text)
