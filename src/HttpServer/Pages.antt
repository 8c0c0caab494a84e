-- ===== src/HttpServer/Pages.antt =====
-- src/http/HttpServer_test.cc: onRequest answers every request as it is to be answered.
use network_library.Prelude.{
  ℕ, ◌≡◌, refl, ap, ap₂, ◌∙◌, List, ◌++◌, some, ◌==◌, Option-cases, Bool-cases, inl, inr,
}
use network_library.Prelude.Options.{◌>>=◌}
use network_library.Http.Text.{bytes_of}
use network_library.Http.Request.{Request}
use network_library.Http.Response.{Response, set_content_type}
use network_library.HttpServer.{
  FileStat, FileSystem, HttpServer, status_or, error_content, starts_with_ones, add_state_line,
  add_response_header, choose_status, error_html, add_response_content, make_response,
  fill_response, on_request,
}
use network_library.HttpServer.Target.{
  Target, target, type_of, refusing, answer, add_response_header-type_of,
}

make_response-fill_response :
    (files : FileSystem) (s s1 s2 : HttpServer) (r r1 : Response)
    → choose_status files s r ≡ (s1, r1)
    → error_html files r1 s1 ≡ s2
    → make_response files s r ≡ fill_response files s2 r1
unfolding make_response
make_response-fill_response files s s1 s2 r r1 chosen page =
    ap (λ (t, q). fill_response files (error_html files q t) q) chosen
    ∙ ap (λ t. fill_response files t r1) page

-- The object and the response before the content is filled in.
record IsChosen (t : Target) (base : List ℕ) (r : Response) (s : HttpServer) (r1 : Response)
    : Type 0 where
  path : s.path ≡ t.path
  file : s.file_stat ≡ t.file
  root : s.static_file_path ≡ base
  told : status_or (bytes_of "Bad Request") t.code ≡ t.message
  line : add_state_line r1 ≡ record r { code = t.code; status_message = t.message }

module _ (files : FileSystem) (forbidden missing : FileStat) (s : HttpServer) (r : Response)
    (has_403 : files.stat (s.static_file_path ++ bytes_of "/403.html") ≡ some forbidden)
    (has_404 : files.stat (s.static_file_path ++ bytes_of "/404.html") ≡ some missing)
    (new : r.code ≡ 0) where
  abbrev Chosen : Type 0
  Chosen =
      (s2 : HttpServer) × (r1 : Response) × (make_response files s r ≡ fill_response files s2 r1)
      × IsChosen (target files forbidden missing s.static_file_path s.path) s.static_file_path r s2
          r1

  chosen_missing :
      (s1 : HttpServer)
      → s1.static_file_path ≡ s.static_file_path
      → files.stat (s1.static_file_path ++ bytes_of "/404.html") ≡ some missing
      → choose_status files s r ≡ (s1, record r { code = 404 })
      → target files forbidden missing s.static_file_path s.path ≡ record {
        path = bytes_of "/404.html";
        file = missing;
        code = 404;
        message = bytes_of "Not Found";
      }
      → Chosen
  unfolding error_html add_state_line
  chosen_missing s1 same known e t =
      let r1 : Response = record r { code = 404 } in
      let s2 : HttpServer = record s1 { path = bytes_of "/404.html"; file_stat = missing } in
      let paged : error_html files r1 s1 ≡ s2 = rw (known, error_html) refl in
      (
        s2,
        r1,
        make_response-fill_response files s s1 s2 r r1 e paged,
        rw t (record { path = refl; file = refl; root = same; told = refl; line = refl }),
      )

  chosen_target : Chosen
  unfolding choose_status error_html add_state_line
  chosen_target = elim (Option-cases (files.stat (s.static_file_path ++ s.path))) [
    | inl absent ↦
        chosen_missing s refl has_404 (rw (absent, choose_status) refl) (rw (absent, target) refl)
    | inr (file, here) ↦
        let s1 : HttpServer = record s { file_stat = file } in
        elim (Bool-cases file.is_directory) [
          | inl dir ↦
              chosen_missing s1 refl has_404 (rw (here, choose_status) (rw dir refl))
                (rw (here, target) (rw dir refl))
          | inr plain ↦ elim (Bool-cases file.others_read) [
            | inl readable ↦
                let r1 : Response = record r { code = 200 } in
                (
                  s1,
                  r1,
                  make_response-fill_response files s s1 s1 r r1
                      (rw (here, choose_status) (rw (plain, readable, new) refl)) refl,
                  rw (here, target)
                      (rw (plain, readable)
                        (record {
                          path = refl;
                          file = refl;
                          root = refl;
                          told = refl;
                          line = refl;
                        })),
                )
            | inr hidden ↦
                let r1 : Response = record r { code = 403 } in
                let s2 : HttpServer = record s1 {
                  path = bytes_of "/403.html";
                  file_stat = forbidden;
                } in
                let paged : error_html files r1 s1 ≡ s2 = rw (has_403, error_html) refl in
                (
                  s2,
                  r1,
                  make_response-fill_response files s s1 s2 r r1
                      (rw (here, choose_status) (rw (plain, hidden) refl)) paged,
                  rw (here, target)
                      (rw (plain, hidden)
                        (record {
                          path = refl;
                          file = refl;
                          root = refl;
                          told = refl;
                          line = refl;
                        })),
                )
          ]
        ]
  ]

-- The response with its status line and its content type.
abbrev headed : Target → Response → Response
headed t r =
    set_content_type (type_of t.path) (record r { code = t.code; status_message = t.message })

error_content-refusing :
    (t : Target) (r : Response)
    → status_or (bytes_of "Bad Request") t.code ≡ t.message
    → error_content (bytes_of "File NotFound!") (headed t r) ≡ refusing t r
unfolding error_content set_content_type
error_content-refusing t r told = rw told refl

add_response_content-answer :
    (files : FileSystem) (t : Target) (base : List ℕ) (r : Response) (s : HttpServer)
    (r1 : Response)
    → IsChosen t base r s r1
    → add_response_content files s (headed t r) ≡ answer t r (files.open_file (base ++ t.path))
unfolding add_response_content set_content_type
add_response_content-answer files t base r s r1 c =
    let same = ap₂ (λ (b p : List ℕ). files.open_file (b ++ p)) c.root c.path in
    let refused = error_content-refusing t r c.told in
    elim (Option-cases (files.open_file (base ++ t.path))) [
      | inl shut ↦ rw (same ∙ shut, add_response_content) (rw shut (ap some refused))
      | inr (content, here) ↦
          rw (same ∙ here, add_response_content)
            (rw (here, c.file)
              (elim (Bool-cases (t.file.size == 0)) [
                | inl empty ↦ rw empty refl
                | inr full ↦ elim (Bool-cases (starts_with_ones content)) [
                  | inl ones ↦ rw (full, ones) (ap some refused)
                  | inr sound ↦ rw (full, sound) refl
                ]
              ]))
    ]

filled :
    (files : FileSystem) (t : Target) (base : List ℕ) (r : Response) (s : HttpServer)
    (r1 : Response)
    → IsChosen t base r s r1
    → fill_response files s r1
      ≡ (answer t r (files.open_file (base ++ t.path)) >>= λ r'. some (s, r'))
unfolding fill_response
filled files t base r s r1 c =
    let line : add_response_header s.path (add_state_line r1) ≡ headed t r =
      add_response_header-type_of s.path (add_state_line r1)
      ∙ ap₂ (λ p q. set_content_type (type_of p) q) c.path c.line in
    ap (λ m. m >>= λ r'. some (s, r'))
      (ap (λ h. add_response_content files s h) line
        ∙ add_response_content-answer files t base r s r1 c)

-- onRequest on a new response, where `stat` knows the pages for 403 and 404. The file of the answer is that of the
-- request, if it is there, is no directory and others may read it, the page for 403 if others may not read it, and the
-- page for 404 otherwise. Where that file opens, is not empty and does not begin with four bytes of ones, the answer has
-- its content, the content type of its path and the message of its code, but always the code 200. Where it does not
-- open or begins with four bytes of ones, the answer says under its own code that there is no file. Where it opens and
-- `stat` says that it is empty there is no answer, since the code reads through a mapping that failed.
pub on_request-answers :
    (files : FileSystem) (forbidden missing : FileStat) (cwd : List ℕ) (request : Request)
    (s : HttpServer) (r : Response)
    → files.stat ((cwd ++ bytes_of "/resources/") ++ bytes_of "/403.html") ≡ some forbidden
    → files.stat ((cwd ++ bytes_of "/resources/") ++ bytes_of "/404.html") ≡ some missing
    → r.code ≡ 0
    → let root = cwd ++ bytes_of "/resources/" in
      let t = target files forbidden missing root request.path in
      (s' : HttpServer) × (on_request files cwd request s r
        ≡ (answer t r (files.open_file (root ++ t.path)) >>= λ r'. some (s', r')))
unfolding on_request
on_request-answers files forbidden missing cwd request s r has_403 has_404 new =
    let s0 : HttpServer = record s {
      static_file_path = cwd ++ bytes_of "/resources/";
      headers = request.header;
      path = request.path;
    } in
    let (s2, r1, made, c) = chosen_target files forbidden missing s0 r has_403 has_404 new in
    (s2, made ∙ filled files _ _ r s2 r1 c)
