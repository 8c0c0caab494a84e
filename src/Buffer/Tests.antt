-- ===== src/Buffer/Tests.antt =====
-- Runs of the buffer, and its theorems at concrete buffers.
use network_library.Prelude.{
  ℕ, ◌+◌, ◌≤◌, ◌<◌, ◌≡◌, ◌↔◌, refl, List, [], ◌∷◌, none, some, arith, length, take, subst,
  length-take,
}
use network_library.Buffer.{
  Buffer, cheap_prepend, max_size, ReadResult, read_room, WriteResult, append, retrieve,
  retrieve_as_string, put, ensure_writable_bytes, make_space, compact, read_fd, writ_fd,
  writable_bytes,
}
use network_library.Buffer.Valid.{IsValid}
use network_library.Buffer.Contents.{contents, contents-retrieve}
use network_library.Buffer.Append.{append_lem, append-none_iff}
use network_library.Buffer.ReadFd.{HonoursRoom, bytes_of, read_fd_lem, writ_fd-contents}
use network_library.Buffer.Refine.{
  Op, appends, takes, takes_all, Agrees, run_refines, retrieve_as_string_lem,
}

-- Eight bytes in front, two read, `5 ∷ 6` readable, one free.
abbrev small_buffer : Buffer
small_buffer = record {
  buffer = 0 ∷ 0 ∷ 0 ∷ 0 ∷ 0 ∷ 0 ∷ 0 ∷ 0 ∷ 3 ∷ 4 ∷ 5 ∷ 6 ∷ 0 ∷ [];
  reader_index = 10;
  writer_index = 12;
}

small_buffer-IsValid : IsValid small_buffer
small_buffer-IsValid = omega arith

append_compacts :
    append (7 ∷ 8 ∷ []) small_buffer
    ≡ some (record {
      buffer = 0 ∷ 0 ∷ 0 ∷ 0 ∷ 0 ∷ 0 ∷ 0 ∷ 0 ∷ 5 ∷ 6 ∷ 7 ∷ 8 ∷ 0 ∷ [];
      reader_index = 8;
      writer_index = 12;
    })
unfolding append ensure_writable_bytes make_space compact put
append_compacts = refl

abbrev script : List Op
script = appends (7 ∷ 8 ∷ 9 ∷ 1 ∷ []) ∷ takes 3 ∷ takes_all ∷ appends (2 ∷ []) ∷ []

-- A kernel that has three bytes to give.
abbrev three_bytes : ℕ → ReadResult
three_bytes room = ReadResult.received (take room (1 ∷ 2 ∷ 3 ∷ []))

three_bytes-HonoursRoom : HonoursRoom three_bytes
three_bytes-HonoursRoom room bytes e =
    subst (λ r. length (bytes_of r) ≤ room) e
      (omega (arith, length-take {A = ℕ} room (1 ∷ 2 ∷ 3 ∷ [])))

contents-retrieve_example : contents (retrieve 1 small_buffer) ≡ 6 ∷ []
contents-retrieve_example = contents-retrieve 1 small_buffer-IsValid

append_lem_example :
    (b' : Buffer) × (append (7 ∷ 8 ∷ []) small_buffer ≡ some b')
    × IsValid b'
    × (contents b' ≡ 5 ∷ 6 ∷ 7 ∷ 8 ∷ [])
    × (b'.writer_index ≤ 12 + 2)
append_lem_example = append_lem (7 ∷ 8 ∷ []) small_buffer-IsValid (omega arith)

append-none_iff_example :
    (append (7 ∷ 8 ∷ []) small_buffer ≡ none)
    ↔ ((writable_bytes small_buffer + 10 < 2 + cheap_prepend) × (max_size < 12 + 2))
append-none_iff_example = append-none_iff (7 ∷ 8 ∷ []) small_buffer-IsValid (omega arith)

read_fd_lem_example :
    (b' : Buffer) × (read_fd three_bytes small_buffer
      ≡ some (three_bytes (read_room small_buffer), b'))
    × IsValid b'
    × (contents b' ≡ 5 ∷ 6 ∷ 1 ∷ 2 ∷ 3 ∷ [])
read_fd_lem_example =
    read_fd_lem three_bytes three_bytes-HonoursRoom small_buffer-IsValid (omega arith)

writ_fd-contents_example :
    writ_fd (λ bytes. WriteResult.wrote (length bytes)) small_buffer ≡ WriteResult.wrote 2
writ_fd-contents_example =
    writ_fd-contents (λ bytes. WriteResult.wrote (length bytes)) small_buffer-IsValid

retrieve_as_string_lem_example :
    let (out, b') = retrieve_as_string 1 small_buffer in
    (out ≡ 5 ∷ []) × (contents b' ≡ 6 ∷ []) × IsValid b'
retrieve_as_string_lem_example = retrieve_as_string_lem 1 small_buffer-IsValid (omega arith)

run_refines_example : Agrees (5 ∷ 6 ∷ []) small_buffer script
run_refines_example = run_refines script small_buffer-IsValid (omega arith) (omega arith)
