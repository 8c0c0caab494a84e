-- ===== src/Buffer/ReadFd.antt =====
-- `readFd` and `writFd` of src/net/Buffer.cc. `readv` and `write` are the kernel's: the first is a
-- parameter that says what it moved into the room it is given, at most as much as that.
use network_library.Prelude.{
  ℕ, ◌+◌, ◌-◌, ◌≤◌, ◌≡◌, ◌⊎◌, refl, ap, sym, ◌∙◌, List, [], ◌++◌, Option, some, arith, length, take,
  drop, write_at, length-take, length-drop, length-write_at, leb, Bool-cases, inl, inr, leb→le,
  leb→lt, take-append-drop,
}
use mathlib.Core.List.{append_assoc, append-nil}
use network_library.Prelude.Windows.{window-write_at}
use network_library.Buffer.{
  Buffer, max_size, extra_size, ReadResult, read_room, take_in, read_fd, writable_bytes, append,
  put, WriteResult, writ_fd,
}
use network_library.Buffer.Valid.{IsValid, sizes}
use network_library.Buffer.Contents.{contents}
use network_library.Buffer.Append.{append_lem, put_lem}

-- `readv` moves no more bytes than it has room for.
abbrev pub HonoursRoom : (ℕ → ReadResult) → Type 0
HonoursRoom readv =
    (room : ℕ) (bytes : List ℕ) → readv room ≡ ReadResult.received bytes → length bytes ≤ room

abbrev pub bytes_of : ReadResult → List ℕ
bytes_of (ReadResult.failed errno) = []
bytes_of (ReadResult.received bytes) = bytes

abbrev Gains : List ℕ → Buffer → Option Buffer → Type 0
Gains bytes b r = (b' : Buffer) × (r ≡ some b') × IsValid b' × (contents b' ≡ contents b ++ bytes)

-- More bytes than the buffer holds: the rest comes out of `extrabuf`.
spill-Gains :
    {b : Buffer} (bytes : List ℕ)
    → IsValid b
    → length b.buffer + extra_size ≤ max_size
    → writable_bytes b ≤ length bytes
    → length bytes ≤ writable_bytes b + extra_size
    → Gains bytes b (
        append (drop (writable_bytes b) bytes) (record b {
          buffer = write_at b.writer_index (take (writable_bytes b) bytes) b.buffer;
          writer_index = length b.buffer;
        }))
spill-Gains {b} bytes v small more fits =
    let (b', e, w, c, _) =
      append_lem {b = full} rest full-IsValid (omega (arith, count, same_length)) in
    (
      b',
      e,
      w,
      c
          ∙ ap (λ xs. xs ++ rest) full-contents
          ∙ append_assoc (contents b) first rest
          ∙ ap (◌++◌ (contents b)) (take-append-drop (writable_bytes b) bytes),
    )
  where
    first : List ℕ
    first = take (writable_bytes b) bytes

    rest : List ℕ
    rest = drop (writable_bytes b) bytes

    full : Buffer
    full = record b {
      buffer = write_at b.writer_index first b.buffer;
      writer_index = length b.buffer;
    }

    count : (length first ≡ writable_bytes b) × (length rest ≡ length bytes - writable_bytes b)
    count =
        omega (arith, length-take (writable_bytes b) bytes, length-drop (writable_bytes b) bytes)

    same_length : length full.buffer ≡ length b.buffer
    same_length = length-write_at b.writer_index first b.buffer

    full-IsValid : IsValid full
    full-IsValid = omega (arith, same_length)

    full-contents : contents full ≡ contents b ++ first
    full-contents =
        window-write_at b.reader_index b.writer_index (length b.buffer) first b.buffer v.order
          (omega (arith, count)) (omega arith)

take_in-Gains :
    {b : Buffer} (bytes : List ℕ)
    → IsValid b
    → length b.buffer + extra_size ≤ max_size
    → length bytes ≤ writable_bytes b + extra_size
    → Gains bytes b (take_in bytes b)
unfolding take_in
take_in-Gains {b} bytes v small fits = elim (Bool-cases (leb (length bytes) (writable_bytes b))) [
  | inl held ↦
      let (w, c) = put_lem bytes v (omega (arith, leb→le _ _ held)) in (put bytes b, rw held, w, c)
  | inr more ↦ rw more (spill-Gains bytes v small (omega (arith, leb→lt _ _ more)) fits)
]

ReadResult-cases :
    (r : ReadResult)
    → ((errno : ℕ) × (r ≡ ReadResult.failed errno))
      ⊎ ((bytes : List ℕ) × (r ≡ ReadResult.received bytes))
ReadResult-cases (ReadResult.failed errno) = inl (errno, refl)
ReadResult-cases (ReadResult.received bytes) = inr (bytes, refl)

-- Whatever `readv` delivers, into the buffer or past it into the 64K on the stack, `readFd` returns
-- it and appends exactly those bytes; on an error it returns the error and the readable bytes stay.
-- The hypotheses: `readv` respects the room it is given, and the vector may grow by 64K.
pub read_fd_lem :
    (readv : ℕ → ReadResult) {b : Buffer}
    → HonoursRoom readv
    → IsValid b
    → length b.buffer + extra_size ≤ max_size
    → (b' : Buffer) × (read_fd readv b ≡ some (readv (read_room b), b'))
      × IsValid b'
      × (contents b' ≡ contents b ++ bytes_of (readv (read_room b)))
unfolding read_fd
read_fd_lem readv {b} honours v small = elim (ReadResult-cases (readv (read_room b))) [
  | inl (errno, e) ↦ (b, rw (e, read_fd), v, rw e (sym (append-nil (contents b))))
  | inr (bytes, e) ↦
      let fits = honours (read_room b) bytes e in
      let (b', t, w, c) = take_in-Gains bytes v small (ground arith) in
      (b', rw (e, read_fd) (rw t), w, rw e c)
]

-- `writFd` hands exactly the readable bytes to `write`, and returns what that says.
pub writ_fd-contents :
    (write : List ℕ → WriteResult) {b : Buffer} → IsValid b → writ_fd write b ≡ write (contents b)
unfolding writ_fd
writ_fd-contents write {b} v =
    ap write (ap (λ n. take n (drop b.reader_index b.buffer)) (sizes v).0)
