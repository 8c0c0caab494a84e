-- ===== src/Buffer.antt =====
-- src/net/Buffer.h and src/net/Buffer.cc: the byte buffer of a connection, over a `std::vector<char>`.
--
-- Pointers into the vector are offsets from its start. A byte is any number. `none` is the
-- `std::length_error` that `vector::resize` throws past `max_size`.
pub mod Valid
pub mod Contents
pub mod Append
pub mod ReadFd
pub mod Refine
mod Tests
use network_library.Prelude.{
  ℕ, ◌+◌, ◌-◌, ◌^◌, Bool, List, ◌++◌, Option, none, some, length, take, drop, replicate, write_at,
  ltb, leb, if◌then◌else◌,
}
use network_library.Prelude.Words.{add_size, sub_size}
use network_library.Prelude.Options.{◌>>=◌}

pub record Buffer : Type 0 where
  pub buffer : List ℕ
  pub reader_index : ℕ
  pub writer_index : ℕ

-- `kCheapPrepend`
abbrev pub cheap_prepend : ℕ
cheap_prepend = 8

-- `kInitialSize`
abbrev pub initial_size : ℕ
initial_size = 1024

-- `vector<char>::max_size`
abbrev pub max_size : ℕ
max_size = 2 ^ 63 - 1

-- The constructor, with its argument.
unfoldable pub new : ℕ → Buffer
new initial = record {
  buffer = replicate (add_size cheap_prepend initial) 0;
  reader_index = cheap_prepend;
  writer_index = cheap_prepend;
}

abbrev pub readable_bytes : Buffer → ℕ
readable_bytes b = sub_size b.writer_index b.reader_index

abbrev pub writable_bytes : Buffer → ℕ
writable_bytes b = sub_size (length b.buffer) b.writer_index

abbrev pub prependable_bytes : Buffer → ℕ
prependable_bytes b = b.reader_index

abbrev pub peek : Buffer → ℕ
peek b = b.reader_index

abbrev pub begin_write : Buffer → ℕ
begin_write b = b.writer_index

pub retrieve_all : Buffer → Buffer
retrieve_all b = record b { reader_index = cheap_prepend; writer_index = cheap_prepend }

unfoldable pub retrieve : ℕ → Buffer → Buffer
unfolding retrieve_all
retrieve len b =
    if ltb len (readable_bytes b)
    then record b { reader_index = add_size b.reader_index len }
    else retrieve_all b

unfoldable pub retrieve_until : ℕ → Buffer → Buffer
retrieve_until end b = retrieve (sub_size end (peek b)) b

pub retrieve_as_string : ℕ → Buffer → List ℕ × Buffer
retrieve_as_string len b = (take len (drop (peek b) b.buffer), retrieve len b)

pub retrieve_all_as_string : Buffer → List ℕ × Buffer
retrieve_all_as_string b = retrieve_as_string (readable_bytes b) b

-- `vector::resize`
resize : ℕ → List ℕ → Option (List ℕ)
resize n xs =
    if ltb max_size n
    then none
    else if leb n (length xs)
    then some (take n xs)
    else some (xs ++ replicate (n - length xs) 0)

-- The readable bytes move down to the start, as `std::copy` moves them.
compact : Buffer → Buffer
compact b = record {
  buffer = write_at cheap_prepend (take (readable_bytes b) (drop b.reader_index b.buffer)) b.buffer;
  reader_index = cheap_prepend;
  writer_index = add_size cheap_prepend (readable_bytes b);
}

pub make_space : ℕ → Buffer → Option Buffer
unfolding resize compact
make_space len b =
    if ltb (add_size (writable_bytes b) (prependable_bytes b)) (add_size len cheap_prepend)
    then (resize (add_size b.writer_index len) b.buffer >>= λ grown.
        some (record b { buffer = grown }))
    else some (compact b)

unfoldable pub ensure_writable_bytes : ℕ → Buffer → Option Buffer
ensure_writable_bytes len b = if ltb (writable_bytes b) len then make_space len b else some b

-- `std::copy` to `beginWrite()`, and the writer's move.
unfoldable pub put : List ℕ → Buffer → Buffer
put str b = record b {
  buffer = write_at b.writer_index str b.buffer;
  writer_index = add_size b.writer_index (length str);
}

unfoldable pub append : List ℕ → Buffer → Option Buffer
append str b = do room ← ensure_writable_bytes (length str) b; some (put str room)

-- What a system call hands back: an `errno`, or the bytes that it moved.
pub data ReadResult : Type 0 where
  failed : ℕ → ReadResult
  received : List ℕ → ReadResult

pub data WriteResult : Type 0 where
  failed : ℕ → WriteResult
  wrote : ℕ → WriteResult

-- `sizeof(extrabuf)`
abbrev pub extra_size : ℕ
extra_size = 65536

-- The sum of the `iov_len` that `readv` is given.
abbrev pub read_room : Buffer → ℕ
read_room b =
    if ltb (writable_bytes b) extra_size then writable_bytes b + extra_size else writable_bytes b

-- The bytes that `readv` left in the two vectors become readable.
take_in : List ℕ → Buffer → Option Buffer
unfolding put
take_in bytes b =
    if leb (length bytes) (writable_bytes b)
    then some (put bytes b)
    else append (drop (writable_bytes b) bytes) (record b {
      buffer = write_at b.writer_index (take (writable_bytes b) bytes) b.buffer;
      writer_index = length b.buffer;
    })

-- `readFd`: `readv` is the kernel's, as a function of the room that it is offered.
pub read_fd : (ℕ → ReadResult) → Buffer → Option (ReadResult × Buffer)
unfolding take_in
read_fd readv b = elim (readv (read_room b)) [
  | failed errno ↦ some (failed errno, b)
  | received bytes ↦ (take_in bytes b >>= λ b'. some (received bytes, b'))
]

-- `writFd`: the bytes handed to `write`, and what `write` says. The buffer itself does not change.
pub writ_fd : (List ℕ → WriteResult) → Buffer → WriteResult
writ_fd write b = write (take (readable_bytes b) (drop (peek b) b.buffer))
