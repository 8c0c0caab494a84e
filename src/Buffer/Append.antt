-- ===== src/Buffer/Append.antt =====
-- `append` puts bytes behind the readable ones, whether it finds room, compacts or grows.
use network_library.Prelude.{
  ℕ, ◌+◌, ◌-◌, ◌≤◌, ◌<◌, ◌≡◌, ◌↔◌, refl, ap, ◌∙◌, List, ◌++◌, some, none, arith, length, take, drop,
  write_at, replicate, length-append, length-take, length-drop, ltb→lt, ltb→le, length-replicate,
  length-write_at, ltb, Bool-cases, inl, inr,
}
use network_library.Prelude.Words.{add_size}
use network_library.Prelude.Windows.{window-write_at, window-write_at_self, window-append}
use network_library.Buffer.{
  Buffer, max_size, cheap_prepend, readable_bytes, writable_bytes, prependable_bytes, resize,
  compact, make_space, ensure_writable_bytes, put, append,
}
use network_library.Buffer.Valid.{IsValid, sizes}
use network_library.Buffer.Contents.{contents}

-- Room for `n` more bytes behind the same readable bytes.
pub record HasRoom (n : ℕ) (b b' : Buffer) : Type 0 where
  pub valid : IsValid b'
  pub room : b'.writer_index + n ≤ length b'.buffer
  pub same : contents b' ≡ contents b
  pub behind : b'.writer_index ≤ b.writer_index

compact-HasRoom :
    {b : Buffer} (n : ℕ)
    → IsValid b
    → n + cheap_prepend ≤ writable_bytes b + b.reader_index
    → HasRoom n b (compact b)
unfolding compact
compact-HasRoom {b} n v h = record {
  valid = omega (arith, same_length);
  room = omega (arith, same_length);
  same =
      window-write_at_self cheap_prepend (add_size cheap_prepend (readable_bytes b)) bytes b.buffer
        (omega (arith, count)) (omega arith)
      ∙ ap (λ k. take k (drop b.reader_index b.buffer)) (sizes v).0;
  behind = omega arith;
}
  where
    bytes : List ℕ
    bytes = take (readable_bytes b) (drop b.reader_index b.buffer)

    count : length bytes ≡ readable_bytes b
    count = omega (
      arith,
      length-take (readable_bytes b) (drop b.reader_index b.buffer),
      length-drop b.reader_index b.buffer,
    )

    same_length : length (write_at cheap_prepend bytes b.buffer) ≡ length b.buffer
    same_length = length-write_at cheap_prepend bytes b.buffer

grow-HasRoom :
    {b : Buffer} (n : ℕ)
    → IsValid b
    → b.writer_index + n ≤ max_size
    → writable_bytes b < n
    → (g : List ℕ) × (resize (add_size b.writer_index n) b.buffer ≡ some g)
      × HasRoom n b (record b { buffer = g })
grow-HasRoom {b} n v h k = (
  b.buffer ++ extra,
  unfold resize in ground arith,
  record {
    valid = omega (arith, total, count);
    room = omega (arith, total, count);
    same = window-append b.reader_index b.writer_index b.buffer extra v.order v.inside;
    behind = omega arith;
  },
)
  where
    extra : List ℕ
    extra = replicate (add_size b.writer_index n - length b.buffer) 0

    count : length extra ≡ add_size b.writer_index n - length b.buffer
    count = length-replicate (add_size b.writer_index n - length b.buffer) 0

    total : length (b.buffer ++ extra) ≡ length b.buffer + length extra
    total = length-append b.buffer extra

pub put_lem :
    {b : Buffer} (str : List ℕ)
    → IsValid b
    → b.writer_index + length str ≤ length b.buffer
    → IsValid (put str b) × (contents (put str b) ≡ contents b ++ str)
unfolding put
put_lem {b} str v h = (
  omega (arith, length-write_at b.writer_index str b.buffer),
  window-write_at b.reader_index b.writer_index (add_size b.writer_index (length str)) str b.buffer
      v.order (omega arith) (omega arith),
)

ensure-HasRoom :
    {b : Buffer} (n : ℕ)
    → IsValid b
    → b.writer_index + n ≤ max_size
    → (b' : Buffer) × (ensure_writable_bytes n b ≡ some b') × HasRoom n b b'
unfolding ensure_writable_bytes make_space
ensure-HasRoom {b} n v h = elim (Bool-cases (ltb (writable_bytes b) n)) [
  | inr enough ↦ (
    b,
    rw enough,
    record {
      valid = v;
      room = omega (arith, ltb→le (writable_bytes b) n enough);
      same = refl;
      behind = omega arith;
    },
  )
  | inl tight ↦
      elim (Bool-cases
        (ltb (add_size (writable_bytes b) (prependable_bytes b)) (add_size n cheap_prepend))) [
          | inl short ↦
              let (g, e, r) = grow-HasRoom n v h (ltb→lt (writable_bytes b) n tight) in
              (record b { buffer = g }, rw (tight, short, e), r)
          | inr wide ↦
              (compact b, rw (tight, wide), compact-HasRoom n v (omega (arith, ltb→le _ _ wide)))
        ]
]

-- `append` succeeds while the vector can still grow to hold the bytes behind the writer, keeps the
-- indices in order, appends exactly those bytes to the readable ones, and moves the writer up by
-- no more than their number.
pub append_lem :
    {b : Buffer} (str : List ℕ)
    → IsValid b
    → b.writer_index + length str ≤ max_size
    → (b' : Buffer) × (append str b ≡ some b')
      × IsValid b'
      × (contents b' ≡ contents b ++ str)
      × (b'.writer_index ≤ b.writer_index + length str)
unfolding append put
append_lem {b} str v h =
    let (room, e, r) = ensure-HasRoom (length str) v h in
    let (w, c) = put_lem str r.valid r.room in
    let behind = r.behind in (put str room, rw e, w, c ∙ ap (λ xs. xs ++ str) r.same, omega arith)

-- `append` throws `std::length_error` exactly when the free bytes, those before the reader
-- included, do not hold the new ones and the vector may not grow by them.
pub append-none_iff :
    {b : Buffer} (str : List ℕ)
    → IsValid b
    → length str ≤ max_size
    → (append str b ≡ none) ↔ (
        (writable_bytes b + b.reader_index < length str + cheap_prepend)
        × (max_size < b.writer_index + length str))
unfolding append ensure_writable_bytes make_space resize
append-none_iff {b} str v h = ground arith
