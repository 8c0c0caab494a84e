-- ===== src/Buffer/Contents.antt =====
-- The readable bytes of a buffer, and what taking some of them leaves.
use network_library.Prelude.{
  ap, ◌∙◌, ℕ, ◌≡◌, refl, sym, List, [], arith, length, take, drop, ltb, Bool-cases, inl, inr,
  ltb→lt, ltb→le, drop-all,
}
use network_library.Prelude.Words.{add_size}
use network_library.Prelude.Windows.{window, length-window, window-advance}
use network_library.Buffer.{
  Buffer, readable_bytes, retrieve, retrieve_all, retrieve_as_string, retrieve_all_as_string, new,
}
use network_library.Buffer.Valid.{IsValid, sizes}

abbrev pub contents : Buffer → List ℕ
contents b = window b.reader_index b.writer_index b.buffer

pub length-contents : {b : Buffer} → IsValid b → length (contents b) ≡ readable_bytes b
length-contents {b} v =
    omega (arith, length-window b.reader_index b.writer_index b.buffer v.order v.inside)

pub contents-retrieve_all : (b : Buffer) → contents (retrieve_all b) ≡ []
unfolding retrieve_all
contents-retrieve_all b = refl

pub contents-new : (n : ℕ) → contents (new n) ≡ []
unfolding new
contents-new n = refl

-- `retrieve` drops that many readable bytes; asked for more than there are, it drops them all.
pub contents-retrieve :
    {b : Buffer} (n : ℕ) → IsValid b → contents (retrieve n b) ≡ drop n (contents b)
unfolding retrieve
contents-retrieve {b} n v = elim (Bool-cases (ltb n (readable_bytes b))) [
  | inl part ↦
      let h = ltb→lt n (readable_bytes b) part in
      rw part (
        window-advance b.reader_index (add_size b.reader_index n) b.writer_index n b.buffer
          (omega arith) (omega arith))
  | inr whole ↦ rw whole (
      sym (
        drop-all n (contents b)
          (omega (arith, length-contents v, ltb→le n (readable_bytes b) whole))))
]

-- `retrieveAllAsString` returns the readable bytes and leaves none.
pub retrieve_all_as_string-contents :
    {b : Buffer}
    → IsValid b
    → ((retrieve_all_as_string b).0 ≡ contents b) × (contents (retrieve_all_as_string b).1 ≡ [])
unfolding retrieve_all_as_string retrieve_as_string
retrieve_all_as_string-contents {b} v = (
  ap (λ n. take n (drop b.reader_index b.buffer)) (sizes v).0,
  contents-retrieve (readable_bytes b) v
      ∙ drop-all (readable_bytes b) (contents b) (omega (arith, length-contents v)),
)
