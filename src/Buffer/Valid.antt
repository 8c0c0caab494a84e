-- ===== src/Buffer/Valid.antt =====
-- The indices of src/net/Buffer.h: 8 <= readerIndex <= writerIndex <= size, as its picture draws
-- them (with the prepended bytes always there).
use network_library.Prelude.{ℕ, ◌+◌, ◌-◌, ◌≤◌, ◌≡◌, arith, length, length-replicate}
use network_library.Prelude.Words.{add_size}
use network_library.Buffer.{
  Buffer, cheap_prepend, max_size, new, readable_bytes, writable_bytes, retrieve, retrieve_all,
}

pub record IsValid (b : Buffer) : Type 0 where
  pub prepend : cheap_prepend ≤ b.reader_index
  pub order : b.reader_index ≤ b.writer_index
  pub inside : b.writer_index ≤ length b.buffer
  pub small : length b.buffer ≤ max_size

-- No `size_t` subtraction wraps in a valid buffer.
pub sizes :
    {b : Buffer}
    → IsValid b
    → (readable_bytes b ≡ b.writer_index - b.reader_index)
      × (writable_bytes b ≡ length b.buffer - b.writer_index)
sizes v = omega arith

pub new-IsValid : (n : ℕ) → n + cheap_prepend ≤ max_size → IsValid (new n)
unfolding new
new-IsValid n h = omega (arith, length-replicate {A = ℕ} (add_size cheap_prepend n) 0)

pub retrieve_all-IsValid : {b : Buffer} → IsValid b → IsValid (retrieve_all b)
unfolding retrieve_all
retrieve_all-IsValid v = omega arith

pub retrieve-IsValid : {b : Buffer} (n : ℕ) → IsValid b → IsValid (retrieve n b)
unfolding retrieve
retrieve-IsValid n v = ground arith
