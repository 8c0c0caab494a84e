-- ===== src/Buffer/Refine.antt =====
-- The buffer as its client sees it: a queue of bytes.
use network_library.Prelude.{
  ℕ, ◌+◌, ◌≤◌, ◌≡◌, refl, sym, ap, ◌∙◌, List, [], ◌∷◌, ◌++◌, Option, some, arith, length, take,
  drop, take-all, drop-all, take-take, ◌-◌,
}
use network_library.Prelude.Options.{◌>>=◌}
use network_library.Buffer.{
  Buffer, max_size, append, retrieve, retrieve_all, retrieve_as_string, retrieve_all_as_string,
  readable_bytes,
}
use network_library.Buffer.Valid.{IsValid, retrieve-IsValid, retrieve_all-IsValid}
use network_library.Buffer.Contents.{
  contents, length-contents, contents-retrieve, contents-retrieve_all,
}
use network_library.Buffer.Append.{append_lem}

-- A client's calls: `append`, `retrieveAsString`, `retrieveAllAsString`, `retrieveAll`.
pub data Op : Type 0 where
  appends : List ℕ → Op
  takes : ℕ → Op
  takes_all : Op
  clears : Op

-- The strings that the calls return, in order, and the buffer after them.
pub run : Buffer → List Op → Option (List (List ℕ) × Buffer)
run b [] = some ([], b)
run b (appends str ∷ ops) = append str b >>= λ b'. run b' ops
run b (takes n ∷ ops) =
    let (out, b') = retrieve_as_string n b in run b' ops >>= λ r. some (out ∷ r.0, r.1)
run b (takes_all ∷ ops) =
    let (out, b') = retrieve_all_as_string b in run b' ops >>= λ r. some (out ∷ r.0, r.1)
run b (clears ∷ ops) = run (retrieve_all b) ops

-- The same calls on a plain queue of bytes.
pub run_queue : List ℕ → List Op → List (List ℕ) × List ℕ
run_queue q [] = ([], q)
run_queue q (appends str ∷ ops) = run_queue (q ++ str) ops
run_queue q (takes n ∷ ops) = let r = run_queue (drop n q) ops in (take n q ∷ r.0, r.1)
run_queue q (takes_all ∷ ops) = let r = run_queue [] ops in (q ∷ r.0, r.1)
run_queue q (clears ∷ ops) = run_queue [] ops

-- No call takes more bytes than are there, which would read past the end.
abbrev pub Fits : List ℕ → List Op → Type 0
Fits q [] = Unit
Fits q (appends str ∷ ops) = Fits (q ++ str) ops
Fits q (takes n ∷ ops) = (n ≤ length q) × Fits (drop n q) ops
Fits q (takes_all ∷ ops) = Fits [] ops
Fits q (clears ∷ ops) = Fits [] ops

abbrev pub appended : List Op → ℕ
appended [] = 0
appended (appends str ∷ ops) = length str + appended ops
appended (takes n ∷ ops) = appended ops
appended (takes_all ∷ ops) = appended ops
appended (clears ∷ ops) = appended ops

retrieve-behind : {b : Buffer} (n : ℕ) → IsValid b → (retrieve n b).writer_index ≤ b.writer_index
unfolding retrieve retrieve_all
retrieve-behind n v = ground arith

-- The string is read where the buffer keeps it, and is the front of the queue.
pub retrieve_as_string_lem :
    {b : Buffer} (n : ℕ)
    → IsValid b
    → n ≤ length (contents b)
    → let (out, b') = retrieve_as_string n b in
      (out ≡ take n (contents b)) × (contents b' ≡ drop n (contents b)) × IsValid b'
unfolding retrieve_as_string
retrieve_as_string_lem {b} n v h = (
  sym (
      take-take n (b.writer_index - b.reader_index) (drop b.reader_index b.buffer)
        (omega (arith, length-contents v))),
  contents-retrieve n v,
  retrieve-IsValid n v,
)

-- What a run of calls gives when the buffer behaves as the queue `q`.
abbrev pub Agrees : List ℕ → Buffer → List Op → Type 0
Agrees q b ops =
    (b' : Buffer) × (run b ops ≡ some ((run_queue q ops).0, b'))
    × IsValid b'
    × (contents b' ≡ (run_queue q ops).1)

run-Agrees :
    (ops : List Op) {b : Buffer} (q : List ℕ)
    → IsValid b
    → contents b ≡ q
    → Fits q ops
    → b.writer_index + appended ops ≤ max_size
    → Agrees q b ops
unfolding run run_queue retrieve_all_as_string
run-Agrees [] {b} q v e f h = (b, refl, v, e)
run-Agrees (appends str ∷ ops) {b} q v e f h =
    let (b', t, w, c, behind) = append_lem str v (omega arith) in
    let (b'', r, w', c') =
      run-Agrees ops (q ++ str) w (c ∙ ap (λ xs. xs ++ str) e) f (omega arith) in
    (b'', rw t r, w', c')
run-Agrees (takes n ∷ ops) {b} q v e f h =
    let (s, c, w) = retrieve_as_string_lem n v (omega (arith, ap length e)) in
    let behind = retrieve-behind n v in
    let (b'', r, w', c') =
      run-Agrees ops {b = (retrieve_as_string n b).1} (drop n q) w (c ∙ ap (drop n) e) f.1
        (unfold retrieve_as_string in omega arith) in
    (b'', rw (r, s, e), w', c')
run-Agrees (takes_all ∷ ops) {b} q v e f h =
    let n = readable_bytes b in
    let (s, c, w) = retrieve_as_string_lem n v (omega (arith, length-contents v)) in
    let behind = retrieve-behind n v in
    let (b'', r, w', c') =
      run-Agrees ops {b = (retrieve_as_string n b).1} [] w
        (c ∙ drop-all n (contents b) (omega (arith, length-contents v))) f
        (unfold retrieve_as_string in omega arith) in
    (b'', rw (r, s, take-all n (contents b) (omega (arith, length-contents v)), e), w', c')
run-Agrees (clears ∷ ops) {b} q v e f h =
    run-Agrees ops {b = retrieve_all b} [] (retrieve_all-IsValid v) (contents-retrieve_all b) f
      (unfold retrieve_all in omega arith)

-- No sequence of appends and retrievals tells a valid buffer from the plain queue of its readable
-- bytes, if none asks for more bytes than there are, and the vector can grow by what is appended.
pub run_refines :
    (ops : List Op) {b : Buffer}
    → IsValid b
    → Fits (contents b) ops
    → b.writer_index + appended ops ≤ max_size
    → Agrees (contents b) b ops
run_refines ops {b} v f h = run-Agrees ops (contents b) v refl f h
