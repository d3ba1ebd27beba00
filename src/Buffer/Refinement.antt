-- ===== src/Buffer/Refinement.antt =====
-- A run of calls on the buffer of src/include/buffer.h, against a plain queue of bytes.
use mprpc_advanced_z.Base.{
  ℕ, ◌+◌, ◌≤◌, ◌<◌, ◌≡◌, refl, ap, ap₂, ◌∙◌, List, [], ◌∷◌, ◌++◌, arith, length, drop, size_mod,
}
use mprpc_advanced_z.Base.Bytes.{Bytes}
use mprpc_advanced_z.Buffer.{Buffer, retrieve, retrieve_all_as_string, append, IsValid, contents}
use mprpc_advanced_z.Buffer.Contents.{
  append_writer, append_correct, retrieve_correct, retrieve_all_as_string_correct,
}

-- The calls that a connection makes.
pub data Call : Type 0 where
  appends : Bytes → Call
  retrieves : ℕ → Call
  takes_all : Call

-- What the calls return, in order.
unfoldable pub run : List Call → Buffer → List Bytes
run [] b = []
run (appends ds ∷ cs) b = run cs (append ds b)
run (retrieves n ∷ cs) b = run cs (retrieve n b)
run (takes_all ∷ cs) b = let r = retrieve_all_as_string b in r.0 ∷ run cs r.1

-- The same calls on a queue of bytes.
unfoldable pub spec : List Call → Bytes → List Bytes
spec [] q = []
spec (appends ds ∷ cs) q = spec cs (q ++ ds)
spec (retrieves n ∷ cs) q = spec cs (drop n q)
spec (takes_all ∷ cs) q = q ∷ spec cs []

-- How many bytes the calls write.
unfoldable pub written : List Call → ℕ
written [] = 0
written (appends ds ∷ cs) = length ds + written cs
written (retrieves n ∷ cs) = written cs
written (takes_all ∷ cs) = written cs

retrieve_writer : (n : ℕ) (b : Buffer) → (retrieve n b).m_writer_index ≤ b.m_writer_index
unfolding retrieve
retrieve_writer n b = ground arith

retrieve_all_writer : (b : Buffer) → (retrieve_all_as_string b).1.m_writer_index ≤ b.m_writer_index
unfolding retrieve_all_as_string
retrieve_all_writer b = omega arith

-- Whatever the calls, a buffer answers as a queue of bytes does that starts with its waiting bytes,
-- as long as the bytes written do not take the writer index out of the range of size_t.
pub run-spec :
    (cs : List Call) (b : Buffer)
    → IsValid b
    → b.m_writer_index + written cs < size_mod
    → run cs b ≡ spec cs (contents b)
unfolding run spec written
run-spec [] b v h = refl
run-spec (appends ds ∷ cs) b v h =
    let (v', kept) = append_correct ds b v (omega arith) in
    run-spec cs (append ds b) v' (omega (arith, append_writer ds b v (omega arith)))
    ∙ ap (spec cs) kept
run-spec (retrieves n ∷ cs) b v h =
    let (v', kept) = retrieve_correct n b v in
    run-spec cs (retrieve n b) v' (omega (arith, retrieve_writer n b)) ∙ ap (spec cs) kept
run-spec (takes_all ∷ cs) b v h =
    let (out, v', kept) = retrieve_all_as_string_correct b v in
    let rest = run-spec cs (retrieve_all_as_string b).1 v' (omega (arith, retrieve_all_writer b)) in
    ap₂ ◌∷◌ out (rest ∙ ap (spec cs) kept)
