-- ===== src/Buffer/Contents.antt =====
-- src/include/buffer.h implements a queue of bytes.
use mprpc_advanced_z.Base.{
  ℕ, ◌+◌, ◌-◌, ◌≤◌, ◌<◌, ◌≡◌, refl, ap, sym, ◌∙◌, [], ◌++◌, arith, inl, inr, ltb, length, take,
  drop, replicate, add64, size_mod, Bool-cases, length-append, length-take, length-drop,
  length-replicate, ltb→lt, ltb→le, add64-eq, slice-append, take_all, drop_all, drop-take,
  drop-drop,
}
use mprpc_advanced_z.Base.Bytes.{Bytes}
use mprpc_advanced_z.Buffer.{
  Buffer, readable_bytes, writable_bytes, peek, retrieve, retrieve_all_as_string, copy_to, resize,
  make_space, ensure_writable_bytes, append, IsValid, contents,
}
use mprpc_advanced_z.Buffer.Copies.{length-copy_to, slice-copy_to, length-overwrite, take-overwrite}

-- The wrapped differences are the true ones.
pub readable_bytes-eq :
    (b : Buffer) → IsValid b → readable_bytes b ≡ b.m_writer_index - b.m_reader_index
unfolding readable_bytes
readable_bytes-eq b v = omega arith

pub writable_bytes-eq :
    (b : Buffer) → IsValid b → writable_bytes b ≡ length b.m_buffer - b.m_writer_index
unfolding writable_bytes
writable_bytes-eq b v = omega arith

pub length-contents : (b : Buffer) → IsValid b → length (contents b) ≡ readable_bytes b
unfolding contents
length-contents b v =
    let n = b.m_writer_index - b.m_reader_index in
    let rest = drop b.m_reader_index b.m_buffer in
    omega
      (arith, readable_bytes-eq b v, length-take n rest, length-drop b.m_reader_index b.m_buffer)

retrieve-IsValid : (n : ℕ) (b : Buffer) → IsValid b → IsValid (retrieve n b)
unfolding retrieve
retrieve-IsValid n b v = ground arith

-- Dropping from a slice, inside it or past its end.
drop-slice :
    (n r r' k k' : ℕ) (xs : Bytes)
    → r' ≡ r + n
    → k ≡ n + k'
    → take k' (drop r' xs) ≡ drop n (take k (drop r xs))
drop-slice n r r' k k' xs e f =
    ap (take k') (sym (drop-drop n r r' xs e)) ∙ sym (drop-take n k k' (drop r xs) f)

retrieve-contents : (n : ℕ) (b : Buffer) → IsValid b → contents (retrieve n b) ≡ drop n (contents b)
unfolding contents retrieve
retrieve-contents n b v = elim (Bool-cases (ltb n (readable_bytes b))) [
  | inl e ↦
      let short : n < b.m_writer_index - b.m_reader_index =
        omega (arith, readable_bytes-eq b v, ltb→lt n (readable_bytes b) e) in
      rw (e, add64-eq b.m_reader_index n (omega arith))
        (drop-slice n b.m_reader_index _ (b.m_writer_index - b.m_reader_index) _ b.m_buffer refl
          (omega arith))
  | inr e ↦ rw e (
      sym (
        drop_all n (contents b)
          (omega (arith, length-contents b v, ltb→le n (readable_bytes b) e))))
]

-- `b'` holds what `b` holds and has room for `n` more bytes.
record HasRoom (n : ℕ) (b b' : Buffer) : Type 0 where
  valid : IsValid b'
  kept : contents b' ≡ contents b
  room : b'.m_writer_index + n ≤ length b'.m_buffer
  back : b'.m_writer_index ≤ b.m_writer_index

grow-HasRoom :
    (n m : ℕ) (b : Buffer)
    → IsValid b
    → m ≡ b.m_writer_index + n
    → length b.m_buffer ≤ m
    → m < size_mod
    → HasRoom n b (record b { m_buffer = resize m b.m_buffer })
unfolding resize contents
grow-HasRoom n m b v e h s =
    let size = length-append (take m b.m_buffer) (replicate (m - length b.m_buffer) 0) in
    let pad = length-replicate {A = ℕ} (m - length b.m_buffer) 0 in
    let front = length-take m b.m_buffer in
    record {
      valid = record { ordered = v.ordered; inside = omega arith; sized = omega arith };
      kept =
          rw (take_all m b.m_buffer h) (slice-append b.m_reader_index _ b.m_buffer _ (omega arith));
      room = omega arith;
      back = omega arith;
    }

compact-HasRoom :
    (n k : ℕ) (b : Buffer)
    → IsValid b
    → k ≡ b.m_writer_index - b.m_reader_index
    → k + n ≤ length b.m_buffer
    → HasRoom n b (record {
      m_buffer = copy_to 0 (take k (drop b.m_reader_index b.m_buffer)) b.m_buffer;
      m_reader_index = 0;
      m_writer_index = k;
    })
unfolding contents copy_to
compact-HasRoom n k b v e h =
    let moved = take k (drop b.m_reader_index b.m_buffer) in
    let size = length-overwrite moved b.m_buffer in
    let part = length-take k (drop b.m_reader_index b.m_buffer) in
    let rest = length-drop b.m_reader_index b.m_buffer in
    record {
      valid = record { ordered = omega arith; inside = omega arith; sized = omega arith };
      kept =
          take-overwrite (k - 0) moved b.m_buffer (omega arith) (omega arith)
          ∙ ap (λ j. take j (drop b.m_reader_index b.m_buffer)) e;
      room = omega arith;
      back = omega arith;
    }

make_space-HasRoom :
    (n : ℕ) (b : Buffer)
    → IsValid b
    → b.m_writer_index + n < size_mod
    → writable_bytes b < n
    → HasRoom n b (make_space n b)
unfolding make_space
make_space-HasRoom n b v h s =
    let free = writable_bytes-eq b v in
    let test = add64-eq (writable_bytes b) b.m_reader_index (omega arith) in
    elim (Bool-cases (ltb (add64 (writable_bytes b) b.m_reader_index) n)) [
      | inl e ↦
          let more = ltb→lt _ _ e in
          rw e (grow-HasRoom n _ b v (add64-eq _ _ h) (omega arith) (omega arith))
      | inr e ↦
          let fits = ltb→le _ _ e in
          let live = readable_bytes-eq b v in rw e (compact-HasRoom n _ b v live (omega arith))
    ]

ensure_writable_bytes-HasRoom :
    (n : ℕ) (b : Buffer)
    → IsValid b
    → b.m_writer_index + n < size_mod
    → HasRoom n b (ensure_writable_bytes n b)
unfolding ensure_writable_bytes
ensure_writable_bytes-HasRoom n b v h = elim (Bool-cases (ltb (writable_bytes b) n)) [
  | inl e ↦ rw e (make_space-HasRoom n b v h (ltb→lt _ _ e))
  | inr e ↦
      let fits = ltb→le _ _ e in
      let free = writable_bytes-eq b v in
      rw e (record { valid = v; kept = refl; room = omega arith; back = omega arith })
]

append-IsValid :
    (ds : Bytes) (b : Buffer)
    → IsValid b
    → b.m_writer_index + length ds < size_mod
    → IsValid (append ds b)
unfolding append
append-IsValid ds b v h =
    let b' = ensure_writable_bytes (length ds) b in
    let r = ensure_writable_bytes-HasRoom (length ds) b v h in
    let size = length-copy_to b'.m_writer_index ds b'.m_buffer in
    let end = add64-eq b'.m_writer_index (length ds) (omega (arith, r.room, r.valid.sized)) in
    record {
      ordered = omega (arith, r.valid.ordered);
      inside = omega (arith, r.room);
      sized = omega (arith, r.valid.sized);
    }

append-contents :
    (ds : Bytes) (b : Buffer)
    → IsValid b
    → b.m_writer_index + length ds < size_mod
    → contents (append ds b) ≡ contents b ++ ds
unfolding append
append-contents ds b v h =
    let b' = ensure_writable_bytes (length ds) b in
    let r = ensure_writable_bytes-HasRoom (length ds) b v h in
    let end = add64-eq b'.m_writer_index (length ds) (omega (arith, r.room, r.valid.sized)) in
    unfold contents in
    slice-copy_to b'.m_reader_index b'.m_writer_index (b'.m_writer_index - b'.m_reader_index) _ ds
      b'.m_buffer (omega (arith, r.valid.ordered)) r.room (omega (arith, r.valid.ordered))
    ∙ ap (λ c. c ++ ds) r.kept

pub append_writer :
    (ds : Bytes) (b : Buffer)
    → IsValid b
    → b.m_writer_index + length ds < size_mod
    → (append ds b).m_writer_index ≤ b.m_writer_index + length ds
unfolding append
append_writer ds b v h =
    let b' = ensure_writable_bytes (length ds) b in
    let r = ensure_writable_bytes-HasRoom (length ds) b v h in
    let end = add64-eq b'.m_writer_index (length ds) (omega (arith, r.room, r.valid.sized)) in
    omega (arith, r.back)

-- Append adds the bytes behind those that wait, whichever way it finds the room, and keeps the
-- indices in order, as long as the writer index does not leave the range of size_t.
pub append_correct :
    (ds : Bytes) (b : Buffer)
    → IsValid b
    → b.m_writer_index + length ds < size_mod
    → IsValid (append ds b) × (contents (append ds b) ≡ contents b ++ ds)
append_correct ds b v h = (append-IsValid ds b v h, append-contents ds b v h)

-- Retrieve drops as many of the waiting bytes as it is told, and all of them if told more.
pub retrieve_correct :
    (n : ℕ) (b : Buffer)
    → IsValid b
    → IsValid (retrieve n b) × (contents (retrieve n b) ≡ drop n (contents b))
retrieve_correct n b v = (retrieve-IsValid n b v, retrieve-contents n b v)

-- RetrieveAllAsString returns the waiting bytes and leaves a valid buffer that holds none.
pub retrieve_all_as_string_correct :
    (b : Buffer)
    → IsValid b
    → ((retrieve_all_as_string b).0 ≡ contents b)
      × IsValid (retrieve_all_as_string b).1
      × (contents (retrieve_all_as_string b).1 ≡ [])
unfolding retrieve_all_as_string
retrieve_all_as_string_correct b v = (
  unfold contents in ap (λ k. take k (peek b)) (readable_bytes-eq b v),
  record { ordered = omega arith; inside = omega arith; sized = v.sized },
  unfold contents in refl,
)
