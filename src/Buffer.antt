-- ===== src/Buffer.antt =====
-- src/include/buffer.h: the byte buffer of a connection, a vector with a reader and a writer index.
-- The indices are size_t values and their sums and differences wrap; std::vector::resize is taken
-- to succeed, since a failed allocation ends the program.
pub mod Copies
pub mod Contents
pub mod Refinement
use mprpc_advanced_z.Base.{
  ℕ, zero, suc, ◌+◌, ◌-◌, ◌≤◌, ◌<◌, ◌≡◌, List, [], ◌∷◌, ◌++◌, arith, ltb, if◌then◌else◌, length,
  take, drop, replicate, add64, sub64, size_mod,
}
use mprpc_advanced_z.Base.Bytes.{Bytes}

pub record Buffer : Type 0 where
  pub m_buffer : Bytes
  pub m_reader_index : ℕ
  pub m_writer_index : ℕ

-- Buffer(initialSize)
unfoldable pub new : ℕ → Buffer
new initial_size = record {
  m_buffer = replicate initial_size 0;
  m_reader_index = 0;
  m_writer_index = 0;
}

unfoldable pub readable_bytes : Buffer → ℕ
readable_bytes b = sub64 b.m_writer_index b.m_reader_index

unfoldable pub writable_bytes : Buffer → ℕ
writable_bytes b = sub64 (length b.m_buffer) b.m_writer_index

-- The bytes from the address that Peek returns to the end of the vector.
unfoldable pub peek : Buffer → Bytes
peek b = drop b.m_reader_index b.m_buffer

unfoldable pub retrieve_all : Buffer → Buffer
retrieve_all b = record b { m_reader_index = 0; m_writer_index = 0 }

unfoldable pub retrieve : ℕ → Buffer → Buffer
unfolding retrieve_all readable_bytes
retrieve len b =
    if ltb len (readable_bytes b)
    then record b { m_reader_index = add64 b.m_reader_index len }
    else retrieve_all b

-- std::string str(Peek(), ReadableBytes())
unfoldable pub retrieve_all_as_string : Buffer → Bytes × Buffer
unfolding retrieve_all readable_bytes peek
retrieve_all_as_string b = (take (readable_bytes b) (peek b), retrieve_all b)

-- std::copy of `data` over the entries from the front; what does not fit would be out of bounds.
unfoldable pub overwrite : Bytes → Bytes → Bytes
overwrite [] buf = buf
overwrite (d ∷ ds) [] = []
overwrite (d ∷ ds) (x ∷ buf) = d ∷ overwrite ds buf

-- std::copy of `data` to the address `at` entries behind the start.
unfoldable pub copy_to : ℕ → Bytes → Bytes → Bytes
unfolding overwrite
copy_to zero ds buf = overwrite ds buf
copy_to (suc at) ds [] = []
copy_to (suc at) ds (x ∷ buf) = x ∷ copy_to at ds buf

-- std::vector::resize
unfoldable pub resize : ℕ → Bytes → Bytes
resize n buf = take n buf ++ replicate (n - length buf) 0

unfoldable pub make_space : ℕ → Buffer → Buffer
unfolding readable_bytes writable_bytes resize copy_to
make_space len b =
    if ltb (add64 (writable_bytes b) b.m_reader_index) len
    then record b { m_buffer = resize (add64 b.m_writer_index len) b.m_buffer }
    else record {
      m_buffer = copy_to 0 (take (readable_bytes b) (drop b.m_reader_index b.m_buffer)) b.m_buffer;
      m_reader_index = 0;
      m_writer_index = readable_bytes b;
    }

unfoldable pub ensure_writable_bytes : ℕ → Buffer → Buffer
unfolding writable_bytes make_space
ensure_writable_bytes len b = if ltb (writable_bytes b) len then make_space len b else b

unfoldable pub append : Bytes → Buffer → Buffer
unfolding ensure_writable_bytes copy_to
append ds b =
    let b' = ensure_writable_bytes (length ds) b in
    record b' {
      m_buffer = copy_to b'.m_writer_index ds b'.m_buffer;
      m_writer_index = add64 b'.m_writer_index (length ds);
    }

-- The indices are in order and inside the vector, whose size is a size_t.
pub record IsValid (b : Buffer) : Type 0 where
  pub ordered : b.m_reader_index ≤ b.m_writer_index
  pub inside : b.m_writer_index ≤ length b.m_buffer
  pub sized : length b.m_buffer < size_mod

-- The abstract value of a buffer: the bytes that have been written and not yet read.
unfoldable pub contents : Buffer → Bytes
contents b = take (b.m_writer_index - b.m_reader_index) (drop b.m_reader_index b.m_buffer)
