-- ===== src/Wire/RoundTrip.antt =====
-- The layout of src/mprpcchannel.cc is what src/rpcprovider.cc reads.
use mprpc_advanced_z.Base.{
  ℕ, ◌+◌, ◌%◌, ◌^◌, ◌<◌, ◌≡◌, refl, ap, ◌∙◌, ◌++◌, some, length, take, arith, ltb, length-append,
  take-append, drop-append, false, append_assoc,
}
use mprpc_advanced_z.Base.Bytes.{Bytes, substr}
use mprpc_advanced_z.Wire.{u32_bytes, u32_of, frame, header_size_of, header_str_of, args_str_of}

u32_of-u32_bytes : (n : ℕ) → n < 2 ^ 32 → u32_of (u32_bytes n) ≡ n
unfolding u32_of u32_bytes
u32_of-u32_bytes n h = omega arith

-- A part of a string behind a known front.
pub substr-part :
    (a b c : Bytes) (pos n : ℕ)
    → pos ≡ length a
    → n ≡ length b
    → substr pos n (a ++ (b ++ c)) ≡ some b
unfolding substr
substr-part a b c pos n p q =
    let inside : ltb (length (a ++ (b ++ c))) pos ≡ false =
      ground (arith, length-append a (b ++ c)) in
    rw inside (ap some (ap (take n) (drop-append a (b ++ c) pos p) ∙ take-append b c n q))

module _ (header args rest : Bytes) (fits : 4 + length header < 2 ^ 32) where
  -- The three parts, and what follows them in the buffer.
  message : Bytes
  message = frame header args ++ rest

  prefix : Bytes
  prefix = u32_bytes (length header)

  message-parts : message ≡ prefix ++ (header ++ (args ++ rest))
  unfolding message prefix frame
  message-parts =
      let size : length header % 2 ^ 32 ≡ length header = omega arith in rw size (simp append_assoc)

  length-prefix : 4 ≡ length prefix
  unfolding prefix u32_bytes
  length-prefix = refl

  header_size_of-message : header_size_of message ≡ length header
  unfolding header_size_of
  header_size_of-message = rw message-parts (
      ap u32_of (take-append prefix _ 4 length-prefix)
      ∙ unfold prefix in u32_of-u32_bytes (length header) (omega arith))

  header_str_of-message : header_str_of message ≡ some header
  unfolding header_str_of
  header_str_of-message =
      rw (header_size_of-message, message-parts)
        (substr-part prefix header (args ++ rest) 4 (length header) length-prefix refl)

  args_str_of-message : args_str_of (length args) message ≡ some args
  unfolding args_str_of
  args_str_of-message =
      let pos : (4 + length header) % 2 ^ 32 ≡ length (prefix ++ header) =
        omega (arith, length-append prefix header, length-prefix) in
      rw (header_size_of-message, message-parts, ← append_assoc prefix header (args ++ rest))
        (substr-part (prefix ++ header) args rest _ (length args) pos refl)

-- What the provider reads from a message of the client are the parts that the client put in, also
-- when other bytes follow, as long as the header leaves room for its prefix in a uint32_t.
pub frame_parts :
    (header args rest : Bytes)
    → 4 + length header < 2 ^ 32
    → (header_str_of (frame header args ++ rest) ≡ some header)
      × (args_str_of (length args) (frame header args ++ rest) ≡ some args)
frame_parts header args rest h =
    unfold message in
    (header_str_of-message header args rest h, args_str_of-message header args rest h)
