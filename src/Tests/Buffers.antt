-- ===== src/Tests/Buffers.antt =====
-- Runs of src/include/buffer.h.
use mprpc_advanced_z.Base.{◌≡◌, List, [], ◌∷◌, arith}
use mprpc_advanced_z.Buffer.{Buffer, IsValid, contents}
use mprpc_advanced_z.Buffer.Refinement.{
  spec, written, Call, appends, retrieves, takes_all, run, run-spec,
}

abbrev small : Buffer
small = record { m_buffer = 0 ∷ 0 ∷ []; m_reader_index = 0; m_writer_index = 0 }

small-IsValid : IsValid small
small-IsValid = record { ordered = omega arith; inside = omega arith; sized = omega arith }

abbrev calls : List Call
calls = appends (7 ∷ 8 ∷ []) ∷ retrieves 1 ∷ appends (9 ∷ []) ∷ takes_all ∷ []

run-spec_example : run calls small ≡ (8 ∷ 9 ∷ []) ∷ []
unfolding spec written contents
run-spec_example = run-spec calls small small-IsValid (omega arith)
