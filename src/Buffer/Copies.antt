-- ===== src/Buffer/Copies.antt =====
-- src/include/buffer.h: what std::copy leaves in the bytes of a buffer.
use mprpc_advanced_z.Base.{
  ℕ, zero, suc, ◌+◌, ◌≤◌, ◌≡◌, refl, ap, [], ◌∷◌, ◌++◌, arith, length, take, drop,
}
use mprpc_advanced_z.Base.Bytes.{Bytes}
use mprpc_advanced_z.Buffer.{overwrite, copy_to}

pub length-overwrite : (ds buf : Bytes) → length (overwrite ds buf) ≡ length buf
unfolding overwrite
length-overwrite [] buf = refl
length-overwrite (d ∷ ds) [] = refl
length-overwrite (d ∷ ds) (x ∷ buf) = ap suc (length-overwrite ds buf)

pub length-copy_to : (at : ℕ) (ds buf : Bytes) → length (copy_to at ds buf) ≡ length buf
unfolding copy_to
length-copy_to zero ds buf = length-overwrite ds buf
length-copy_to (suc at) ds [] = refl
length-copy_to (suc at) ds (x ∷ buf) = ap suc (length-copy_to at ds buf)

pub take-overwrite :
    (n : ℕ) (ds buf : Bytes) → n ≡ length ds → n ≤ length buf → take n (overwrite ds buf) ≡ ds
unfolding overwrite
take-overwrite zero [] buf e h = refl
take-overwrite zero (d ∷ ds) buf e h = absurd (omega arith)
take-overwrite (suc n) [] buf e h = absurd (omega arith)
take-overwrite (suc n) (d ∷ ds) [] e h = absurd (omega arith)
take-overwrite (suc n) (d ∷ ds) (x ∷ buf) e h =
    ap (◌∷◌ d) (take-overwrite n ds buf (omega arith) (omega arith))

-- A copy behind `w` bytes, seen from the byte `r` on.
pub slice-copy_to :
    (r w j k : ℕ) (ds buf : Bytes)
    → j + r ≡ w
    → w + length ds ≤ length buf
    → k ≡ j + length ds
    → take k (drop r (copy_to w ds buf)) ≡ take j (drop r buf) ++ ds
unfolding copy_to
slice-copy_to zero zero zero k ds buf o h e = take-overwrite k ds buf (omega arith) (omega arith)
slice-copy_to zero zero (suc j) k ds buf o h e = absurd (omega arith)
slice-copy_to zero (suc w) zero k ds buf o h e = absurd (omega arith)
slice-copy_to zero (suc w) (suc j) zero ds buf o h e = absurd (omega arith)
slice-copy_to zero (suc w) (suc j) (suc k) ds [] o h e = absurd (omega arith)
slice-copy_to zero (suc w) (suc j) (suc k) ds (x ∷ buf) o h e =
    ap (◌∷◌ x) (slice-copy_to zero w j k ds buf (omega arith) (omega arith) (omega arith))
slice-copy_to (suc r) zero j k ds buf o h e = absurd (omega arith)
slice-copy_to (suc r) (suc w) j k ds [] o h e = absurd (omega arith)
slice-copy_to (suc r) (suc w) j k ds (x ∷ buf) o h e =
    slice-copy_to r w j k ds buf (omega arith) (omega arith) (omega arith)
