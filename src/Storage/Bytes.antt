-- ===== src/Storage/Bytes.antt =====
-- `copy_from_slice` into, and slices out of, a vector of bytes.
use postgrust_sql.Prelude.{
  ℕ, zero, suc, ◌+◌, ◌≤◌, ◌≡◌, ◌⊎◌, inl, refl, ap, List, [], ◌∷◌, length, arith,
}

-- `data[offset..offset + bytes.len()].copy_from_slice(bytes)`, in range
unfoldable pub write : ℕ → List ℕ → List ℕ → List ℕ
write o bs [] = []
write zero [] (x ∷ d) = x ∷ d
write zero (b ∷ bs) (x ∷ d) = b ∷ write zero bs d
write (suc o) bs (x ∷ d) = x ∷ write o bs d

-- `&data[offset..offset + len]`, in range
unfoldable pub read : ℕ → ℕ → List ℕ → List ℕ
read o n [] = []
read zero zero (x ∷ d) = []
read zero (suc n) (x ∷ d) = x ∷ read zero n d
read (suc o) n (x ∷ d) = read o n d

pub length-write : (o : ℕ) (bs d : List ℕ) → length (write o bs d) ≡ length d
unfolding write
length-write o bs [] = refl
length-write zero [] (x ∷ d) = refl
length-write zero (b ∷ bs) (x ∷ d) = omega (arith, length-write zero bs d)
length-write (suc o) bs (x ∷ d) = omega (arith, length-write o bs d)

-- What was written in range is read back.
pub read-write :
    (o : ℕ) (bs d : List ℕ) → o + length bs ≤ length d → read o (length bs) (write o bs d) ≡ bs
unfolding read write
read-write zero [] [] h = refl
read-write (suc o) bs [] h = absurd (omega arith)
read-write zero (b ∷ bs) [] h = absurd (omega arith)
read-write zero [] (x ∷ d) h = refl
read-write zero (b ∷ bs) (x ∷ d) h = ap (λ t. b ∷ t) (read-write zero bs d (omega arith))
read-write (suc o) bs (x ∷ d) h = read-write o bs d (omega arith)

-- A write leaves what stands before or behind it.
pub read-write_disjoint :
    (a n o : ℕ) (bs d : List ℕ)
    → (a + n ≤ o) ⊎ (o + length bs ≤ a)
    → read a n (write o bs d) ≡ read a n d
unfolding read write
read-write_disjoint a n o bs [] h = refl
read-write_disjoint zero zero zero [] (x ∷ d) h = refl
read-write_disjoint zero zero zero (b ∷ bs) (x ∷ d) h = refl
read-write_disjoint zero zero (suc o) bs (x ∷ d) h = refl
read-write_disjoint zero (suc n) zero [] (x ∷ d) h = refl
read-write_disjoint zero (suc n) zero (b ∷ bs) (x ∷ d) h = absurd (omega arith)
read-write_disjoint zero (suc n) (suc o) bs (x ∷ d) h =
    ap (λ t. x ∷ t) (read-write_disjoint zero n o bs d (inl (omega arith)))
read-write_disjoint (suc a) n zero [] (x ∷ d) h = refl
read-write_disjoint (suc a) n zero (b ∷ bs) (x ∷ d) h =
    read-write_disjoint a n zero bs d (ground arith)
read-write_disjoint (suc a) n (suc o) bs (x ∷ d) h = read-write_disjoint a n o bs d (ground arith)
