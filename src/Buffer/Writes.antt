-- ===== src/Buffer/Writes.antt =====
-- Buffers known by a list: single writes, and the length of a text.
use mathlib.Core.Path.{fun_ext}
use nsu_net_course.Prelude.{
  ℕ, zero, suc, ◌<◌, List, [], ◌∷◌, ◌++◌, ◌≡◌, refl, length, All, arith, Option, none, some, ◌>>=?◌,
}
use nsu_net_course.Buffer.{Buffer, overwrite, write_at, strlen}

-- No byte of a text is zero.
abbrev pub NoZero : List ℕ → Type 0
NoZero = All (λ x. 0 < x)

pub overwrite-at_length :
    (pre : List ℕ) (y : ℕ) (bs : List ℕ) (b : Buffer)
    → overwrite (pre ++ (y ∷ bs)) b (length pre) ≡ y
unfolding overwrite
overwrite-at_length [] y bs b = refl
overwrite-at_length (x ∷ pre) y bs b = overwrite-at_length pre y bs (λ i. b (suc i))

write_cell :
    (pre : List ℕ) (y x : ℕ) (bs : List ℕ) (b : Buffer) (j : ℕ)
    → write_at (length pre) x (overwrite (pre ++ (y ∷ bs)) b) j ≡ overwrite (pre ++ (x ∷ bs)) b j
unfolding overwrite
write_cell [] y x bs b zero = refl
write_cell [] y x bs b (suc j) = ground arith
write_cell (a ∷ pre) y x bs b zero = ground arith
write_cell (a ∷ pre) y x bs b (suc j) = ground (arith, write_cell pre y x bs (λ i. b (suc i)) j)

pub write_at-overwrite :
    (pre : List ℕ) (y x : ℕ) (bs : List ℕ) (b : Buffer)
    → write_at (length pre) x (overwrite (pre ++ (y ∷ bs)) b) ≡ overwrite (pre ++ (x ∷ bs)) b
write_at-overwrite pre y x bs b = fun_ext (write_cell pre y x bs b)

write_end :
    (pre : List ℕ) (x : ℕ) (b : Buffer) (j : ℕ)
    → write_at (length pre) x (overwrite pre b) j ≡ overwrite (pre ++ (x ∷ [])) b j
unfolding overwrite
write_end [] x b zero = refl
write_end [] x b (suc j) = ground arith
write_end (a ∷ pre) x b zero = ground arith
write_end (a ∷ pre) x b (suc j) = ground (arith, write_end pre x (λ i. b (suc i)) j)

pub write_at-end :
    (pre : List ℕ) (x : ℕ) (b : Buffer)
    → write_at (length pre) x (overwrite pre b) ≡ overwrite (pre ++ (x ∷ [])) b
write_at-end pre x b = fun_ext (write_end pre x b)

-- `strlen` from index `i` on looks like `strlen` of the buffer moved by one.
pub strlen-suc : (n i : ℕ) (b : Buffer) → strlen n (suc i) b ≡ strlen n i (λ j. b (suc j))
unfolding strlen
strlen-suc zero i b = refl
strlen-suc (suc n) i b = ground (arith, strlen-suc n (suc i) b)

pub strlen-text :
    (xs zs : List ℕ) (n : ℕ) (b : Buffer)
    → NoZero xs
    → length xs < n
    → strlen n 0 (overwrite (xs ++ (0 ∷ zs)) b) ≡ some (length xs)
unfolding strlen overwrite
strlen-text xs zs zero b h l = elim l [ ]
strlen-text [] zs (suc n) b h l = refl
strlen-text (x ∷ xs) zs (suc n) b h l = ground (
  arith,
  strlen-suc n 0 (overwrite (x ∷ (xs ++ (0 ∷ zs))) b),
  strlen-text xs zs n (λ i. b (suc i)) h.1,
)

pub strlen_rest :
    (o : Option ℕ) (m : ℕ)
    → (o >>=? λ x. some (suc x)) ≡ some m
    → (x : ℕ) × (o ≡ some x) × (m ≡ suc x)
strlen_rest none m h = cc
strlen_rest (some x) m h = (x, refl, cc)
