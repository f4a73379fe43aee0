-- ===== src/Buffer/Appends.antt =====
-- Texts written one behind the other, and the length of the text that stands behind others.
use mathlib.Core.Path.{fun_ext}
use nsu_net_course.Prelude.{
  ℕ, zero, suc, ◌+◌, ◌-◌, ◌<◌, List, [], ◌∷◌, ◌++◌, ◌≡◌, ap, ◌∙◌, length, arith, some,
}
use nsu_net_course.Buffer.{Buffer, overwrite, overwrite_at, strlen}
use nsu_net_course.Buffer.Writes.{NoZero, strlen-text, strlen-suc}

zero_plus : (n : ℕ) → 0 + n ≡ n
zero_plus n = omega arith

suc_plus : (i n : ℕ) → suc i + n ≡ suc (i + n)
suc_plus i n = omega arith

overwrite_at-zero : (bs : List ℕ) (b : Buffer) (j : ℕ) → overwrite_at 0 bs b j ≡ overwrite bs b j
overwrite_at-zero bs b j =
    let shift = fun_ext (λ n. ap b (zero_plus n)) in
    ground (arith, ap (λ c. overwrite bs c j) shift)

overwrite_at-suc :
    (i : ℕ) (bs : List ℕ) (b : Buffer) (j : ℕ)
    → overwrite_at (suc i) bs b (suc j) ≡ overwrite_at i bs (λ n. b (suc n)) j
overwrite_at-suc i bs b j =
    let shift = fun_ext (λ n. ap b (suc_plus i n)) in
    ground (arith, ap (λ c. overwrite bs c (j - i)) shift)

overwrite_cell :
    (pre bs : List ℕ) (b : Buffer) (j : ℕ)
    → overwrite_at (length pre) bs (overwrite pre b) j ≡ overwrite (pre ++ bs) b j
unfolding overwrite
overwrite_cell [] bs b j = overwrite_at-zero bs b j
overwrite_cell (x ∷ pre) bs b zero = ground arith
overwrite_cell (x ∷ pre) bs b (suc j) =
    overwrite_at-suc (length pre) bs (overwrite (x ∷ pre) b) j
    ∙ overwrite_cell pre bs (λ i. b (suc i)) j

pub overwrite_at-overwrite :
    (pre bs : List ℕ) (b : Buffer)
    → overwrite_at (length pre) bs (overwrite pre b) ≡ overwrite (pre ++ bs) b
overwrite_at-overwrite pre bs b = fun_ext (overwrite_cell pre bs b)

-- `strlen` of a text behind another.
pub strlen-behind :
    (pre xs zs : List ℕ) (n : ℕ) (b : Buffer)
    → NoZero xs
    → length xs < n
    → strlen n (length pre) (overwrite (pre ++ (xs ++ (0 ∷ zs))) b) ≡ some (length xs)
unfolding overwrite
strlen-behind [] xs zs n b h l = strlen-text xs zs n b h l
strlen-behind (x ∷ pre) xs zs n b h l =
    strlen-suc n (length pre) (overwrite (x ∷ (pre ++ (xs ++ (0 ∷ zs)))) b)
    ∙ strlen-behind pre xs zs n (λ i. b (suc i)) h l
