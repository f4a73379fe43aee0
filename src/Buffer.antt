-- ===== src/Buffer.antt =====
-- A C array of bytes: its cells by index. The array's size is checked where the code reads.
pub mod Window
pub mod Writes
pub mod Appends
use nsu_net_course.Prelude.{
  ℕ, zero, suc, List, [], ◌∷◌, Option, none, some, leb, ltb, ◌==◌, if◌then◌else◌, ◌≡◌, refl, ap,
  length, ◌<◌, All, ◌+◌, ◌-◌, true, false, ◌>>=?◌,
}

abbrev pub Buffer : Type 0
Buffer = ℕ → ℕ

-- The first `n` cells.
unfoldable pub prefix : ℕ → Buffer → List ℕ
prefix zero b = []
prefix (suc n) b = b 0 ∷ prefix n (λ i. b (suc i))

-- `b` with its first cells overwritten.
unfoldable pub overwrite : List ℕ → Buffer → Buffer
overwrite [] b i = b i
overwrite (x ∷ xs) b zero = x
overwrite (x ∷ xs) b (suc i) = overwrite xs (λ j. b (suc j)) i

abbrev pub write_at : ℕ → ℕ → Buffer → Buffer
write_at i v b j = if j == i then v else b j

-- `b` with the cells from index `i` on overwritten.
abbrev pub overwrite_at : ℕ → List ℕ → Buffer → Buffer
overwrite_at i xs b j = if ltb j i then b j else overwrite xs (λ n. b (i + n)) (j - i)

-- `strlen` of the text at index `i`, with `n` cells from there to the end of the array; `none` is
-- a text that does not end in the array.
unfoldable pub strlen : ℕ → ℕ → Buffer → Option ℕ
strlen zero i b = none
strlen (suc n) i b = elim (b i == 0) [
  | true ↦ some 0
  | false ↦ strlen n (suc i) b >>=? λ m. some (suc m)
]

-- A cell of an array of `size` cells.
abbrev pub cell : ℕ → Buffer → ℕ → Option ℕ
cell size b i = if ltb i size then some (b i) else none

-- The first `n` cells of an array of `size` cells.
abbrev pub cells : ℕ → Buffer → ℕ → Option (List ℕ)
cells size b n = if leb n size then some (prefix n b) else none

pub prefix-overwrite : (xs : List ℕ) (b : Buffer) → prefix (length xs) (overwrite xs b) ≡ xs
unfolding prefix overwrite
prefix-overwrite [] b = refl
prefix-overwrite (x ∷ xs) b = ap (◌∷◌ x) (prefix-overwrite xs (λ i. b (suc i)))

-- Every cell of the buffer is a byte.
abbrev pub AreBytes : Buffer → Type 0
AreBytes b = (i : ℕ) → b i < 256

pub overwrite-AreBytes :
    (xs : List ℕ) (b : Buffer) → All (λ x. x < 256) xs → AreBytes b → AreBytes (overwrite xs b)
unfolding overwrite
overwrite-AreBytes [] b h v i = v i
overwrite-AreBytes (x ∷ xs) b h v zero = h.0
overwrite-AreBytes (x ∷ xs) b h v (suc i) =
    overwrite-AreBytes xs (λ j. b (suc j)) h.1 (λ j. v (suc j)) i
