-- ===== src/Buffer/Window.antt =====
-- The cells from an index on, and what is found there after a message was read into the buffer.
use nsu_net_course.Prelude.{ℕ, zero, suc, List, [], ◌∷◌, ◌++◌, ◌≡◌, refl, ap, ◌∙◌, length}
use nsu_net_course.Buffer.{Buffer, overwrite, prefix}

abbrev pub window : ℕ → ℕ → Buffer → List ℕ
window zero i b = []
window (suc n) i b = b i ∷ window n (suc i) b

pub window-suc : (n i : ℕ) (b : Buffer) → window n (suc i) b ≡ window n i (λ j. b (suc j))
window-suc zero i b = refl
window-suc (suc n) i b = ap (◌∷◌ (b (suc i))) (window-suc n (suc i) b)

pub length-window : (n i : ℕ) (b : Buffer) → length (window n i b) ≡ n
length-window zero i b = refl
length-window (suc n) i b = ap suc (length-window n (suc i) b)

pub window-overwrite :
    (xs zs : List ℕ) (b : Buffer) → window (length xs) 0 (overwrite (xs ++ zs) b) ≡ xs
unfolding overwrite
window-overwrite [] zs b = refl
window-overwrite (x ∷ xs) zs b = ap (◌∷◌ x) (
    window-suc (length xs) 0 (overwrite (x ∷ (xs ++ zs)) b)
    ∙ window-overwrite xs zs (λ i. b (suc i)))

pub window-overwrite_all : (xs : List ℕ) (b : Buffer) → window (length xs) 0 (overwrite xs b) ≡ xs
unfolding overwrite
window-overwrite_all [] b = refl
window-overwrite_all (x ∷ xs) b =
    ap (◌∷◌ x)
      (window-suc (length xs) 0 (overwrite (x ∷ xs) b) ∙ window-overwrite_all xs (λ i. b (suc i)))

-- The two bytes behind a text in a message.
pub overwrite-append_two :
    (xs : List ℕ) (y z : ℕ) (zs : List ℕ) (b : Buffer)
    → (overwrite (xs ++ (y ∷ z ∷ zs)) b (length xs) ≡ y)
      × (overwrite (xs ++ (y ∷ z ∷ zs)) b (suc (length xs)) ≡ z)
unfolding overwrite
overwrite-append_two [] y z zs b = (refl, refl)
overwrite-append_two (x ∷ xs) y z zs b = overwrite-append_two xs y z zs (λ i. b (suc i))

pub prefix-overwrite_append :
    (xs zs : List ℕ) (b : Buffer) → prefix (length xs) (overwrite (xs ++ zs) b) ≡ xs
unfolding prefix overwrite
prefix-overwrite_append [] zs b = refl
prefix-overwrite_append (x ∷ xs) zs b = ap (◌∷◌ x) (prefix-overwrite_append xs zs (λ i. b (suc i)))
