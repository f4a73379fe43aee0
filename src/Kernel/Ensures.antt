-- ===== src/Kernel/Ensures.antt =====
-- Partial correctness of a computation: if it returns, what it returns satisfies a predicate. An
-- exception satisfies everything.
use nsu_net_course.Prelude.{Bool, true, false, ◌≡◌, refl, if◌then◌else◌}
use nsu_net_course.Kernel.{Kernel, Trace, Outcome, ok, stop, M, ◌>>=◌}
use nsu_net_course.Kernel.Returns.{Returns}

abbrev pub Ensures {ℓ} : {A : Type ℓ} → Outcome A → (A → Trace → Type 0) → Type 0
Ensures (ok a t) P = P a t
Ensures (stop e t) P = Unit

module _ {ℓ} {A : Type ℓ} where
  pub Ensures-bind {κ} :
      {B : Type κ} (m : M A) (f : A → M B) (Q : A → Trace → Type 0) (P : B → Trace → Type 0)
      (k : Kernel) (t : Trace)
      → Ensures (m k t) Q
      → ((a : A) (t' : Trace) → Q a t' → Ensures (f a k t') P)
      → Ensures ((m >>= f) k t) P
  Ensures-bind m f Q P k t h next = go (m k t) h
    where
      go :
          (o : Outcome A)
          → Ensures o Q
          → Ensures (elim o [ ok a t' ↦ f a k t' | stop e t' ↦ stop e t' ]) P
      go (ok a t') q = next a t' q
      go (stop e t') q = tt

  pub Ensures-if :
      (b : Bool) (m n : M A) (P : A → Trace → Type 0) (k : Kernel) (t : Trace)
      → Ensures (m k t) P
      → Ensures (n k t) P
      → Ensures ((if b then m else n) k t) P
  Ensures-if true m n P k t f g = f
  Ensures-if false m n P k t f g = g

  pub Ensures-elim :
      (b : Bool) (m n : M A) (P : A → Trace → Type 0) (k : Kernel) (t : Trace)
      → (b ≡ true → Ensures (m k t) P)
      → (b ≡ false → Ensures (n k t) P)
      → let branch : M A = elim b [ true ↦ m | false ↦ n ] in Ensures (branch k t) P
  Ensures-elim true m n P k t f g = f refl
  Ensures-elim false m n P k t f g = g refl

  pub Ensures-map :
      (o : Outcome A) (Q P : A → Trace → Type 0)
      → Ensures o Q
      → ((a : A) (t : Trace) → Q a t → P a t)
      → Ensures o P
  Ensures-map (ok a t) Q P h next = next a t h
  Ensures-map (stop e t) Q P h next = tt

  pub Ensures-any :
      (o : Outcome A) (P : A → Trace → Type 0) → ((a : A) (t : Trace) → P a t) → Ensures o P
  Ensures-any (ok a t) P h = h a t
  Ensures-any (stop e t) P h = tt

  -- Both what a computation returns and what holds if it returns.
  pub Returns-Ensures :
      (o : Outcome A) (P Q : A → Trace → Type 0)
      → Returns o P
      → Ensures o Q
      → Returns o (λ a t. P a t × Q a t)
  Returns-Ensures (ok a t) P Q h g = (h, g)
  Returns-Ensures (stop e t) P Q h g = h
