-- ===== src/Kernel/Runs.antt =====
-- A computation that returns what satisfies a predicate, or stops in an allowed way. One rule for each
-- way to build a computation.
use nsu_net_course.Prelude.{Bool, true, false, ◌≡◌, refl, if◌then◌else◌}
use nsu_net_course.Exceptions.{Failure}
use nsu_net_course.Kernel.{Kernel, Trace, Outcome, ok, stop, M, ◌>>=◌}
use nsu_net_course.Kernel.Returns.{Returns}
use nsu_net_course.Kernel.Ensures.{Ensures}

abbrev pub Runs {ℓ} :
    {A : Type ℓ} → (Failure → Trace → Type 0) → Outcome A → (A → Trace → Type 0) → Type 0
Runs F (ok a t) P = P a t
Runs F (stop e t) P = F e t

module _ {ℓ} {A : Type ℓ} (F : Failure → Trace → Type 0) where
  pub Runs-bind {κ} :
      {B : Type κ} (m : M A) (f : A → M B) (Q : A → Trace → Type 0) (P : B → Trace → Type 0)
      (k : Kernel) (t : Trace)
      → Runs F (m k t) Q
      → ((a : A) (t' : Trace) → Q a t' → Runs F (f a k t') P)
      → Runs F ((m >>= f) k t) P
  Runs-bind m f Q P k t h next = go (m k t) h
    where
      go :
          (o : Outcome A)
          → Runs F o Q
          → Runs F (elim o [ ok a t' ↦ f a k t' | stop e t' ↦ stop e t' ]) P
      go (ok a t') q = next a t' q
      go (stop e t') q = q

  pub Runs-if :
      (b : Bool) (m n : M A) (P : A → Trace → Type 0) (k : Kernel) (t : Trace)
      → (b ≡ true → Runs F (m k t) P)
      → (b ≡ false → Runs F (n k t) P)
      → Runs F ((if b then m else n) k t) P
  Runs-if true m n P k t f g = f refl
  Runs-if false m n P k t f g = g refl

  pub Runs-map :
      (o : Outcome A) (Q P : A → Trace → Type 0)
      → Runs F o Q
      → ((a : A) (t : Trace) → Q a t → P a t)
      → Runs F o P
  Runs-map (ok a t) Q P h next = next a t h
  Runs-map (stop e t) Q P h next = h

  -- A computation that returns stops in no way.
  pub Runs-Returns : (o : Outcome A) (P : A → Trace → Type 0) → Returns o P → Runs F o P
  Runs-Returns (ok a t) P h = h
  Runs-Returns (stop e t) P h = elim h [ ]

  pub Runs-ok :
      (o : Outcome A) (P : A → Trace → Type 0) {a : A} {t : Trace} → o ≡ ok a t → P a t → Runs F o P
  Runs-ok o P e h = rw e h

  pub Runs-stop :
      (o : Outcome A) (P : A → Trace → Type 0) {e : Failure} {t : Trace}
      → o ≡ stop e t
      → F e t
      → Runs F o P
  Runs-stop o P e h = rw e h

-- Both what a computation returns and what holds if it returns.
pub Runs-Ensures {ℓ} :
    {A : Type ℓ} (F : Failure → Trace → Type 0) (o : Outcome A) (P Q : A → Trace → Type 0)
    → Runs F o P
    → Ensures o Q
    → Runs F o (λ a t. P a t × Q a t)
Runs-Ensures F (ok a t) P Q h g = (h, g)
Runs-Ensures F (stop e t) P Q h g = h
