-- ===== src/Kernel/Returns.antt =====
-- Total correctness of a computation: it returns, and what it returns satisfies a predicate.
use nsu_net_course.Prelude.{ap, subst, sym, ◌≡◌, refl, Bool, true, false, if◌then◌else◌}
use nsu_net_course.Exceptions.{Failure}
use nsu_net_course.Kernel.{Kernel, Trace, Outcome, ok, stop, M, ◌>>=◌}

abbrev pub Returns {ℓ} : {A : Type ℓ} → Outcome A → (A → Trace → Type 0) → Type 0
Returns (ok a t) P = P a t
Returns (stop e t) P = ⊥

module _ {ℓ} {A : Type ℓ} where
  pub Returns-bind {κ} :
      {B : Type κ} (m : M A) (f : A → M B) (Q : A → Trace → Type 0) (P : B → Trace → Type 0)
      (k : Kernel) (t : Trace)
      → Returns (m k t) Q
      → ((a : A) (t' : Trace) → Q a t' → Returns (f a k t') P)
      → Returns ((m >>= f) k t) P
  Returns-bind m f Q P k t h next = go (m k t) h
    where
      go :
          (o : Outcome A)
          → Returns o Q
          → Returns (elim o [ ok a t' ↦ f a k t' | stop e t' ↦ stop e t' ]) P
      go (ok a t') q = next a t' q
      go (stop e t') q = q

  -- A first step whose result is known.
  pub after_ok {κ} :
      {B : Type κ} (m : M A) (f : A → M B) (k : Kernel) (t : Trace) {a : A} {u : Trace}
      → m k t ≡ ok a u
      → (m >>= f) k t ≡ f a k u
  after_ok m f k t e = ap (λ o. elim o [ ok a t' ↦ f a k t' | stop e t' ↦ stop e t' ]) e

  pub Returns-step {κ} :
      {B : Type κ} (m : M A) (f : A → M B) (P : B → Trace → Type 0) (k : Kernel) (t : Trace) {a : A}
      {u : Trace}
      → m k t ≡ ok a u
      → Returns (f a k u) P
      → Returns ((m >>= f) k t) P
  Returns-step m f P k t e h =
      subst (λ o. Returns (elim o [ ok a t' ↦ f a k t' | stop e t' ↦ stop e t' ]) P) (sym e) h

  -- A first step that stops.
  pub after_stop {κ} :
      {B : Type κ} (m : M A) (f : A → M B) (k : Kernel) (t : Trace) {e : Failure} {u : Trace}
      → m k t ≡ stop e u
      → (m >>= f) k t ≡ stop e u
  after_stop m f k t e = ap (λ o. elim o [ ok a t' ↦ f a k t' | stop x t' ↦ stop x t' ]) e

  pub Returns-map :
      (o : Outcome A) (Q P : A → Trace → Type 0)
      → Returns o Q
      → ((a : A) (t : Trace) → Q a t → P a t)
      → Returns o P
  Returns-map (ok a t) Q P h next = next a t h
  Returns-map (stop e t) Q P h next = h

  pub Returns-if :
      (b : Bool) (m n : M A) (P : A → Trace → Type 0) (k : Kernel) (t : Trace)
      → (b ≡ true → Returns (m k t) P)
      → (b ≡ false → Returns (n k t) P)
      → Returns ((if b then m else n) k t) P
  Returns-if true m n P k t f g = f refl
  Returns-if false m n P k t f g = g refl

  pub Returns-elim :
      (b : Bool) (m n : M A) (P : A → Trace → Type 0) (k : Kernel) (t : Trace)
      → (b ≡ true → Returns (m k t) P)
      → (b ≡ false → Returns (n k t) P)
      → let branch : M A = elim b [ true ↦ m | false ↦ n ] in Returns (branch k t) P
  Returns-elim true m n P k t f g = f refl
  Returns-elim false m n P k t f g = g refl

  -- The result that a computation returns.
  pub Returns-result :
      (o : Outcome A) (P : A → Trace → Type 0)
      → Returns o P
      → (a : A) × (t : Trace) × (o ≡ ok a t) × P a t
  Returns-result (ok a t) P h = (a, t, refl, h)
  Returns-result (stop e t) P h = elim h [ ]
