-- ===== src/Masks/Steps.antt =====
-- One turn of the loop of `makeSelectMasks`.
use nsu_net_course.Kernel.Returns.{after_ok}
use nsu_net_course.Prelude.{
  ℕ, suc, Bool, true, false, List, [], ◌∷◌, ◌≡◌, ◌≢◌, refl, ◌∙◌, All, if◌then◌else◌, arith,
}
use nsu_net_course.Kernel.{Kernel, Trace, ok, closed, M, ◌>>=◌, ◌>>◌}
use nsu_net_course.Connection.{Connection, Sets, delete_connection, fill_sets}
use nsu_net_course.Masks.{remove, disconnect, is_dead, step_back, mask_loop}

-- The connections that stay.
unfoldable pub alive : List Connection → List Connection
alive [] = []
alive (c ∷ cs) = if is_dead c then alive cs else c ∷ alive cs

-- The trace after both sockets of each connection that goes were closed.
unfoldable pub dropping : List Connection → Trace → Trace
dropping [] t = t
dropping (c ∷ cs) t =
    dropping cs (if is_dead c then closed c.forwarding_socket ∷ closed c.client_socket ∷ t else t)

pub one_dead :
    (c : Connection) (cs : List Connection) (t : Trace)
    → is_dead c ≡ true
    → (alive (c ∷ cs) ≡ alive cs)
      × (dropping (c ∷ cs) t
          ≡ dropping cs (closed c.forwarding_socket ∷ closed c.client_socket ∷ t))
unfolding alive dropping
one_dead c cs t e = (ground arith, ground arith)

pub one_live :
    (c : Connection) (cs : List Connection) (t : Trace)
    → is_dead c ≡ false
    → (alive (c ∷ cs) ≡ c ∷ alive cs) × (dropping (c ∷ cs) t ≡ dropping cs t)
unfolding alive dropping
one_live c cs t e = (ground arith, ground arith)

-- No connection of the list is at the address.
abbrev pub Absent : ℕ → List Connection → Type 0
Absent a cs = All (λ d. d.address ≢ a) cs

-- The objects of a list are at different addresses.
abbrev pub Differ : List Connection → Type 0
Differ [] = Unit
Differ (c ∷ cs) = Absent c.address cs × Differ cs

remove-Absent : (a : ℕ) (cs : List Connection) → Absent a cs → remove a cs ≡ cs
unfolding remove
remove-Absent a [] h = refl
remove-Absent a (c ∷ cs) h = ground (arith, remove-Absent a cs h.1)

step_back-Absent :
    (k : Kernel) (t : Trace) (b c : Connection) (bs : List Connection)
    → b.address ≢ c.address
    → step_back c (b ∷ bs) k t ≡ ok tt t
unfolding step_back
step_back-Absent k t b c bs h = ground arith

disconnect-Absent :
    (k : Kernel) (t : Trace) (c : Connection) (before rest : List Connection)
    → Absent c.address before
    → Absent c.address rest
    → disconnect c (before, rest) k t
      ≡ ok (before, rest) (closed c.forwarding_socket ∷ closed c.client_socket ∷ t)
unfolding disconnect delete_connection
disconnect-Absent k t c before rest h g =
    rw (remove-Absent c.address before h, remove-Absent c.address rest g) refl

module _ {A : Type 0} where
  pub on_true :
      (b : Bool) (m n : M A) (k : Kernel) (t : Trace)
      → b ≡ true
      → let branch : M A = elim b [ true ↦ m | false ↦ n ] in branch k t ≡ m k t
  on_true true m n k t e = refl
  on_true false m n k t e = ground arith

  on_false :
      (b : Bool) (m n : M A) (k : Kernel) (t : Trace)
      → b ≡ false
      → let branch : M A = elim b [ true ↦ m | false ↦ n ] in branch k t ≡ n k t
  on_false true m n k t e = ground arith
  on_false false m n k t e = refl

pub loop_dead :
    (k : Kernel) (t : Trace) (fuel : ℕ) (b c : Connection) (bs cs : List Connection) (s : Sets)
    → is_dead c ≡ true
    → Absent c.address (b ∷ bs)
    → Absent c.address cs
    → mask_loop (suc fuel) (b ∷ bs, c ∷ cs) s k t
      ≡ mask_loop fuel (b ∷ bs, cs) s k (closed c.forwarding_socket ∷ closed c.client_socket ∷ t)
unfolding mask_loop
loop_dead k t fuel b c bs cs s dead h g =
    let next = λ (p : List Connection × List Connection). mask_loop fuel p s in
    let drop = disconnect c (b ∷ bs, cs) in
    let go = step_back c (b ∷ bs) >> (drop >>= next) in
    let on = fill_sets c s >>= λ s'. mask_loop fuel (c ∷ b ∷ bs, cs) s' in
    on_true (is_dead c) go on k t dead
    ∙ after_ok (step_back c (b ∷ bs)) (λ _. drop >>= next) k t (step_back-Absent k t b c bs h.0)
    ∙ after_ok drop next k t (disconnect-Absent k t c (b ∷ bs) cs h g)

pub loop_live :
    (k : Kernel) (t : Trace) (fuel : ℕ) (c : Connection) (before cs : List Connection) (s s' : Sets)
    → is_dead c ≡ false
    → fill_sets c s k t ≡ ok s' t
    → mask_loop (suc fuel) (before, c ∷ cs) s k t ≡ mask_loop fuel (c ∷ before, cs) s' k t
unfolding mask_loop
loop_live k t fuel c before cs s s' live e =
    let go = step_back c before >> (disconnect c (before, cs) >>= λ p. mask_loop fuel p s) in
    let next = λ (x : Sets). mask_loop fuel (c ∷ before, cs) x in
    on_false (is_dead c) go (fill_sets c s >>= next) k t live ∙ after_ok (fill_sets c s) next k t e
