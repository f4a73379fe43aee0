-- ===== src/Masks/Loop.antt =====
-- What `makeSelectMasks` keeps, and what it asks `select` to watch.
use nsu_net_course.Prelude.{
  ℕ, zero, suc, ℤ, Bool, true, false, ◌||◌, List, [], ◌∷◌, ◌≡◌, refl, sym, ◌∙◌, All, subst, arith,
  ◌≤◌,
}
use mathlib.Core.List.{reverse_aux}
use nsu_net_course.Kernel.{Kernel, Trace, ok, closed, FdSet}
use nsu_net_course.Kernel.Returns.{after_ok, Returns, Returns-map}
use nsu_net_course.FdSet.{in_range, fd_zero, fd_set, with_fd}
use nsu_net_course.Connection.{Connection, Sets}
use nsu_net_course.Connection.Watching.{reads, writes, fill_sets_lem}
use nsu_net_course.Server.Prepare.{InRange, Added, Added-cons}
use nsu_net_course.Masks.{is_dead, mask_loop, make_masks, size}
use nsu_net_course.Masks.Steps.{
  alive, dropping, one_dead, one_live, Absent, Differ, loop_dead, loop_live,
}

-- What the loop comes to, with the connections `before` behind it.
abbrev pub Masked :
    List Connection
    → List Connection
    → Sets
    → Trace
    → List Connection × FdSet × FdSet
    → Trace
    → Type 0
Masked before cs s t r u =
    (r.0 ≡ reverse_aux before (alive cs))
    × (u ≡ dropping cs t)
    × Added reads (alive cs) s.0 r.1
    × Added writes (alive cs) s.1 r.2

-- No connection of the list is at the address of one of `before`.
abbrev pub Apart : List Connection → List Connection → Type 0
Apart before cs = All (λ c. Absent c.address before) cs

Apart-cons :
    (c : Connection) (before cs : List Connection)
    → Absent c.address cs
    → Apart before cs
    → Apart (c ∷ before) cs
Apart-cons c before [] h g = tt
Apart-cons c before (d ∷ cs) h g = ((λ e. h.0 (sym e), g.0), Apart-cons c before cs h.1 g.1)

Masked-dead :
    (c : Connection) (before cs : List Connection) (s : Sets) (t : Trace)
    (r : List Connection × FdSet × FdSet) (u : Trace)
    → is_dead c ≡ true
    → Masked before cs s (closed c.forwarding_socket ∷ closed c.client_socket ∷ t) r u
    → Masked before (c ∷ cs) s t r u
Masked-dead c before cs s t r u e h =
    let (l, q) = one_dead c cs t e in (rw l h.0, h.1 ∙ sym q, rw l h.2, rw l h.3)

Masked-live :
    (c : Connection) (before cs : List Connection) (s s' : Sets) (t : Trace)
    (r : List Connection × FdSet × FdSet) (u : Trace)
    → is_dead c ≡ false
    → ((fd : ℤ) → s'.0 fd ≡ reads c fd || s.0 fd)
    → ((fd : ℤ) → s'.1 fd ≡ writes c fd || s.1 fd)
    → Masked (c ∷ before) cs s' t r u
    → Masked before (c ∷ cs) s t r u
Masked-live c before cs s s' t r u e rd wr h =
    let (l, q) = one_live c cs t e in
    (
      rw l h.0,
      h.1 ∙ sym q,
      rw l (Added-cons reads c (alive cs) s.0 s'.0 r.1 rd h.2),
      rw l (Added-cons writes c (alive cs) s.1 s'.1 r.2 wr h.3),
    )

mask_loop-Masked :
    (k : Kernel) (t : Trace) (fuel : ℕ) (b : Connection) (bs cs : List Connection) (s : Sets)
    → size cs ≤ fuel
    → Apart (b ∷ bs) cs
    → Differ cs
    → All InRange cs
    → Returns (mask_loop fuel (b ∷ bs, cs) s k t) (Masked (b ∷ bs) cs s t)
mask_loop-Masked k t fuel b bs [] s f a d h =
    unfold mask_loop alive dropping in (refl, refl, λ fd. refl, λ fd. refl)
mask_loop-Masked k t zero b bs (c ∷ cs) s f a d h = elim f [ ]
mask_loop-Masked k t (suc fuel) b bs (c ∷ cs) s f a d h =
    by_state (is_dead c) refl (λ u. mask_loop-Masked k u fuel b bs cs s (omega arith) a.1 d.1 h.1)
      (λ s'.
        mask_loop-Masked k t fuel c (b ∷ bs) cs s' (omega arith) (Apart-cons c (b ∷ bs) cs d.0 a.1)
          d.1 h.1)
  where
    P : List Connection × FdSet × FdSet → Trace → Type 0
    P = Masked (b ∷ bs) (c ∷ cs) s t

    by_state :
        (x : Bool)
        → is_dead c ≡ x
        → ((u : Trace) → Returns (mask_loop fuel (b ∷ bs, cs) s k u) (Masked (b ∷ bs) cs s u))
        → ((s' : Sets)
            → Returns (mask_loop fuel (c ∷ b ∷ bs, cs) s' k t) (Masked (c ∷ b ∷ bs) cs s' t))
        → Returns (mask_loop (suc fuel) (b ∷ bs, c ∷ cs) s k t) P
    by_state true e gone stays =
        let u = closed c.forwarding_socket ∷ closed c.client_socket ∷ t in
        subst (λ o. Returns o P) (sym (loop_dead k t fuel b c bs cs s e a.0 d.0))
          (Returns-map (mask_loop fuel (b ∷ bs, cs) s k u) (Masked (b ∷ bs) cs s u) P (gone u)
            (λ r v q. Masked-dead c (b ∷ bs) cs s t r v e q))
    by_state false e gone stays =
        let (s', f', rd, wr) = fill_sets_lem k t c s h.0.0 h.0.1 in
        subst (λ o. Returns o P) (sym (loop_live k t fuel c (b ∷ bs) cs s s' e f'))
          (Returns-map (mask_loop fuel (c ∷ b ∷ bs, cs) s' k t) (Masked (c ∷ b ∷ bs) cs s' t) P
            (stays s') (λ r v q. Masked-live c (b ∷ bs) cs s s' t r v e rd wr q))

Apart-nil : (cs : List Connection) → Apart [] cs
Apart-nil [] = tt
Apart-nil (c ∷ cs) = (tt, Apart-nil cs)

fd_set_ok :
    (k : Kernel) (t : Trace) (fd : ℤ) (s : FdSet)
    → in_range fd ≡ true
    → fd_set fd s k t ≡ ok (with_fd fd s) t
unfolding fd_set
fd_set_ok k t fd s i = rw i refl

-- The sets that `makeSelectMasks` starts from: the listening socket to be read.
abbrev pub start_sets : ℤ → Sets
start_sets listenfd = (with_fd listenfd fd_zero, fd_zero)

-- `makeSelectMasks` on connections at different addresses, with all sockets (the listening one too)
-- in range, of which the first still has something to do, returns: it takes out the connections that are dead (a direction
-- has failed, and nothing waits in the other), closes both sockets of each and nothing else, and
-- keeps the order of the others. The read set gets the listening socket and the sockets of those
-- whose buffer is empty, the write set those for which bytes wait, and nothing else.
pub make_masks-Masked :
    (k : Kernel) (t : Trace) (listenfd : ℤ) (c : Connection) (cs : List Connection)
    → in_range listenfd ≡ true
    → is_dead c ≡ false
    → Differ (c ∷ cs)
    → All InRange (c ∷ cs)
    → Returns (make_masks listenfd (c ∷ cs) k t) (Masked [] (c ∷ cs) (start_sets listenfd) t)
unfolding make_masks
make_masks-Masked k t listenfd c cs i e d h =
    let s = start_sets listenfd in
    let (s', f, rd, wr) = fill_sets_lem k t c s h.0.0 h.0.1 in
    let next = λ (r : FdSet). mask_loop (suc (size cs)) ([], c ∷ cs) (r, fd_zero) in
    let steps =
      after_ok (fd_set listenfd fd_zero) next k t (fd_set_ok k t listenfd fd_zero i)
      ∙ loop_live k t (size cs) c [] cs s s' e f in
    subst (λ o. Returns o (Masked [] (c ∷ cs) s t)) (sym steps)
      (Returns-map (mask_loop (size cs) (c ∷ [], cs) s' k t) (Masked (c ∷ []) cs s' t) _
        (mask_loop-Masked k t (size cs) c [] cs s' (omega arith)
          (Apart-cons c [] cs d.0 (Apart-nil cs)) d.1 h.1)
        (λ r u q. Masked-live c [] cs s s' t r u e rd wr q))
