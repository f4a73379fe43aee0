-- ===== src/Server/Prepare.antt =====
-- What `prepareSets` asks `select` to watch, and which connections it closes.
use nsu_net_course.Prelude.{
  ℤ, Bool, true, false, ◌||◌, List, [], ◌∷◌, ◌≡◌, refl, sym, ap, ◌∙◌, All, if◌then◌else◌, arith,
}
use nsu_net_course.Kernel.{Kernel, Trace, FdSet, closed, pure, ◌>>=◌, ◌>>◌}
use nsu_net_course.Kernel.Returns.{Returns, Returns-bind, Returns-map, Returns-elim, Returns-step}
use nsu_net_course.FdSet.{in_range}
use nsu_net_course.Connection.{Connection, Sets, delete_connection, fill_sets}
use nsu_net_course.Connection.Watching.{reads, writes, fill_sets_lem}
use nsu_net_course.Server.{prepare_connections}

-- The connections that stay.
unfoldable pub live : List Connection → List Connection
live [] = []
live (c ∷ cs) = if c.to_disconnect then live cs else c ∷ live cs

-- The trace after both sockets of each connection that goes were closed.
unfoldable pub closing : List Connection → Trace → Trace
closing [] t = t
closing (c ∷ cs) t =
    closing cs
      (if c.to_disconnect then closed c.forwarding_socket ∷ closed c.client_socket ∷ t else t)

pub one_gone :
    (c : Connection) (cs : List Connection) (t : Trace)
    → c.to_disconnect ≡ true
    → (live (c ∷ cs) ≡ live cs)
      × (closing (c ∷ cs) t ≡ closing cs (closed c.forwarding_socket ∷ closed c.client_socket ∷ t))
unfolding live closing
one_gone c cs t e = (ground arith, ground arith)

pub one_stays :
    (c : Connection) (cs : List Connection) (t : Trace)
    → c.to_disconnect ≡ false
    → (live (c ∷ cs) ≡ c ∷ live cs) × (closing (c ∷ cs) t ≡ closing cs t)
unfolding live closing
one_stays c cs t e = (ground arith, ground arith)

abbrev pub InRange : Connection → Type 0
InRange c = (in_range c.client_socket ≡ true) × (in_range c.forwarding_socket ≡ true)

abbrev pub any_of {ℓ} : {A : Type ℓ} → (A → ℤ → Bool) → List A → ℤ → Bool
any_of f [] fd = false
any_of f (x ∷ xs) fd = any_of f xs fd || f x fd

or_assoc : (a b c : Bool) → a || (b || c) ≡ (a || b) || c
or_assoc true b c = refl
or_assoc false b c = refl

-- The sets are those of before and what the list adds.
abbrev pub Added {ℓ} : {A : Type ℓ} → (A → ℤ → Bool) → List A → FdSet → FdSet → Type 0
Added f xs s s' = (fd : ℤ) → s' fd ≡ any_of f xs fd || s fd

pub Added-cons {ℓ} :
    {A : Type ℓ} (f : A → ℤ → Bool) (x : A) (xs : List A) (s s' r : FdSet)
    → ((fd : ℤ) → s' fd ≡ f x fd || s fd)
    → Added f xs s' r
    → Added f (x ∷ xs) s r
Added-cons f x xs s s' r e h fd =
    h fd ∙ ap (◌||◌ (any_of f xs fd)) (e fd) ∙ or_assoc (any_of f xs fd) (f x fd) (s fd)

abbrev pub Prepared :
    List Connection → Sets → Trace → List Connection × FdSet × FdSet → Trace → Type 0
Prepared cs s t r u =
    (r.0 ≡ live cs)
    × (u ≡ closing cs t)
    × Added reads (live cs) s.0 r.1
    × Added writes (live cs) s.1 r.2

Prepared-gone :
    (c : Connection) (cs : List Connection) (s : Sets) (t : Trace)
    (r : List Connection × FdSet × FdSet) (u : Trace)
    → c.to_disconnect ≡ true
    → Prepared cs s (closed c.forwarding_socket ∷ closed c.client_socket ∷ t) r u
    → Prepared (c ∷ cs) s t r u
Prepared-gone c cs s t r u e h =
    let (l, q) = one_gone c cs t e in (h.0 ∙ sym l, h.1 ∙ sym q, rw l h.2, rw l h.3)

Prepared-stays :
    (c : Connection) (cs : List Connection) (s s' : Sets) (t : Trace)
    (r : List Connection × FdSet × FdSet) (u : Trace)
    → c.to_disconnect ≡ false
    → ((fd : ℤ) → s'.0 fd ≡ reads c fd || s.0 fd)
    → ((fd : ℤ) → s'.1 fd ≡ writes c fd || s.1 fd)
    → Prepared cs s' t r u
    → Prepared (c ∷ cs) s t (c ∷ r.0, r.1, r.2) u
Prepared-stays c cs s s' t r u e rd wr h =
    let (l, q) = one_stays c cs t e in
    (
      ap (◌∷◌ c) h.0 ∙ sym l,
      h.1 ∙ sym q,
      rw l (Added-cons reads c (live cs) s.0 s'.0 r.1 rd h.2),
      rw l (Added-cons writes c (live cs) s.1 s'.1 r.2 wr h.3),
    )

-- The loop of `prepareSets` over connections with sockets in range returns: those marked to be
-- disconnected are taken out, both sockets of each are closed, and nothing else is; the others keep
-- their order. The read set gets the sockets whose buffer is empty, and the write set those for
-- which bytes wait, of the connections that stay, and nothing else.
pub prepare_connections-Prepared :
    (k : Kernel) (t : Trace) (cs : List Connection) (s : Sets)
    → All InRange cs
    → Returns (prepare_connections cs s k t) (Prepared cs s t)
unfolding prepare_connections delete_connection
prepare_connections-Prepared k t [] s h =
    unfold live closing in (refl, refl, λ fd. refl, λ fd. refl)
prepare_connections-Prepared k t (c ∷ cs) s h =
    let skip = delete_connection c >> prepare_connections cs s in
    let more = λ (s' : Sets). prepare_connections cs s' >>= λ r. pure (c ∷ r.0, r.1, r.2) in
    let P = Prepared (c ∷ cs) s t in
    Returns-elim c.to_disconnect skip (fill_sets c s >>= more) P k t
      (λ gone.
        Returns-map
          (prepare_connections cs s k (closed c.forwarding_socket ∷ closed c.client_socket ∷ t)) _ P
          (prepare_connections-Prepared k _ cs s h.1) (λ r u q. Prepared-gone c cs s t r u gone q))
      (λ stays.
        let (s', e, rd, wr) = fill_sets_lem k t c s h.0.0 h.0.1 in
        Returns-step (fill_sets c s) more P k t e (
          Returns-bind (prepare_connections cs s') (λ r. pure (c ∷ r.0, r.1, r.2))
            (Prepared cs s' t) P k t (prepare_connections-Prepared k t cs s' h.1)
            (λ r u q. Prepared-stays c cs s s' t r u stays rd wr q)))
