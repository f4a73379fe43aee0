-- ===== src/Server/Filling.antt =====
-- What the handshakes and the resolvers put into the descriptor sets.
use nsu_net_course.Prelude.{
  ℕ, ℤ, pos, negsuc, ltb_ℤ-trans, ltb_ℤ-refl, geb_ℤ-trans, Bool, true, false, not, ◌&&◌, ◌||◌, List,
  [], ◌∷◌, ◌≡◌, refl, All, is_zero, same, ltb_ℤ, arith, Bool-cases, inl, inr,
}
use nsu_net_course.Kernel.{Kernel, Trace, ok, M, ◌>>=◌}
use nsu_net_course.Kernel.Returns.{Returns, Returns-map, Returns-step}
use nsu_net_course.FdSet.{in_range, with_fd, fd_setsize}
use nsu_net_course.Utils.{check_socket}
use nsu_net_course.Connection.{Sets}
use nsu_net_course.Socks5
use nsu_net_course.Socks5.{Connecter}
use nsu_net_course.Resolver
use nsu_net_course.Resolver.{Resolver}
use nsu_net_course.Server.{prepare_handshakes, prepare_resolvers}
use nsu_net_course.Server.Accept.{check_socket-watches}
use nsu_net_course.Server.Prepare.{Added, Added-cons}

-- A handshake is read in its first step, and behind that while no reply waits; it is always written.
abbrev pub handshake_reads : ℤ × Connecter → ℤ → Bool
handshake_reads (fd, c) g =
    (not c.first_step_completed || is_zero c.outputbuf_size) && same c.client_sock g

abbrev pub handshake_writes : ℤ × Connecter → ℤ → Bool
handshake_writes (fd, c) g = same c.client_sock g

-- A resolver is written until its query is sent, and then read until it has a response.
abbrev pub resolver_reads : (ℤ × ℕ) × Resolver → ℤ → Bool
resolver_reads (p, r) g = (r.request_sended && not r.response_recived) && same r.sockfd g

abbrev pub resolver_writes : (ℤ × ℕ) × Resolver → ℤ → Bool
resolver_writes (p, r) g = not r.request_sended && same r.sockfd g

-- The sets that a member of one of the lists leaves.
abbrev Fills {ℓ} :
    {A : Type ℓ} → (A → ℤ → Bool) → (A → ℤ → Bool) → A → M Sets → Kernel → Trace → Sets → Type 0
Fills f g x m k t s =
    (s' : Sets) × (m k t ≡ ok s' t)
    × ((fd : ℤ) → s'.0 fd ≡ f x fd || s.0 fd)
    × ((fd : ℤ) → s'.1 fd ≡ g x fd || s.1 fd)

fill_handshake :
    (k : Kernel) (t : Trace) (fd : ℤ) (c : Connecter) (s : Sets)
    → in_range c.client_sock ≡ true
    → Fills handshake_reads handshake_writes (fd, c) (Socks5.fill_fd_set c s) k t s
unfolding Socks5.fill_fd_set
fill_handshake k t fd c s h = elim (Bool-cases c.first_step_completed) [
  | inr first ↦ (
    (with_fd c.client_sock s.0, with_fd c.client_sock s.1),
    ground arith,
    λ g. ground arith,
    λ g. ground arith,
  )
  | inl second ↦ elim (Bool-cases (is_zero c.outputbuf_size)) [
    | inl empty ↦ (
      (with_fd c.client_sock s.0, with_fd c.client_sock s.1),
      ground arith,
      λ g. ground arith,
      λ g. ground arith,
    )
    | inr full ↦
        ((s.0, with_fd c.client_sock s.1), ground arith, λ g. ground arith, λ g. ground arith)
  ]
]

fill_resolver :
    (k : Kernel) (t : Trace) (p : ℤ × ℕ) (r : Resolver) (s : Sets)
    → in_range r.sockfd ≡ true
    → Fills resolver_reads resolver_writes (p, r) (Resolver.fill_fd_set r s) k t s
unfolding Resolver.fill_fd_set
fill_resolver k t p r s h = elim (Bool-cases r.request_sended) [
  | inr first ↦ ((s.0, with_fd r.sockfd s.1), ground arith, λ g. ground arith, λ g. ground arith)
  | inl second ↦ elim (Bool-cases r.response_recived) [
    | inl over ↦ ((s.0, s.1), ground arith, λ g. ground arith, λ g. ground arith)
    | inr waits ↦ ((with_fd r.sockfd s.0, s.1), ground arith, λ g. ground arith, λ g. ground arith)
  ]
]

-- The sets that a list leaves, where `f` and `g` say what its members are watched for.
abbrev pub FillsAll {ℓ} :
    {A : Type ℓ} → (A → ℤ → Bool) → (A → ℤ → Bool) → List A → Sets → Trace → Sets → Trace → Type 0
FillsAll f g xs s t s' u = (u ≡ t) × Added f xs s.0 s'.0 × Added g xs s.1 s'.1

pub prepare_handshakes-FillsAll :
    (k : Kernel) (t : Trace) (hs : List (ℤ × Connecter)) (s : Sets)
    → All (λ (h : ℤ × Connecter). in_range h.1.client_sock ≡ true) hs
    → Returns (prepare_handshakes hs s k t) (FillsAll handshake_reads handshake_writes hs s t)
unfolding prepare_handshakes
prepare_handshakes-FillsAll k t [] s h = (refl, λ fd. refl, λ fd. refl)
prepare_handshakes-FillsAll k t ((fd, c) ∷ hs) s h =
    let (s', e, rd, wr) = fill_handshake k t fd c s h.0 in
    Returns-step (Socks5.fill_fd_set c s) (prepare_handshakes hs) _ k t e (
      Returns-map (prepare_handshakes hs s' k t) _ _ (prepare_handshakes-FillsAll k t hs s' h.1)
        (λ r u q. (
          q.0,
          Added-cons handshake_reads (fd, c) hs s.0 s'.0 r.0 rd q.1,
          Added-cons handshake_writes (fd, c) hs s.1 s'.1 r.1 wr q.2,
        )))

-- `fd_max` counts the sockets of all resolvers, and does not fall.
abbrev pub Counts : List ((ℤ × ℕ) × Resolver) → ℤ → ℤ → Type 0
Counts rs n m = All (λ (r : (ℤ × ℕ) × Resolver). ltb_ℤ r.1.sockfd m ≡ true) rs × (ltb_ℤ m n ≡ false)

pub below_fd_setsize : (fd : ℤ) → in_range fd ≡ true → ltb_ℤ fd (pos fd_setsize) ≡ true
below_fd_setsize (pos n) h = h
below_fd_setsize (negsuc n) h = refl

pub prepare_resolvers-FillsAll :
    (k : Kernel) (t : Trace) (rs : List ((ℤ × ℕ) × Resolver)) (n : ℤ) (s : Sets)
    → All (λ (r : (ℤ × ℕ) × Resolver). in_range r.1.sockfd ≡ true) rs
    → Returns
        (prepare_resolvers rs n s k t)
        (λ r u. Counts rs n r.0 × FillsAll resolver_reads resolver_writes rs s t (r.1, r.2) u)
unfolding prepare_resolvers
prepare_resolvers-FillsAll k t [] n s h = ((tt, ltb_ℤ-refl n), (refl, λ fd. refl, λ fd. refl))
prepare_resolvers-FillsAll k t ((p, r) ∷ rs) n s h =
    let (s', e, rd, wr) = fill_resolver k t p r s h.0 in
    let (m, e', below, grows) =
      check_socket-watches k t r.sockfd n (below_fd_setsize r.sockfd h.0) in
    let count = λ (w : Sets). check_socket r.sockfd n >>= λ (n' : ℤ). prepare_resolvers rs n' w in
    Returns-step (Resolver.fill_fd_set r s) count _ k t e (
      Returns-step (check_socket r.sockfd n) (λ n'. prepare_resolvers rs n' s') _ k t e'
        (Returns-map (prepare_resolvers rs m s' k t) _ _
          (prepare_resolvers-FillsAll k t rs m s' h.1)
          (λ x u q. (
            ((ltb_ℤ-trans r.sockfd m x.0 below q.0.1, q.0.0), geb_ℤ-trans n m x.0 grows q.0.1),
            (
              q.1.0,
              Added-cons resolver_reads (p, r) rs s.0 s'.0 x.1 rd q.1.1,
              Added-cons resolver_writes (p, r) rs s.1 s'.1 x.2 wr q.1.2,
            ),
          ))))
