-- ===== src/Resolver/Making.antt =====
-- The constructor of DNSResolver on any host that the handshake can give it.
use nsu_net_course.Prelude.{
  ℕ, zero, suc, ◌+◌, ◌%◌, ◌≤◌, ◌<◌, [], ◌∷◌, ◌++◌, ◌≡◌, refl, sym, ap, ◌∙◌, some, false, ◌==◌,
  length, length-append, append_assoc, Bool-cases, inl, inr, arith, leb, le→leb,
}
use nsu_net_course.Exceptions.{Failure, undefined_behaviour}
use nsu_net_course.Kernel.{Kernel, Trace, Bytes, ok, stop, pure}
use nsu_net_course.Kernel.Runs.{Runs, Runs-ok, Runs-stop}
use nsu_net_course.Kernel.Returns.{after_ok, after_stop}
use nsu_net_course.Buffer.{Buffer, overwrite, overwrite_at, strlen}
use nsu_net_course.Buffer.Writes.{strlen-suc, strlen_rest}
use nsu_net_course.Buffer.Appends.{overwrite_at-overwrite}
use nsu_net_course.Dns.Name.{labels, change_to_dns_name_format}
use nsu_net_course.Dns.Answers.{qname_end}
use nsu_net_course.Resolver.{query_header, question, query, new_resolver}
use nsu_net_course.Resolver.Query.{asked, opening}

-- What is written for a name ends with a zero, and has two bytes more than its text at most.
record EndsInZero (bound : ℕ) (bs : Bytes) : Type 0 where
  front : Bytes
  ends : bs ≡ front ++ (0 ∷ [])
  fits : length front ≤ bound

labels-EndsInZero : (acc xs : Bytes) → EndsInZero (length acc + length xs) (labels acc xs)
unfolding labels
labels-EndsInZero acc [] = record { front = []; ends = refl; fits = omega arith }
labels-EndsInZero acc (c ∷ cs) = elim (Bool-cases (c == b'.')) [
  | inl e ↦
      let r = labels-EndsInZero [] cs in
      record {
        front = (length acc % 256) ∷ (acc ++ r.front);
        ends =
            rw (e, labels, r.ends)
              (ap (λ w. (length acc % 256) ∷ w) (sym (append_assoc acc r.front (0 ∷ []))));
        fits = omega (arith, r.fits, length-append acc r.front);
      }
  | inr e ↦
      let r = labels-EndsInZero (acc ++ (c ∷ [])) cs in
      record {
        front = r.front;
        ends = rw (e, labels) r.ends;
        fits = omega (arith, r.fits, length-append acc (c ∷ []));
      }
]

strlen-start :
    (xs zs : Bytes) (n : ℕ) (b : Buffer)
    → length xs < n
    → (m : ℕ) × (strlen n 0 (overwrite (xs ++ (0 ∷ zs)) b) ≡ some m) × (m ≤ length xs)
unfolding strlen overwrite
strlen-start xs zs zero b h = absurd (omega arith)
strlen-start [] zs (suc n) b h = (0, refl, omega arith)
strlen-start (x ∷ xs) zs (suc n) b h = elim (Bool-cases (x == 0)) [
  | inl e ↦ (0, rw (e, strlen) refl, omega arith)
  | inr e ↦
      let (m, found, short) = strlen-start xs zs n (λ i. b (suc i)) (omega arith) in
      (
        suc m,
        ground (arith, strlen-suc n 0 (overwrite (x ∷ (xs ++ (0 ∷ zs))) b), found),
        omega (arith, short),
      )
]

-- `strlen` behind a text finds an end.
strlen-after :
    (pre xs zs : Bytes) (n : ℕ) (b : Buffer)
    → length xs < n
    → (m : ℕ) × (strlen n (length pre) (overwrite (pre ++ (xs ++ (0 ∷ zs))) b) ≡ some m)
      × (m ≤ length xs)
unfolding overwrite
strlen-after [] xs zs n b h = strlen-start xs zs n b h
strlen-after (x ∷ pre) xs zs n b h =
    let (m, found, short) = strlen-after pre xs zs n (λ i. b (suc i)) h in
    (m, strlen-suc n (length pre) (overwrite (x ∷ (pre ++ (xs ++ (0 ∷ zs)))) b) ∙ found, short)

-- What stands behind its end does not change the length of a text.
strlen-same :
    (n i m : ℕ) (b b' : Buffer)
    → strlen n i b ≡ some m
    → ((j : ℕ) → j ≤ i + m → b' j ≡ b j)
    → strlen n i b' ≡ some m
unfolding strlen
strlen-same zero i m b b' e h = cc
strlen-same (suc n) i m b b' e h = elim (Bool-cases (b i == 0)) [
  | inl z ↦ ground (arith, h i)
  | inr z ↦
      let (x, found, more) = strlen_rest (strlen n (suc i) b) m (rw (z, strlen) at e) in
      let same : (b' i == 0) ≡ false = rw (h i (omega arith)) z in
      rw (same, strlen, more)
        (rw (strlen-same n (suc i) x b b' found (λ j l. h j (omega (arith, more)))) refl)
]

overwrite_at-before :
    (i : ℕ) (xs : Bytes) (b : Buffer) (j : ℕ) → j < i → overwrite_at i xs b j ≡ b j
overwrite_at-before i xs b j h = ground arith

-- The name of the question ends in the buffer, with room for the question behind it.
abbrev pub Asks : Buffer → Type 0
Asks buf = (n : ℕ) × (qname_end buf ≡ some n) × (n + 4 ≤ 65536)

query-ok :
    (room : ℕ → ℕ) (k : Kernel) (t : Trace) (pid : ℕ) (host : Bytes) (b : Buffer)
    → length host ≤ 510
    → length host + 2 ≤ room (length host + 1)
    → (buf : Buffer) × (query room pid host b k t ≡ ok buf t) × Asks buf
unfolding query change_to_dns_name_format qname_end
query-ok room k t pid host b h fits =
    let written = labels [] (host ++ (b'.' ∷ [])) in
    let r = labels-EndsInZero [] (host ++ (b'.' ∷ [])) in
    let long = length-append host (b'.' ∷ []) in
    let (m, found, short) =
      strlen-after (query_header pid) r.front [] 65524 b (omega (arith, r.fits)) in
    let text = overwrite (query_header pid ++ written) b in
    let named = overwrite_at-overwrite (query_header pid) written b in
    let ends = ap (λ w. strlen 65524 12 (overwrite (query_header pid ++ w) b)) r.ends ∙ found in
    (
      overwrite_at (12 + (m + 1)) question text,
      rw (le→leb (length host + 2) (room (length host + 1)) fits, named, ends) refl,
      (
        12 + (m + 1),
        rw
            (strlen-same 65524 12 m text (overwrite_at (12 + (m + 1)) question text) ends
              (λ j l. overwrite_at-before (12 + (m + 1)) question text j (omega arith)))
            refl,
        omega (arith, short, r.fits),
      ),
    )

-- The constructor stops in `strcat` for a host for which the byte behind the array is not free, right
-- behind the `connect` of the resolver's socket.
abbrev pub Overflows : Kernel → Failure → Trace → Type 0
Overflows k e t =
    (e ≡ undefined_behaviour)
    × (text : Bytes) × (k.array_room (length text + 1) < length text + 2)
    × (u : Trace) × (t ≡ opening k u)

query-stops :
    (room : ℕ → ℕ) (k : Kernel) (t : Trace) (pid : ℕ) (host : Bytes) (b : Buffer)
    → leb (length host + 2) (room (length host + 1)) ≡ false
    → query room pid host b k t ≡ stop undefined_behaviour t
unfolding query change_to_dns_name_format
query-stops room k t pid host b h = rw h refl

-- Whatever bytes a host of at most 510 has, the constructor returns with a query in the buffer, or
-- stops in `strcat`.
pub new_resolver-Runs :
    (k : Kernel) (t : Trace) (host : Bytes)
    → length host ≤ 510
    → Runs (Overflows k) (new_resolver host k t) (λ r u. (r.sockfd ≡ k.new_udp t) × Asks r.buf)
unfolding new_resolver
new_resolver-Runs k t host h =
    let finish = λ (c : Buffer). pure (record (asked k t []) { buf = c }) in
    let make = query k.array_room k.pid host (k.stale_byte t) in
    elim (Bool-cases (leb (length host + 2) (k.array_room (length host + 1)))) [
      | inl fits ↦
          let (b, e, asks) =
            query-ok k.array_room k (opening k t) k.pid host (k.stale_byte t) h (ground arith) in
          Runs-ok (Overflows k) (new_resolver host k t) _ (after_ok make finish k (opening k t) e)
            (refl, asks)
      | inr short ↦
          let e = query-stops k.array_room k (opening k t) k.pid host (k.stale_byte t) short in
          Runs-stop (Overflows k) (new_resolver host k t) _
            (after_stop make finish k (opening k t) e) (refl, host, ground arith, t, refl)
    ]
