-- ===== src/Socks5/Growth.antt =====
-- How long the host that a handshake keeps can become.
use nsu_net_course.Prelude.{
  ℕ, ◌+◌, ◌*◌, ◌≤◌, ◌<◌, pos, negsuc, Bool, true, false, not, ◌&&◌, Option, none, some, [], ◌∷◌,
  ◌++◌, ◌≡◌, ◌≢◌, refl, ap, ◌∙◌, ◌==◌, is_positive, length, length-append, arith, is_zero,
  Bool-cases, inl, inr, All, ◌>>=?◌, if◌then◌else◌,
}
use nsu_net_course.Kernel.{
  Kernel, Trace, ReadsFit, FdSet, Received, got, no_data, read_error, pure, or_undefined, ◌>>=◌,
}
use nsu_net_course.Kernel.Ensures.{Ensures, Ensures-bind, Ensures-if}
use nsu_net_course.Kernel.Traffic.{payload}
use nsu_net_course.FdSet.{fd_isset}
use nsu_net_course.Buffer.{overwrite, overwrite-AreBytes}
use nsu_net_course.Buffer.Window.{window, length-window}
use nsu_net_course.Socks5.{
  Connecter, Step, max_buf_size, to_string, reply_code, answer, answer_greeting, answer_request,
  read_domain, read_ipv4, with_reply, after_recv, take_input, after_send, give_output, finish,
  exchange_data,
}
use nsu_net_course.Socks5.Wire.{copy_host_lem}
use nsu_net_course.Socks5.Safety.{IsSound, payload_bytes}

-- The stages that a handshake has behind it: a first step that is over, and an answer that waits.
abbrev pub stages : Connecter → ℕ
stages c = (if c.first_step_completed then 1 else 0) + (if is_zero c.outputbuf_size then 0 else 1)

-- Each stage adds at most one host.
abbrev pub IsShort : Connecter → Type 0
IsShort c = length c.addr ≤ 255 * stages c

stages_bound : (c : Connecter) → stages c ≤ 2
stages_bound c = ground arith

-- What an answer adds.
abbrev Adds : Connecter → Option Connecter → Type 0
Adds c none = Unit
Adds c (some d) =
    (length d.addr ≤ length c.addr + 255)
    × (d.first_step_completed ≡ c.first_step_completed)
    × (is_zero d.outputbuf_size ≡ false)

length-to_string : (n : ℕ) → length (to_string n) ≤ 3
unfolding to_string
length-to_string n = ground arith

answer_greeting-Adds : (c : Connecter) → Adds c (answer_greeting c)
unfolding answer_greeting
answer_greeting-Adds c = ground arith

-- What reading a destination adds.
abbrev Lengthens : Connecter → Option Connecter → Type 0
Lengthens c none = Unit
Lengthens c (some d) =
    (length d.addr ≤ length c.addr + 255)
    × (d.first_step_completed ≡ c.first_step_completed)
    × (d.outputbuf_size ≡ c.outputbuf_size)

read_domain-Lengthens : (c : Connecter) → IsSound c → Lengthens c (read_domain c)
unfolding read_domain
read_domain-Lengthens c v =
    let n : ℕ = c.inputbuf 4 in
    let host = window n 5 c.inputbuf in
    rw (copy_host_lem n 5 c.inputbuf (omega (arith, v.input_bytes 4)))
      (ground (arith, v.input_bytes 4, length-append c.addr host, length-window n 5 c.inputbuf))

read_ipv4-Lengthens : (c : Connecter) → Lengthens c (read_ipv4 c)
unfolding read_ipv4
read_ipv4-Lengthens c =
    let a = to_string (c.inputbuf 4) in
    let b = to_string (c.inputbuf 5) in
    let d = to_string (c.inputbuf 6) in
    let e = to_string (c.inputbuf 7) in
    (
      omega (
        arith,
        length-append c.addr (a ++ (b'.' ∷ (b ++ (b'.' ∷ (d ++ (b'.' ∷ e)))))),
        length-append a (b'.' ∷ (b ++ (b'.' ∷ (d ++ (b'.' ∷ e))))),
        length-append b (b'.' ∷ (d ++ (b'.' ∷ e))),
        length-append d (b'.' ∷ e),
        length-to_string (c.inputbuf 4),
        length-to_string (c.inputbuf 5),
        length-to_string (c.inputbuf 6),
        length-to_string (c.inputbuf 7),
      ),
      refl,
      refl,
    )

Adds-Lengthens :
    (c d : Connecter) (o : Option Connecter)
    → d.addr ≡ c.addr
    → d.first_step_completed ≡ c.first_step_completed
    → d.outputbuf_size ≡ pos 10
    → Lengthens d o
    → Adds c o
Adds-Lengthens c d none p q r h = tt
Adds-Lengthens c d (some e) p q r h = (omega (arith, h.0, ap length p), h.1 ∙ q, rw (h.2 ∙ r) refl)

Adds-if :
    (b : Bool) (c : Connecter) (x y : Option Connecter)
    → Adds c x
    → Adds c y
    → Adds c (if b then x else y)
Adds-if true c x y f g = f
Adds-if false c x y f g = g

with_reply-IsSound : (c : Connecter) (code : ℕ) → IsSound c → IsSound (with_reply code c)
unfolding with_reply
with_reply-IsSound c code v = record {
  client_in_range = v.client_in_range;
  input_bytes = v.input_bytes;
  output_fits = omega arith;
  output_size = refl;
}

answer_request-Adds : (c : Connecter) → IsSound c → Adds c (answer_request c)
unfolding answer_request with_reply
answer_request-Adds c v =
    let code = reply_code (c.inputbuf 0) (c.inputbuf 1) (c.inputbuf 3) in
    let d = with_reply code c in
    let w = with_reply-IsSound c code v in
    Adds-if (c.inputbuf 3 == 3) c (read_domain d)
      (if c.inputbuf 3 == 1 then read_ipv4 d else some d)
      (Adds-Lengthens c d (read_domain d) refl refl refl (read_domain-Lengthens d w))
      (Adds-if (c.inputbuf 3 == 1) c (read_ipv4 d) (some d)
        (Adds-Lengthens c d (read_ipv4 d) refl refl refl (read_ipv4-Lengthens d))
        (omega arith, refl, refl))

answer-Adds : (c : Connecter) → IsSound c → Adds c (answer c)
unfolding answer
answer-Adds c v =
    Adds-if (not c.first_step_completed && is_positive c.inputbuf_size) c (answer_greeting c)
      (answer_request c) (answer_greeting-Adds c) (answer_request-Adds c v)

-- After the first `if`, if the call goes on: an answer waits that did not wait before, or nothing
-- has changed; and what an early return leaves behind.
abbrev Grows : Connecter → Step → Type 0
Grows c (d, none) = IsShort d
Grows c (d, some code) = (d.addr ≡ c.addr) × (stages d ≡ stages c)

Grows-Adds :
    (k : Kernel) (t : Trace) (c e : Connecter) (o : Option Connecter)
    → IsShort c
    → is_zero c.outputbuf_size ≡ true
    → e.addr ≡ c.addr
    → e.first_step_completed ≡ c.first_step_completed
    → Adds e o
    → Ensures (or_undefined {A = Step} (o >>=? λ d. some (d, none)) k t) (λ s _. Grows c s)
Grows-Adds k t c e none h z p q a = tt
Grows-Adds k t c e (some d) h z p q a = ground (arith, ap length p)

after_recv-Grows :
    (k : Kernel) (t : Trace) (r : Received) (c : Connecter)
    → All (λ b. b < 256) (payload r)
    → IsSound c
    → IsShort c
    → is_zero c.outputbuf_size ≡ true
    → Ensures (or_undefined (after_recv r c) k t) (λ s _. Grows c s)
unfolding after_recv
after_recv-Grows k t (got []) c b v h z = (refl, refl)
after_recv-Grows k t (got (x ∷ xs)) c b v h z =
    let e = record c {
      inputbuf = overwrite (x ∷ xs) c.inputbuf;
      inputbuf_size = pos (length (x ∷ xs));
    } in
    Grows-Adds k t c e (answer e) h z refl refl (
      answer-Adds e (record {
        client_in_range = v.client_in_range;
        input_bytes = overwrite-AreBytes (x ∷ xs) c.inputbuf b v.input_bytes;
        output_fits = v.output_fits;
        output_size = v.output_size;
      }))
after_recv-Grows k t no_data c b v h z =
    let e = record c { inputbuf_size = negsuc 0 } in
    Grows-Adds k t c e (answer e) h z refl refl (
      answer-Adds e (record {
        client_in_range = v.client_in_range;
        input_bytes = v.input_bytes;
        output_fits = v.output_fits;
        output_size = v.output_size;
      }))
after_recv-Grows k t read_error c b v h z = (refl, refl)

take_input-Grows :
    (k : Kernel) (t : Trace) (rd : FdSet) (c : Connecter)
    → ReadsFit k
    → IsSound c
    → IsShort c
    → Ensures (take_input rd c k t) (λ s _. Grows c s)
unfolding take_input fd_isset
take_input-Grows k t rd c fit v h =
    elim (Bool-cases (rd c.client_sock && is_zero c.outputbuf_size)) [
      | inr idle ↦ rw (v.client_in_range, idle) h
      | inl ready ↦
          let r = k.receive_from t c.client_sock max_buf_size in
          rw (v.client_in_range, ready)
            (after_recv-Grows k _ r c (payload_bytes k t c.client_sock r fit refl).1 v h
              (ground arith))
    ]

-- What a call leaves of the host: a handshake that goes on is as short as its stages allow, and one
-- that ends has at most two hosts.
abbrev pub StaysShort : Connecter × ℕ → Type 0
StaysShort (d, code) = (code ≢ 1 → IsShort d) × (length d.addr ≤ 510)

give_output-StaysShort :
    (k : Kernel) (t : Trace) (wr : FdSet) (c : Connecter)
    → IsShort c
    → Ensures (give_output wr c k t) (λ r _. StaysShort r)
unfolding give_output fd_isset after_send
give_output-StaysShort k t wr c h = ground arith

finish-StaysShort :
    (k : Kernel) (t : Trace) (wr : FdSet) (c : Connecter) (s : Step)
    → IsShort c
    → Grows c s
    → Ensures (finish wr s k t) (λ r _. StaysShort r)
finish-StaysShort k t wr c (d, some n) h g =
    let n = ap length g.0 in (λ e. omega (arith, n, g.1, h), omega (arith, n, h, stages_bound c))
finish-StaysShort k t wr c (d, none) h g = give_output-StaysShort k t wr d g

pub exchange_data-StaysShort :
    (k : Kernel) (t : Trace) (rd wr : FdSet) (c : Connecter)
    → ReadsFit k
    → IsSound c
    → IsShort c
    → Ensures (exchange_data rd wr c k t) (λ r _. StaysShort r)
unfolding exchange_data
exchange_data-StaysShort k t rd wr c fit v h =
    let P = λ (r : Connecter × ℕ) (u : Trace). StaysShort r in
    Ensures-if c.drop (pure (c, 0)) (take_input rd c >>= finish wr) P k t (ground arith) (
      Ensures-bind (take_input rd c) (finish wr) (λ s _. Grows c s) P k t
        (take_input-Grows k t rd c fit v h) (λ s u g. finish-StaysShort k u wr c s h g))
