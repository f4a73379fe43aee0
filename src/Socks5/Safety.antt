-- ===== src/Socks5/Safety.antt =====
-- The buffers of the handshake over a call, and which calls end it.
use nsu_net_course.Prelude.{
  ℕ, ◌≤◌, ◌<◌, ℤ, pos, negsuc, true, false, not, ◌&&◌, Option, none, some, [], ◌∷◌, ◌≡◌, ◌≢◌, ◌⊎◌,
  inl, inr, refl, ◌∙◌, length, arith, is_zero, is_negative, magnitude, Bool-cases, All, ◌>>=?◌,
}
use nsu_net_course.Kernel.{
  got, no_data, read_error, Received, Kernel, Trace, ReadsFit, FdSet, pure, or_undefined, ◌>>=◌,
  Bytes, send,
}
use nsu_net_course.Kernel.Returns.{Returns, Returns-bind, Returns-map, Returns-if, Returns-step}
use nsu_net_course.Kernel.Traffic.{payload}
use nsu_net_course.Kernel.Output.{write_cells, written}
use nsu_net_course.FdSet.{in_range, fd_isset}
use nsu_net_course.Buffer.{AreBytes, overwrite-AreBytes, overwrite}
use nsu_net_course.Socks5.{
  Connecter, Step, max_buf_size, answer, answer_greeting, answer_request, read_domain, read_ipv4,
  with_reply, after_recv, take_input, after_send, give_output, finish, exchange_data,
}
use nsu_net_course.Socks5.Wire.{choose_method_lem, copy_host_lem}

pub record IsSound (c : Connecter) : Type 0 where
  pub client_in_range : in_range c.client_sock ≡ true
  pub input_bytes : AreBytes c.inputbuf
  pub output_fits : magnitude c.outputbuf_size ≤ 10
  pub output_size : is_negative c.outputbuf_size ≡ false

-- The members that an answer leaves alone.
pub record Keeps (c d : Connecter) : Type 0 where
  pub same_client : d.client_sock ≡ c.client_sock
  pub same_step : d.first_step_completed ≡ c.first_step_completed
  pub same_drop : d.drop ≡ c.drop

abbrev Answers : Connecter → Option Connecter → Type 0
Answers c none = ⊥
Answers c (some d) = IsSound d × Keeps c d

Answers-value :
    (c : Connecter) (o : Option Connecter)
    → Answers c o
    → (d : Connecter) × (o ≡ some d) × IsSound d × Keeps c d
Answers-value c none h = absurd h
Answers-value c (some d) h = (d, refl, h.0, h.1)

answer_greeting-Answers : (c : Connecter) → IsSound c → Answers c (answer_greeting c)
unfolding answer_greeting
answer_greeting-Answers c v =
    let n : ℕ = c.inputbuf 1 in
    rw (choose_method_lem n 2 c.inputbuf 255 (omega (arith, v.input_bytes 1))) (
      record {
        client_in_range = v.client_in_range;
        input_bytes = v.input_bytes;
        output_fits = omega arith;
        output_size = refl;
      },
      record { same_client = refl; same_step = refl; same_drop = refl },
    )

answer_request-Answers : (c : Connecter) → IsSound c → Answers c (answer_request c)
unfolding answer_request read_domain read_ipv4 with_reply
answer_request-Answers c v =
    ground (arith, v.input_bytes 4, copy_host_lem (c.inputbuf 4) 5 c.inputbuf)

answer-Answers : (c : Connecter) → IsSound c → Answers c (answer c)
unfolding answer
answer-Answers c v = ground (arith, answer_greeting-Answers c v, answer_request-Answers c v)

-- Before the second `if`: an early return has the code 1 only at the end of the stream.
abbrev Steps : Connecter → Option Step → Type 0
Steps c none = ⊥
Steps c (some (d, code)) =
    IsSound d
    × (d.client_sock ≡ c.client_sock)
    × (d.first_step_completed ≡ c.first_step_completed)
    × (code ≢ none → d.drop ≡ true)
    × ((n : ℕ) → code ≡ some n → n ≤ 1)

Steps-answer : (c d : Connecter) → IsSound d → Keeps c d → Steps c (some (d, none))
Steps-answer c d v k = (v, k.same_client, k.same_step, λ e. absurd (e refl), λ n e. cc)

answered :
    (c : Connecter) (o : Option Connecter) → Answers c o → Steps c (o >>=? λ d. some (d, none))
answered c none h = h
answered c (some d) h = Steps-answer c d h.0 h.1

after_recv-Steps :
    (r : Received) (c : Connecter)
    → (length (payload r) ≤ max_buf_size) × All (λ b. b < 256) (payload r)
    → IsSound c
    → Steps c (after_recv r c)
unfolding after_recv
after_recv-Steps (got []) c h v = ground arith
after_recv-Steps (got (x ∷ xs)) c h v =
    let e = record c {
      inputbuf = overwrite (x ∷ xs) c.inputbuf;
      inputbuf_size = pos (length (x ∷ xs));
    } in
    answered e (answer e) (
      answer-Answers e (record {
        client_in_range = v.client_in_range;
        input_bytes = overwrite-AreBytes (x ∷ xs) c.inputbuf h.1 v.input_bytes;
        output_fits = v.output_fits;
        output_size = v.output_size;
      }))
after_recv-Steps no_data c h v =
    let e = record c { inputbuf_size = negsuc 0 } in
    answered e (answer e) (
      answer-Answers e (record {
        client_in_range = v.client_in_range;
        input_bytes = v.input_bytes;
        output_fits = v.output_fits;
        output_size = v.output_size;
      }))
after_recv-Steps read_error c h v = ground arith

pub payload_bytes :
    (k : Kernel) (t : Trace) (fd : ℤ) (r : Received)
    → ReadsFit k
    → k.receive_from t fd max_buf_size ≡ r
    → (length (payload r) ≤ max_buf_size) × All (λ b. b < 256) (payload r)
payload_bytes k t fd (got bs) fit e = fit t fd max_buf_size bs e
payload_bytes k t fd no_data fit e = (omega arith, tt)
payload_bytes k t fd read_error fit e = (omega arith, tt)

or_undefined-Steps :
    (k : Kernel) (u : Trace) (c : Connecter) (o : Option Step)
    → Steps c o
    → Returns (or_undefined o k u) (λ s _. Steps c (some s))
or_undefined-Steps k u c none h = h
or_undefined-Steps k u c (some s) h = h

take_input-Steps :
    (k : Kernel) (t : Trace) (rd : FdSet) (c : Connecter)
    → ReadsFit k
    → IsSound c
    → Returns (take_input rd c k t) (λ s _. Steps c (some s))
unfolding take_input fd_isset
take_input-Steps k t rd c fit v = elim (Bool-cases (rd c.client_sock && is_zero c.outputbuf_size)) [
  | inr idle ↦
      rw (v.client_in_range, idle)
        (Steps-answer c c v (record { same_client = refl; same_step = refl; same_drop = refl }))
  | inl ready ↦
      let r = k.receive_from t c.client_sock max_buf_size in
      rw (v.client_in_range, ready)
        (or_undefined-Steps k _ c (after_recv r c)
          (after_recv-Steps r c (payload_bytes k t c.client_sock r fit refl) v))
]

-- What a call leaves behind: the code is 0 or 1, and it is 1 only if the first step was over before
-- the call or the client is marked to be dropped.
pub record Finishes (c d : Connecter) (code : ℕ) : Type 0 where
  pub sound : IsSound d
  pub same_client : d.client_sock ≡ c.client_sock
  pub code_bit : code ≤ 1
  pub in_order : code ≡ 1 → (c.first_step_completed ≡ true) ⊎ (d.drop ≡ true)
  pub step_kept : c.first_step_completed ≡ true → d.first_step_completed ≡ true

give_output-Finishes :
    (k : Kernel) (t : Trace) (wr : FdSet) (c : Connecter)
    → IsSound c
    → Returns (give_output wr c k t) (λ r _. Finishes c r.0 r.1)
unfolding give_output fd_isset after_send
give_output-Finishes k t wr c v =
    elim (Bool-cases (wr c.client_sock && not (is_zero c.outputbuf_size))) [
      | inr idle ↦ rw (v.client_in_range, idle) (ground arith)
      | inl ready ↦
          let next = λ (bs : Bytes). send c.client_sock bs >>= λ res. pure (after_send res c) in
          rw (v.client_in_range, ready)
            (Returns-step (write_cells max_buf_size c.outputbuf c.outputbuf_size) next _ k t
              (written k t max_buf_size c.outputbuf c.outputbuf_size (omega (arith, v.output_fits))
                v.output_size)
              (ground arith))
    ]

finish-Finishes :
    (k : Kernel) (t : Trace) (wr : FdSet) (c : Connecter) (s : Step)
    → Steps c (some s)
    → Returns (finish wr s k t) (λ r _. Finishes c r.0 r.1)
finish-Finishes k t wr c (d, some n) h = record {
  sound = h.0;
  same_client = h.1;
  code_bit = h.4 n refl;
  in_order = λ _. inr (h.3 (λ e. cc));
  step_kept = λ e. h.2 ∙ e;
}
finish-Finishes k t wr c (d, none) h =
    Returns-map (give_output wr d k t) _ _ (give_output-Finishes k t wr d h.0) λ r u f. record {
      sound = f.sound;
      same_client = f.same_client ∙ h.1;
      code_bit = f.code_bit;
      in_order = rw h.2 at f.in_order;
      step_kept = rw h.2 at f.step_kept;
    }

-- A call of `exchangeData` on a sound handshake returns, whatever the client sends: it stays inside
-- the two buffers of 1024 bytes, and the handshake stays sound. It ends (code 1) only if the first
-- step was over before the call or the client is marked to be dropped. Reads keep to their buffers.
pub exchange_data-Finishes :
    (k : Kernel) (t : Trace) (rd wr : FdSet) (c : Connecter)
    → ReadsFit k
    → IsSound c
    → Returns (exchange_data rd wr c k t) (λ r _. Finishes c r.0 r.1)
unfolding exchange_data
exchange_data-Finishes k t rd wr c fit v =
    let P = λ (r : Connecter × ℕ) (u : Trace). Finishes c r.0 r.1 in
    Returns-if c.drop (pure (c, 0)) (take_input rd c >>= finish wr) P k t (λ dropped. ground arith)
      (λ going.
        Returns-bind (take_input rd c) (finish wr) (λ s _. Steps c (some s)) P k t
          (take_input-Steps k t rd c fit v) (λ s u h. finish-Finishes k u wr c s h))
