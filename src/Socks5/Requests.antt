-- ===== src/Socks5/Requests.antt =====
-- What the handshake makes of the client's messages.
use nsu_net_course.Prelude.{
  ℕ, suc, ◌+◌, ◌/◌, ◌%◌, ◌<◌, pos, true, false, none, some, [], ◌∷◌, ◌++◌, ◌==◌, ◌≡◌, ◌≢◌, refl,
  ◌∙◌, length, if◌then◌else◌, arith,
}
use native.Mathlib.Numerals.{towards_suc}
use nsu_net_course.Kernel.{Bytes, got}
use nsu_net_course.Buffer.{Buffer, prefix, overwrite}
use nsu_net_course.Buffer.Window.{
  window, window-suc, window-overwrite, window-overwrite_all, overwrite-append_two,
}
use nsu_net_course.Socks5.{
  Connecter, after_recv, answer_greeting, answer_request, read_domain, read_ipv4, to_string,
  with_reply,
}
use nsu_net_course.Socks5.Wire.{
  offers, greeting, connect_to_domain, connect_to_ipv4, reply, choose_method_lem, copy_host_lem,
}

-- The bytes that wait to be sent.
abbrev pub output : Connecter → Bytes
output c = elim c.outputbuf_size [ pos n ↦ prefix n c.outputbuf | _ ↦ [] ]

-- The connecter that has read `msg`.
abbrev with_input : Bytes → Connecter → Connecter
with_input msg c = record c {
  inputbuf = overwrite msg c.inputbuf;
  inputbuf_size = pos (length msg);
}

window-greeting : (ms : Bytes) (b : Buffer) → window (length ms) 2 (overwrite (greeting ms) b) ≡ ms
unfolding overwrite
window-greeting ms b =
    window-suc (length ms) 1 (overwrite (greeting ms) b)
    ∙ window-suc (length ms) 0 (overwrite (length ms ∷ ms) (λ i. b (suc i)))
    ∙ window-overwrite_all ms (λ i. b (suc (suc i)))

abbrev greeted : Bytes → Connecter → Connecter
greeted ms c = record (with_input (greeting ms) c) {
  outputbuf_size = pos 2;
  outputbuf = overwrite (5 ∷ (if offers 0 ms then 0 else 255) ∷ []) c.outputbuf;
}

-- A greeting in the first step is answered by version 5 and the method 0, or 255 if the client does
-- not offer the method 0.
pub after_recv-greeting :
    (c : Connecter) (methods : Bytes)
    → c.first_step_completed ≡ false
    → length methods < 256
    → (d : Connecter) × (after_recv (got (greeting methods)) c ≡ some (d, none))
      × (output d ≡ 5 ∷ (if offers 0 methods then 0 else 255) ∷ [])
      × (d.first_step_completed ≡ false)
unfolding after_recv answer_greeting overwrite prefix
after_recv-greeting c methods first h = (
  greeted methods c,
  ground (
    arith,
    choose_method_lem (length methods) 2 (overwrite (greeting methods) c.inputbuf) 255,
    window-greeting methods c.inputbuf,
  ),
  refl,
  first,
)

window_domain :
    (host : Bytes) (port : ℕ) (b : Buffer)
    → window (length host) 5 (overwrite (connect_to_domain host port) b) ≡ host
unfolding overwrite
window_domain host port b =
    window-suc (length host) 4 _
    ∙ window-suc (length host) 3 _
    ∙ window-suc (length host) 2 _
    ∙ window-suc (length host) 1 _
    ∙ window-suc (length host) 0 _
    ∙ window-overwrite host _ (λ i. b (suc (suc (suc (suc (suc i))))))

port_bytes :
    (host : Bytes) (port : ℕ) (b : Buffer)
    → (overwrite (connect_to_domain host port) b (length host + 5) ≡ port / 256)
      × (overwrite (connect_to_domain host port) b (length host + 6) ≡ port % 256)
unfolding overwrite
port_bytes host port b =
    let tail =
      overwrite-append_two host (port / 256) (port % 256) []
        (λ i. b (suc (suc (suc (suc (suc i)))))) in
    (simp towards_suc tail.0, simp towards_suc tail.1)

abbrev replied : Bytes → ℕ → Connecter → Connecter
replied msg code c = record (with_input msg c) {
  outputbuf_size = pos 10;
  outputbuf = overwrite (reply code) c.outputbuf;
}

-- `d` is `c` with a reply that waits to be sent.
pub record Replied (c d : Connecter) (code : ℕ) : Type 0 where
  pub size : d.outputbuf_size ≡ pos 10
  pub bytes : prefix 10 d.outputbuf ≡ reply code
  pub same_client : d.client_sock ≡ c.client_sock
  pub same_drop : d.drop ≡ c.drop
  pub same_step : d.first_step_completed ≡ c.first_step_completed

-- A request in the second step to connect to a domain is answered by the reply 0, and the connecter
-- then holds the host and the port of the request, for every host of up to 255 bytes and every
-- 16-bit port.
pub after_recv-connect_to_domain :
    (c : Connecter) (host : Bytes) (port : ℕ)
    → c.first_step_completed ≡ true
    → c.addr ≡ []
    → c.port ≡ 0
    → length host < 256
    → port < 65536
    → (d : Connecter) × (after_recv (got (connect_to_domain host port)) c ≡ some (d, none))
      × Replied c d 0
      × (d.domain ≡ true)
      × (d.addr ≡ host)
      × (d.port ≡ port)
unfolding after_recv answer_request read_domain with_reply overwrite prefix
after_recv-connect_to_domain c host port first noaddr noport h p = (
  record (replied (connect_to_domain host port) 0 c) { domain = true; addr = host; port = port },
  ground (
    arith,
    copy_host_lem (length host) 5 (overwrite (connect_to_domain host port) c.inputbuf),
    window_domain host port c.inputbuf,
    port_bytes host port c.inputbuf,
  ),
  record { size = refl; bytes = refl; same_client = refl; same_drop = refl; same_step = refl },
  refl,
  refl,
  refl,
)

-- The text of an IPv4 address.
abbrev pub dotted_quad : ℕ → ℕ → ℕ → ℕ → Bytes
dotted_quad a b c d =
    to_string a ++ (b'.' ∷ (to_string b ++ (b'.' ∷ (to_string c ++ (b'.' ∷ to_string d)))))

-- A request in the second step to connect to an IPv4 address is answered by the reply 0, and the
-- connecter then holds the address as a text and the port of the request, for every 16-bit port.
pub after_recv-connect_to_ipv4 :
    (e : Connecter) (a b c d port : ℕ)
    → e.first_step_completed ≡ true
    → e.addr ≡ []
    → e.port ≡ 0
    → port < 65536
    → (f : Connecter) × (after_recv (got (connect_to_ipv4 a b c d port)) e ≡ some (f, none))
      × Replied e f 0
      × (f.domain ≡ false)
      × (f.addr ≡ dotted_quad a b c d)
      × (f.port ≡ port)
unfolding after_recv answer_request read_ipv4 with_reply overwrite prefix
after_recv-connect_to_ipv4 e a b c d port first noaddr noport p = (
  record (replied (connect_to_ipv4 a b c d port) 0 e) {
    domain = false;
    addr = dotted_quad a b c d;
    port = port;
  },
  ground arith,
  record { size = refl; bytes = refl; same_client = refl; same_drop = refl; same_step = refl },
  refl,
  refl,
  refl,
)

-- A request in the second step that asks for something else than a connection (the command is not 1),
-- and not for a domain or an IPv4 address, is refused by the reply 7, or 8 for the address type 4.
pub after_recv-refused :
    (c : Connecter) (command kind : ℕ) (rest : Bytes)
    → c.first_step_completed ≡ true
    → c.port ≡ 0
    → command ≢ 1
    → kind ≢ 1
    → kind ≢ 3
    → let msg = 5 ∷ command ∷ 0 ∷ kind ∷ rest in
      (d : Connecter) × (after_recv (got msg) c ≡ some (d, none))
      × Replied c d (if kind == 4 then 8 else 7)
      × (d.domain ≡ c.domain)
      × (d.addr ≡ c.addr)
      × (d.port ≡ c.port)
unfolding after_recv answer_request with_reply overwrite prefix
after_recv-refused c command kind rest first noport h1 h2 h3 = (
  replied (5 ∷ command ∷ 0 ∷ kind ∷ rest) (if kind == 4 then 8 else 7) c,
  ground arith,
  record { size = refl; bytes = refl; same_client = refl; same_drop = refl; same_step = refl },
  refl,
  refl,
  refl,
)
