-- ===== src/Socks5.antt =====
-- net_lab7/SOCKS5Connecter: the handshake with a client, one object for each client. `exchange_data`
-- returns the code of the C++ function. Lines written to std::cout are left out. `server_port` is
-- never read; it is left out. The `int` sizes hold what `recv` returned.
pub mod Wire
pub mod Calls
pub mod Safety
pub mod Requests
pub mod Growth
use nsu_net_course.Prelude.{
  ℕ, zero, suc, ◌+◌, ◌*◌, ◌/◌, ◌%◌, ℤ, pos, negsuc, Bool, true, false, not, ◌&&◌, Option, none,
  some, [], ◌∷◌, ◌++◌, ◌==◌, ltb, is_zero, is_positive, magnitude, if◌then◌else◌, length, ◌>>=?◌,
}
use nsu_net_course.Kernel.{
  M, pure, ◌>>=◌, or_undefined, Received, got, no_data, read_error, Sent, took, no_room,
  write_error, FdSet, recv, send, Bytes, ok,
}
use nsu_net_course.Kernel.Output.{write_cells}
use nsu_net_course.FdSet.{fd_set, fd_isset}
use nsu_net_course.Buffer.{Buffer, overwrite, cell, cells}

abbrev pub max_buf_size : ℕ
max_buf_size = 1024

pub record Connecter : Type 0 where
  pub drop : Bool
  pub client_sock : ℤ
  pub inputbuf : Buffer
  pub outputbuf : Buffer
  pub inputbuf_size : ℤ
  pub outputbuf_size : ℤ
  pub first_step_completed : Bool
  pub domain : Bool
  pub port : ℕ
  pub addr : Bytes

-- The object that the constructor leaves in memory that held `stale`.
abbrev pub fresh_connecter : ℤ → Buffer → Connecter
fresh_connecter client_sock stale = record {
  drop = false;
  client_sock = client_sock;
  inputbuf = stale;
  outputbuf = λ i. stale (max_buf_size + i);
  inputbuf_size = pos 0;
  outputbuf_size = pos 0;
  first_step_completed = false;
  domain = false;
  port = 0;
  addr = [];
}

-- `new SOCKS5Connecter(client_sock)`
unfoldable pub new_connecter : ℤ → M Connecter
new_connecter client_sock k t = ok (fresh_connecter client_sock (k.stale_byte t)) t

abbrev pub need_to_drop : Connecter → Bool
need_to_drop c = c.drop

abbrev pub get_host : Connecter → Bytes
get_host c = c.addr

abbrev pub get_port : Connecter → ℕ
get_port c = c.port

abbrev pub is_domain : Connecter → Bool
is_domain c = c.domain

abbrev pub input : Connecter → ℕ → Option ℕ
input c i = cell max_buf_size c.inputbuf i

-- The loop over the `n` methods that are left, the next one at index `i` of the buffer.
unfoldable pub choose_method : ℕ → ℕ → Buffer → ℕ → Option ℕ
choose_method zero i b chosen = some chosen
choose_method (suc n) i b chosen =
    let rest = λ (m : ℕ). choose_method n (suc i) b (if m == 0 then 0 else chosen) in
    cell max_buf_size b i >>=? rest

-- The first step: a greeting is answered by 5 and the method.
unfoldable pub answer_greeting : Connecter → Option Connecter
unfolding choose_method
answer_greeting c = input c 1 >>=? λ n. choose_method n 2 c.inputbuf 0xff >>=? λ m.
    some (record c { outputbuf_size = pos 2; outputbuf = overwrite (5 ∷ m ∷ []) c.outputbuf })

-- Bytes 0 and 1 of the `int port`, on a little-endian machine.
abbrev pub low_byte : ℕ → ℕ
low_byte p = p % 256

abbrev pub high_byte : ℕ → ℕ
high_byte p = (p / 256) % 256

abbrev pub with_high_byte : ℕ → ℕ → ℕ
with_high_byte b p = (p / 65536) * 65536 + b * 256 + p % 256

abbrev pub with_low_byte : ℕ → ℕ → ℕ
with_low_byte b p = (p / 256) * 256 + b

-- `outputbuf[1]` after the four tests.
abbrev pub reply_code : ℕ → ℕ → ℕ → ℕ
reply_code version command kind =
    if kind == 4 then 8 else if not (command == 1) then 7 else if not (version == 5) then 7 else 0

-- `std::to_string` of a byte.
abbrev pub digit : ℕ → ℕ
digit d = b'0' + d

unfoldable pub to_string : ℕ → Bytes
to_string n =
    if ltb n 10
    then digit n ∷ []
    else if ltb n 100
    then digit (n / 10) ∷ digit (n % 10) ∷ []
    else digit (n / 100) ∷ digit (n / 10 % 10) ∷ digit (n % 10) ∷ []

-- `n` bytes of the host from index `i` on.
unfoldable pub copy_host : ℕ → ℕ → Buffer → Option Bytes
copy_host zero i b = some []
copy_host (suc n) i b =
    let rest = copy_host n (suc i) b in
    cell max_buf_size b i >>=? λ x. rest >>=? λ xs. some (x ∷ xs)

unfoldable pub read_domain : Connecter → Option Connecter
unfolding copy_host
read_domain c = input c 4 >>=? λ n. copy_host n 5 c.inputbuf >>=? λ host. input c (n + 5) >>=? λ hi.
    input c (n + 6) >>=? λ lo. some (record c {
      domain = true;
      addr = c.addr ++ host;
      port = with_low_byte lo (with_high_byte hi c.port);
    })

unfoldable pub read_ipv4 : Connecter → Option Connecter
read_ipv4 c = input c 4 >>=? λ a. input c 5 >>=? λ b. input c 6 >>=? λ d. input c 7 >>=? λ e.
    input c 8 >>=? λ hi. input c 9 >>=? λ lo. some (record c {
      domain = false;
      addr =
          c.addr
          ++ (to_string a
              ++ (b'.' ∷ (to_string b ++ (b'.' ∷ (to_string d ++ (b'.' ∷ to_string e))))));
      port = with_low_byte lo (with_high_byte hi c.port);
    })

-- The reply is written before the port is read, so it holds the port of before.
unfoldable pub with_reply : ℕ → Connecter → Connecter
with_reply code c = record c {
  outputbuf_size = pos 10;
  outputbuf =
      overwrite (5 ∷ code ∷ 0 ∷ 1 ∷ 127 ∷ 0 ∷ 0 ∷ 1 ∷ low_byte c.port ∷ high_byte c.port ∷ [])
        c.outputbuf;
}

-- The second step: a request is answered, and its destination kept.
unfoldable pub answer_request : Connecter → Option Connecter
unfolding read_domain read_ipv4 with_reply
answer_request c = input c 0 >>=? λ version. input c 1 >>=? λ command. input c 3 >>=? λ kind.
    (let replied = with_reply (reply_code version command kind) c in
      if kind == 3
      then read_domain replied
      else if kind == 1
      then read_ipv4 replied
      else some replied)

unfoldable pub answer : Connecter → Option Connecter
unfolding answer_greeting answer_request
answer c =
    if not c.first_step_completed && is_positive c.inputbuf_size
    then answer_greeting c
    else answer_request c

-- Either the code of an early return, or none to go on to the second `if`.
abbrev pub Step : Type 0
Step = Connecter × Option ℕ

unfoldable pub after_recv : Received → Connecter → Option Step
unfolding answer
after_recv (got []) c = some (record c { inputbuf_size = pos 0; drop = true }, some 1)
after_recv (got (x ∷ xs)) c =
    answer
      (record c { inputbuf = overwrite (x ∷ xs) c.inputbuf; inputbuf_size = pos (length (x ∷ xs)) })
    >>=? λ d. some (d, none)
after_recv no_data c = answer (record c { inputbuf_size = negsuc 0 }) >>=? λ d. some (d, none)
after_recv read_error c = some (record c { inputbuf_size = negsuc 0; drop = true }, some 0)

unfoldable pub take_input : FdSet → Connecter → M Step
unfolding after_recv fd_isset
take_input rd c = do
  ready ← fd_isset c.client_sock rd
  if ready && is_zero c.outputbuf_size
      then (do r ← recv c.client_sock max_buf_size; or_undefined (after_recv r c))
      else pure (c, none)

-- `err == 0 || (err == -1 && errno != EWOULDBLOCK)`
abbrev pub lost : Sent → Bool
lost (took n) = n == 0
lost no_room = false
lost write_error = true

unfoldable pub after_send : Sent → Connecter → Connecter × ℕ
after_send res c =
    if c.first_step_completed
    then (record c { outputbuf_size = pos 0; drop = if lost res then true else c.drop }, 1)
    else (
      record c {
        outputbuf_size = pos 0;
        drop = if lost res then true else c.drop;
        first_step_completed = true;
      },
      0,
    )

unfoldable pub give_output : FdSet → Connecter → M (Connecter × ℕ)
unfolding after_send fd_isset
give_output wr c = do
  ready ← fd_isset c.client_sock wr
  if ready && not (is_zero c.outputbuf_size)
      then (do
        bs ← write_cells max_buf_size c.outputbuf c.outputbuf_size
        res ← send c.client_sock bs
        pure (after_send res c))
      else pure (c, 0)

abbrev pub finish : FdSet → Step → M (Connecter × ℕ)
finish wr (c, some code) = pure (c, code)
finish wr (c, none) = give_output wr c

unfoldable pub exchange_data : FdSet → FdSet → Connecter → M (Connecter × ℕ)
exchange_data rd wr c = if c.drop then pure (c, 0) else (do s ← take_input rd c; finish wr s)

unfoldable pub fill_fd_set : Connecter → FdSet × FdSet → M (FdSet × FdSet)
unfolding fd_set
fill_fd_set c (rd, wr) =
    if not c.first_step_completed
    then (do rd' ← fd_set c.client_sock rd; wr' ← fd_set c.client_sock wr; pure (rd', wr'))
    else (do
      wr' ← fd_set c.client_sock wr
      if is_zero c.outputbuf_size
          then (do rd' ← fd_set c.client_sock rd; pure (rd', wr'))
          else pure (rd, wr'))
