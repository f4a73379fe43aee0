-- ===== src/Resolver/Address.antt =====
-- `receiveAndParse` on a response with two addresses.
use nsu_net_course.Prelude.{ℕ, ◌+◌, ◌≤◌, true, List, ◌∷◌, ◌≡◌, refl}
use nsu_net_course.Kernel.{Kernel, Trace, Bytes, got, received, ok}
use nsu_net_course.Buffer.{overwrite, AreBytes}
use nsu_net_course.Dns.Name.{buf_size}
use nsu_net_course.Dns.Name.RoundTrip.{Stands}
use nsu_net_course.Dns.Answers.{header_size}
use nsu_net_course.Dns.Answers.Addresses.{
  Answer, first_record, count_of, address, Finds, parse_response-Finds,
}
use nsu_net_course.Resolver.{Resolver, receive_and_parse, after_recv, stale_block}

-- If the message in the buffer has the name of the question in place behind its header, and behind the
-- question two records of type A whose names are pointers to it, then receiveAndParse returns: the
-- response counts as received, and the 32 bits of s_addr that are used are the address of the
-- first record if the header counts one answer, and of the second if it counts more; s_addr stays if
-- it counts none. The bytes of the buffer are bytes, and of a block of five bytes, eight can be read.
pub receive_and_parse-Finds :
    (k : Kernel) (t : Trace) (r : Resolver) (msg : ℕ × Bytes) (l : Bytes) (ls : List Bytes)
    (a b c d a' b' c' d' : ℕ)
    → k.receive_from t r.sockfd buf_size ≡ got (msg.0 ∷ msg.1)
    → let buf = overwrite (msg.0 ∷ msg.1) r.buf in
      8 ≤ k.heap_room 5
      → AreBytes buf
      → Stands l ls header_size buf
      → Answer a b c d (first_record l ls) buf
      → Answer a' b' c' d' (first_record l ls + 16) buf
      → (r' : Resolver) × (receive_and_parse r k t
          ≡ ok r' (received r.sockfd (got (msg.0 ∷ msg.1)) ∷ t))
        × (r'.response_recived ≡ true)
        × (r'.sockfd ≡ r.sockfd)
        × Finds (count_of buf) (address a b c d) (address a' b' c' d') r.s_addr r'.s_addr
unfolding receive_and_parse after_recv
receive_and_parse-Finds k t r (x, xs) l ls a b c d a' b' c' d' got_it eight bytes v w w' =
    let buf = overwrite (x ∷ xs) r.buf in
    let u = received r.sockfd (got (x ∷ xs)) ∷ t in
    let (addr, e, f) =
      parse_response-Finds k.heap_room l ls a b c d a' b' c' d' buf (stale_block k u) r.s_addr eight
        bytes v w w' in
    let r' : Resolver = record r { buf = buf; response_recived = true; s_addr = addr } in
    (r', rw (got_it, e) refl, refl, refl, f)
