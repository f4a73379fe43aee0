-- ===== src/Dns/Answers.antt =====
-- `DNSResolver::receiveAndParse` behind the `recv`: two records are read from the response, and an
-- address from the last one that the header counts.
pub mod Addresses
use nsu_net_course.Prelude.{
  ℕ, ◌+◌, ◌-◌, ◌*◌, ◌^◌, Option, none, some, [], ◌∷◌, ◌++◌, ◌==◌, ltb, leb, if◌then◌else◌, ◌>>=?◌,
}
use nsu_net_course.Buffer.{Buffer, overwrite, prefix, cell, strlen}
use nsu_net_course.Dns.Name.{buf_size, name_size, Ended, done, to_ended, ◌>>=!◌, read_name}

abbrev pub header_size : ℕ
header_size = 12

abbrev pub question_size : ℕ
question_size = 4

abbrev pub r_data_size : ℕ
r_data_size = 10

-- `ntohs` of the two bytes at an index.
abbrev pub word_at : Buffer → ℕ → Option ℕ
word_at buf i =
    cell buf_size buf i >>=? λ hi. cell buf_size buf (i + 1) >>=? λ lo. some (hi * 256 + lo)

-- `sizeof(DNS_HEADER) + strlen(qname) + 1`, the end of the question's name.
unfoldable pub qname_end : Buffer → Option ℕ
unfolding strlen
qname_end buf =
    strlen (buf_size - header_size) header_size buf >>=? λ n. some (header_size + (n + 1))

-- A block of `malloc`: its size, and its bytes with those behind it.
pub record Block : Type 0 where
  pub size : ℕ
  pub bytes : Buffer

-- The `rdata` of an IPv4 record, a block of `len + 1` bytes: the record's bytes and a zero.
abbrev pub copy_rdata : ℕ → ℕ → Buffer → Buffer → Option Block
copy_rdata reader len buf stale =
    if leb (reader + len) buf_size
    then some (record {
      size = len + 1;
      bytes = overwrite (prefix len (λ i. buf (reader + i)) ++ (0 ∷ [])) stale;
    })
    else none

-- One round of the loop: the block `rdata`, and the reader behind the record. The memory of the name
-- held `stale`, and that of `rdata` held `stale'`.
unfoldable pub read_record : ℕ → Buffer → Buffer → Buffer → Ended (Block × ℕ)
read_record reader buf stale stale' = read_name reader buf stale >>=! λ n.
    (let res = reader + n.1 in
      let body = res + r_data_size in
      to_ended (word_at buf res) >>=! λ kind. to_ended (word_at buf (res + 8)) >>=! λ len.
      if kind == 1
      then (to_ended (copy_rdata body len buf stale') >>=! λ rdata. done (rdata, body + len))
      else (read_name body buf stale' >>=! λ r.
          done (record { size = name_size; bytes = r.0 }, body + r.1)))

-- The `long` of eight bytes.
abbrev pub long_of : Buffer → ℕ
long_of b =
    b 0
    + b 1 * 2 ^ 8
    + b 2 * 2 ^ 16
    + b 3 * 2 ^ 24
    + b 4 * 2 ^ 32
    + b 5 * 2 ^ 40
    + b 6 * 2 ^ 48
    + b 7 * 2 ^ 56

-- `*((long *) rdata)` reads eight bytes, of which the block of an IPv4 address has five: that leaves
-- the block, unless the allocator has rounded it up.
abbrev pub long_at : (ℕ → ℕ) → Block → Option ℕ
long_at room b = if leb 8 (room b.size) then some (long_of b.bytes) else none

-- The new `s_addr`; `old` stays if the header counts no answer.
abbrev pub choose_address : (ℕ → ℕ) → ℕ → Block → Block → ℕ → Option ℕ
choose_address room count first second old =
    if ltb 1 count
    then long_at room second
    else if ltb 0 count
    then long_at room first
    else some old

-- `room` tells how many bytes of a block can be read, and `stale` what the memory of each of the four
-- blocks held.
unfoldable pub parse_response : (ℕ → ℕ) → Buffer → (ℕ → Buffer) → ℕ → Ended ℕ
unfolding qname_end read_record
parse_response room buf stale old = to_ended (qname_end buf) >>=! λ q.
    read_record (q + question_size) buf (stale 0) (stale 1) >>=! λ a.
    read_record a.1 buf (stale 2) (stale 3) >>=! λ b.
    to_ended (word_at buf 6) >>=! λ count. to_ended (choose_address room count a.0 b.0 old)
