-- ===== src/Dns/Answers/Addresses.antt =====
-- A response with records of type A, whose names are pointers to the name of the question.
use nsu_net_course.Prelude.{
  ℕ, zero, suc, ◌+◌, ◌-◌, ◌*◌, ◌%◌, ◌^◌, ◌<◌, ◌≤◌, List, [], ◌∷◌, ◌≡◌, refl, ap, ◌∙◌, length, some,
  arith, ltb, if◌then◌else◌,
}
use nsu_net_course.Kernel.{Bytes}
use nsu_net_course.Buffer.{Buffer, overwrite, prefix, strlen, AreBytes}
use nsu_net_course.Buffer.Window.{window}
use nsu_net_course.Buffer.Writes.{NoZero}
use nsu_net_course.Dns.Name.{buf_size, done, to_ended}
use nsu_net_course.Dns.Name.Wire.{body}
use nsu_net_course.Dns.Name.Dotted.{body-NoZero}
use nsu_net_course.Dns.Name.RoundTrip.{Stands}
use nsu_net_course.Dns.Name.Pointers.{PointsTo, read_name-PointsTo}
use nsu_net_course.Dns.Answers.{
  header_size, question_size, r_data_size, word_at, qname_end, copy_rdata, read_record, Block,
  long_of, choose_address, parse_response,
}

strlen-window :
    (xs : Bytes) (n i : ℕ) (b : Buffer)
    → window (length xs) i b ≡ xs
    → b (i + length xs) ≡ 0
    → NoZero xs
    → length xs < n
    → strlen n i b ≡ some (length xs)
unfolding strlen
strlen-window xs zero i b w z h l = elim l [ ]
strlen-window [] (suc n) i b w z h l = ground arith
strlen-window (x ∷ xs) (suc n) i b w z h l =
    ground (arith, strlen-window xs n (suc i) b (ground arith) (ground arith) h.1 (omega arith))

-- The record of an address: a pointer to the question's name, the type and the length, and four bytes.
pub record Answer (a b c d i : ℕ) (buf : Buffer) : Type 0 where
  pub name : PointsTo header_size i buf
  pub type_high : buf (i + 2) ≡ 0
  pub type_low : buf (i + 3) ≡ 1
  pub length_high : buf (i + 10) ≡ 0
  pub length_low : buf (i + 11) ≡ 4
  pub first : buf (i + 12) ≡ a
  pub second : buf (i + 13) ≡ b
  pub third : buf (i + 14) ≡ c
  pub fourth : buf (i + 15) ≡ d
  pub inside : i + 16 ≤ buf_size

word_at-some :
    (buf : Buffer) (i j k x y : ℕ)
    → i ≡ j
    → suc i ≡ k
    → buf j ≡ x
    → buf k ≡ y
    → k < buf_size
    → word_at buf i ≡ some (x * 256 + y)
word_at-some buf i j k x y e f h g m = ground arith

-- The block of an address: four bytes and a zero, and what the memory held behind them.
abbrev pub four : ℕ → ℕ → ℕ → ℕ → Buffer → Block
four a b c d stale = record { size = 5; bytes = overwrite (a ∷ b ∷ c ∷ d ∷ 0 ∷ []) stale }

copy_rdata-some :
    (i : ℕ) (a b c d : ℕ) (buf stale : Buffer)
    → Answer a b c d i buf
    → copy_rdata (i + 2 + r_data_size) 4 buf stale ≡ some (four a b c d stale)
unfolding prefix
copy_rdata-some i a b c d buf stale w =
    let at = λ (j k : ℕ) (e : j ≡ k). ap buf e in
    rw
      (
        at (i + 2 + r_data_size + 0) (i + 12) (omega arith) ∙ w.first,
        at (i + 2 + r_data_size + 1) (i + 13) (omega arith) ∙ w.second,
        at (i + 2 + r_data_size + 2) (i + 14) (omega arith) ∙ w.third,
        at (i + 2 + r_data_size + 3) (i + 15) (omega arith) ∙ w.fourth,
      )
      (ground (arith, w.inside))

read_record-Answer :
    (l : Bytes) (ls : List Bytes) (a b c d i : ℕ) (buf stale stale' : Buffer)
    → Stands l ls header_size buf
    → Answer a b c d i buf
    → read_record i buf stale stale' ≡ done (four a b c d stale', i + 16)
unfolding read_record
read_record-Answer l ls a b c d i buf stale stale' v w =
    let (name, e, _) = read_name-PointsTo l ls i header_size buf stale w.name v in
    let kind : word_at buf (i + 2) ≡ some 1 =
      word_at-some buf (i + 2) (i + 2) (i + 3) 0 1 refl (omega arith) w.type_high w.type_low
        (omega (arith, w.inside)) in
    let size : word_at buf (i + 2 + 8) ≡ some 4 =
      word_at-some buf (i + 2 + 8) (i + 10) (i + 11) 0 4 (omega arith) (omega arith) w.length_high
        w.length_low (omega (arith, w.inside)) in
    rw (e, kind, size, copy_rdata-some i a b c d buf stale' w)
      (ap (λ x. done (four a b c d stale', x)) (omega arith))

-- The address of four bytes, as `in_addr` has it in the memory of the machine.
abbrev pub address : ℕ → ℕ → ℕ → ℕ → ℕ
address a b c d = a + b * 2 ^ 8 + c * 2 ^ 16 + d * 2 ^ 24

-- What a `long` has read behind the four bytes does not reach the 32 bits of the address.
long_of-address :
    (a b c d : ℕ) (stale : Buffer)
    → a < 256
    → b < 256
    → c < 256
    → d < 256
    → long_of (overwrite (a ∷ b ∷ c ∷ d ∷ 0 ∷ []) stale) % 2 ^ 32 ≡ address a b c d
unfolding overwrite
long_of-address a b c d stale ha hb hc hd = omega arith

abbrev pub count_of : Buffer → ℕ
count_of buf = buf 6 * 256 + buf 7

-- Where the first record stands: behind the header, the name and the question.
abbrev pub first_record : Bytes → List Bytes → ℕ
first_record l ls = header_size + (length (body (l ∷ ls)) + 1) + question_size

qname_end-Stands :
    (l : Bytes) (ls : List Bytes) (buf : Buffer)
    → Stands l ls header_size buf
    → qname_end buf ≡ some (header_size + (length (body (l ∷ ls)) + 1))
unfolding qname_end
qname_end-Stands l ls buf v =
    rw
      (strlen-window (body (l ∷ ls)) (buf_size - header_size) header_size buf v.bytes v.ends
        (body-NoZero (l ∷ ls) v.proper) (omega (arith, v.fits)))
      refl

-- Which address comes out: that of the last of the two records that the header counts, or the old one.
abbrev pub Finds : ℕ → ℕ → ℕ → ℕ → ℕ → Type 0
Finds count one two old x =
    (count ≡ 0 → x ≡ old) × (count ≡ 1 → x % 2 ^ 32 ≡ one) × (1 < count → x % 2 ^ 32 ≡ two)

choose-Finds :
    (room : ℕ → ℕ) (count : ℕ) (one two : Block) (old : ℕ)
    → 8 ≤ room one.size
    → 8 ≤ room two.size
    → (x : ℕ) × (choose_address room count one two old ≡ some x)
      × Finds count (long_of one.bytes % 2 ^ 32) (long_of two.bytes % 2 ^ 32) old x
choose-Finds room count one two old h g = (
  if ltb 1 count then long_of two.bytes else if ltb 0 count then long_of one.bytes else old,
  ground arith,
  (λ e. ground arith, λ e. ground arith, λ e. ground arith),
)

parse_response-Answers :
    (room : ℕ → ℕ) (l : Bytes) (ls : List Bytes) (a b c d a' b' c' d' : ℕ) (buf : Buffer)
    (stale : ℕ → Buffer) (old : ℕ)
    → Stands l ls header_size buf
    → Answer a b c d (first_record l ls) buf
    → Answer a' b' c' d' (first_record l ls + 16) buf
    → parse_response room buf stale old
      ≡ to_ended (
          choose_address room
            (count_of buf)
            (four a b c d (stale 1))
            (four a' b' c' d' (stale 3))
            old)
unfolding parse_response
parse_response-Answers room l ls a b c d a' b' c' d' buf stale old v w w' =
    rw
      (
        qname_end-Stands l ls buf v,
        read_record-Answer l ls a b c d (first_record l ls) buf (stale 0) (stale 1) v w,
        read_record-Answer l ls a' b' c' d' (first_record l ls + 16) buf (stale 2) (stale 3) v w',
      )
      refl

-- The result of the records' 32-bit addresses, whose bytes are bytes.
pub parse_response-Finds :
    (room : ℕ → ℕ) (l : Bytes) (ls : List Bytes) (a b c d a' b' c' d' : ℕ) (buf : Buffer)
    (stale : ℕ → Buffer) (old : ℕ)
    → 8 ≤ room 5
    → AreBytes buf
    → Stands l ls header_size buf
    → Answer a b c d (first_record l ls) buf
    → Answer a' b' c' d' (first_record l ls + 16) buf
    → (x : ℕ) × (parse_response room buf stale old ≡ done x)
      × Finds (count_of buf) (address a b c d) (address a' b' c' d') old x
parse_response-Finds room l ls a b c d a' b' c' d' buf stale old eight bytes v w w' =
    let (x, e, f) =
      choose-Finds room (count_of buf) (four a b c d (stale 1)) (four a' b' c' d' (stale 3)) old
        eight eight in
    let r = first_record l ls in
    let one =
      long_of-address a b c d (stale 1) (rw w.first at (bytes (r + 12)))
        (rw w.second at (bytes (r + 13))) (rw w.third at (bytes (r + 14)))
        (rw w.fourth at (bytes (r + 15))) in
    let two =
      long_of-address a' b' c' d' (stale 3) (rw w'.first at (bytes (r + 16 + 12)))
        (rw w'.second at (bytes (r + 16 + 13))) (rw w'.third at (bytes (r + 16 + 14)))
        (rw w'.fourth at (bytes (r + 16 + 15))) in
    (
      x,
      parse_response-Answers room l ls a b c d a' b' c' d' buf stale old v w w' ∙ ap to_ended e,
      rw (one, two) at f,
    )
