-- ===== src/Dns/Name/RoundTrip.antt =====
-- `ReadName` on a name in place, as `ChangetoDnsNameFormat` writes it.
use nsu_net_course.Prelude.{
  ℕ, zero, suc, ◌+◌, ◌≤◌, ◌<◌, List, [], ◌∷◌, ◌++◌, ◌≡◌, refl, ◌∙◌, length, All, arith, append-nil,
  append_assoc, length-append, some, if◌then◌else◌, ◌==◌,
}
use mathlib.Core.Path.{fun_ext}
use native.Mathlib.Nat.{add-zero}
use nsu_net_course.Kernel.{Bytes}
use nsu_net_course.Buffer.{Buffer, overwrite, write_at, prefix}
use nsu_net_course.Buffer.Window.{window, prefix-overwrite_append}
use nsu_net_course.Buffer.Writes.{write_at-end}
use nsu_net_course.Dns.Name.{
  Scan, done, scan_byte, scan_name, scan_fuel, end_name, read_name, buf_size, name_size,
}
use nsu_net_course.Dns.Name.Wire.{body, wire, host}
use nsu_net_course.Dns.Name.Dotted.{IsLabel, dotted-without_last_dot}

-- A byte that the scan copies: neither the end nor a pointer.
abbrev pub IsPlain : ℕ → Type 0
IsPlain x = (0 < x) × (x < 192)

abbrev pub scanning : Bytes → ℕ → ℕ → Buffer → ℕ → Scan
scanning pre jumped count b reader = record {
  p = length pre;
  jumped = jumped;
  count = count;
  name = overwrite pre b;
  reader = reader;
}

abbrev pub counted : ℕ → ℕ → ℕ → ℕ
counted jumped count n = if jumped == 0 then count + n else count

scan_step :
    (fuel : ℕ) (buffer : Buffer) (pre : Bytes) (j c : ℕ) (b : Buffer) (r x : ℕ)
    → buffer r ≡ x
    → IsPlain x
    → r < buf_size
    → length pre < name_size
    → scan_name (suc fuel) buffer (scanning pre j c b r)
      ≡ scan_name fuel buffer (scanning (pre ++ (x ∷ [])) j (counted j c 1) b (suc r))
unfolding scan_name scan_byte
scan_step fuel buffer pre j c b r x e h l m =
    ground (arith, write_at-end pre x b, length-append pre (x ∷ []))

scan_end :
    (fuel : ℕ) (buffer : Buffer) (pre : Bytes) (j c : ℕ) (b : Buffer) (r : ℕ)
    → buffer r ≡ 0
    → r < buf_size
    → scan_name (suc fuel) buffer (scanning pre j c b r) ≡ done (scanning pre j c b r)
unfolding scan_name
scan_end fuel buffer pre j c b r e h = ground arith

pub scan_lem :
    (fuel : ℕ) (xs : Bytes) (buffer : Buffer) (pre : Bytes) (j c : ℕ) (b : Buffer) (r : ℕ)
    → window (length xs) r buffer ≡ xs
    → buffer (r + length xs) ≡ 0
    → All IsPlain xs
    → r + length xs < buf_size
    → length pre + length xs ≤ name_size
    → length xs < fuel
    → scan_name fuel buffer (scanning pre j c b r)
      ≡ done (scanning (pre ++ xs) j (counted j c (length xs)) b (r + length xs))
scan_lem zero xs buffer pre j c b r w z h l m f = elim f [ ]
scan_lem (suc fuel) [] buffer pre j c b r w z h l m f =
    scan_end fuel buffer pre j c b r (rw add-zero at z) (omega arith)
    ∙ ground (arith, append-nil pre)
scan_lem (suc fuel) (x ∷ xs) buffer pre j c b r w z h l m f =
    scan_step fuel buffer pre j c b r x (ground arith) h.0 (omega arith) (omega arith)
    ∙ scan_lem fuel xs buffer (pre ++ (x ∷ [])) j (counted j c 1) b (suc r) (ground arith)
        (ground arith) h.1 (omega arith) (omega (arith, length-append pre (x ∷ []))) (omega arith)
    ∙ ground (arith, append_assoc pre (x ∷ []) xs)

-- What the conversion and the end of `ReadName` make of a scanned name.
pub finish_name :
    (l : Bytes) (ls : List Bytes) (j c : ℕ) (b : Buffer) (r : ℕ)
    → All IsLabel (l ∷ ls)
    → length (body (l ∷ ls)) < name_size
    → (end_name (scanning (body (l ∷ ls)) j c b r)
        ≡ some (record (scanning (body (l ∷ ls)) j (if j == 1 then c + 1 else c) b r) {
          name = overwrite (wire (l ∷ ls)) b;
        }))
unfolding end_name
finish_name l ls j c b r g m = ground (arith, write_at-end (body (l ∷ ls)) 0 b)

-- A name that stands at `reader` in its wire format.
pub record Stands (l : Bytes) (ls : List Bytes) (reader : ℕ) (buffer : Buffer) : Type 0 where
  pub bytes : window (length (body (l ∷ ls))) reader buffer ≡ body (l ∷ ls)
  pub ends : buffer (reader + length (body (l ∷ ls))) ≡ 0
  pub inside : reader + length (body (l ∷ ls)) < buf_size
  pub plain : All IsPlain (body (l ∷ ls))
  pub proper : All IsLabel (l ∷ ls)
  pub fits : length (body (l ∷ ls)) < name_size

scan_whole :
    (l : Bytes) (ls : List Bytes) (reader j c : ℕ) (buffer b : Buffer)
    → Stands l ls reader buffer
    → let n = length (body (l ∷ ls)) in
      scan_name scan_fuel buffer (scanning [] j c b reader)
      ≡ done (scanning (body (l ∷ ls)) j (counted j c n) b (reader + n))
unfolding scan_fuel
scan_whole l ls reader j c buffer b v =
    scan_lem scan_fuel (body (l ∷ ls)) buffer [] j c b reader v.bytes v.ends v.plain v.inside
      (omega (arith, v.fits)) (omega (arith, v.fits))

pub empty_text : (b : Buffer) → overwrite [] b ≡ b
unfolding overwrite
empty_text b = fun_ext (λ i. refl)

read_whole :
    (l : Bytes) (ls : List Bytes) (reader : ℕ) (buffer stale : Buffer)
    → Stands l ls reader buffer
    → read_name reader buffer stale
      ≡ done (overwrite (host l ls ++ (0 ∷ 0 ∷ [])) (write_at 0 0 stale), length (wire (l ∷ ls)))
unfolding read_name
read_whole l ls reader buffer stale v =
    let b = write_at 0 0 stale in
    let n = length (body (l ∷ ls)) in
    ground (
      arith,
      empty_text b,
      scan_whole l ls reader 0 1 buffer b v,
      finish_name l ls 0 (1 + n) b (reader + n) v.proper v.fits,
      dotted-without_last_dot l ls b v.proper v.fits,
      length-append (body (l ∷ ls)) (0 ∷ []),
    )

-- `ReadName` of a name in place gives the host's text with dots, and as count the bytes of the name
-- with its final zero. The name's labels are not empty and hold no zero, no byte of the name is 192
-- or more, and it has at most 255 bytes before its final zero.
pub read_name-Stands :
    (l : Bytes) (ls : List Bytes) (reader : ℕ) (buffer stale : Buffer)
    → Stands l ls reader buffer
    → (name : Buffer) × (read_name reader buffer stale ≡ done (name, length (wire (l ∷ ls))))
      × (prefix (length (host l ls) + 1) name ≡ host l ls ++ (0 ∷ []))
read_name-Stands l ls reader buffer stale v =
    let text = host l ls in
    let zeros = prefix-overwrite_append (text ++ (0 ∷ [])) (0 ∷ []) (write_at 0 0 stale) in
    (
      overwrite (text ++ (0 ∷ 0 ∷ [])) (write_at 0 0 stale),
      read_whole l ls reader buffer stale v,
      rw (append_assoc text (0 ∷ []) (0 ∷ []), length-append text (0 ∷ [])) at zeros,
    )
