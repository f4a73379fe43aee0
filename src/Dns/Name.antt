-- ===== src/Dns/Name.antt =====
-- `DNSResolver::ChangetoDnsNameFormat` and `DNSResolver::ReadName`. A pointer into `buf` is its
-- index, and a read past the end of an array is `none`. The array `tmp` is one byte shorter than its
-- text with the terminator: `strcat` writes past it, and `strlen` reads what it wrote.
pub mod Wire
pub mod Pointers
pub mod RoundTrip
pub mod Dotted
pub mod Termination
use nsu_net_course.Prelude.{
  ℕ, zero, suc, ◌+◌, ◌-◌, ◌*◌, ◌%◌, true, false, Option, none, some, [], ◌∷◌, ◌++◌, ◌==◌, ltb, leb,
  if◌then◌else◌, length, ◌>>=?◌,
}
use nsu_net_course.Kernel.{Bytes}
use nsu_net_course.Buffer.{Buffer, cell, write_at, strlen}

-- The loop over `tmp`; `label` is `tmp` from `lock` up to `i`, and the result what is written.
unfoldable pub labels : Bytes → Bytes → Bytes
labels label [] = 0 ∷ []
labels label (c ∷ cs) = elim (c == b'.') [
  | true ↦ (length label % 256) ∷ (label ++ labels [] cs)
  | false ↦ labels (label ++ (c ∷ [])) cs
]

-- `tmp` has `length host + 1` bytes, and `strcat` ends at one more. That has no meaning in C++, and a
-- known effect only if the compiler leaves the byte behind the array free, so that `room` bytes can be
-- used.
unfoldable pub change_to_dns_name_format : ℕ → Bytes → Option Bytes
unfolding labels
change_to_dns_name_format room host =
    if leb (length host + 2) room then some (labels [] (host ++ (b'.' ∷ []))) else none

abbrev pub name_size : ℕ
name_size = 256

abbrev pub buf_size : ℕ
buf_size = 65536

-- What the first loop of `ReadName` keeps: `p`, `jumped`, `*count`, the `name` array and `reader`.
pub record Scan : Type 0 where
  pub p : ℕ
  pub jumped : ℕ
  pub count : ℕ
  pub name : Buffer
  pub reader : ℕ

-- A step of the loop forward: `reader + 1`, and `*count` if there was no jump.
abbrev pub advance : Scan → Scan
advance s = record s {
  reader = suc s.reader;
  count = if s.jumped == 0 then s.count + 1 else s.count;
}

-- The body of the loop at the byte `x`. After a jump `reader` is `buffer + offset`.
unfoldable pub scan_byte : Buffer → ℕ → Scan → Option Scan
scan_byte buffer x s =
    if leb 192 x
    then (cell buf_size buffer (s.reader + 1) >>=? λ y.
        some (record s { reader = x * 256 + y - 49152; jumped = 1 }))
    else if ltb s.p name_size
    then some (advance (record s { p = suc s.p; name = write_at s.p x s.name }))
    else none

-- What a loop on fuel comes to: an end, a read or write out of bounds, or fuel used up.
pub data Ended {ℓ} (A : Type ℓ) : Type ℓ where
  done : A → Ended A
  out_of_bounds : Ended A
  out_of_fuel : Ended A

abbrev pub to_ended {ℓ} : {A : Type ℓ} → Option A → Ended A
to_ended none = out_of_bounds
to_ended (some a) = done a

infixl 6 ◌>>=!◌
abbrev pub ◌>>=!◌ {ℓ κ} : {A : Type ℓ} {B : Type κ} → Ended A → (A → Ended B) → Ended B
done a >>=! f = f a
out_of_bounds >>=! f = out_of_bounds
out_of_fuel >>=! f = out_of_fuel

unfoldable pub scan_name : ℕ → Buffer → Scan → Ended Scan
unfolding scan_byte
scan_name zero buffer s = out_of_fuel
scan_name (suc fuel) buffer s =
    let more = λ (x : ℕ). to_ended (scan_byte buffer x s) >>=! λ s'. scan_name fuel buffer s' in
    to_ended (cell buf_size buffer s.reader) >>=! λ x. elim (x == 0) [
      | true ↦ done s
      | false ↦ more x
    ]

-- The inner loop of the conversion: `p` bytes from `i + 1` on move back by one.
unfoldable pub shift_label : ℕ → ℕ → Buffer → Option (ℕ × Buffer)
shift_label zero i name = some (i, name)
shift_label (suc p) i name =
    cell name_size name (i + 1) >>=? λ x. shift_label p (i + 1) (write_at i x name)

-- The conversion from 3www6google3com to www.google.com; its fuel is the size of the array.
unfoldable pub dotted : ℕ → ℕ → Buffer → Ended (ℕ × Buffer)
dotted zero i name = out_of_fuel
dotted (suc fuel) i name =
    let next = to_ended (shift_label (name i) i name) >>=! λ r.
    if ltb r.0 name_size then dotted fuel (suc r.0) (write_at r.0 b'.' r.1) else out_of_bounds in
    to_ended (strlen name_size 0 name) >>=! λ n. elim (ltb i n) [
      | true ↦ next
      | false ↦ done (i, name)
    ]

-- The last dot becomes the end of the text.
unfoldable pub without_last_dot : ℕ × Buffer → Option Buffer
without_last_dot (i, name) =
    strlen name_size 0 name >>=? λ n. some (if ltb 0 n then write_at (i - 1) 0 name else name)

-- Each round of the scan writes a byte of `name` or jumps: with 256 bytes to write and 65536 places
-- to jump to, a scan that takes longer goes round in a circle.
unfoldable pub scan_fuel : ℕ
scan_fuel = 16842752

unfoldable pub end_name : Scan → Option Scan
end_name s =
    if ltb s.p name_size
    then some (record s {
      name = write_at s.p 0 s.name;
      count = if s.jumped == 1 then s.count + 1 else s.count;
    })
    else none

-- The `name`, in an array whose memory held `stale`, and `*count`.
unfoldable pub read_name : ℕ → Buffer → Buffer → Ended (Buffer × ℕ)
read_name reader buffer stale =
    scan_name scan_fuel buffer
      (record { p = 0; jumped = 0; count = 1; name = write_at 0 0 stale; reader = reader })
    >>=! λ s. to_ended (end_name s) >>=! λ e. dotted name_size 0 e.name >>=! λ r.
        to_ended (without_last_dot r) >>=! λ name. done (name, e.count)
