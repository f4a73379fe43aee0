-- ===== src/Dns/Name/Pointers.antt =====
-- `ReadName` on compressed names: a pointer to a name that stands elsewhere, and a pointer to itself.
use nsu_net_course.Prelude.{
  ℕ, zero, suc, ◌+◌, ◌<◌, List, [], ◌∷◌, ◌++◌, ◌≡◌, refl, ◌∙◌, length, arith, append_assoc,
  length-append, ◌/◌, ◌%◌,
}
use nsu_net_course.Kernel.{Bytes}
use nsu_net_course.Buffer.{Buffer, overwrite, write_at, prefix}
use nsu_net_course.Buffer.Window.{prefix-overwrite_append}
use nsu_net_course.Dns.Name.{
  done, out_of_fuel, scan_byte, scan_name, scan_fuel, read_name, buf_size,
}
use nsu_net_course.Dns.Name.Wire.{body, host}
use nsu_net_course.Dns.Name.Dotted.{dotted-without_last_dot}
use nsu_net_course.Dns.Name.RoundTrip.{Stands, scanning, scan_lem, finish_name, empty_text}

-- The two bytes at `reader` point to `target`.
pub record PointsTo (target reader : ℕ) (buffer : Buffer) : Type 0 where
  pub high : 192 + target / 256 ≡ buffer reader
  pub low : target % 256 ≡ buffer (reader + 1)
  pub inside : reader + 1 < buf_size

scan_jump :
    (fuel : ℕ) (buffer : Buffer) (pre : Bytes) (j c : ℕ) (b : Buffer) (reader target : ℕ)
    → PointsTo target reader buffer
    → scan_name (suc fuel) buffer (scanning pre j c b reader)
      ≡ scan_name fuel buffer (scanning pre 1 c b target)
unfolding scan_name scan_byte
scan_jump fuel buffer pre j c b reader target v = ground arith

scan_pointer :
    (l : Bytes) (ls : List Bytes) (reader target : ℕ) (buffer b : Buffer)
    → PointsTo target reader buffer
    → Stands l ls target buffer
    → let n = length (body (l ∷ ls)) in
      scan_name scan_fuel buffer (scanning [] 0 1 b reader)
      ≡ done (scanning (body (l ∷ ls)) 1 1 b (target + n))
unfolding scan_fuel
scan_pointer l ls reader target buffer b p v =
    scan_jump 16842751 buffer [] 0 1 b reader target p
    ∙ scan_lem 16842751 (body (l ∷ ls)) buffer [] 1 1 b target v.bytes v.ends v.plain v.inside
        (omega (arith, v.fits)) (omega (arith, v.fits))

-- `ReadName` of a pointer to a name gives the text of the host that it points to, and the count 2,
-- the bytes of the pointer. The name is as for a name in place.
pub read_name-PointsTo :
    (l : Bytes) (ls : List Bytes) (reader target : ℕ) (buffer stale : Buffer)
    → PointsTo target reader buffer
    → Stands l ls target buffer
    → (name : Buffer) × (read_name reader buffer stale ≡ done (name, 2))
      × (prefix (length (host l ls) + 1) name ≡ host l ls ++ (0 ∷ []))
unfolding read_name
read_name-PointsTo l ls reader target buffer stale p v =
    let text = host l ls in
    let b = write_at 0 0 stale in
    let n = length (body (l ∷ ls)) in
    let zeros = prefix-overwrite_append (text ++ (0 ∷ [])) (0 ∷ []) b in
    (
      overwrite (text ++ (0 ∷ 0 ∷ [])) b,
      ground (
        arith,
        empty_text b,
        scan_pointer l ls reader target buffer b p v,
        finish_name l ls 1 1 b (target + n) v.proper v.fits,
        dotted-without_last_dot l ls b v.proper v.fits,
      ),
      rw (append_assoc text (0 ∷ []) (0 ∷ []), length-append text (0 ∷ [])) at zeros,
    )

scan_circle :
    (fuel : ℕ) (buffer : Buffer) (pre : Bytes) (j c : ℕ) (b : Buffer) (reader : ℕ)
    → PointsTo reader reader buffer
    → scan_name fuel buffer (scanning pre j c b reader) ≡ out_of_fuel
scan_circle zero buffer pre j c b reader p = unfold scan_name in refl
scan_circle (suc fuel) buffer pre j c b reader p =
    scan_jump fuel buffer pre j c b reader reader p ∙ scan_circle fuel buffer pre 1 c b reader p

-- A pointer to itself keeps the loop of `ReadName` going for ever: however many rounds it is given,
-- it is not done.
pub scan_name-circle :
    (fuel : ℕ) (buffer stale : Buffer) (reader : ℕ)
    → PointsTo reader reader buffer
    → scan_name fuel buffer
        (record { p = 0; jumped = 0; count = 1; name = write_at 0 0 stale; reader = reader })
      ≡ out_of_fuel
scan_name-circle fuel buffer stale reader p =
    rw empty_text at (scan_circle fuel buffer [] 0 1 (write_at 0 0 stale) reader p)
