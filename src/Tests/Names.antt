-- ===== src/Tests/Names.antt =====
-- The name www.nsu.ru in a packet, and a pointer to it.
use nsu_net_course.Prelude.{
  none, some, ltb, ℕ, zero, suc, ◌<◌, ◌≤◌, All, Bool-cases, inl, inr, ◌+◌, List, [], ◌∷◌, ◌++◌, ◌≡◌,
  refl, length, arith,
}
use nsu_net_course.Kernel.{Bytes}
use nsu_net_course.Buffer.{Buffer, overwrite, prefix, write_at}
use nsu_net_course.Dns.Name.{change_to_dns_name_format, read_name, done, scan_name, out_of_fuel}
use nsu_net_course.Dns.Name.Wire.{host, wire, change_to_dns_name_format-wire}
use nsu_net_course.Dns.Name.RoundTrip.{Stands, read_name-Stands}
use nsu_net_course.Dns.Name.Pointers.{PointsTo, read_name-PointsTo, scan_name-circle}
use nsu_net_course.Dns.Name.Termination.{IsOver, PointsBack, target, read_name-IsOver}
use nsu_net_course.Kernel.{◌>>=◌, ok, sent}
use nsu_net_course.Resolver.{new_resolver, send_query, after_send}
use nsu_net_course.Resolver.Query.{asked, opening, message, new_resolver-send_query}
use nsu_net_course.Tests.Sample.{replying}

abbrev pub www : Bytes
www = b'w' ∷ b'w' ∷ b'w' ∷ []

abbrev pub nsu_ru : List Bytes
nsu_ru = (b'n' ∷ b's' ∷ b'u' ∷ []) ∷ (b'r' ∷ b'u' ∷ []) ∷ []

-- The name at index 0, and a pointer to it at index 12.
abbrev packet : Buffer
unfolding overwrite
packet = overwrite (wire (www ∷ nsu_ru) ++ (192 ∷ 0 ∷ [])) (λ _. 7)

-- A pointer to itself at index 0.
abbrev circle : Buffer
unfolding overwrite
circle = overwrite (192 ∷ 0 ∷ []) (λ _. 7)

packet-Stands : Stands www nsu_ru 0 packet
unfolding overwrite
packet-Stands = record {
  bytes = refl;
  ends = refl;
  inside = omega arith;
  plain = omega arith;
  proper = omega arith;
  fits = omega arith;
}

change_to_dns_name_format-wire_example :
    (length (host www nsu_ru) + 2 ≤ 16
      → change_to_dns_name_format 16 (host www nsu_ru) ≡ some (wire (www ∷ nsu_ru)))
    × (16 < length (host www nsu_ru) + 2 → change_to_dns_name_format 16 (host www nsu_ru) ≡ none)
change_to_dns_name_format-wire_example = change_to_dns_name_format-wire 16 www nsu_ru (omega arith)

read_name-Stands_example :
    (name : Buffer) × (read_name 0 packet (λ _. 7) ≡ done (name, 12))
    × (prefix (length (host www nsu_ru) + 1) name ≡ host www nsu_ru ++ (0 ∷ []))
read_name-Stands_example = read_name-Stands www nsu_ru 0 packet (λ _. 7) packet-Stands

packet-PointsTo : PointsTo 0 12 packet
unfolding overwrite
packet-PointsTo = record { high = refl; low = refl; inside = omega arith }

circle-PointsTo : PointsTo 0 0 circle
unfolding overwrite
circle-PointsTo = record { high = refl; low = refl; inside = omega arith }

read_name-PointsTo_example :
    (name : Buffer) × (read_name 12 packet (λ _. 7) ≡ done (name, 2))
    × (prefix (length (host www nsu_ru) + 1) name ≡ host www nsu_ru ++ (0 ∷ []))
read_name-PointsTo_example =
    read_name-PointsTo www nsu_ru 12 0 packet (λ _. 7) packet-PointsTo packet-Stands

below :
    (xs ys : Bytes) (b : Buffer)
    → All (λ x. x < 192) xs
    → (i : ℕ) → i < length xs
    → overwrite (xs ++ ys) b i < 192
unfolding overwrite
below [] ys b h i m = elim m [ ]
below (x ∷ xs) ys b h zero m = h.0
below (x ∷ xs) ys b h (suc i) m = below xs ys (λ j. b (suc j)) h.1 i (omega arith)

wire-below : (i : ℕ) → i < 12 → packet i < 192
unfolding overwrite
wire-below =
    below (wire (www ∷ nsu_ru)) (192 ∷ 0 ∷ []) (λ _. 7)
      (
        omega arith,
        (
          omega arith,
          (
            omega arith,
            (
              omega arith,
              (
                omega arith,
                (
                  omega arith,
                  (
                    omega arith,
                    (omega arith, (omega arith, (omega arith, (omega arith, (omega arith, tt))))),
                  ),
                ),
              ),
            ),
          ),
        ),
      )

pointer_high : packet 12 < 192 → ⊥
unfolding overwrite
pointer_high h = omega arith

pointer_back : (target packet 12 ≤ 12) × (target packet 12 < 12)
unfolding overwrite
pointer_back = (omega arith, omega arith)

not_below : (x : ℕ) → x < 192 → 192 ≤ x → ⊥
not_below x h g = omega arith

-- The name and the pointer, at their first bytes.
packet-PointsBack : PointsBack packet (λ i. i ≤ 12)
packet-PointsBack = record {
  goes_on = λ i m l. elim (Bool-cases (ltb i 12)) [
    | inl e ↦ ground arith
    | inr e ↦ let same : i ≡ 12 = ground arith in elim (pointer_high (rw same at l)) [ ]
  ];
  goes_back = λ i m l. elim (Bool-cases (ltb i 12)) [
    | inl e ↦ elim (not_below (packet i) (wire-below i (ground arith)) l) [ ]
    | inr e ↦ let same : i ≡ 12 = ground arith in rw same pointer_back
  ];
}

read_name-IsOver_example : IsOver (read_name 12 packet (λ _. 7))
read_name-IsOver_example =
    read_name-IsOver 12 packet (λ _. 7) (λ i. i ≤ 12) packet-PointsBack (omega arith) (omega arith)

scan_name-circle_example :
    scan_name 1000 circle
      (record { p = 0; jumped = 0; count = 1; name = write_at 0 0 (λ _. 7); reader = 0 })
    ≡ out_of_fuel
scan_name-circle_example = scan_name-circle 1000 circle (λ _. 7) 0 circle-PointsTo

new_resolver-send_query_example :
    (new_resolver (host www nsu_ru) >>= send_query) (replying []) []
    ≡ ok
        (after_send
          ((replying []).send_to
            (opening (replying []) [])
            ((replying []).new_udp [])
            (message (replying []).pid (www ∷ nsu_ru)))
          (asked (replying []) [] (www ∷ nsu_ru)))
        (sent ((replying []).new_udp []) (message (replying []).pid (www ∷ nsu_ru)) (
            (replying []).send_to
              (opening (replying []) [])
              ((replying []).new_udp [])
              (message (replying []).pid (www ∷ nsu_ru)))
          ∷ opening (replying []) [])
new_resolver-send_query_example =
    new_resolver-send_query (replying []) [] www nsu_ru (omega arith) (omega arith) (omega arith)
