-- ===== src/Tests/Responses.antt =====
-- A response with two addresses for www.nsu.ru.
use nsu_net_course.Prelude.{[], ◌∷◌, ◌++◌, ◌≡◌, refl, arith, ◌+◌, ◌%◌, ◌^◌, ℕ, pos}
use nsu_net_course.Kernel.{Kernel, Trace, Bytes, got, received, closed}
use nsu_net_course.Buffer.{Buffer, overwrite, AreBytes, overwrite-AreBytes}
use nsu_net_course.Dns.Name.Wire.{wire}
use nsu_net_course.Dns.Name.RoundTrip.{Stands}
use nsu_net_course.Dns.Answers.{header_size}
use nsu_net_course.Dns.Answers.Addresses.{Answer, first_record, count_of, address, Finds}
use nsu_net_course.Resolver.{af_inet, htons}
use nsu_net_course.Server.{Server, process_resolvers}
use nsu_net_course.Server.Dialling.{Promotes}
use nsu_net_course.Server.Answering.{Awaits, process_resolvers-dials}
use nsu_net_course.Tests.Sample.{replying, all_ready}
use nsu_net_course.Tests.Names.{www, nsu_ru}
use nsu_net_course.Tests.Servers.{asking_name, busy}

abbrev record_of : Bytes → Bytes
record_of bytes = 192 ∷ 12 ∷ 0 ∷ 1 ∷ 0 ∷ 1 ∷ 0 ∷ 0 ∷ 0 ∷ 60 ∷ 0 ∷ 4 ∷ bytes

-- Behind the first byte of the header: the flags, two answers, the question, and the records.
abbrev rest : Bytes
rest =
    (52 ∷ 129 ∷ 128 ∷ 0 ∷ 1 ∷ 0 ∷ 2 ∷ 0 ∷ 0 ∷ 0 ∷ 0 ∷ [])
    ++ (wire (www ∷ nsu_ru)
        ++ ((0 ∷ 1 ∷ 0 ∷ 1 ∷ [])
            ++ (record_of (93 ∷ 184 ∷ 216 ∷ 34 ∷ []) ++ record_of (84 ∷ 237 ∷ 50 ∷ 25 ∷ []))))

abbrev answered : Buffer
answered = overwrite (18 ∷ rest) asking_name.buf

answered-AreBytes : AreBytes answered
answered-AreBytes = overwrite-AreBytes (18 ∷ rest) asking_name.buf (omega arith) (λ i. omega arith)

question-Stands : Stands www nsu_ru header_size answered
unfolding overwrite
question-Stands = record {
  bytes = refl;
  ends = refl;
  inside = omega arith;
  plain = omega arith;
  proper = omega arith;
  fits = omega arith;
}

first-Answer : Answer 93 184 216 34 (first_record www nsu_ru) answered
unfolding overwrite
first-Answer = record {
  name = record { high = refl; low = refl; inside = omega arith };
  type_high = refl;
  type_low = refl;
  length_high = refl;
  length_low = refl;
  first = refl;
  second = refl;
  third = refl;
  fourth = refl;
  inside = omega arith;
}

second-Answer : Answer 84 237 50 25 (first_record www nsu_ru + 16) answered
unfolding overwrite
second-Answer = record {
  name = record { high = refl; low = refl; inside = omega arith };
  type_high = refl;
  type_low = refl;
  length_high = refl;
  length_low = refl;
  first = refl;
  second = refl;
  third = refl;
  fourth = refl;
  inside = omega arith;
}

abbrev asker : Kernel
asker = replying (18 ∷ rest)

waiting_for_answer : Awaits asking_name all_ready all_ready
waiting_for_answer = record {
  in_sets = refl;
  readable = refl;
  was_sent = refl;
  not_answered = refl;
}

process_resolvers-dials_example :
    (x : ℕ) × (s' : Server) × (v : Trace) × (process_resolvers []
        (((pos 8, 80), asking_name) ∷ [])
        busy
        asker
        []
      ≡ process_resolvers [] [] s' asker (closed (pos 9) ∷ v))
    × Finds (count_of answered) (address 93 184 216 34) (address 84 237 50 25) asking_name.s_addr x
    × Promotes asker
        (received (pos 9) (got (18 ∷ rest)) ∷ [])
        (pos 8)
        (record { family = af_inet; addr = x % 2 ^ 32; port = htons 80 })
        busy
        s'
        v
process_resolvers-dials_example =
    process_resolvers-dials asker [] (pos 8) 80 asking_name [] [] busy (18, rest) www nsu_ru 93 184
      216 34 84 237 50 25 waiting_for_answer (ground arith) (omega arith) answered-AreBytes
      question-Stands first-Answer second-Answer
