-- ===== src/CompilerId/Bounds.antt =====
-- The reads of `main`.
use mathlib.Core.Option
use Prim.Native.String.{String}
use nsu_net_course.Prelude.{
  ℕ, zero, suc, ◌+◌, ◌≤◌, ◌<◌, Bool, true, false, Option, none, some, List, [], ◌∷◌, ◌++◌, ◌≡◌,
  refl, ap, subst, All, length, length-append, if◌then◌else◌, arith,
}
use nsu_net_course.Kernel.{Bytes}
use nsu_net_course.CompilerId.{Macros, defined, Number, Identity, codes}
use nsu_net_course.CompilerId.Cxx
use nsu_net_course.CompilerId.C
use nsu_net_course.CompilerId.Program.{
  Arrays, info, parts, dotted, version_array, info_version, info_version_internal,
  info_simulate_version, arrays, optional, one_part, cxx_program, c_program, char_at, sum_at,
  status, exit, cxx_main, c_main,
}
use nsu_net_course.CompilerId.Reading.{>>=?-some, shown}
use nsu_net_course.CompilerId.Platform.{platform_id}
use nsu_net_course.CompilerId.Architecture.{architecture_id}

-- An array, where it is there, has at least `n` characters with its final zero.
abbrev IsLong : ℕ → Option Bytes → Type 0
IsLong n none = Unit
IsLong n (some bs) = n ≤ length bs

some_eq : {A : Type 0} {x y : A} → some x ≡ some y → x ≡ y
some_eq h = cc

char_at-some : (bs : Bytes) (i : ℕ) → i < length bs → (c : ℕ) × (char_at bs i ≡ some c)
unfolding char_at
char_at-some [] i h = absurd (omega arith)
char_at-some (c ∷ cs) zero h = (c, refl)
char_at-some (c ∷ cs) (suc i) h = char_at-some cs i (omega arith)

sum_at-some :
    (n i : ℕ) (xs : List (Option Bytes))
    → All (IsLong n) xs
    → i < n
    → (s : ℕ) × (sum_at i xs ≡ some s)
unfolding sum_at
sum_at-some n i [] h l = (0, refl)
sum_at-some n i (none ∷ rest) h l = sum_at-some n i rest h.1 l
sum_at-some n i (some a ∷ rest) h l =
    let (c, ec) = char_at-some a i (omega (arith, h.0)) in
    let (s, es) = sum_at-some n i rest h.1 l in (c + s, rw (ec, es) refl)

length-info : (key value : Bytes) → length (info key value) ≡ 8 + length key + length value
unfolding info
length-info key value = omega (
  arith,
  length-append key (b'[' ∷ (value ++ (b']' ∷ 0 ∷ []))),
  length-append value (b']' ∷ 0 ∷ []),
)

info-IsLong : (key value : Bytes) → 8 ≤ length key → IsLong 16 (some (info key value))
info-IsLong key value h = omega (arith, length-info key value)

version_array-IsLong :
    (key : Bytes) (ns : List Number) (v : Option Bytes)
    → 8 ≤ length key
    → version_array key ns ≡ some v
    → IsLong 16 v
unfolding version_array
version_array-IsLong key [] v k h = subst (IsLong 16) (some_eq h) tt
version_array-IsLong key (n ∷ ns) v k h =
    let (text, et, ends) = >>=?-some (dotted (n ∷ ns)) _ h in
    subst (IsLong 16) (some_eq ends) (info-IsLong key text k)

map-IsLong :
    (o : Option String) → IsLong 16 (Option.map (λ id. info (codes "simulate") (codes id)) o)
map-IsLong none = tt
map-IsLong (some id) = info-IsLong (codes "simulate") (codes id) (omega arith)

optional-IsLong :
    (b : Bool) (key value : Bytes) → 8 ≤ length key → IsLong 16 (optional b (info key value))
optional-IsLong true key value h = info-IsLong key value h
optional-IsLong false key value h = tt

record AreLong (a : Arrays) : Type 0 where
  compiler : IsLong 16 (some a.compiler)
  platform : IsLong 16 (some a.platform)
  arch : IsLong 12 (some a.arch)
  version : IsLong 16 a.version
  version_internal : IsLong 16 a.version_internal
  simulate : IsLong 16 a.simulate
  simulate_version : IsLong 16 a.simulate_version
  cray : IsLong 16 a.cray
  dialect : IsLong 16 (some a.dialect)

arrays-AreLong :
    (e : Macros) (i : Identity) (d : Bytes) (a : Arrays) → arrays e i d ≡ some a → AreLong a
unfolding info_version info_version_internal info_simulate_version
arrays-AreLong e i d a h =
    let (v, ev, h1) = >>=?-some (info_version i) _ h in
    let (n, en, h2) = >>=?-some (info_version_internal i) _ h1 in
    let (s, es, h3) = >>=?-some (info_simulate_version i) _ h2 in
    let key = codes "compiler_version" in
    let internal = codes "compiler_version_internal" in
    subst AreLong (some_eq h3) (record {
      compiler = info-IsLong (codes "compiler") (codes i.compiler_id) (omega arith);
      platform = info-IsLong (codes "platform") (codes (platform_id e)) (omega arith);
      arch = omega (arith, length-info (codes "arch") (architecture_id e));
      version = version_array-IsLong key (shown i) v (omega arith) ev;
      version_internal =
          version_array-IsLong internal (one_part i.version_internal) n (omega arith) en;
      simulate = map-IsLong i.simulate_id;
      simulate_version =
          version_array-IsLong (codes "simulate_version")
            (parts i.simulate_version_major i.simulate_version_minor none none) s (omega arith) es;
      cray = optional-IsLong _ (codes "compiler_wrapper") (codes "CrayPrgEnv") (omega arith);
      dialect = info-IsLong (codes "dialect_default") d (omega arith);
    })

IsLong-less : (o : Option Bytes) → IsLong 16 o → IsLong 12 o
IsLong-less none h = tt
IsLong-less (some bs) h = omega (arith, h)

module _ {A : Type 0} {a : A} where
  then_some : (b : Bool) (m : Option A) → (if b then m else none) ≡ some a → m ≡ some a
  then_some true m h = h
  then_some false m h = cc

  else_some : (b : Bool) (m : Option A) → (if b then none else m) ≡ some a → m ≡ some a
  else_some true m h = cc
  else_some false m h = h

-- For an `argc` of at most 15, `main` of the C++ program reads inside all its arrays and returns,
-- whatever the compiler.
pub cxx_main-status :
    (e : Macros) (a : Arrays) (argc : ℕ)
    → cxx_program e ≡ some a
    → argc ≤ 15
    → (n : ℕ) × (cxx_main a argc ≡ status n)
unfolding cxx_program cxx_main
cxx_main-status e a argc h l =
    let i = Cxx.identify e in
    let long =
      arrays-AreLong e i (Cxx.dialect (Cxx.cxx_std e)) a
        (then_some (defined e "__cplusplus") (arrays e i (Cxx.dialect (Cxx.cxx_std e))) h) in
    let (n, en) =
      sum_at-some 16 argc
        (some a.compiler
          ∷ some a.platform
          ∷ a.version
          ∷ a.version_internal
          ∷ a.simulate
          ∷ a.simulate_version
          ∷ a.cray
          ∷ some a.dialect
          ∷ [])
        (
          long.compiler,
          (
            long.platform,
            (
              long.version,
              (
                long.version_internal,
                (long.simulate, (long.simulate_version, (long.cray, (long.dialect, tt)))),
              ),
            ),
          ),
        )
        (omega arith) in
    (n, ap exit en)

-- For an `argc` of at most 11, `main` of the C program, which reads the architecture too, reads inside
-- all its arrays and returns, for a compiler without __18CXX.
pub c_main-status :
    (e : Macros) (a : Arrays) (argc : ℕ)
    → c_program e ≡ some a
    → defined e "__18CXX" ≡ false
    → argc ≤ 11
    → (n : ℕ) × (c_main e a argc ≡ status n)
unfolding c_program c_main
c_main-status e a argc h v l =
    let long =
      arrays-AreLong e (C.identify e) (C.dialect e) a
        (else_some (defined e "__cplusplus") (arrays e (C.identify e) (C.dialect e)) h) in
    let less = λ (o : Option Bytes) (f : IsLong 16 o). IsLong-less o f in
    let (n, en) =
      sum_at-some 12 argc
        (some a.compiler
          ∷ some a.platform
          ∷ some a.arch
          ∷ a.version
          ∷ a.version_internal
          ∷ a.simulate
          ∷ a.simulate_version
          ∷ a.cray
          ∷ some a.dialect
          ∷ [])
        (
          less (some a.compiler) long.compiler,
          (
            less (some a.platform) long.platform,
            (
              long.arch,
              (
                less a.version long.version,
                (
                  less a.version_internal long.version_internal,
                  (
                    less a.simulate long.simulate,
                    (
                      less a.simulate_version long.simulate_version,
                      (less a.cray long.cray, (less (some a.dialect) long.dialect, tt)),
                    ),
                  ),
                ),
              ),
            ),
          ),
        )
        (omega arith) in
    (n, rw v (ap exit en))
