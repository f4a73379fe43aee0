-- ===== src/CompilerId/Program.antt =====
-- The arrays of the two programs, and `main`. `none` is a program that does not compile; an array
-- holds its final zero.
use mathlib.Core.Option
use nsu_net_course.Prelude.{
  ℕ, zero, suc, ◌+◌, Bool, Option, none, some, List, [], ◌∷◌, ◌++◌, ◌>>=?◌, if◌then◌else◌,
}
use nsu_net_course.Kernel.{Bytes}
use nsu_net_course.CompilerId.{Macros, defined, any_defined, Number, dec, hex, Identity, codes}
use nsu_net_course.CompilerId.Digits.{dec_digits, hex_digits}
use nsu_net_course.CompilerId.Cxx
use nsu_net_course.CompilerId.C
use nsu_net_course.CompilerId.Platform.{platform_id}
use nsu_net_course.CompilerId.Architecture.{architecture_id}

-- `"INFO" ":" "key[" value "]"`
unfoldable pub info : Bytes → Bytes → Bytes
info key value = codes "INFO:" ++ (key ++ (b'[' ∷ (value ++ (b']' ∷ 0 ∷ []))))

-- The characters that a DEC or HEX stands for.
unfoldable pub digits : Number → Option Bytes
unfolding dec_digits hex_digits
digits (dec v) = Option.map dec_digits v
digits (hex v) = Option.map hex_digits v

-- A part of a version stands in the array if all parts before it are defined.
unfoldable pub parts : Option Number → Option Number → Option Number → Option Number → List Number
parts none minor patch tweak = []
parts (some a) none patch tweak = a ∷ []
parts (some a) (some b) none tweak = a ∷ b ∷ []
parts (some a) (some b) (some c) none = a ∷ b ∷ c ∷ []
parts (some a) (some b) (some c) (some d) = a ∷ b ∷ c ∷ d ∷ []

-- The parts, with dots between them.
unfoldable pub dotted : List Number → Option Bytes
unfolding digits
dotted [] = some []
dotted (n ∷ []) = digits n
dotted (n ∷ m ∷ ns) = digits n >>=? λ x. dotted (m ∷ ns) >>=? λ y. some (x ++ (b'.' ∷ y))

-- An array that is there only if the first part is.
unfoldable pub version_array : Bytes → List Number → Option (Option Bytes)
unfolding dotted info
version_array key [] = some none
version_array key (n ∷ ns) = dotted (n ∷ ns) >>=? λ text. some (some (info key text))

abbrev pub one_part : Option Number → List Number
one_part v = parts v none none none

unfoldable pub info_version : Identity → Option (Option Bytes)
unfolding parts version_array
info_version i =
    version_array (codes "compiler_version")
      (parts i.version_major i.version_minor i.version_patch i.version_tweak)

unfoldable pub info_version_internal : Identity → Option (Option Bytes)
unfolding parts version_array
info_version_internal i =
    version_array (codes "compiler_version_internal") (one_part i.version_internal)

-- No branch defines a patch or a tweak of the version that is simulated.
unfoldable pub info_simulate_version : Identity → Option (Option Bytes)
unfolding parts version_array
info_simulate_version i =
    version_array (codes "simulate_version")
      (parts i.simulate_version_major i.simulate_version_minor none none)

pub record Arrays : Type 0 where
  pub compiler : Bytes
  pub simulate : Option Bytes
  pub qnxnto : Option Bytes
  pub cray : Option Bytes
  pub version : Option Bytes
  pub version_internal : Option Bytes
  pub simulate_version : Option Bytes
  pub platform : Bytes
  pub arch : Bytes
  pub dialect : Bytes

abbrev pub optional : Bool → Bytes → Option Bytes
optional b bs = if b then some bs else none

abbrev pub arrays : Macros → Identity → Bytes → Option Arrays
arrays e i dialect = info_version i >>=? λ version. info_version_internal i >>=? λ internal.
    info_simulate_version i >>=? λ simulated. some (record {
      compiler = info (codes "compiler") (codes i.compiler_id);
      simulate = Option.map (λ id. info (codes "simulate") (codes id)) i.simulate_id;
      qnxnto = optional (defined e "__QNXNTO__") (info (codes "qnxnto") []);
      cray =
          optional (any_defined e ("__CRAYXE" ∷ "__CRAYXC" ∷ []))
            (info (codes "compiler_wrapper") (codes "CrayPrgEnv"));
      version = version;
      version_internal = internal;
      simulate_version = simulated;
      platform = info (codes "platform") (codes (platform_id e));
      arch = info (codes "arch") (architecture_id e);
      dialect = info (codes "dialect_default") dialect;
    })

-- CMakeCXXCompilerId.cpp and CMakeCCompilerId.c. A compiler of the other language is refused.
unfoldable pub cxx_program : Macros → Option Arrays
cxx_program e =
    if defined e "__cplusplus"
    then arrays e (Cxx.identify e) (Cxx.dialect (Cxx.cxx_std e))
    else none

unfoldable pub c_program : Macros → Option Arrays
c_program e = if defined e "__cplusplus" then none else arrays e (C.identify e) (C.dialect e)

-- `array[i]`; `none` is a read behind the array.
unfoldable pub char_at : Bytes → ℕ → Option ℕ
char_at [] i = none
char_at (c ∷ cs) zero = some c
char_at (c ∷ cs) (suc i) = char_at cs i

-- `require += array[argc]`, one after the other, for the arrays that are there.
unfoldable pub sum_at : ℕ → List (Option Bytes) → Option ℕ
unfolding char_at
sum_at i [] = some 0
sum_at i (none ∷ rest) = sum_at i rest
sum_at i (some a ∷ rest) = char_at a i >>=? λ c. sum_at i rest >>=? λ n. some (c + n)

-- How `main` ends: with a sum, with no value, or by a read behind an array.
pub data Exit : Type 0 where
  status : ℕ → Exit
  no_status : Exit
  out_of_bounds : Exit

abbrev pub exit : Option ℕ → Exit
exit (some n) = status n
exit none = out_of_bounds

unfoldable pub cxx_main : Arrays → ℕ → Exit
unfolding sum_at
cxx_main a argc = exit (
    sum_at argc (
      some a.compiler
      ∷ some a.platform
      ∷ a.version
      ∷ a.version_internal
      ∷ a.simulate
      ∷ a.simulate_version
      ∷ a.cray
      ∷ some a.dialect
      ∷ []))

-- ID_VOID_MAIN is defined if __18CXX is: then `main` is empty.
unfoldable pub c_main : Macros → Arrays → ℕ → Exit
unfolding sum_at
c_main e a argc =
    if defined e "__18CXX"
    then no_status
    else exit (
        sum_at argc (
          some a.compiler
          ∷ some a.platform
          ∷ some a.arch
          ∷ a.version
          ∷ a.version_internal
          ∷ a.simulate
          ∷ a.simulate_version
          ∷ a.cray
          ∷ some a.dialect
          ∷ []))
