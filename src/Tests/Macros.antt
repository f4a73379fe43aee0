-- ===== src/Tests/Macros.antt =====
-- The macros of GCC 8.2 on Linux, and of Clang 7.0 under MSVC's macros.
use Prim.Native.String.{String}
use text.Mathlib.Text.{◌==◌}
use nsu_net_course.Prelude.{
  ℕ, Option, none, some, List, [], ◌∷◌, ◌≡◌, refl, map, if◌then◌else◌, arith,
}
use nsu_net_course.CompilerId.{Macros, Identity, dec, first, named, codes}
use nsu_net_course.CompilerId.Digits.{dec_digits, hex_digits}
use nsu_net_course.CompilerId.Late.{apple_clang, clang}
use nsu_net_course.CompilerId.Cases.{early_cases, middle_cases, clang_cases, late_cases, last_cases}
use nsu_net_course.CompilerId.Platform.{platform_id}
use nsu_net_course.CompilerId.Architecture.{architecture_id}
use nsu_net_course.CompilerId.Program.{
  Arrays, cxx_program, c_program, cxx_main, c_main, status, info, info_version,
  info_version_internal, info_simulate_version, parts, digits, dotted, version_array,
}
use nsu_net_course.CompilerId.Reading.{
  read_fields, fields, after_bracket, shown, held, info_version-read,
}
use nsu_net_course.CompilerId.Equivalence.{IsFamily, identify-eq}
use nsu_net_course.CompilerId.Sound.{
  AreConsistent, IsSound, cxx_identify-IsSound, c_identify-IsSound,
}
use nsu_net_course.CompilerId.Bounds.{cxx_main-status, c_main-status}
use nsu_net_course.CompilerId.Refusal.{cxx_program-icc}
use nsu_net_course.CompilerId.Cxx
use nsu_net_course.CompilerId.C

abbrev look_up : List (String × ℕ) → String → Option ℕ
look_up [] m = none
look_up ((n, v) ∷ rest) m = if n == m then some v else look_up rest m

abbrev macros : List (String × ℕ) → Macros
macros table = record { value = look_up table; spelling = λ m. [] }

abbrev gcc : Macros
gcc = macros (
    ("__cplusplus", 201402)
    ∷ ("__linux__", 1)
    ∷ ("__GNUC__", 8)
    ∷ ("__GNUG__", 8)
    ∷ ("__GNUC_MINOR__", 2)
    ∷ ("__GNUC_PATCHLEVEL__", 0)
    ∷ [])

-- GCC for C, in 2011's standard.
abbrev gcc_c : Macros
gcc_c = macros (
    ("__STDC__", 1)
    ∷ ("__STDC_VERSION__", 201112)
    ∷ ("__linux__", 1)
    ∷ ("__GNUC__", 8)
    ∷ ("__GNUC_MINOR__", 2)
    ∷ ("__GNUC_PATCHLEVEL__", 0)
    ∷ [])

-- Clang 7.0 for Windows.
abbrev clang_cl : Macros
clang_cl = macros (
    ("__cplusplus", 201402)
    ∷ ("_WIN32", 1)
    ∷ ("_MSC_VER", 1916)
    ∷ ("__clang__", 1)
    ∷ ("__clang_major__", 7)
    ∷ ("__clang_minor__", 0)
    ∷ ("__clang_patchlevel__", 1)
    ∷ [])

-- A compiler of Intel's that shows its older macro alone.
abbrev icc : Macros
icc = macros (("__cplusplus", 199711) ∷ ("__ICC", 900) ∷ [])

abbrev or_blank : Option Arrays → Arrays
or_blank (some a) = a
or_blank none = record {
  compiler = [];
  simulate = none;
  qnxnto = none;
  cray = none;
  version = none;
  version_internal = none;
  simulate_version = none;
  platform = [];
  arch = [];
  dialect = [];
}

clang_cl_arrays :
    ((or_blank (cxx_program clang_cl)).compiler ≡ info (codes "compiler") (codes "Clang"))
    × ((or_blank (cxx_program clang_cl)).simulate ≡ some (info (codes "simulate") (codes "MSVC")))
    × ((or_blank (cxx_program clang_cl)).simulate_version
        ≡ some (info (codes "simulate_version") (codes "00000019.00000016")))
    × ((or_blank (cxx_program clang_cl)).platform ≡ info (codes "platform") (codes "Windows"))
    × ((or_blank (cxx_program clang_cl)).dialect ≡ info (codes "dialect_default") (codes "14"))
unfolding cxx_program c_program Cxx.identify Cxx.cases Cxx.gnu Cxx.dialect C.identify C.later_cases
    C.gnu C.dialect first early_cases middle_cases clang_cases late_cases last_cases apple_clang
    clang platform_id architecture_id info_version info_version_internal info_simulate_version info
    parts digits dotted version_array dec_digits hex_digits
clang_cl_arrays = (refl, refl, refl, refl, refl)

gcc_compiles : cxx_program gcc ≡ some (or_blank (cxx_program gcc))
unfolding cxx_program c_program Cxx.identify Cxx.cases Cxx.gnu Cxx.dialect C.identify C.later_cases
    C.gnu C.dialect first early_cases middle_cases clang_cases late_cases last_cases apple_clang
    clang platform_id architecture_id info_version info_version_internal info_simulate_version info
    parts digits dotted version_array dec_digits hex_digits
gcc_compiles = refl

gcc_c_compiles : c_program gcc_c ≡ some (or_blank (c_program gcc_c))
unfolding cxx_program c_program Cxx.identify Cxx.cases Cxx.gnu Cxx.dialect C.identify C.later_cases
    C.gnu C.dialect first early_cases middle_cases clang_cases late_cases last_cases apple_clang
    clang platform_id architecture_id info_version info_version_internal info_simulate_version info
    parts digits dotted version_array dec_digits hex_digits
gcc_c_compiles = refl

cxx_main-status_example : (n : ℕ) × (cxx_main (or_blank (cxx_program gcc)) 1 ≡ status n)
cxx_main-status_example =
    cxx_main-status gcc (or_blank (cxx_program gcc)) 1 gcc_compiles (omega arith)

c_main-status_example : (n : ℕ) × (c_main gcc_c (or_blank (c_program gcc_c)) 1 ≡ status n)
c_main-status_example =
    c_main-status gcc_c (or_blank (c_program gcc_c)) 1 gcc_c_compiles refl (omega arith)

cxx_program-icc_example :
    ((Cxx.identify icc).compiler_id ≡ "Intel")
    × ((Cxx.identify icc).version_major ≡ some (dec none))
    × (info_version (Cxx.identify icc) ≡ none)
    × (cxx_program icc ≡ none)
cxx_program-icc_example = cxx_program-icc icc refl refl refl refl

-- 8.2, with no patch level.
abbrev gnu_8 : Identity
gnu_8 = record (named "GNU") {
  version_major = some (dec (some 8));
  version_minor = some (dec (some 2));
}

gnu_8_array :
    info_version gnu_8 ≡ some (some (info (codes "compiler_version") (codes "00000008.00000002")))
unfolding cxx_program c_program Cxx.identify Cxx.cases Cxx.gnu Cxx.dialect C.identify C.later_cases
    C.gnu C.dialect first early_cases middle_cases clang_cases late_cases last_cases apple_clang
    clang platform_id architecture_id info_version info_version_internal info_simulate_version info
    parts digits dotted version_array dec_digits hex_digits
gnu_8_array = refl

info_version-read_example :
    read_fields
      (shown gnu_8)
      (fields [] (after_bracket (info (codes "compiler_version") (codes "00000008.00000002"))))
    ≡ map held (shown gnu_8)
info_version-read_example =
    info_version-read gnu_8 (info (codes "compiler_version") (codes "00000008.00000002"))
      gnu_8_array

gcc_c-AreConsistent : AreConsistent gcc_c
gcc_c-AreConsistent = record { gnu = λ h. refl; msvc = λ h. cc }

gcc-IsFamily : IsFamily gcc
gcc-IsFamily = record {
  same_vendors = refl;
  gnuc = λ h. refl;
  no_comeau = refl;
  no_tinycc = refl;
  no_bruce = refl;
  no_sdcc = refl;
}

identify-eq_example : Cxx.identify gcc ≡ C.identify gcc
identify-eq_example = identify-eq gcc gcc-IsFamily

clang_cl-AreConsistent : AreConsistent clang_cl
clang_cl-AreConsistent = record { gnu = λ h. cc; msvc = λ h. cc }

cxx_identify-IsSound_example : IsSound clang_cl (Cxx.identify clang_cl)
cxx_identify-IsSound_example = cxx_identify-IsSound clang_cl clang_cl-AreConsistent

c_identify-IsSound_example : IsSound gcc_c (C.identify gcc_c)
c_identify-IsSound_example = c_identify-IsSound gcc_c gcc_c-AreConsistent
