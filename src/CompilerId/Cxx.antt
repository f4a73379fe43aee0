-- ===== src/CompilerId/Cxx.antt =====
-- What is the C++ program's own of CMakeCXXCompilerId.cpp: its order of the compilers, and the
-- dialect of the language.
use nsu_net_course.Prelude.{ℕ, ◌&&◌, [], ◌∷◌, ◌++◌, ltb, leb, if◌then◌else◌}
use nsu_net_course.Kernel.{Bytes}
use nsu_net_course.CompilerId.{Macros, defined, any_defined, or_zero, Identity, named, first, codes}
use nsu_net_course.CompilerId.Compilers.{Vendors, plain, gnu_version}
use nsu_net_course.CompilerId.Early.{comeau}
use nsu_net_course.CompilerId.Cases.{
  Cases, early_cases, middle_cases, clang_cases, late_cases, last_cases,
}

abbrev pub vendors : Macros → Vendors
vendors e = record {
  sunpro = e.value "__SUNPRO_CC";
  hp = e.value "__HP_aCC";
  compaq = e.value "__DECCXX";
  compaq_version = e.value "__DECCXX_VER";
  ibm = e.value "__IBMCPP__";
}

unfoldable pub gnu : Macros → Identity
gnu e = gnu_version e (if defined e "__GNUC__" then plain e "__GNUC__" else plain e "__GNUG__")

unfoldable pub cases : Macros → Cases
cases e =
    ((defined e "__COMO__", comeau e) ∷ [])
    ++ (early_cases e (vendors e)
        ++ (middle_cases e
            ++ (clang_cases e
                ++ ((any_defined e ("__GNUC__" ∷ "__GNUG__" ∷ []), gnu e)
                    ∷ (late_cases e ++ last_cases e)))))

unfoldable pub identify : Macros → Identity
identify e = first (cases e) (named "")

-- CXX_STD
abbrev pub cxx_std : Macros → ℕ
cxx_std e =
    if defined e "_MSC_VER" && defined e "_MSVC_LANG"
    then or_zero (e.value "_MSVC_LANG")
    else or_zero (e.value "__cplusplus")

-- The text between the brackets of `info_language_dialect_default`.
unfoldable pub dialect : ℕ → Bytes
dialect std =
    if ltb 201703 std
    then codes "20"
    else if leb 201703 std
    then codes "17"
    else if leb 201402 std
    then codes "14"
    else if leb 201103 std
    then codes "11"
    else codes "98"
