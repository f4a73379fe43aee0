-- ===== src/CompilerId/C.antt =====
-- What is the C program's own of CMakeCCompilerId.c: its order of the compilers, and the dialect of
-- the language.
use nsu_net_course.Prelude.{not, ◌&&◌, ◌||◌, [], ◌∷◌, ◌++◌, leb, if◌then◌else◌}
use nsu_net_course.Kernel.{Bytes}
use nsu_net_course.CompilerId.{Macros, defined, any_defined, or_zero, Identity, named, first, codes}
use nsu_net_course.CompilerId.Compilers.{Vendors, plain, gnu_version, in_tens}
use nsu_net_course.CompilerId.Cases.{
  Cases, early_cases, middle_cases, clang_cases, late_cases, last_cases,
}

abbrev pub vendors : Macros → Vendors
vendors e = record {
  sunpro = e.value "__SUNPRO_C";
  hp = e.value "__HP_cc";
  compaq = e.value "__DECC";
  compaq_version = e.value "__DECC_VER";
  ibm = e.value "__IBMC__";
}

unfoldable pub gnu : Macros → Identity
gnu e = gnu_version e (plain e "__GNUC__")

unfoldable pub sdcc : Macros → Identity
sdcc e =
    if defined e "__SDCC_VERSION_MAJOR"
    then (record (named "SDCC") {
      version_major = plain e "__SDCC_VERSION_MAJOR";
      version_minor = plain e "__SDCC_VERSION_MINOR";
      version_patch = plain e "__SDCC_VERSION_PATCH";
    })
    else in_tens "SDCC" (e.value "SDCC")

-- Lines 152 and after, where the order begins to differ.
unfoldable pub later_cases : Macros → Cases
later_cases e =
    middle_cases e
    ++ ((defined e "__TINYC__", named "TinyCC")
        ∷ (defined e "__BCC__", named "Bruce")
        ∷ (clang_cases e
            ++ ((defined e "__GNUC__", gnu e)
                ∷ (late_cases e
                    ++ ((any_defined e ("__SDCC_VERSION_MAJOR" ∷ "SDCC" ∷ []), sdcc e)
                        ∷ last_cases e)))))

unfoldable pub identify : Macros → Identity
identify e = first (early_cases e (vendors e) ++ later_cases e) (named "")

-- C_DIALECT
unfoldable pub dialect : Macros → Bytes
dialect e =
    let std = or_zero (e.value "__STDC_VERSION__") in
    if not (defined e "__STDC__")
    then (if (defined e "_MSC_VER" && not (defined e "__clang__"))
          || any_defined e ("__ibmxl__" ∷ "__IBMC__" ∷ [])
        then codes "90"
        else [])
    else if leb 201000 std
    then codes "11"
    else if leb 199901 std
    then codes "99"
    else codes "90"
