-- ===== src/CompilerId/Cases.antt =====
-- The order in which the two programs ask for compilers, as far as it is the same.
use nsu_net_course.Prelude.{Bool, not, ◌&&◌, ◌||◌, List, [], ◌∷◌, ltb, leb}
use nsu_net_course.CompilerId.{Macros, defined, any_defined, is_some, or_zero, Identity, named}
use nsu_net_course.CompilerId.Compilers.{Vendors}
use nsu_net_course.CompilerId.Early.{
  intel, pathscale, embarcadero, borland, watcom, open_watcom, sunpro, hp, compaq, ibm,
}
use nsu_net_course.CompilerId.Late.{
  pgi, cray, ti, apple_clang, clang, msvc, adsp, iar, armcc, mipspro,
}

abbrev pub Cases : Type 0
Cases = List (Bool × Identity)

-- From Intel to VisualAge.
unfoldable pub early_cases : Macros → Vendors → Cases
early_cases e v =
    (any_defined e ("__INTEL_COMPILER" ∷ "__ICC" ∷ []), intel e)
    ∷ (defined e "__PATHCC__", pathscale e)
    ∷ (defined e "__BORLANDC__" && defined e "__CODEGEARC_VERSION__", embarcadero e)
    ∷ (defined e "__BORLANDC__", borland e)
    ∷ (defined e "__WATCOMC__" && ltb (or_zero (e.value "__WATCOMC__")) 1200, watcom e)
    ∷ (defined e "__WATCOMC__", open_watcom e)
    ∷ (is_some v.sunpro, sunpro v)
    ∷ (is_some v.hp, hp v)
    ∷ (is_some v.compaq, compaq v)
    ∷ (is_some v.ibm && defined e "__COMPILER_VER__", ibm "zOS" e v)
    ∷ (
      defined e "__ibmxl__"
          || (is_some v.ibm && (not (defined e "__COMPILER_VER__") && leb 800 (or_zero v.ibm))),
      ibm "XL" e v,
    )
    ∷ (
      is_some v.ibm && (not (defined e "__COMPILER_VER__") && ltb (or_zero v.ibm) 800),
      ibm "VisualAge" e v,
    )
    ∷ []

-- From PGI to Fujitsu.
unfoldable pub middle_cases : Macros → Cases
middle_cases e =
    (defined e "__PGI", pgi e)
    ∷ (defined e "_CRAYC", cray e)
    ∷ (defined e "__TI_COMPILER_VERSION__", ti e)
    ∷ (any_defined e ("__FUJITSU" ∷ "__FCC_VERSION" ∷ "__fcc_version" ∷ []), named "Fujitsu")
    ∷ []

-- SCO and the two kinds of Clang.
unfoldable pub clang_cases : Macros → Cases
clang_cases e =
    (defined e "__SCO_VERSION__", named "SCO")
    ∷ (defined e "__clang__" && defined e "__apple_build_version__", apple_clang e)
    ∷ (defined e "__clang__", clang e)
    ∷ []

-- From MSVC to ARMCC.
unfoldable pub late_cases : Macros → Cases
late_cases e =
    (defined e "_MSC_VER", msvc e)
    ∷ (
      any_defined e
          ("__VISUALDSPVERSION__" ∷ "__ADSPBLACKFIN__" ∷ "__ADSPTS__" ∷ "__ADSP21000__" ∷ []),
      adsp e,
    )
    ∷ (any_defined e ("__IAR_SYSTEMS_ICC__" ∷ "__IAR_SYSTEMS_ICC" ∷ []), iar e)
    ∷ (defined e "__ARMCC_VERSION", armcc e)
    ∷ []

-- MIPSpro, and the native compilers of two platforms.
unfoldable pub last_cases : Macros → Cases
last_cases e =
    (any_defined e ("_SGI_COMPILER_VERSION" ∷ "_COMPILER_VERSION" ∷ []), mipspro e)
    ∷ (defined e "__sgi", named "MIPSpro")
    ∷ (any_defined e ("__hpux" ∷ "__hpua" ∷ []), named "HP")
    ∷ []
