-- ===== src/CompilerId/Architecture.antt =====
-- ARCHITECTURE_ID, which three families of compilers show. The programs for C and for C++ have the
-- same text here.
use nsu_net_course.Prelude.{◌&&◌, [], ◌∷◌, ◌++◌, ◌==◌, if◌then◌else◌}
use nsu_net_course.Kernel.{Bytes}
use nsu_net_course.CompilerId.{Macros, defined, any_defined, or_zero, first, codes}

-- `"ARMV" STRINGIFY(_M_ARM)` is the text that the macro stands for, behind ARMV.
unfoldable pub arm_version : Macros → Bytes
arm_version e =
    let n = or_zero (e.value "_M_ARM") in
    if n == 4
    then codes "ARMV4I"
    else if n == 5
    then codes "ARMV5I"
    else codes "ARMV" ++ e.spelling "_M_ARM"

unfoldable pub msvc_architecture : Macros → Bytes
unfolding arm_version first
msvc_architecture e =
    first
      ((defined e "_M_IA64", codes "IA64")
        ∷ (any_defined e ("_M_X64" ∷ "_M_AMD64" ∷ []), codes "x64")
        ∷ (defined e "_M_IX86", codes "X86")
        ∷ (defined e "_M_ARM64", codes "ARM64")
        ∷ (defined e "_M_ARM", arm_version e)
        ∷ (defined e "_M_MIPS", codes "MIPS")
        ∷ (defined e "_M_SH", codes "SHx")
        ∷ [])
      []

unfoldable pub watcom_architecture : Macros → Bytes
unfolding first
watcom_architecture e =
    first ((defined e "_M_I86", codes "I86") ∷ (defined e "_M_IX86", codes "X86") ∷ []) []

unfoldable pub iar_architecture : Macros → Bytes
unfolding first
iar_architecture e =
    first ((defined e "__ICCARM__", codes "ARM") ∷ (defined e "__ICCAVR__", codes "AVR") ∷ []) []

unfoldable pub architecture_id : Macros → Bytes
unfolding msvc_architecture watcom_architecture iar_architecture first
architecture_id e =
    first
      ((defined e "_WIN32" && defined e "_MSC_VER", msvc_architecture e)
        ∷ (defined e "__WATCOMC__", watcom_architecture e)
        ∷ (any_defined e ("__IAR_SYSTEMS_ICC__" ∷ "__IAR_SYSTEMS_ICC" ∷ []), iar_architecture e)
        ∷ [])
      []
