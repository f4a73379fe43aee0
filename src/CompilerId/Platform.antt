-- ===== src/CompilerId/Platform.antt =====
-- PLATFORM_ID: which macros stand for which platform, in the order of the `#elif` lines. The programs
-- for C and for C++ have the same text here.
use Prim.Native.String.{String}
use nsu_net_course.Prelude.{Bool, List, [], ◌∷◌}
use nsu_net_course.CompilerId.{Macros, defined, any_defined, first}

abbrev pub Platforms : Type 0
Platforms = List (List String × String)

abbrev pub platforms : Platforms
platforms =
    ("__linux" ∷ "__linux__" ∷ "linux" ∷ [], "Linux")
    ∷ ("__CYGWIN__" ∷ [], "Cygwin")
    ∷ ("__MINGW32__" ∷ [], "MinGW")
    ∷ ("__APPLE__" ∷ [], "Darwin")
    ∷ ("_WIN32" ∷ "__WIN32__" ∷ "WIN32" ∷ [], "Windows")
    ∷ ("__FreeBSD__" ∷ "__FreeBSD" ∷ [], "FreeBSD")
    ∷ ("__NetBSD__" ∷ "__NetBSD" ∷ [], "NetBSD")
    ∷ ("__OpenBSD__" ∷ "__OPENBSD" ∷ [], "OpenBSD")
    ∷ ("__sun" ∷ "sun" ∷ [], "SunOS")
    ∷ ("_AIX" ∷ "__AIX" ∷ "__AIX__" ∷ "__aix" ∷ "__aix__" ∷ [], "AIX")
    ∷ ("__sgi" ∷ "__sgi__" ∷ "_SGI" ∷ [], "IRIX")
    ∷ ("__hpux" ∷ "__hpux__" ∷ [], "HP-UX")
    ∷ ("__HAIKU__" ∷ [], "Haiku")
    ∷ ("__BeOS" ∷ "__BEOS__" ∷ "_BEOS" ∷ [], "BeOS")
    ∷ ("__QNX__" ∷ "__QNXNTO__" ∷ [], "QNX")
    ∷ ("__tru64" ∷ "_tru64" ∷ "__TRU64__" ∷ [], "Tru64")
    ∷ ("__riscos" ∷ "__riscos__" ∷ [], "RISCos")
    ∷ ("__sinix" ∷ "__sinix__" ∷ "__SINIX__" ∷ [], "SINIX")
    ∷ ("__UNIX_SV__" ∷ [], "UNIX_SV")
    ∷ ("__bsdos__" ∷ [], "BSDOS")
    ∷ ("_MPRAS" ∷ "MPRAS" ∷ [], "MP-RAS")
    ∷ ("__osf" ∷ "__osf__" ∷ [], "OSF1")
    ∷ ("_SCO_SV" ∷ "SCO_SV" ∷ "sco_sv" ∷ [], "SCO_SV")
    ∷ ("__ultrix" ∷ "__ultrix__" ∷ "_ULTRIX" ∷ [], "ULTRIX")
    ∷ ("__XENIX__" ∷ "_XENIX" ∷ "XENIX" ∷ [], "Xenix")
    ∷ []

abbrev pub watcom_platforms : Platforms
watcom_platforms =
    ("__LINUX__" ∷ [], "Linux")
    ∷ ("__DOS__" ∷ [], "DOS")
    ∷ ("__OS2__" ∷ [], "OS2")
    ∷ ("__WINDOWS__" ∷ [], "Windows3x")
    ∷ []

-- The conditions of a table, with what they give.
abbrev pub conditions : Macros → Platforms → List (Bool × String)
conditions e [] = []
conditions e ((ms, name) ∷ table) = (any_defined e ms, name) ∷ conditions e table

abbrev pub watcom_platform : Macros → String
watcom_platform e = first (conditions e watcom_platforms) ""

-- An unknown platform has no text.
unfoldable pub platform_id : Macros → String
unfolding first
platform_id e =
    first (conditions e platforms) (first ((defined e "__WATCOMC__", watcom_platform e) ∷ []) "")
