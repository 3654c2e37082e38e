-- ===== src/Name/Tables/Ia64Signal.antt =====
-- pinktrace/linux/ia64/signalent.h: the names of the signals of ia64, by number.
use Prim.Native.String.{String}
use pinktrace.Prelude.{List, [], ◌∷◌, Option, some}

unfoldable pub signalent_ia64 : List (Option String)
signalent_ia64 =
    some "SIG_0"
    ∷ some "SIGHUP"
    ∷ some "SIGINT"
    ∷ some "SIGQUIT"
    ∷ some "SIGILL"
    ∷ some "SIGTRAP"
    ∷ some "SIGABRT"
    ∷ some "SIGBUS"
    ∷ some "SIGFPE"
    ∷ some "SIGKILL"
    ∷ some "SIGUSR1"
    ∷ some "SIGSEGV"
    ∷ some "SIGUSR2"
    ∷ some "SIGPIPE"
    ∷ some "SIGALRM"
    ∷ some "SIGTERM"
    ∷ some "SIGSTKFLT"
    ∷ some "SIGCHLD"
    ∷ some "SIGCONT"
    ∷ some "SIGSTOP"
    ∷ some "SIGTSTP"
    ∷ some "SIGTTIN"
    ∷ some "SIGTTOU"
    ∷ some "SIGURG"
    ∷ some "SIGXCPU"
    ∷ some "SIGXFSZ"
    ∷ some "SIGVTALRM"
    ∷ some "SIGPROF"
    ∷ some "SIGWINCH"
    ∷ some "SIGIO"
    ∷ some "SIGPWR"
    ∷ some "SIGSYS"
    ∷ some "SIGRT0"
    ∷ some "SIGRT1"
    ∷ some "SIGRT2"
    ∷ some "SIGRT3"
    ∷ some "SIGRT4"
    ∷ some "SIGRT5"
    ∷ some "SIGRT6"
    ∷ some "SIGRT7"
    ∷ some "SIGRT8"
    ∷ some "SIGRT9"
    ∷ some "SIGRT10"
    ∷ some "SIGRT11"
    ∷ some "SIGRT12"
    ∷ some "SIGRT13"
    ∷ some "SIGRT14"
    ∷ some "SIGRT15"
    ∷ some "SIGRT16"
    ∷ some "SIGRT17"
    ∷ some "SIGRT18"
    ∷ some "SIGRT19"
    ∷ some "SIGRT20"
    ∷ some "SIGRT21"
    ∷ some "SIGRT22"
    ∷ some "SIGRT23"
    ∷ some "SIGRT24"
    ∷ some "SIGRT25"
    ∷ some "SIGRT26"
    ∷ some "SIGRT27"
    ∷ some "SIGRT28"
    ∷ some "SIGRT29"
    ∷ some "SIGRT30"
    ∷ some "SIGRT31"
    ∷ []
