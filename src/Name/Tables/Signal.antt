-- ===== src/Name/Tables/Signal.antt =====
-- pinktrace/linux/signalent.h: the names of the signals, by number.
use Prim.Native.String.{String}
use pinktrace.Prelude.{List, [], ◌∷◌, Option, some}

unfoldable pub signalent : List (Option String)
signalent =
    some "SIG_0"
    ∷ some "SIGHUP"
    ∷ some "SIGINT"
    ∷ some "SIGQUIT"
    ∷ some "SIGILL"
    ∷ some "SIGTRAP"
    ∷ some "SIGABRT"
    ∷ some "SIGBUS"
    ∷ some "SIGFPE"
    ∷ some "SIGKILL"
    ∷ some "SIGUSR1"
    ∷ some "SIGSEGV"
    ∷ some "SIGUSR2"
    ∷ some "SIGPIPE"
    ∷ some "SIGALRM"
    ∷ some "SIGTERM"
    ∷ some "SIGSTKFLT"
    ∷ some "SIGCHLD"
    ∷ some "SIGCONT"
    ∷ some "SIGSTOP"
    ∷ some "SIGTSTP"
    ∷ some "SIGTTIN"
    ∷ some "SIGTTOU"
    ∷ some "SIGURG"
    ∷ some "SIGXCPU"
    ∷ some "SIGXFSZ"
    ∷ some "SIGVTALRM"
    ∷ some "SIGPROF"
    ∷ some "SIGWINCH"
    ∷ some "SIGIO"
    ∷ some "SIGPWR"
    ∷ some "SIGSYS"
    ∷ some "SIGRTMIN"
    ∷ []
