-- ===== src/Exact/Cmdline.antt =====
-- exact.c: the command line.
use exact.Base.{ℕ, Bool, true, false, Option, List, [], ◌∷◌, Bytes, ◌==◌, if◌then◌else◌}
use exact.Os.{Os}
use exact.Outcome.{Outcome, done, exit, stderr, Arg, ◌>>=◌, ◌>>◌, pure, emit, deref}
use exact.Conffile.Param.{Conf}
use exact.Conffile.File.{conffile_name, conffile_setname}

-- `command_line`, without `tables`, which nothing uses.
pub record CommandLine : Type 0 where
  pub foreground : Bool
  pub sleep : Bool
  pub debug : Bool
  pub preserve : Bool

-- What a call of `getopt_long` returns, and its `optarg`.
abbrev pub Getopt : Type 0
Getopt = ℕ × Option Bytes

unfoldable pub usage : Os → Conf → Outcome Conf
usage os conf =
    done
      (stderr "Usage: exact [-h] [-d] [-f] [-p] [-c filename]\n" []
        ∷ stderr "       -h | --help         show this usage information\n" []
        ∷ stderr "       -d | --debug        more than you ever want to know\n" []
        ∷ stderr "       -f | --foreground   don't background\n" []
        ∷ stderr "       -p | --preserve     don't remove the relay file on exit\n" []
        ∷ stderr "       -c | --config       configuration filename\n" []
        ∷ stderr "       -V | --version      print the version of exact and exit\n" []
        ∷ stderr "                           (default %s)\n"
            (Arg.str (conffile_name os conf).filename ∷ [])
        ∷ stderr "see the manual page exact(8) for more information\n" []
        ∷ [])
      (conffile_name os conf)

unfoldable pub version : Outcome (Unit {0})
version = emit (stderr "Exact Version 1.40 (c) 2004, Doug Winter\n" [])

-- The case of `-c`.
unfoldable pub set_config : Option Bytes → CommandLine × Conf → Outcome (CommandLine × Conf)
set_config optarg (cmd, conf) = do
  name ← deref optarg
  named ← conffile_setname name conf
  pure (cmd, named)

-- One round of the loop: the switch on what `getopt_long` returned.
unfoldable pub option : Os → Getopt → CommandLine × Conf → Outcome (CommandLine × Conf)
unfolding usage version set_config
option os (c, optarg) (cmd, conf) =
    if c == b'h'
    then usage os conf >>= (λ _. exit [] 0)
    else if c == b'V'
    then version >> exit [] 0
    else if c == b'f'
    then pure (record cmd { foreground = true }, conf)
    else if c == b's'
    then pure (record cmd { sleep = true }, conf)
    else if c == b'd'
    then pure (record cmd { debug = true }, conf)
    else if c == b'p'
    then pure (record cmd { preserve = true }, conf)
    else if c == b'c'
    then set_config optarg (cmd, conf)
    else emit (stderr "Unknown argument: %c\n" (Arg.num c ∷ []))
      >> (usage os conf >>= λ _. exit [] 40)

-- The loop, at the results of `getopt_long` that are left before its -1.
unfoldable pub option_loop : Os → List Getopt → CommandLine × Conf → Outcome (CommandLine × Conf)
unfolding option
option_loop os [] s = pure s
option_loop os (o ∷ os') s = option os o s >>= option_loop os os'

unfoldable pub cmdline : Os → List Getopt → Conf → Outcome (CommandLine × Conf)
unfolding option_loop
cmdline os opts conf =
    option_loop os opts
      (record { foreground = false; sleep = false; debug = false; preserve = false }, conf)
