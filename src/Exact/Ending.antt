-- ===== src/Exact/Ending.antt =====
-- exact.c: what the end of the process by signal 15 leaves on the disk.
use exact.Base.{
  ◌∙◌, ◌++◌, ap, Option-cases, ℕ, Bool, true, false, not, ◌&&◌, [], ◌∷◌, Option, none, some, ◌≡◌,
  refl, Bytes, codes, if◌then◌else◌, Bool-cases, inl, inr,
}
use exact.Os.{Os}
use exact.Logger.{Logger, Destination, Message, is_debug, written, printed, log_file}
use exact.Logger.Written.{destination_of, written-selected}
use exact.Libc.{str_eq}
use exact.Libc.Order.{str_eq_iff}
use exact.Outcome.{log, log_err, Outcome, done, exit, fault, trace_of}
use exact.Outcome.Files.{Printing, Files, run, apply}
use exact.Conffile.Param.{Conf, conffile_param}
use exact.Exact.Cmdline.{CommandLine}
use exact.Exact.Pid.{exit_handler}

-- The call ends the process with a status.
abbrev pub ExitsWith : {A : Type 0} → ℕ → Outcome A → Type 0
ExitsWith n (done _ _) = ⊥
ExitsWith n (exit _ m) = m ≡ n
ExitsWith n (fault _) = ⊥

either_gone :
    (a b : Bool) (x : Option Bytes)
    → (if b then none else if a then none else x) ≡ (if a then none else if b then none else x)
either_gone true true x = refl
either_gone true false x = refl
either_gone false true x = refl
either_gone false false x = refl

-- The last message of the process.
abbrev pub terminated : Logger → Message
terminated l = record {
  destination = destination_of l;
  level = log_err;
  format = "terminated\n";
  args = [];
}

abbrev log_path : Destination → Option Bytes
log_path (printed (log_file path)) = some path
log_path _ = none

-- The messages of a logger, which an internal one appends to its log file.
abbrev pub printing_of : (ℕ → Bytes) → Logger → Printing
printing_of strftime l = record {
  strftime = strftime;
  log_file = log_path (destination_of l);
  shows = λ level. not (is_debug level && not l.debug);
}

abbrev is_path : Option Bytes → Bytes → Bool
is_path none path = false
is_path (some p) path = str_eq p path

-- What the last message makes of a file's content: it is appended to the log file, if that is there.
abbrev pub with_last : Logger → Bytes → Option Bytes → Option Bytes
with_last l path content =
    if is_path (log_path (destination_of l)) path
    then elim content [ none ↦ none | some old ↦ some (old ++ codes "terminated\n") ]
    else content

last_message :
    (strftime : ℕ → Bytes) (l : Logger) (path : Bytes) (fs : Files)
    → apply (printing_of strftime l) (log log_err "terminated\n" []) fs path
      ≡ with_last l path (fs path)
unfolding apply
last_message strftime l path fs = elim (Option-cases (log_path (destination_of l))) [
  | inl absent ↦ rw absent refl
  | inr (p, is) ↦ elim (Bool-cases (str_eq p path)) [
    | inl same ↦
        let e : p ≡ path = (str_eq_iff p path).0 same in
        elim (Option-cases (fs path)) [
          | inl gone ↦ rw (is, e, gone) refl
          | inr (old, there) ↦ rw (is, e, there) refl
        ]
    | inr other ↦ rw (is, other) refl
  ]
]

-- With the pid file's and the relay file's parameters set, and whatever the paths: the handler ends
-- the process with status 0. Exactly one message is written, to the place that the logger has. The
-- files are as they were, but that the pid file is gone, and unless the command line asked to
-- preserve it the relay file, each where the system lets it be removed; and that the log file of an
-- internal logger has the message behind its old content.
pub exit_handler-ExitsWith :
    (strftime : ℕ → Bytes) (os : Os) (cmd : CommandLine) (conf : Conf) (l : Logger)
    (pidfile authfile path : Bytes) (fs : Files)
    → conffile_param conf (codes "pidfile") ≡ some pidfile
    → conffile_param conf (codes "authfile") ≡ some authfile
    → ExitsWith 0 (exit_handler os cmd conf)
      × (written l (trace_of (exit_handler os cmd conf)) ≡ terminated l ∷ [])
      × (run (printing_of strftime l) (trace_of (exit_handler os cmd conf)) fs path
          ≡ with_last l path (
              if os.unlink pidfile && str_eq pidfile path
              then none
              else if not cmd.preserve && (os.unlink authfile && str_eq authfile path)
              then none
              else fs path))
unfolding exit_handler run apply
exit_handler-ExitsWith strftime os cmd conf l pidfile authfile path fs has_pid has_file =
    let ended = λ (gs : Files). last_message strftime l path gs in
    let says = written-selected l (trace_of (exit_handler os cmd conf)) in
    elim (Bool-cases cmd.preserve) [
      | inl kept ↦ elim (Bool-cases (os.unlink pidfile)) [
        | inl gone ↦
            rw (has_pid, has_file, kept, gone) (refl, rw (has_pid, kept, gone) at says, ended _)
        | inr left ↦
            rw (has_pid, has_file, kept, left) (refl, rw (has_pid, kept, left) at says, ended _)
      ]
      | inr removed ↦ elim (Bool-cases (os.unlink pidfile)) [
        | inl gone ↦ elim (Bool-cases (os.unlink authfile)) [
          | inl too ↦
              rw (has_pid, has_file, removed, gone, too)
                (
                  refl,
                  rw (has_pid, has_file, removed, gone, too) at says,
                  ended _
                      ∙ ap (with_last l path)
                          (either_gone (str_eq pidfile path) (str_eq authfile path) (fs path)),
                )
          | inr stays ↦
              rw (has_pid, has_file, removed, gone, stays)
                (refl, rw (has_pid, has_file, removed, gone, stays) at says, ended _)
        ]
        | inr left ↦ elim (Bool-cases (os.unlink authfile)) [
          | inl too ↦
              rw (has_pid, has_file, removed, left, too)
                (refl, rw (has_pid, has_file, removed, left, too) at says, ended _)
          | inr stays ↦
              rw (has_pid, has_file, removed, left, stays)
                (refl, rw (has_pid, has_file, removed, left, stays) at says, ended _)
        ]
      ]
    ]
