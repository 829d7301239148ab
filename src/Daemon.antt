-- ===== src/Daemon.antt =====
-- daemon.c: the change of user and group, and the background process. The build has
-- `HAVE_WORKING_FORK`.
pub mod Privileges
pub mod Quiet
use exact.Base.{ℕ, Bool, true, false, Option, none, some, [], ◌∷◌, Bytes, codes, if◌then◌else◌}
use exact.Os.{Os, fork_failed, child, parent}
use exact.Outcome.{
  Outcome, exit, Arg, log_crit, log_err, log_debug, setgid, setegid, setuid, seteuid, fork, setsid,
  chdir, umask, sleep, close, stderr, ◌>>=◌, ◌>>◌, pure, emit, logger, die,
}
use exact.Conffile.Param.{Conf, conffile_param}

-- `dofork(s)`, the k-th fork: the child goes on.
unfoldable pub dofork : Os → ℕ → Bool → Outcome (Unit {0})
dofork os k s = elim (os.fork k) [
  | fork_failed ↦ die log_err "Fatal Error when forking\n" [] 61
  | child ↦
      emit fork
      >> (if s
          then emit (stderr "Child sleeping - attach gdb to %d\n" (Arg.num os.getpid ∷ []))
            >> emit (sleep 10)
          else pure tt)
  | parent ↦ exit (fork ∷ []) 0
]

unfoldable pub sesslead : Os → Outcome (Unit {0})
sesslead os =
    if os.setsid then emit setsid else die log_err "Fatal Error while running setsid\n" [] 62

unfoldable pub rootdir : Os → Outcome (Unit {0})
rootdir os =
    if os.chdir
    then emit (chdir (codes "/"))
    else die log_err "Fatal Error while changing to root dir\n" [] 63

-- It is never called: `daemonize` has the call in a comment.
unfoldable pub reopenfds : Outcome (Unit {0})
reopenfds = emit (close 0) >> emit (close 1)

-- The first half of `usergroup`. (The message of exit 65 prints the name's pointer by `%d`; the
-- argument here is the name.)
unfoldable pub change_group : Os → Option Bytes → Outcome (Unit {0})
change_group os none = pure tt
change_group os (some name) = elim (os.getgrnam name) [
  | none ↦ die log_crit "group %d does not exist\n" (Arg.str name ∷ []) 65
  | some gid ↦
      if os.setgid gid
      then emit (setgid gid) >> emit (setegid gid)
      else die log_crit "unable to change gid to %d\n" (Arg.num gid ∷ []) 64
]

-- The second half.
unfoldable pub change_user : Os → Option Bytes → Outcome (Unit {0})
change_user os none = pure tt
change_user os (some name) = elim (os.getpwnam name) [
  | none ↦ die log_crit "user %s does not exist\n" (Arg.str name ∷ []) 67
  | some uid ↦
      if os.setuid uid
      then emit (setuid uid) >> emit (seteuid uid)
      else die log_crit "unable to change uid to %d\n" (Arg.num uid ∷ []) 66
]

unfoldable pub usergroup : Os → Conf → Outcome (Unit {0})
unfolding change_group change_user
usergroup os conf = do
  change_group os (conffile_param conf (codes "group"))
  change_user os (conffile_param conf (codes "user"))

-- The branch for a process that leaves the terminal: two forks, with a new session in between.
unfoldable pub leave_terminal : Os → Bool → Outcome (Unit {0})
unfolding dofork sesslead
leave_terminal os s = do
  logger log_debug "forking\n" []
  dofork os 0 false
  sesslead os
  logger log_debug "forking\n" []
  dofork os 1 s

unfoldable pub daemonize : Os → Conf → Bool → Bool → Outcome (Unit {0})
unfolding usergroup leave_terminal rootdir
daemonize os conf f s = do
  logger log_debug "changing user and group\n" []
  usergroup os conf
  if f then pure tt else leave_terminal os s
  logger log_debug "changing dir\n" []
  rootdir os
  logger log_debug "setting umask\n" []
  emit (umask 0)
  logger log_debug "freopening stdin, stdout and stderr\n" []
