-- ===== src/Tests/Table.antt =====
-- The theorems on the table and on the relay file, at the shared configuration and table.
use exact.Base.{
  Bytes, true, false, none, some, List, [], ◌∷◌, ◌≡◌, ◌≢◌, refl, codes, arith, ap, if◌then◌else◌,
}
use exact.Libc.{atoi, strcmp, str_eq}
use exact.Conffile.Param.{conffile_param, conffile_param_int}
use exact.Outcome.{Outcome, done, exit, fault, Ends, trace_of}
use exact.Os.{Os}
use exact.Outcome.Files.{Files, Always, Apart, run}
use exact.Auth.Table.{Entry, Auth, auth_present, bsearch}
use exact.Auth.Table.Search.{Answers, auth_present-Answers}
use exact.Auth.Text.{auth_text_add, auth_text_clean, auth_write_text}
use exact.Auth.Add.{Refused, Added, auth_text_add-Ends}
use exact.Auth.Clean.{Cleaned, auth_text_clean-Ends}
use exact.Auth.Interrupted.{RefusedBoth, Interrupted, add_interrupted, add_interrupted-Ends}
use exact.Auth.Publish.{
  OldOrNew, host_lines, auth_write_text-Always, auth_write_text-run, auth_write_text-truncated,
}
use exact.Tests.{
  demo_printing, unlogged, demo_conf, demo_os, demo_auth, demo_auth-IsValid, demo-authtemp,
  demo-authfile, demo-timeout,
}

-- A new host between the two of the table.
auth_text_add-Ends_example :
    Ends
      (Refused demo_os (codes "/t") (codes "/f"))
      (Added 100 (codes "1.2") demo_auth)
      (auth_text_add demo_os demo_conf (codes "bob") (codes "1.2") demo_auth)
auth_text_add-Ends_example =
    auth_text_add-Ends demo_os demo_conf (codes "/t") (codes "/f") demo-authtemp demo-authfile
      (codes "bob") (codes "1.2") demo_auth demo_auth-IsValid (omega arith)

auth_text_clean-Ends_example :
    Ends
      (Refused demo_os (codes "/t") (codes "/f"))
      (Cleaned 100 (atoi (codes "60")) demo_auth)
      (auth_text_clean demo_os demo_conf demo_auth)
auth_text_clean-Ends_example =
    auth_text_clean-Ends demo_os demo_conf (codes "/t") (codes "/f") (codes "60") demo-authtemp
      demo-authfile demo-timeout demo_auth demo_auth-IsValid

-- The relay file holds an old host.
abbrev old_files : Files
old_files path = if str_eq path (codes "/f") then some (codes "9.9\n") else none

differs : codes "/t" ≢ codes "/f"
unfolding str_eq strcmp
differs h = let e : true ≡ false = ap (λ s. str_eq s (codes "/t")) h in absurd (cc)

apart : Apart demo_printing (codes "/t") (codes "/f")
apart = (differs, unlogged (codes "/f"))

auth_write_text-Always_example :
    Always demo_printing
      (OldOrNew demo_printing (codes "/t") (codes "/f") apart old_files (host_lines demo_auth.auth))
      (trace_of (auth_write_text demo_os demo_conf demo_auth.auth))
      old_files
auth_write_text-Always_example =
    auth_write_text-Always demo_printing (codes "/t") (codes "/f") apart old_files demo_auth.auth
      demo_os demo_conf demo-authtemp demo-authfile

auth_write_text-run_example :
    (run demo_printing
        (trace_of (auth_write_text demo_os demo_conf demo_auth.auth))
        old_files
        (codes "/f")
      ≡ some (host_lines demo_auth.auth))
    × (run demo_printing
          (trace_of (auth_write_text demo_os demo_conf demo_auth.auth))
          old_files
          (codes "/t")
        ≡ none)
auth_write_text-run_example =
    auth_write_text-run demo_printing (codes "/t") (codes "/f") apart old_files demo_auth.auth
      demo_os demo_conf demo-authtemp demo-authfile refl refl refl

-- A disk that takes four bytes, the first of the two hosts.
abbrev full_os : Os
full_os = record demo_os { fclose = λ _. some 4 }

auth_write_text-truncated_example :
    Ends (λ _. ⊥) (λ _. Unit) (auth_write_text full_os demo_conf demo_auth.auth)
    × (run demo_printing
          (trace_of (auth_write_text full_os demo_conf demo_auth.auth))
          old_files
          (codes "/f")
        ≡ some (codes "1.1\n"))
    × (run demo_printing
          (trace_of (auth_write_text full_os demo_conf demo_auth.auth))
          old_files
          (codes "/t")
        ≡ none)
auth_write_text-truncated_example =
    auth_write_text-truncated demo_printing (codes "/t") (codes "/f") apart old_files demo_auth.auth
      full_os demo_conf demo-authtemp demo-authfile refl refl

auth_present-Answers_example :
    Answers demo_auth.auth (codes "1.3") (auth_present demo_auth (codes "1.3"))
auth_present-Answers_example =
    auth_present-Answers demo_auth (codes "1.3") demo_auth-IsValid.sorted (omega arith)

-- The host logs in at the time 100, and the alarm of the same time comes in between.
add_interrupted-Ends_example :
    Ends
      (RefusedBoth demo_os demo_os (codes "/t") (codes "/f"))
      (Interrupted 100 (atoi (codes "60")) 100 (codes "1.1") demo_auth)
      (add_interrupted demo_os demo_os demo_conf (codes "bob") (codes "1.1") demo_auth)
add_interrupted-Ends_example =
    add_interrupted-Ends demo_os demo_os demo_conf (codes "/t") (codes "/f") (codes "60")
      demo-authtemp demo-authfile demo-timeout (codes "bob") (codes "1.1") demo_auth
      demo_auth-IsValid (omega arith)

abbrev hostnames : List Entry → List Bytes
hostnames [] = []
hostnames (e ∷ es) = e.hostname ∷ hostnames es

abbrev hosts_left : Outcome Auth → List Bytes
hosts_left (done t a) = hostnames a.auth
hosts_left (exit t n) = []
hosts_left (fault t) = []

-- The host is not in the table then.
login_lost :
    hosts_left (add_interrupted demo_os demo_os demo_conf (codes "bob") (codes "1.1") demo_auth)
    ≡ codes "1.3" ∷ []
unfolding add_interrupted auth_text_clean auth_write_text auth_present bsearch conffile_param_int
    conffile_param atoi strcmp str_eq
login_lost = refl
