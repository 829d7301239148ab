-- ===== src/Tests/Run.antt =====
-- The theorems on a whole run, at a daemon that reads one login, dumps its table and cleans it.
use exact.Base.{All, false, some, List, [], ◌∷◌, ◌≡◌, ◌≢◌, refl, Bytes, codes, arith, length}
use exact.Base.Int.{ltb_ℤ, sub_ℕ}
use exact.Libc.{atoi, str_eq, strcmp}
use exact.Libc.Order.{str_eq_iff}
use exact.Outcome.{Ends, trace_of}
use exact.Outcome.Files.{Files, Always, Apart}
use exact.Conffile.Param.{conffile_param}
use exact.Auth.Table.{Entry}
use exact.Auth.Table.Sorted.{times}
use exact.Auth.Clean.{expire}
use exact.Auth.Publish.{host_lines}
use exact.Exact.{onepass}
use exact.Tail.Reading.{pause_after}
use exact.Exact.Run.{Event, pass, dump, clean, turns}
use exact.Exact.Run.Machine.{
  Settings, View, Serving, Growth, Allowed, grown_at, noted, growing, dumping, cleaning, Through,
  stop, next, GaveUpIn,
}
use exact.Exact.Run.Present.{IsHost, onepass-IsHost}
use exact.Exact.Run.Shows.{Shows, turns-Shows}
use exact.Exact.Run.Listed.{HasRoom}
use exact.Tests.{
  demo_printing, unlogged, demo_conf, demo_os, demo_auth, demo_auth-IsValid, demo-authtemp,
  demo-authfile, demo-order, demo-timeout, demo-suspicious,
}
use exact.Tests.Line.{login_line, all_inner-IsInner}
use exact.Tests.Pass.{following, demo_verdict}

pub demo-maillog : conffile_param demo_conf (codes "maillog") ≡ some (codes "/m")
unfolding conffile_param str_eq strcmp
demo-maillog = refl

pub demo-dumpfile : conffile_param demo_conf (codes "dumpfile") ≡ some (codes "/d")
unfolding conffile_param str_eq strcmp
demo-dumpfile = refl

abbrev pub settings : Settings
settings = record {
  conf = demo_conf;
  pattern_ = codes "p";
  temp = codes "/t";
  has_temp = demo-authtemp;
  file = codes "/f";
  has_file = demo-authfile;
  order = codes "username,address";
  has_order = demo-order;
  timeout = codes "60";
  has_timeout = demo-timeout;
  suspicious = codes "10";
  has_suspicious = demo-suspicious;
  maillog = codes "/m";
  has_maillog = demo-maillog;
  dumpfile = codes "/d";
  has_dumpfile = demo-dumpfile;
}

-- The view that the world with two hosts shows.
abbrev pub view : View
view = record { hosts = times demo_auth.auth; position = some 0; last = 95; paws = 1000 }

pub view-Shows : Shows settings view following
view-Shows = record {
  hosts = (
    record {
      conf_is = refl;
      pattern_is = refl;
      sound = record { valid = demo_auth-IsValid; memory = refl };
    },
    λ k. refl,
  );
  position = refl;
  old = [];
  buffer = refl;
  last = refl;
  paws = refl;
}

pub serving : Serving demo_os
serving = record { seeks = λ _. refl; memory = λ _. refl }

pub growth : Growth settings demo_os 0 (login_line ∷ [])
growth = record {
  partial = [];
  grown = omega arith;
  few = omega arith;
  cut = refl;
  inner = (all_inner-IsInner login_line refl, tt);
  partial_inner = tt;
}

abbrev pub reading : Event
reading = pass demo_os (λ _. demo_os)

abbrev pub events : List Event
events = reading ∷ dump demo_os ∷ clean demo_os ∷ []

-- The view behind a pass, and the one behind a cleaning.
abbrev pub read_from : View → View
read_from v = record {
  hosts = noted settings (λ _. demo_os) (login_line ∷ []) (demo_verdict, tt) v.hosts;
  position = some (length demo_os.stream);
  last = grown_at demo_os v.last 0;
  paws = pause_after 1 v.paws;
}

abbrev pub cleaned : View → View
cleaned v = record v { hosts = λ k. expire 100 (atoi (codes "60")) (v.hosts k) }

pub lively : ltb_ℤ (atoi (codes "10")) (sub_ℕ 100 100) ≡ false
unfolding atoi
lively = refl

abbrev pub reads : (v : View) → v.position ≡ some 0 → Allowed settings v reading (read_from v)
reads v at =
    growing v demo_os (λ _. demo_os) 0 (login_line ∷ []) (demo_verdict, tt) at serving lively growth

pub through : Through settings view events (cleaned (read_from view))
through =
    next view (read_from view) (cleaned (read_from view)) reading
      (dump demo_os ∷ clean demo_os ∷ []) (reads view refl)
      (next (read_from view) (read_from view) (cleaned (read_from view)) (dump demo_os)
        (clean demo_os ∷ []) (dumping (read_from view) demo_os)
        (next (read_from view) (cleaned (read_from view)) (cleaned (read_from view)) (clean demo_os)
          [] (cleaning (read_from view) demo_os) (stop (cleaned (read_from view)))))

turns-Shows_example :
    Ends
      (GaveUpIn settings events)
      (Shows settings (cleaned (read_from view)))
      (turns events following)
turns-Shows_example =
    turns-Shows settings view (cleaned (read_from view)) events following view-Shows through

-- The relay file lists the table.
abbrev pub files : Files
files path = some (host_lines demo_auth.auth)

pub apart : (a b : Bytes) → str_eq a b ≡ false → a ≢ b
apart a b differ same = absurd (cc ((str_eq_iff a b).1 same, differ))

pub temp-differs : codes "/t" ≢ codes "/f"
unfolding str_eq strcmp
temp-differs = apart (codes "/t") (codes "/f") refl

pub temp-apart : Apart demo_printing (codes "/t") (codes "/f")
temp-apart = (temp-differs, unlogged (codes "/f"))

pub dump-apart : codes "/d" ≢ codes "/f"
unfolding str_eq strcmp
dump-apart = apart (codes "/d") (codes "/f") refl

pub rooms : All (HasRoom (codes "/t")) events
rooms = ((λ _. refl), (tt, (refl, tt)))

onepass-IsHost_example :
    Always demo_printing
      (λ gs.
        (es : List Entry) × (((h : Bytes) → IsHost demo_auth.auth h → IsHost es h)
          × (gs (codes "/f") ≡ some (host_lines es))))
      (trace_of (onepass demo_os (λ _. demo_os) following))
      files
onepass-IsHost_example =
    onepass-IsHost demo_printing demo_conf (codes "/t") (codes "/f") temp-apart demo-authtemp
      demo-authfile demo_os (λ _. demo_os) following files (λ _. refl) refl refl
