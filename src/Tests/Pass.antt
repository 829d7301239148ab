-- ===== src/Tests/Pass.antt =====
-- The theorems on the lines of a pass and on a whole pass, at the shared system and one login.
use exact.Base.{some, [], ◌∷◌, ◌++◌, ◌≡◌, refl, codes, arith}
use exact.Libc.{atoi}
use exact.Outcome.{Ends}
use exact.Match.Login.{zeroed}
use exact.Auth.Table.Sorted.{times}
use exact.Tail.{initial}
use exact.Tail.Reading.{Follows}
use exact.Exact.{World, scan_lines, onepass}
use exact.Exact.Lines.{unlines, handle_lines, scan_lines-unlines}
use exact.Exact.Pass.{Verdict, accepts, note_all, Handled, GivesUp, handle_lines-Ends}
use exact.Exact.Follow.{Gives, After, onepass-Ends}
use exact.Tests.{
  demo_conf, demo_os, demo_auth, demo_auth-IsValid, demo-authtemp, demo-authfile, demo-order,
  demo-suspicious,
}
use exact.Tests.Line.{login_line, demo_matches, all_inner-IsInner, all_inner-NonZero}

abbrev pub demo_world : World
demo_world = record {
  conf = demo_conf;
  auth = demo_auth;
  tail = initial;
  patbuf = some (codes "p");
  login = zeroed;
}

scan_lines-unlines_example :
    scan_lines (λ _. demo_os) 0 [] (unlines (login_line ∷ []) ++ codes "part") demo_world
    ≡ handle_lines (λ _. demo_os) 0 (login_line ∷ []) demo_world
scan_lines-unlines_example =
    scan_lines-unlines (λ _. demo_os) (login_line ∷ []) 0 (codes "part") demo_world
      (all_inner-IsInner login_line refl, tt) (all_inner-IsInner (codes "part") refl)

abbrev pub demo_verdict : Verdict demo_os demo_conf (codes "p") login_line
unfolding demo_matches
demo_verdict = accepts demo_matches (omega arith)

handled :
    Handled demo_conf
      (codes "/t")
      (codes "/f")
      (codes "username,address")
      (codes "p")
      demo-authtemp
      demo-authfile
      demo-order
      (times demo_auth.auth)
      demo_world
handled = (
  record {
    conf_is = refl;
    pattern_is = refl;
    sound = record { valid = demo_auth-IsValid; memory = refl };
  },
  λ k. refl,
)

handle_lines-Ends_example :
    Ends
      (GivesUp demo_conf
        (codes "/t")
        (codes "/f")
        (codes "username,address")
        (codes "p")
        demo-authtemp
        demo-authfile
        demo-order
        (λ _. demo_os))
      (Handled demo_conf
        (codes "/t")
        (codes "/f")
        (codes "username,address")
        (codes "p")
        demo-authtemp
        demo-authfile
        demo-order
        (note_all demo_conf
          (codes "/t")
          (codes "/f")
          (codes "username,address")
          (codes "p")
          demo-authtemp
          demo-authfile
          demo-order
          (λ _. demo_os)
          0
          (login_line ∷ [])
          (demo_verdict, tt)
          (times demo_auth.auth)))
      (handle_lines (λ _. demo_os) 0 (login_line ∷ []) demo_world)
handle_lines-Ends_example =
    handle_lines-Ends demo_conf (codes "/t") (codes "/f") (codes "username,address") (codes "p")
      demo-authtemp demo-authfile demo-order (λ _. demo_os) 0 (login_line ∷ []) (demo_verdict, tt)
      demo_world (times demo_auth.auth) handled (all_inner-NonZero login_line refl, tt)

-- The world that reads the log from its start.
abbrev pub following : World
following = record demo_world {
  tail = record { f = some 0; paws = 1000; last = 95; tail_buff = some []; tail_bufflen = 0 };
}

following-Follows : Follows demo_os demo_conf following.tail 0
unfolding atoi
following-Follows = record {
  is_open = refl;
  old = [];
  has_buffer = refl;
  suspicious = codes "10";
  has_suspicious = demo-suspicious;
  lively = refl;
  seeks = λ _. refl;
  memory = λ _. refl;
}

onepass-Ends_example :
    Ends
      (Gives demo_conf
        (codes "/t")
        (codes "/f")
        (codes "username,address")
        (codes "p")
        demo-authtemp
        demo-authfile
        demo-order
        demo_os
        (λ _. demo_os)
        following
        0
        (login_line ∷ [])
        []
        (demo_verdict, tt))
      (After demo_conf
        (codes "/t")
        (codes "/f")
        (codes "username,address")
        (codes "p")
        demo-authtemp
        demo-authfile
        demo-order
        demo_os
        (λ _. demo_os)
        following
        0
        (login_line ∷ [])
        []
        (demo_verdict, tt))
      (onepass demo_os (λ _. demo_os) following)
onepass-Ends_example =
    onepass-Ends demo_conf (codes "/t") (codes "/f") (codes "username,address") (codes "p")
      demo-authtemp demo-authfile demo-order demo_os (λ _. demo_os) following 0 (login_line ∷ []) []
      (demo_verdict, tt)
      (record {
        conf_is = refl;
        pattern_is = refl;
        sound = record { valid = demo_auth-IsValid; memory = refl };
      })
      following-Follows (omega arith) (omega arith) refl (all_inner-IsInner login_line refl, tt) tt
