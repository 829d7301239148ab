-- ===== src/Tests/Definitions.antt =====
-- The theorems on the server definitions and on the check, at a file with one definition.
use exact.Base.{
  Bool, true, not, ◌&&◌, none, some, [], ◌∷◌, ◌≡◌, ◌≢◌, refl, Bytes, codes, arith, ◌==◌, All,
}
use exact.Os.{Os}
use exact.Outcome.{Ends}
use exact.Apconf.Regex.{match_at, search_from}
use exact.Apconf.Parse.{Section, section_null}
use exact.Apconf.Read.{apconf_read}
use exact.Apconf.Printed.{IsNameByte}
use exact.Apconf.Written.{Def, IsWritable, print, sections}
use exact.Apconf.RoundTrip.{apconf_read-sections}
use exact.Base.{inl, inr}
use exact.Libc.{str_eq, strcmp, atoi}
use exact.Conffile.Param.{lookup, conffile_param}
use exact.Conffile.Check.{conffile_check}
use exact.Conffile.Complete.{IsComplete, completed, def_of}
use exact.Conffile.Accept.{Defines, conffile_check-Ends}
use exact.Tests.{demo_os}
use exact.Tests.Start.{required_conf}

abbrev server : Def
server = record {
  name = codes "exim";
  order = codes "username,address";
  match_ = codes "login user=(.*) host=(.*)";
}

-- No byte of the text is zero, a newline or a closing bracket.
abbrev is_clean : Bytes → Bool
is_clean [] = true
is_clean (c ∷ cs) = not (c == 0) && (not (c == b'\n') && (not (c == b'>') && is_clean cs))

clean-nonzero : (s : Bytes) → is_clean s ≡ true → All (λ c. c ≢ 0) s
clean-nonzero [] h = tt
clean-nonzero (c ∷ cs) h = (ground arith, clean-nonzero cs (ground arith))

clean-inner : (s : Bytes) → is_clean s ≡ true → All (λ c. c ≢ b'\n') s
clean-inner [] h = tt
clean-inner (c ∷ cs) h = (ground arith, clean-inner cs (ground arith))

clean-IsNameByte : (s : Bytes) → is_clean s ≡ true → All IsNameByte s
clean-IsNameByte [] h = tt
clean-IsNameByte (c ∷ cs) h = ((ground arith, ground arith), clean-IsNameByte cs (ground arith))

server-IsWritable : IsWritable server
unfolding search_from match_at
server-IsWritable = record {
  name_text = record {
    head = b'e';
    tail = codes "xim";
    is = refl;
    black = refl;
    plain = clean-IsNameByte server.name refl;
    inner = clean-inner server.name refl;
    nonzero = clean-nonzero server.name refl;
    fits = omega arith;
  };
  order_text = record {
    head = b'u';
    tail = codes "sername,address";
    is = refl;
    black = refl;
    plain = clean-inner server.order refl;
    inner = clean-inner server.order refl;
    nonzero = clean-nonzero server.order refl;
    fits = omega arith;
  };
  match_text = record {
    head = b'l';
    tail = codes "ogin user=(.*) host=(.*)";
    is = refl;
    black = refl;
    plain = clean-inner server.match_ refl;
    inner = clean-inner server.match_ refl;
    nonzero = clean-nonzero server.match_ refl;
    fits = omega arith;
  };
  order_no_server = refl;
  match_no_server = refl;
  match_no_order = refl;
}

abbrev file_os : Os
file_os = record demo_os { readable = λ _. some (print (server ∷ [])) }

abbrev null_section : Section
null_section = record { t = section_null; name = none; order = none; match_ = none }

apconf_read-sections_example :
    Ends
      (λ _. ⊥)
      (λ r. r.0 ≡ some (sections (server ∷ [])))
      (apconf_read file_os (codes "/s") null_section)
apconf_read-sections_example =
    apconf_read-sections file_os (codes "/s") null_section (server ∷ []) (server-IsWritable, tt)
      (omega arith) refl (λ _. refl) refl refl

required_conf-IsComplete : IsComplete required_conf server
unfolding conffile_param lookup str_eq strcmp atoi
required_conf-IsComplete = record {
  required = (
    (codes "/p", refl),
    (
      (codes "/m", refl),
      ((codes "/s", refl), ((codes "exim", refl), ((codes "/f", refl), ((codes "/d", refl), tt)))),
    ),
  );
  numbers = ((codes "60", refl, refl), ((codes "60", refl, refl), ((codes "10", refl, refl), tt)));
  authtype = (codes "text", refl, inr refl);
  no_order = refl;
  order = inl refl;
  room = omega arith;
}

demo-serverdefs : conffile_param required_conf (codes "serverdefs") ≡ some (codes "/s")
unfolding conffile_param lookup str_eq strcmp
demo-serverdefs = refl

demo-server : conffile_param required_conf (codes "server") ≡ some (codes "exim")
unfolding conffile_param lookup str_eq strcmp
demo-server = refl

is_found : def_of (codes "exim") (server ∷ []) ≡ some server
unfolding str_eq strcmp
is_found = refl

file_os-Defines : Defines file_os (codes "/s") (server ∷ [])
file_os-Defines = record {
  writable = (server-IsWritable, tt);
  few = omega arith;
  readable = refl;
  compiles = λ _. refl;
  memory = refl;
  owns = refl;
}

conffile_check-Ends_example :
    Ends
      (λ _. ⊥)
      (λ x. x.param ≡ (completed required_conf server).param)
      (conffile_check file_os required_conf)
conffile_check-Ends_example =
    conffile_check-Ends file_os required_conf (codes "/s") (codes "exim") (server ∷ []) server
      demo-serverdefs demo-server file_os-Defines is_found required_conf-IsComplete
