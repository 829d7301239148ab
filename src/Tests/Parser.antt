-- ===== src/Tests/Parser.antt =====
-- The theorem on the parser's rounds, at one server's definition.
use exact.Base.{true, false, none, [], ◌∷◌, ◌≡◌, codes, arith}
use exact.Outcome.{stderr}
use exact.Apconf.Parse.{Parser, top_loop, section_null}
use exact.Apconf.Sections.{top_loop-rounds}

abbrev definition : Parser
definition = record {
  scanner = record {
    unread = codes "<server exim>\norder username,address\nmatch a(b)\n</server>\n";
    feof = false;
    line_no = 0;
    scanner_text = [];
  };
  s = record { t = section_null; name = none; order = none; match_ = none };
}

top_loop-rounds_example :
    top_loop true [] 100 definition []
    ≡ top_loop true (stderr "out of fuel" [] ∷ []) 1000 definition []
top_loop-rounds_example =
    top_loop-rounds true [] (stderr "out of fuel" [] ∷ []) 100 1000 definition [] (omega arith)
      (omega arith)
