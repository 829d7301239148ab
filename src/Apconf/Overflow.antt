-- ===== src/Apconf/Overflow.antt =====
-- apconf.c: the block for the sections is as small as a pointer.
use exact.Base.{
  ℕ, ◌+◌, ◌-◌, ◌≤◌, arith, suc, false, some, List, [], ◌∷◌, ◌≡◌, true, refl, ap, ◌∙◌, Bytes,
  if◌then◌else◌, length,
}
use exact.Os.{Os}
use exact.Outcome.{IsFault, fault, pure, ◌>>=◌}
use exact.Apconf.Scan.{Scanner}
use exact.Apconf.Parse.{Section, Parser, parse_rule_section, store_section, top_loop}
use exact.Apconf.Written.{Def, print, IsWritable}
use exact.Apconf.Stanza.{parse_rule_section-print}
use exact.Apconf.RoundTrip.{compile_re-true, length-print}
use exact.Apconf.Read.{owned, parse_rule_top, apconf_read}

-- The first stanza is stored past the block.
top_loop-overflow :
    (d : Def) (ds : List Def) (fuel : ℕ) (p : Parser)
    → IsWritable d
    → p.scanner.feof ≡ false
    → p.scanner.unread ≡ print (d ∷ ds)
    → top_loop false [] (suc (suc (suc (suc fuel)))) p [] ≡ fault []
unfolding top_loop store_section
top_loop-overflow d ds fuel p w more is =
    let f = suc (suc (suc fuel)) in
    ap
      (λ b.
        if b
        then pure (some [], p)
        else (parse_rule_section [] f p >>= store_section false (top_loop false [] f) []))
      more
    ∙ ap (λ m. m >>= store_section false (top_loop false [] f) [])
        (parse_rule_section-print d w (print ds) fuel p is)

four_more : (n : ℕ) → 4 ≤ n → n + 2 ≡ suc (suc (suc (suc (n - 2))))
four_more n h = omega arith

parse_rule_top-overflow :
    (os : Os) (d : Def) (ds : List Def) (p : Parser)
    → IsWritable d
    → p.scanner.feof ≡ false
    → p.scanner.unread ≡ print (d ∷ ds)
    → os.realloc 8 ≡ true
    → owned os ≡ false
    → parse_rule_top os (length (print (d ∷ ds)) + 2) p ≡ fault []
unfolding parse_rule_top
parse_rule_top-overflow os d ds p w more is memory small =
    rw (memory, small)
      (ap (λ n. top_loop false [] n p [])
          (four_more (length (print (d ∷ ds))) (omega (arith, length-print (d ∷ ds))))
        ∙ top_loop-overflow d ds (length (print (d ∷ ds)) - 2) p w more is)

-- For a file with one definition at least, written out as above, and a system that reads the file,
-- compiles the expressions and has memory, but with the block that the 8 bytes asked for call for, or
-- any other without room for the sections and their count: the reading is a fault.
pub apconf_read-overflow :
    (os : Os) (filename : Bytes) (s : Section) (d : Def) (ds : List Def)
    → IsWritable d
    → os.readable filename ≡ some (print (d ∷ ds))
    → ((e : Bytes) → os.regcomp e ≡ true)
    → os.realloc 8 ≡ true
    → owned os ≡ false
    → IsFault (apconf_read os filename s)
unfolding apconf_read
apconf_read-overflow os filename s d ds w is compiles memory small =
    let sc : Scanner = record {
      unread = print (d ∷ ds);
      feof = false;
      line_no = 0;
      scanner_text = [];
    } in
    let p : Parser = record { scanner = sc; s = s } in
    rw
      (
        is,
        apconf_read,
        compile_re-true os compiles,
        parse_rule_top-overflow os d ds p w refl refl memory small,
      )
      tt
