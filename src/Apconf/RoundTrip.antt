-- ===== src/Apconf/RoundTrip.antt =====
-- apconf.c: server definitions that were written out are read back.
use mathlib.Core.Path.{subst}
use exact.Base.{
  ℕ, zero, suc, ◌+◌, ◌*◌, ◌≤◌, ◌<◌, true, false, Option, none, some, List, [], ◌∷◌, ◌++◌, ◌≡◌, refl,
  sym, ap, ◌∙◌, Bytes, codes, arith, ◌==◌, if◌then◌else◌, length, All, append_assoc, append-nil,
  length-append,
}
use exact.Os.{Os}
use exact.Outcome.{Ends, ◌>>=◌, pure}
use exact.Outcome.Laws.{Ends-after, Ends-bind, after_nil}
use exact.Libc.{fgets}
use exact.Apconf.Scan.{token_eof, Scanner, scan}
use exact.Apconf.Parse.{
  Section, section_stanza, Parser, section_of, parse_rule_section, store_section, top_loop,
  section_max,
}
use exact.Apconf.Written.{Def, match_line, close_line, body, print, section, sections, IsWritable}
use exact.Apconf.Stanza.{behind, parse_rule_section-print}
use exact.Apconf.Read.{owned, token_strings, compile_re, compile_all, parse_rule_top, apconf_read}

-- A round of the loop over the sections.
top_loop-section :
    (fuel : ℕ) (p q : Parser) (found : List Section)
    → p.scanner.feof ≡ false
    → (length found == section_max) ≡ false
    → parse_rule_section [] fuel p ≡ pure (some section_stanza, q)
    → top_loop true [] (suc fuel) p found ≡ top_loop true [] fuel q (found ++ q.s ∷ [])
unfolding top_loop store_section
top_loop-section fuel p q found more room is =
    ap
      (λ b.
        if b
        then pure (some found, p)
        else (parse_rule_section [] fuel p >>= store_section true (top_loop true [] fuel) found))
      more
    ∙ ap (λ m. m >>= store_section true (top_loop true [] fuel) found) is
    ∙ rw room (after_nil (top_loop true [] fuel q (found ++ q.s ∷ [])))

scan-none :
    (sc : Scanner)
    → fgets 1024 sc.unread ≡ none
    → scan sc ≡ (some token_eof, record sc { feof = true })
unfolding scan
scan-none sc is = rw (is, scan) refl

scan-end : (sc : Scanner) → sc.unread ≡ [] → scan sc ≡ (some token_eof, record sc { feof = true })
unfolding fgets
scan-end sc is = scan-none sc (ap (fgets 1024) is)

-- The end of the file.
top_loop-end :
    (fuel : ℕ) (p : Parser) (found : List Section)
    → p.scanner.feof ≡ false
    → p.scanner.unread ≡ []
    → Ends (λ _. ⊥) (λ r. r.0 ≡ some found) (top_loop true [] (suc fuel) p found)
unfolding top_loop store_section parse_rule_section section_of
top_loop-end fuel p found more end =
    let P = λ (r : Option (List Section) × Parser). r.0 ≡ some found in
    subst
      (λ b.
        Ends (λ _. ⊥) P
          (if b
            then pure (some found, p)
            else (parse_rule_section [] fuel p
                >>= store_section true (top_loop true [] fuel) found)))
      (sym more)
      (subst
        (λ r.
          Ends (λ _. ⊥) P
            (section_of [] fuel r.0 (record p { scanner = r.1 })
              >>= store_section true (top_loop true [] fuel) found))
        (sym (scan-end p.scanner end)) refl)

top_loop-print :
    (ds : List Def) (fuel : ℕ) (p : Parser) (found : List Section)
    → All IsWritable ds
    → p.scanner.feof ≡ false
    → p.scanner.unread ≡ print ds
    → length found + length ds ≤ section_max
    → 4 * length ds < fuel
    → Ends (λ _. ⊥) (λ r. r.0 ≡ some (found ++ sections ds)) (top_loop true [] fuel p found)
top_loop-print ds zero p found w more is room enough = absurd (omega arith)
top_loop-print [] (suc fuel) p found w more is room enough =
    rw (append-nil found) (top_loop-end fuel p found more is)
top_loop-print (d ∷ ds) (suc zero) p found w more is room enough = absurd (omega arith)
top_loop-print (d ∷ ds) (suc (suc zero)) p found w more is room enough = absurd (omega arith)
top_loop-print (d ∷ ds) (suc (suc (suc zero))) p found w more is room enough = absurd (omega arith)
top_loop-print (d ∷ ds) (suc (suc (suc (suc fuel)))) p found w more is room enough =
    let f = suc (suc (suc fuel)) in
    let q : Parser = record { scanner = behind d w.0 (print ds) p.scanner; s = section d } in
    let P = λ (r : Option (List Section) × Parser). r.0 ≡ some (found ++ section d ∷ sections ds) in
    subst (Ends (λ _. ⊥) P)
      (sym (
        top_loop-section f p q found more (ground arith)
          (parse_rule_section-print d w.0 (print ds) fuel p is)))
      (subst
        (λ all.
          Ends (λ _. ⊥) (λ r. r.0 ≡ some all) (top_loop true [] f q (found ++ section d ∷ [])))
        (append_assoc found (section d ∷ []) (sections ds))
        (top_loop-print ds f q (found ++ section d ∷ []) w.1 refl refl
          (omega (arith, length-append found (section d ∷ []), room)) (omega (arith, enough))))

compile_all-true :
    (os : Os) (ps : List Bytes)
    → ((s : Bytes) → os.regcomp s ≡ true)
    → compile_all os ps ≡ pure true
unfolding compile_all
compile_all-true os [] h = refl
compile_all-true os (s ∷ ps) h = rw (h s, compile_all) (compile_all-true os ps h)

pub compile_re-true : (os : Os) → ((s : Bytes) → os.regcomp s ≡ true) → compile_re os ≡ pure true
unfolding compile_re
compile_re-true os h = compile_all-true os token_strings h

parse_rule_top-print :
    (os : Os) (fuel : ℕ) (p : Parser) (ds : List Def)
    → os.realloc 8 ≡ true
    → owned os ≡ true
    → Ends (λ _. ⊥) (λ r. r.0 ≡ some (sections ds)) (top_loop true [] fuel p [])
    → Ends (λ _. ⊥) (λ r. r.0 ≡ some (sections ds)) (parse_rule_top os fuel p)
unfolding parse_rule_top
parse_rule_top-print os fuel p ds memory stale h = rw (memory, stale) h

pub length-print : (ds : List Def) → 4 * length ds ≤ length (print ds)
length-print [] = omega arith
length-print (d ∷ ds) =
    let tail = print ds in
    omega (
      arith,
      length-append (d.name ++ codes ">") (b'\n' ∷ body d tail),
      length-append d.order (b'\n' ∷ (match_line d ++ b'\n' ∷ (close_line ++ b'\n' ∷ tail))),
      length-append d.match_ (b'\n' ∷ (close_line ++ b'\n' ∷ tail)),
      length-print ds,
    )

-- For sixteen definitions at most, whose names, orders and matches are bytes without a newline or a zero
-- byte, not empty, with no blank in front, a name also without the closing bracket, and in whose lines
-- no expression that is tried earlier is found, written out as a file of four lines each; with a
-- system that reads the file, compiles the expressions and has memory, and whose block for the 8 bytes
-- asked for is large enough for all sections and their count and has a zero at the count: the reading neither exits nor faults, and gives exactly these
-- definitions, in order.
pub apconf_read-sections :
    (os : Os) (filename : Bytes) (s : Section) (ds : List Def)
    → All IsWritable ds
    → length ds ≤ section_max
    → os.readable filename ≡ some (print ds)
    → ((e : Bytes) → os.regcomp e ≡ true)
    → os.realloc 8 ≡ true
    → owned os ≡ true
    → Ends (λ _. ⊥) (λ r. r.0 ≡ some (sections ds)) (apconf_read os filename s)
unfolding apconf_read
apconf_read-sections os filename s ds w few is compiles memory stale =
    let sc : Scanner = record { unread = print ds; feof = false; line_no = 0; scanner_text = [] } in
    let p : Parser = record { scanner = sc; s = s } in
    let fuel = length (print ds) + 2 in
    let P = λ (r : Option (List Section) × Parser). r.0 ≡ some (sections ds) in
    let Q = λ (r : Option (List Section) × Section). r.0 ≡ some (sections ds) in
    rw (is, apconf_read, compile_re-true os compiles)
      (Ends-after (λ _. ⊥) Q [] (parse_rule_top os fuel p >>= λ r. pure (r.0, r.1.s))
        (Ends-bind (λ _. ⊥) P Q (parse_rule_top os fuel p) (λ r. pure (r.0, r.1.s))
          (parse_rule_top-print os fuel p ds memory stale (
            top_loop-print ds fuel p [] w refl refl (omega (arith, few))
              (omega (arith, length-print ds))))
          (λ r h. h)))
