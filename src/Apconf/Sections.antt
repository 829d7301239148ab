-- ===== src/Apconf/Sections.antt =====
-- apconf.c: the loop over the sections of the file ends, and the fuel of its model is enough.
use exact.Base.{
  Bool, ℕ, zero, suc, ◌<◌, Option, none, some, List, [], ◌∷◌, ◌++◌, ◌≡◌, refl, ap, ◌∙◌, ◌⊎◌, inl,
  inr, arith, if◌then◌else◌, length,
}
use exact.Outcome.{Trace, Outcome, Arg, log, log_err, pure, ◌>>=◌}
use exact.Outcome.Returns.{
  Returns, Returns-bind, Returns-pure, Returns-done, Returns-map, bind-Returns,
}
use exact.Apconf.Scan.{
  Token, token_server, token_order, token_match, token_close, token_comment, token_blank, token_eof,
  Scanner, scan,
}
use exact.Apconf.Parse.{
  SectionType, section_stanza, section_eof, section_ignore, section_null, Section, Parser,
  section_params, section_of, parse_rule_section, top_loop, store_section,
}
use exact.Apconf.Rounds.{left, scan-shorter, Onward, section_params-Onward, section_params-rounds}

-- A parse error, the end of the file, or a section for which the scanner has taken a byte at least.
abbrev Step : Scanner → Option SectionType × Parser → Type 0
Step sc r = (r.0 ≡ none) ⊎ ((r.0 ≡ some section_eof) ⊎ (left r.1.scanner < left sc))

abbrev Scanned : Option Token → ℕ → ℕ → Type 0
Scanned t n bound = (t ≡ some token_eof) ⊎ (n < bound)

parse_error-Step :
    (sc : Scanner) (p : Parser)
    → Returns (Step sc) (
        exact.Outcome.done
          (log log_err "Parse error at line %d.\n" (Arg.num p.scanner.line_no ∷ []) ∷ [])
          (none, p))
parse_error-Step sc p = Returns-done (Step sc) _ (none, p) (inl refl)

section_of-Step :
    (stop : Trace) (fuel : ℕ) (t : Option Token) (sc : Scanner) (p : Parser)
    → Scanned t (left p.scanner) (left sc)
    → Returns (Step sc) (section_of stop fuel t p)
unfolding section_of
section_of-Step stop fuel none sc p s = parse_error-Step sc p
section_of-Step stop fuel (some token_order) sc p s = parse_error-Step sc p
section_of-Step stop fuel (some token_match) sc p s = parse_error-Step sc p
section_of-Step stop fuel (some token_close) sc p s = parse_error-Step sc p
section_of-Step stop fuel (some token_eof) sc p s = Returns-pure (Step sc) _ (inr (inl refl))
section_of-Step stop fuel (some token_comment) sc p (inl e) = absurd (cc)
section_of-Step stop fuel (some token_comment) sc p (inr less) =
    Returns-pure (Step sc) _ (inr (inr less))
section_of-Step stop fuel (some token_blank) sc p (inl e) = absurd (cc)
section_of-Step stop fuel (some token_blank) sc p (inr less) =
    Returns-pure (Step sc) _ (inr (inr less))
section_of-Step stop fuel (some token_server) sc p (inl e) = absurd (cc)
section_of-Step stop fuel (some token_server) sc p (inr less) =
    let named : Section = record (p.s) { t = section_stanza; name = some p.scanner.scanner_text } in
    Returns-bind (Onward p.scanner) (Step sc) (section_params stop fuel (record p { s = named })) _
      (section_params-Onward stop fuel p.scanner (record p { s = named }) (omega arith))
      (λ q on.
        Returns-pure (Step sc) (some section_stanza, q) (inr (inr (omega (arith, on, less)))))

section_of-rounds :
    (stop other : Trace) (fuel more : ℕ) (t : Option Token) (p : Parser)
    → Scanned t (left p.scanner) fuel
    → Scanned t (left p.scanner) more
    → section_of stop fuel t p ≡ section_of other more t p
unfolding section_of
section_of-rounds stop other fuel more none p h k = refl
section_of-rounds stop other fuel more (some token_order) p h k = refl
section_of-rounds stop other fuel more (some token_match) p h k = refl
section_of-rounds stop other fuel more (some token_close) p h k = refl
section_of-rounds stop other fuel more (some token_eof) p h k = refl
section_of-rounds stop other fuel more (some token_comment) p h k = refl
section_of-rounds stop other fuel more (some token_blank) p h k = refl
section_of-rounds stop other fuel more (some token_server) p (inl e) k = absurd (cc)
section_of-rounds stop other fuel more (some token_server) p (inr h) (inl e) = absurd (cc)
section_of-rounds stop other fuel more (some token_server) p (inr h) (inr k) =
    let named : Section = record (p.s) { t = section_stanza; name = some p.scanner.scanner_text } in
    ap (λ m. m >>= λ q. pure (some section_stanza, q))
      (section_params-rounds stop other fuel more (record p { s = named }) h k)

store_section-same :
    (owned : Bool) (f g : Parser → List Section → Outcome (Option (List Section) × Parser))
    (found : List Section) (r : Option SectionType × Parser)
    → ((r.0 ≡ none) ⊎ ((r.0 ≡ some section_eof) ⊎ ((l : List Section) → f r.1 l ≡ g r.1 l)))
    → store_section owned f found r ≡ store_section owned g found r
unfolding store_section
store_section-same owned f g found (none, p) h = refl
store_section-same owned f g found (some section_eof, p) h = refl
store_section-same owned f g found (some section_stanza, p) (inl e) = absurd (cc)
store_section-same owned f g found (some section_stanza, p) (inr (inl e)) = absurd (cc)
store_section-same owned f g found (some section_stanza, p) (inr (inr h)) =
    rw (h (found ++ p.s ∷ [])) refl
store_section-same owned f g found (some section_ignore, p) (inl e) = absurd (cc)
store_section-same owned f g found (some section_ignore, p) (inr (inl e)) = absurd (cc)
store_section-same owned f g found (some section_ignore, p) (inr (inr h)) = h found
store_section-same owned f g found (some section_null, p) (inl e) = absurd (cc)
store_section-same owned f g found (some section_null, p) (inr (inl e)) = absurd (cc)
store_section-same owned f g found (some section_null, p) (inr (inr h)) = h found

-- What a scan of the next line says of a bound on the bytes in front of it.
scan-Scanned :
    (sc : Scanner) (bound : ℕ) → left sc < suc bound → Scanned (scan sc).0 (left (scan sc).1) bound
scan-Scanned sc bound h = elim (scan-shorter sc) [
  | inl ended ↦ inl ended
  | inr less ↦ inr (omega (arith, less, h))
]

parse_rule_section-rounds :
    (stop other : Trace) (fuel more : ℕ) (p : Parser)
    → left p.scanner < suc fuel
    → left p.scanner < suc more
    → parse_rule_section stop fuel p ≡ parse_rule_section other more p
unfolding parse_rule_section
parse_rule_section-rounds stop other fuel more p h k =
    section_of-rounds stop other fuel more (scan p.scanner).0
      (record p { scanner = (scan p.scanner).1 }) (scan-Scanned p.scanner fuel h)
      (scan-Scanned p.scanner more k)

parse_rule_section-Step :
    (stop : Trace) (fuel : ℕ) (p : Parser)
    → Returns (Step p.scanner) (parse_rule_section stop fuel p)
unfolding parse_rule_section
parse_rule_section-Step stop fuel p =
    section_of-Step stop fuel (scan p.scanner).0 p.scanner
      (record p { scanner = (scan p.scanner).1 }) (scan-shorter p.scanner)

-- Every two amounts of fuel above the number of the bytes that the scanner has left, such as the one
-- that apconf_read uses, give the same outcome of the parser's loop over the sections, the loop over
-- each section's parameters included, whatever two results stand for being out of fuel: the loops end
-- in fewer rounds than that, and are never out of fuel.
pub top_loop-rounds :
    (owned : Bool) (stop other : Trace) (fuel more : ℕ) (p : Parser) (found : List Section)
    → length p.scanner.unread < fuel
    → length p.scanner.unread < more
    → top_loop owned stop fuel p found ≡ top_loop owned other more p found
unfolding top_loop
top_loop-rounds owned stop other zero more p found h k = absurd (omega arith)
top_loop-rounds owned stop other (suc fuel) zero p found h k = absurd (omega arith)
top_loop-rounds owned stop other (suc fuel) (suc more) p found h k =
    ap (λ m. if p.scanner.feof then pure (some found, p) else m)
      (ap (λ m. m >>= store_section owned (top_loop owned stop fuel) found)
          (parse_rule_section-rounds stop other fuel more p h k)
        ∙ bind-Returns (parse_rule_section other more p)
            (store_section owned (top_loop owned stop fuel) found)
            (store_section owned (top_loop owned other more) found)
            (Returns-map (Step p.scanner) _ (parse_rule_section other more p)
              (parse_rule_section-Step other more p)
              (λ r step.
                store_section-same owned (top_loop owned stop fuel) (top_loop owned other more)
                  found r
                  (elim step [
                    | inl n ↦ inl n
                    | inr (inl e) ↦ inr (inl e)
                    | inr (inr less) ↦ inr (
                        inr (λ l.
                          top_loop-rounds owned stop other fuel more r.1 l (omega (arith, less, h))
                            (omega (arith, less, k))))
                  ]))))
