-- ===== src/Apconf/Rounds.antt =====
-- apconf.c: the parser's loops end, and the fuel of their models is enough.
use mathlib.Core.Path.{subst}
use exact.Base.{
  ℕ, zero, suc, ◌≤◌, ◌<◌, Option, none, some, [], ◌∷◌, ◌≡◌, refl, sym, ap, Bytes, ◌⊎◌, inl, inr,
  arith, length, Option-cases,
}
use exact.Libc.{Line, fgets, c_string}
use exact.Outcome.{Trace, Outcome, Arg, log, log_err}
use exact.Outcome.Returns.{
  Returns, Returns-bind, Returns-then, Returns-pure, Returns-done, Returns-map, Returns-fault,
  bind-Returns,
}
use exact.Conffile.Rounds.{line-shorter}
use exact.Apconf.Scan.{Token, token_eof, Scanner, scan, scan_string}
use exact.Apconf.Parse.{
  ApcParam, param_order, param_match, param_end, Parser, param_of, parse_rule_apc_param,
  section_params, store_param,
}

-- The bytes that are left for the scanner.
abbrev pub left : Scanner → ℕ
left sc = length sc.unread

fgets-shorter : (file : Bytes) (l : Line) → fgets 1024 file ≡ some l → length l.unread < length file
unfolding fgets
fgets-shorter [] l h = absurd (cc)
fgets-shorter (c ∷ cs) l h = line-shorter 1022 c cs l h

-- A scan meets the end of the file, or takes a byte at least.
pub scan-shorter : (sc : Scanner) → ((scan sc).0 ≡ some token_eof) ⊎ (left (scan sc).1 < left sc)
unfolding scan
scan-shorter sc = elim (Option-cases (fgets 1024 sc.unread)) [
  | inl ended ↦ inl (rw (ended, scan) refl)
  | inr (l, line) ↦ elim (Option-cases (scan_string (c_string l.line))) [
    | inl nothing ↦ inr (rw (line, nothing, scan) (fgets-shorter sc.unread l line))
    | inr (found, token) ↦ inr (rw (line, token, scan) (fgets-shorter sc.unread l line))
  ]
]

-- Nothing was found, or the scanner has taken a byte at least.
abbrev Moved : Scanner → Option ApcParam × Scanner → Type 0
Moved sc r = (r.0 ≡ none) ⊎ (left r.1 < left sc)

eof-none :
    (t : Option Token) (sc : Scanner)
    → t ≡ some token_eof
    → Returns (λ found. found ≡ none) (param_of t sc)
unfolding param_of
eof-none t sc e =
    subst (λ x. Returns (λ found. found ≡ none) (param_of x sc)) (sym e)
      (Returns-done (λ found. found ≡ none)
        (log log_err "Parse error at line %d.\n" (Arg.num sc.line_no ∷ []) ∷ []) none refl)

parse_rule_apc_param-Moved : (sc : Scanner) → Returns (Moved sc) (parse_rule_apc_param sc)
unfolding parse_rule_apc_param
parse_rule_apc_param-Moved sc = elim (scan-shorter sc) [
  | inl ended ↦
      Returns-bind (λ found. found ≡ none) (Moved sc) (param_of (scan sc).0 (scan sc).1) _
        (eof-none (scan sc).0 (scan sc).1 ended)
        (λ p none_found. Returns-pure (Moved sc) (p, (scan sc).1) (inl none_found))
  | inr less ↦
      Returns-then (Moved sc) (param_of (scan sc).0 (scan sc).1) _
        (λ p. Returns-pure (Moved sc) (p, (scan sc).1) (inr less))
]

store_param-same :
    (f g : Parser → Outcome Parser) (p : Parser) (found : Option ApcParam)
    → ((found ≡ none) ⊎ ((q : Parser) → q.scanner ≡ p.scanner → f q ≡ g q))
    → store_param f p found ≡ store_param g p found
unfolding store_param
store_param-same f g p none h = refl
store_param-same f g p (some (param_order v)) (inl n) = absurd (cc)
store_param-same f g p (some (param_order v)) (inr h) = h _ refl
store_param-same f g p (some (param_match v)) (inl n) = absurd (cc)
store_param-same f g p (some (param_match v)) (inr h) = h _ refl
store_param-same f g p (some param_end) h = refl

pub section_params-rounds :
    (stop other : Trace) (fuel more : ℕ) (p : Parser)
    → left p.scanner < fuel
    → left p.scanner < more
    → section_params stop fuel p ≡ section_params other more p
unfolding section_params
section_params-rounds stop other zero more p h k = absurd (omega arith)
section_params-rounds stop other (suc fuel) zero p h k = absurd (omega arith)
section_params-rounds stop other (suc fuel) (suc more) p h k =
    bind-Returns (parse_rule_apc_param p.scanner) _ _ (
      Returns-map (Moved p.scanner) _ (parse_rule_apc_param p.scanner)
        (parse_rule_apc_param-Moved p.scanner)
        (λ r moved.
          store_param-same (section_params stop fuel) (section_params other more)
            (record p { scanner = r.1 }) r.0
            (elim moved [
              | inl n ↦ inl n
              | inr less ↦ inr (λ q e.
                  let same : left q.scanner ≡ left r.1 = ap left e in
                  section_params-rounds stop other fuel more q (omega (arith, same, less, h))
                    (omega (arith, same, less, k)))
            ])))

-- The scanner has not gone back.
abbrev pub Onward : Scanner → Parser → Type 0
Onward sc q = left q.scanner ≤ left sc

scan_onward : (sc : Scanner) → left (scan sc).1 ≤ left sc
unfolding scan
scan_onward sc = elim (Option-cases (fgets 1024 sc.unread)) [
  | inl ended ↦ rw (ended, scan) (omega arith)
  | inr (l, line) ↦
      let shorter = fgets-shorter sc.unread l line in
      elim (Option-cases (scan_string (c_string l.line))) [
        | inl nothing ↦ rw (line, nothing, scan) (omega (arith, shorter))
        | inr (found, token) ↦ rw (line, token, scan) (omega (arith, shorter))
      ]
]

store_param-Onward :
    (go : Parser → Outcome Parser) (sc : Scanner) (p : Parser) (found : Option ApcParam)
    → left p.scanner ≤ left sc
    → ((q : Parser) → left q.scanner ≤ left sc → Returns (Onward sc) (go q))
    → Returns (Onward sc) (store_param go p found)
unfolding store_param
store_param-Onward go sc p none le h = Returns-fault (Onward sc) []
store_param-Onward go sc p (some (param_order v)) le h = h _ le
store_param-Onward go sc p (some (param_match v)) le h = h _ le
store_param-Onward go sc p (some param_end) le h = Returns-pure (Onward sc) p le

pub section_params-Onward :
    (stop : Trace) (fuel : ℕ) (sc : Scanner) (p : Parser)
    → left p.scanner ≤ left sc
    → Returns (Onward sc) (section_params stop fuel p)
unfolding section_params parse_rule_apc_param
section_params-Onward stop zero sc p le = Returns-fault (Onward sc) stop
section_params-Onward stop (suc fuel) sc p le =
    Returns-bind (λ (r : Option ApcParam × Scanner). left r.1 ≤ left sc) (Onward sc)
      (parse_rule_apc_param p.scanner) _
      (Returns-then (λ (r : Option ApcParam × Scanner). left r.1 ≤ left sc)
        (param_of (scan p.scanner).0 (scan p.scanner).1) _
        (λ found.
          Returns-pure (λ (r : Option ApcParam × Scanner). left r.1 ≤ left sc)
            (found, (scan p.scanner).1) (omega (arith, le, scan_onward p.scanner))))
      (λ r le'.
        store_param-Onward (section_params stop fuel) sc (record p { scanner = r.1 }) r.0 le'
          (λ q leq. section_params-Onward stop fuel sc q leq))
