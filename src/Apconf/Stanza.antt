-- ===== src/Apconf/Stanza.antt =====
-- apconf.c: one definition that was written out is read back.
use exact.Base.{ℕ, suc, some, [], ◌∷◌, ◌++◌, ◌≡◌, refl, ap, ◌∙◌, Bytes}
use exact.Outcome.{◌>>=◌, pure}
use exact.Outcome.Laws.{after_nil}
use exact.Apconf.Scan.{token_order, token_match, token_close, Scanner, scan}
use exact.Apconf.Parse.{
  Section, section_stanza, Parser, param_of, parse_rule_apc_param, store_param, section_params,
  section_of, parse_rule_section,
}
use exact.Apconf.Written.{
  Def, server_line, match_line, close_line, body, section, IsWritable, moved, scan-server,
  scan-order, scan-match, scan-close,
}

module _ (fuel : ℕ) (p : Parser) (sc : Scanner) where
  params-order :
      scan p.scanner ≡ (some token_order, sc)
      → section_params [] (suc fuel) p
        ≡ section_params [] fuel
            (record p { scanner = sc; s = record (p.s) { order = some sc.scanner_text } })
  unfolding section_params parse_rule_apc_param param_of store_param
  params-order is =
      rw (is, section_params)
        (after_nil (
          section_params [] fuel
            (record p { scanner = sc; s = record (p.s) { order = some sc.scanner_text } })))

  params-match :
      scan p.scanner ≡ (some token_match, sc)
      → section_params [] (suc fuel) p
        ≡ section_params [] fuel
            (record p { scanner = sc; s = record (p.s) { match_ = some sc.scanner_text } })
  unfolding section_params parse_rule_apc_param param_of store_param
  params-match is =
      rw (is, section_params)
        (after_nil (
          section_params [] fuel
            (record p { scanner = sc; s = record (p.s) { match_ = some sc.scanner_text } })))

  params-close :
      scan p.scanner ≡ (some token_close, sc)
      → section_params [] (suc fuel) p ≡ pure (record p { scanner = sc })
  unfolding section_params parse_rule_apc_param param_of store_param
  params-close is = rw (is, section_params) refl

module _ (d : Def) (w : IsWritable d) (rest : Bytes) where
  -- The scanner behind the four lines.
  abbrev pub behind : Scanner → Scanner
  behind sc =
      moved
        (moved
          (moved (moved sc (body d rest) d.name)
            (match_line d ++ b'\n' ∷ (close_line ++ b'\n' ∷ rest)) d.order)
          (close_line ++ b'\n' ∷ rest) d.match_)
        rest []

  section_params-body :
      (fuel : ℕ) (p : Parser)
      → p.scanner.unread ≡ body d rest
      → section_params [] (suc (suc (suc fuel))) p
        ≡ pure (record p {
          scanner =
              moved
                (moved
                  (moved p.scanner (match_line d ++ b'\n' ∷ (close_line ++ b'\n' ∷ rest)) d.order)
                  (close_line ++ b'\n' ∷ rest)
                  d.match_)
                rest
                [];
          s = record (p.s) { order = some d.order; match_ = some d.match_ };
        })
  section_params-body fuel p is =
      let close = close_line ++ b'\n' ∷ rest in
      let match_close = match_line d ++ b'\n' ∷ close in
      let sc1 = moved p.scanner match_close d.order in
      let sc2 = moved sc1 close d.match_ in
      let p1 : Parser = record p { scanner = sc1; s = record (p.s) { order = some d.order } } in
      let p2 : Parser = record p1 { scanner = sc2; s = record (p1.s) { match_ = some d.match_ } } in
      params-order (suc (suc fuel)) p sc1 (scan-order d w p.scanner match_close is)
      ∙ params-match (suc fuel) p1 sc2 (scan-match d w sc1 close refl)
      ∙ params-close fuel p2 (moved sc2 rest []) (scan-close sc2 rest refl)

  pub parse_rule_section-print :
      (fuel : ℕ) (p : Parser)
      → p.scanner.unread ≡ server_line d ++ b'\n' ∷ body d rest
      → parse_rule_section [] (suc (suc (suc fuel))) p
        ≡ pure (some section_stanza, record { scanner = behind p.scanner; s = section d })
  unfolding parse_rule_section section_of
  parse_rule_section-print fuel p is =
      let f = suc (suc (suc fuel)) in
      let sc = moved p.scanner (body d rest) d.name in
      let named : Section = record (p.s) { t = section_stanza; name = some d.name } in
      ap (λ r. section_of [] f r.0 (record p { scanner = r.1 }))
        (scan-server d w p.scanner (body d rest) is)
      ∙ ap (λ m. m >>= λ q. pure (some section_stanza, q))
          (section_params-body fuel (record { scanner = sc; s = named }) refl)
