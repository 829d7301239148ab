-- ===== src/Apconf/Tokens.antt =====
-- apconf.c: the tokens of the four lines of a section.
use exact.Base.{
  ℕ, ◌+◌, ◌-◌, ◌≤◌, ◌<◌, false, none, some, [], ◌∷◌, ◌++◌, ◌≡◌, ◌≢◌, refl, ap, ◌∙◌, Bytes, codes,
  arith, le→ltb, length, drop, All, All-append, take_append,
}
use exact.Libc.{Line, fgets, c_string}
use exact.Libc.Lines.{fgets-line, c_string-nonzero}
use exact.Apconf.Regex.{search_from}
use exact.Apconf.Printed.{IsNameByte, IsValueByte, blank, server-found, order-found, match-found}
use exact.Apconf.Scan.{
  Token, token_server, token_order, token_match, token_close, server_regex, order_regex, group_text,
  first_token, scan_string, Scanner, scan,
}

group_text-value :
    (line v rest : Bytes) (k : ℕ)
    → drop k line ≡ v ++ rest
    → length v ≤ 1024
    → group_text line (some (record { so = k; eo = k + length v })) ≡ v
group_text-value line v rest k is fits =
    let n : k + length v - k ≡ length v = omega arith in
    rw (n, le→ltb 1024 (length v) fits, is) (take_append v rest (length v) refl)

module _ (c : ℕ) (cs : Bytes) (black : blank c ≡ false) (fits : length (c ∷ cs) ≤ 1024) where
  pub scan_string-server :
      All IsNameByte (c ∷ cs)
      → scan_string (codes "<server " ++ (c ∷ (cs ++ codes ">\n"))) ≡ some (token_server, c ∷ cs)
  unfolding scan_string first_token
  scan_string-server plain =
      rw (server-found c cs black plain, first_token)
        (ap (λ t. some (token_server, t))
          (group_text-value (codes "<server " ++ (c ∷ (cs ++ codes ">\n"))) (c ∷ cs) (codes ">\n") 8
            refl fits))

  pub scan_string-order :
      All IsValueByte (c ∷ cs)
      → search_from server_regex 0 (codes "order " ++ (c ∷ (cs ++ codes "\n"))) ≡ none
      → scan_string (codes "order " ++ (c ∷ (cs ++ codes "\n"))) ≡ some (token_order, c ∷ cs)
  unfolding scan_string first_token
  scan_string-order plain no_server =
      rw (no_server, order-found c cs black plain, first_token)
        (ap (λ t. some (token_order, t))
          (group_text-value (codes "order " ++ (c ∷ (cs ++ codes "\n"))) (c ∷ cs) (codes "\n") 6
            refl fits))

  pub scan_string-match :
      All IsValueByte (c ∷ cs)
      → search_from server_regex 0 (codes "match " ++ (c ∷ (cs ++ codes "\n"))) ≡ none
      → search_from order_regex 0 (codes "match " ++ (c ∷ (cs ++ codes "\n"))) ≡ none
      → scan_string (codes "match " ++ (c ∷ (cs ++ codes "\n"))) ≡ some (token_match, c ∷ cs)
  unfolding scan_string first_token
  scan_string-match plain no_server no_order =
      rw (no_server, no_order, match-found c cs black plain, first_token)
        (ap (λ t. some (token_match, t))
          (group_text-value (codes "match " ++ (c ∷ (cs ++ codes "\n"))) (c ∷ cs) (codes "\n") 6
            refl fits))

pub scan_string-close : scan_string (codes "</server>\n") ≡ some (token_close, [])
unfolding scan_string first_token search_from
scan_string-close = refl

scan-token :
    (sc : Scanner) (l : Line) (t : Token) (text : Bytes)
    → fgets 1024 sc.unread ≡ some l
    → scan_string (c_string l.line) ≡ some (t, text)
    → scan sc ≡ (
      some t,
      record sc {
        unread = l.unread;
        feof = l.at_end;
        line_no = sc.line_no + 1;
        scanner_text = text;
      },
    )
unfolding scan
scan-token sc l t text is token = rw (is, scan, token) refl

pub scan-line :
    (sc : Scanner) (line rest : Bytes) (t : Token) (text : Bytes)
    → sc.unread ≡ line ++ b'\n' ∷ rest
    → All (λ c. c ≢ b'\n') line
    → All (λ c. c ≢ 0) line
    → length line + 1 < 1024
    → scan_string (line ++ b'\n' ∷ []) ≡ some (t, text)
    → scan sc ≡ (
      some t,
      record sc { unread = rest; feof = false; line_no = sc.line_no + 1; scanner_text = text },
    )
scan-line sc line rest t text is inner nonzero fits token =
    let whole = line ++ b'\n' ∷ [] in
    scan-token sc (record { line = whole; unread = rest; at_end = false }) t text
      (ap (fgets 1024) is ∙ fgets-line 1024 line rest inner fits)
      (ap scan_string (
          c_string-nonzero whole
            (All-append (λ c. c ≢ 0) line (b'\n' ∷ []) nonzero ((λ e. omega (arith, e)), tt)))
        ∙ token)
