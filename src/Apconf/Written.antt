-- ===== src/Apconf/Written.antt =====
-- apconf.c: server definitions as a file, and the tokens of its lines.
use mathlib.Core.Path.{subst}
use exact.Base.{
  ℕ, ◌+◌, ◌≤◌, Bool, true, false, not, ◌&&◌, none, some, List, [], ◌∷◌, ◌++◌, ◌≡◌, ◌≢◌, refl, sym,
  ap, ◌∙◌, Bytes, codes, arith, ◌==◌, length, All, All-append, append_assoc, length-append,
}
use exact.Apconf.Regex.{search_from}
use exact.Apconf.Printed.{IsNameByte, IsValueByte, blank}
use exact.Apconf.Tokens.{
  scan-line, scan_string-server, scan_string-order, scan_string-match, scan_string-close,
}
use exact.Apconf.Scan.{
  token_server, token_order, token_match, token_close, server_regex, order_regex, scan_string,
  Scanner, scan,
}
use exact.Apconf.Parse.{Section, section_stanza}

-- A server's definition.
pub record Def : Type 0 where
  pub name : Bytes
  pub order : Bytes
  pub match_ : Bytes

abbrev pub server_line : Def → Bytes
server_line d = codes "<server " ++ (d.name ++ codes ">")

abbrev pub order_line : Def → Bytes
order_line d = codes "order " ++ d.order

abbrev pub match_line : Def → Bytes
match_line d = codes "match " ++ d.match_

abbrev pub close_line : Bytes
close_line = codes "</server>"

-- The lines of a section behind its first, in front of other text.
abbrev pub body : Def → Bytes → Bytes
body d rest = order_line d ++ b'\n' ∷ (match_line d ++ b'\n' ∷ (close_line ++ b'\n' ∷ rest))

-- Definitions as a file of four lines each.
abbrev pub print : List Def → Bytes
print [] = []
print (d ∷ ds) = server_line d ++ b'\n' ∷ body d (print ds)

abbrev pub section : Def → Section
section d = record {
  t = section_stanza;
  name = some d.name;
  order = some d.order;
  match_ = some d.match_;
}

abbrev pub sections : List Def → List Section
sections [] = []
sections (d ∷ ds) = section d ∷ sections ds

-- One byte or more, without a blank in front, and no longer than a line can hold.
pub record IsText (P : ℕ → Type 0) (v : Bytes) : Type 0 where
  pub head : ℕ
  pub tail : Bytes
  pub is : v ≡ head ∷ tail
  pub black : blank head ≡ false
  pub plain : All P v
  pub inner : All (λ c. c ≢ b'\n') v
  pub nonzero : All (λ c. c ≢ 0) v
  pub fits : length v ≤ 1000

-- The values are texts, and no expression that is tried earlier is found in their lines.
pub record IsWritable (d : Def) : Type 0 where
  pub name_text : IsText IsNameByte d.name
  pub order_text : IsText IsValueByte d.order
  pub match_text : IsText IsValueByte d.match_
  pub order_no_server : search_from server_regex 0 (order_line d ++ b'\n' ∷ []) ≡ none
  pub match_no_server : search_from server_regex 0 (match_line d ++ b'\n' ∷ []) ≡ none
  pub match_no_order : search_from order_regex 0 (match_line d ++ b'\n' ∷ []) ≡ none

-- The scanner behind a line.
abbrev pub moved : Scanner → Bytes → Bytes → Scanner
moved sc rest text = record sc {
  unread = rest;
  feof = false;
  line_no = sc.line_no + 1;
  scanner_text = text;
}

abbrev not_in : ℕ → Bytes → Bool
not_in c [] = true
not_in c (x ∷ word) = not (x == c) && not_in c word

short : {P : ℕ → Type 0} (v : Bytes) (t : IsText P v) → length (t.head ∷ t.tail) ≤ 1024
short v t = subst (λ x. length x ≤ 1024) t.is (omega (arith, t.fits))

other : (word : Bytes) (c : ℕ) → not_in c word ≡ true → All (λ x. x ≢ c) word
other [] c h = tt
other (x ∷ word) c h = (ground arith, other word c (ground arith))

module _ (d : Def) (w : IsWritable d) where
  server_token : scan_string (server_line d ++ b'\n' ∷ []) ≡ some (token_server, d.name)
  server_token =
      let t = w.name_text in
      ap (λ x. scan_string (codes "<server " ++ x)) (append_assoc d.name (codes ">") (b'\n' ∷ []))
      ∙ subst (λ v. scan_string (codes "<server " ++ (v ++ codes ">\n")) ≡ some (token_server, v))
          (sym t.is)
          (scan_string-server t.head t.tail t.black (short d.name t)
            (subst (All IsNameByte) t.is t.plain))

  order_token : scan_string (order_line d ++ b'\n' ∷ []) ≡ some (token_order, d.order)
  order_token =
      let t = w.order_text in
      let h = w.order_no_server in
      subst (λ v. scan_string (codes "order " ++ (v ++ b'\n' ∷ [])) ≡ some (token_order, v))
        (sym t.is)
        (scan_string-order t.head t.tail t.black (short d.order t)
          (subst (All IsValueByte) t.is t.plain)
          (subst (λ v. search_from server_regex 0 (codes "order " ++ (v ++ b'\n' ∷ [])) ≡ none) t.is
            h))

  match_token : scan_string (match_line d ++ b'\n' ∷ []) ≡ some (token_match, d.match_)
  match_token =
      let t = w.match_text in
      subst (λ v. scan_string (codes "match " ++ (v ++ b'\n' ∷ [])) ≡ some (token_match, v))
        (sym t.is)
        (scan_string-match t.head t.tail t.black (short d.match_ t)
          (subst (All IsValueByte) t.is t.plain)
          (subst (λ v. search_from server_regex 0 (codes "match " ++ (v ++ b'\n' ∷ [])) ≡ none) t.is
            w.match_no_server)
          (subst (λ v. search_from order_regex 0 (codes "match " ++ (v ++ b'\n' ∷ [])) ≡ none) t.is
            w.match_no_order))

  pub scan-server :
      (sc : Scanner) (rest : Bytes)
      → sc.unread ≡ server_line d ++ b'\n' ∷ rest
      → scan sc ≡ (some token_server, moved sc rest d.name)
  scan-server sc rest is =
      let t = w.name_text in
      scan-line sc (server_line d) rest token_server d.name is
        (All-append (λ x. x ≢ b'\n') (codes "<server ") (d.name ++ codes ">")
          (other (codes "<server ") b'\n' refl)
          (All-append (λ x. x ≢ b'\n') d.name (codes ">") t.inner (other (codes ">") b'\n' refl)))
        (All-append (λ x. x ≢ 0) (codes "<server ") (d.name ++ codes ">")
          (other (codes "<server ") 0 refl)
          (All-append (λ x. x ≢ 0) d.name (codes ">") t.nonzero (other (codes ">") 0 refl)))
        (omega (arith, t.fits, length-append d.name (codes ">"))) server_token

  pub scan-order :
      (sc : Scanner) (rest : Bytes)
      → sc.unread ≡ order_line d ++ b'\n' ∷ rest
      → scan sc ≡ (some token_order, moved sc rest d.order)
  scan-order sc rest is =
      let t = w.order_text in
      scan-line sc (order_line d) rest token_order d.order is
        (All-append (λ x. x ≢ b'\n') (codes "order ") d.order (other (codes "order ") b'\n' refl)
          t.inner)
        (All-append (λ x. x ≢ 0) (codes "order ") d.order (other (codes "order ") 0 refl) t.nonzero)
        (omega (arith, t.fits)) order_token

  pub scan-match :
      (sc : Scanner) (rest : Bytes)
      → sc.unread ≡ match_line d ++ b'\n' ∷ rest
      → scan sc ≡ (some token_match, moved sc rest d.match_)
  scan-match sc rest is =
      let t = w.match_text in
      scan-line sc (match_line d) rest token_match d.match_ is
        (All-append (λ x. x ≢ b'\n') (codes "match ") d.match_ (other (codes "match ") b'\n' refl)
          t.inner)
        (All-append (λ x. x ≢ 0) (codes "match ") d.match_ (other (codes "match ") 0 refl)
          t.nonzero)
        (omega (arith, t.fits)) match_token

pub scan-close :
    (sc : Scanner) (rest : Bytes)
    → sc.unread ≡ close_line ++ b'\n' ∷ rest
    → scan sc ≡ (some token_close, moved sc rest [])
scan-close sc rest is =
    scan-line sc close_line rest token_close [] is (other close_line b'\n' refl)
      (other close_line 0 refl) (omega arith) scan_string-close
