-- ===== src/Apconf/Scan.antt =====
-- apconf.c: the tokens, their expressions, and the scanner.
use exact.Base.{
  ℕ, ◌+◌, ◌-◌, Bool, true, not, ◌||◌, Option, none, some, List, [], ◌∷◌, ◌++◌, Bytes, codes, ltb,
  ◌==◌, if◌then◌else◌, take, drop,
}
use exact.Libc.{fgets, c_string}
use exact.Apconf.Regex.{Atom, one, star, group_start, group_end, Span, search_from}

pub data Token : Type 0 where
  token_server token_order token_match token_close token_comment token_blank token_eof : Token

abbrev blank : ℕ → Bool
blank c = c == b' ' || c == b'\t'

abbrev byte : ℕ → Atom
byte b = one (λ c. c == b)

abbrev word : Bytes → List Atom
word [] = []
word (c ∷ cs) = byte c ∷ word cs

-- `[ \t]*` and `[ \t]+`
abbrev blanks : List Atom
blanks = star blank ∷ []

abbrev blanks1 : List Atom
blanks1 = one blank ∷ star blank ∷ []

-- `([^\n]+)`
abbrev value_group : List Atom
value_group =
    group_start ∷ one (λ c. not (c == b'\n')) ∷ star (λ c. not (c == b'\n')) ∷ group_end ∷ []

-- `token_string`, in its order.
abbrev pub server_regex : List Atom
server_regex =
    blanks
    ++ (byte b'<' ∷ blanks
        ++ (word (codes "server")
            ++ (blanks1
                ++ (group_start
                    ∷ one (λ c. not (c == b'>' || c == b'\n'))
                    ∷ star (λ c. not (c == b'>' || c == b'\n'))
                    ∷ group_end
                    ∷ byte b'>'
                    ∷ byte b'\n'
                    ∷ []))))

abbrev pub order_regex : List Atom
order_regex =
    blanks ++ (word (codes "order") ++ (blanks1 ++ (value_group ++ (blanks ++ (byte b'\n' ∷ [])))))

abbrev pub match_regex : List Atom
match_regex =
    blanks ++ (word (codes "match") ++ (blanks1 ++ (value_group ++ (blanks ++ (byte b'\n' ∷ [])))))

abbrev pub close_regex : List Atom
close_regex =
    blanks
    ++ (byte b'<' ∷ blanks
        ++ (byte b'/' ∷ blanks
            ++ (word (codes "server") ++ (blanks ++ (byte b'>' ∷ blanks ++ (byte b'\n' ∷ []))))))

abbrev pub comment_regex : List Atom
comment_regex = blanks ++ (byte b'#' ∷ star (λ c. not (c == 0)) ∷ byte b'\n' ∷ [])

abbrev pub blank_regex : List Atom
blank_regex = blanks ++ (byte b'\n' ∷ [])

abbrev pub token_regex : List (Token × List Atom)
token_regex =
    (token_server, server_regex)
    ∷ (token_order, order_regex)
    ∷ (token_match, match_regex)
    ∷ (token_close, close_regex)
    ∷ (token_comment, comment_regex)
    ∷ (token_blank, blank_regex)
    ∷ []

-- `scanner_text`: the group, or nothing; it never holds more than 1024 bytes.
abbrev pub group_text : Bytes → Option Span → Bytes
group_text s none = []
group_text s (some g) = take (if ltb 1024 (g.eo - g.so) then 1024 else g.eo - g.so) (drop g.so s)

-- The first expression that matches anywhere in the text; `none` is the result -1.
unfoldable pub first_token : List (Token × List Atom) → Bytes → Option (Token × Bytes)
unfolding search_from
first_token [] s = none
first_token ((t, r) ∷ rest) s = elim (search_from r 0 s) [
  | some group ↦ some (t, group_text s group)
  | none ↦ first_token rest s
]

-- The code compiles the expressions again in front of each call and ignores the result; that they
-- compile is what `apconf_read` has tested.
unfoldable pub scan_string : Bytes → Option (Token × Bytes)
unfolding first_token
scan_string s = first_token token_regex s

-- The stream and the scanner's globals.
pub record Scanner : Type 0 where
  pub unread : Bytes
  pub feof : Bool
  pub line_no : ℕ
  pub scanner_text : Bytes

-- `scan`: the next line's token. A line that no expression matches leaves `scanner_text` alone.
unfoldable pub scan : Scanner → Option Token × Scanner
unfolding scan_string
scan sc = elim (fgets 1024 sc.unread) [
  | none ↦ (some token_eof, record sc { feof = true })
  | some l ↦
      let next : Scanner = record sc {
        unread = l.unread;
        feof = l.at_end;
        line_no = sc.line_no + 1;
      } in
      elim (scan_string (c_string l.line)) [
        | none ↦ (none, next)
        | some (t, text) ↦ (some t, record next { scanner_text = text })
      ]
]
