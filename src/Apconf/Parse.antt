-- ===== src/Apconf/Parse.antt =====
-- apconf.c: the parser.
use exact.Base.{
  Bool, not, ℕ, zero, suc, Option, none, some, List, [], ◌∷◌, ◌++◌, Bytes, ◌==◌, if◌then◌else◌,
  length,
}
use exact.Outcome.{Outcome, Trace, fault, log_err, Arg, ◌>>=◌, ◌>>◌, pure, logger}
use exact.Apconf.Scan.{
  Token, token_server, token_order, token_match, token_close, token_comment, token_blank, token_eof,
  Scanner, scan,
}

pub data SectionType : Type 0 where
  section_null section_ignore section_stanza section_eof : SectionType

-- `section`; `none` is a null pointer.
pub record Section : Type 0 where
  pub t : SectionType
  pub name : Option Bytes
  pub order : Option Bytes
  pub match_ : Option Bytes

-- `apc_param`
pub data ApcParam : Type 0 where
  param_order param_match : Bytes → ApcParam
  param_end : ApcParam

-- The scanner, and the static section of `parse_rule_section`, which keeps its fields from one call
-- to the next.
pub record Parser : Type 0 where
  pub scanner : Scanner
  pub s : Section

-- `SECTION_MAX`
abbrev pub section_max : ℕ
section_max = 16

-- A token inside a section; `none` is the null pointer of a parse error.
unfoldable pub param_of : Option Token → Scanner → Outcome (Option ApcParam)
param_of (some token_match) sc = pure (some (param_match sc.scanner_text))
param_of (some token_order) sc = pure (some (param_order sc.scanner_text))
param_of (some token_close) sc = pure (some param_end)
param_of _ sc = logger log_err "Parse error at line %d.\n" (Arg.num sc.line_no ∷ []) >> pure none

unfoldable pub parse_rule_apc_param : Scanner → Outcome (Option ApcParam × Scanner)
unfolding param_of
parse_rule_apc_param sc = let (t, next) = scan sc in param_of t next >>= λ p. pure (p, next)

-- What the loop over a section's parameters does with a parameter; `go` is the rest of the loop.
-- The result of a parse error is followed before it is tested: a null pointer.
unfoldable pub store_param : (Parser → Outcome Parser) → Parser → Option ApcParam → Outcome Parser
store_param go p none = fault []
store_param go p (some (param_order v)) = go (record p { s = record (p.s) { order = some v } })
store_param go p (some (param_match v)) = go (record p { s = record (p.s) { match_ = some v } })
store_param go p (some param_end) = pure p

-- The loop. With no fuel left the model stops in a fault with the trace `stop`, which is empty in
-- the whole program.
unfoldable pub section_params : Trace → ℕ → Parser → Outcome Parser
unfolding parse_rule_apc_param store_param
section_params stop zero p = fault stop
section_params stop (suc fuel) p =
    let go = section_params stop fuel in
    parse_rule_apc_param p.scanner >>= λ r. store_param go (record p { scanner = r.1 }) r.0

-- `parse_rule_section`, by the token of its first line. The result says what was found, with the
-- section in the parser's `s`; `none` is the null pointer of a parse error.
unfoldable pub section_of :
    Trace → ℕ → Option Token → Parser → Outcome (Option SectionType × Parser)
unfolding section_params
section_of stop fuel (some token_comment) p =
    pure (some section_ignore, record p { s = record (p.s) { t = section_ignore } })
section_of stop fuel (some token_blank) p =
    pure (some section_ignore, record p { s = record (p.s) { t = section_ignore } })
section_of stop fuel (some token_eof) p =
    pure (some section_eof, record p { s = record (p.s) { t = section_eof } })
section_of stop fuel (some token_server) p = do
  let named : Section = record (p.s) { t = section_stanza; name = some p.scanner.scanner_text }
  q ← section_params stop fuel (record p { s = named })
  pure (some section_stanza, q)
section_of stop fuel _ p =
    logger log_err "Parse error at line %d.\n" (Arg.num p.scanner.line_no ∷ []) >> pure (none, p)

unfoldable pub parse_rule_section : Trace → ℕ → Parser → Outcome (Option SectionType × Parser)
unfolding section_of
parse_rule_section stop fuel p =
    let (t, next) = scan p.scanner in section_of stop fuel t (record p { scanner = next })

-- What the loop of `parse_rule_top` does with a section; `go` is the rest of the loop. `owned` says
-- whether the count and the sections stand in memory of the program; if not, the first stanza is
-- a read and a write out of bounds.
unfoldable pub store_section :
    Bool
    → (Parser → List Section → Outcome (Option (List Section) × Parser))
    → List Section
    → Option SectionType × Parser
    → Outcome (Option (List Section) × Parser)
store_section owned go found (none, p) = pure (none, p)
store_section owned go found (some section_eof, p) = pure (some found, p)
store_section owned go found (some section_stanza, p) =
    if not owned
    then fault []
    else if length found == section_max
    then (logger log_err "Too many sections in file" [] >> pure (none, p))
    else go p (found ++ p.s ∷ [])
store_section owned go found (some section_ignore, p) = go p found
store_section owned go found (some section_null, p) = go p found

-- The loop with the sections so far, whose number is `a->count`.
unfoldable pub top_loop :
    Bool → Trace → ℕ → Parser → List Section → Outcome (Option (List Section) × Parser)
unfolding parse_rule_section store_section
top_loop owned stop zero p found = fault stop
top_loop owned stop (suc fuel) p found =
    let go = top_loop owned stop fuel in
    if p.scanner.feof
    then pure (some found, p)
    else parse_rule_section stop fuel p >>= store_section owned go found
