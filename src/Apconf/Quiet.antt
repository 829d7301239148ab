-- ===== src/Apconf/Quiet.antt =====
-- apconf.c: the parser changes no file.
use exact.Base.{Bool, ℕ, zero, suc, Option, none, some, List, [], ◌∷◌, Bytes}
use exact.Os.{Os}
use exact.Outcome.{Outcome}
use exact.Outcome.Quiet.{IsQuiet, quiet, IsQuiet-option}
use exact.Apconf.Scan.{
  Token, token_server, token_order, token_match, token_close, token_comment, token_blank, token_eof,
  Scanner,
}
use exact.Apconf.Parse.{
  SectionType, section_stanza, section_eof, section_ignore, section_null, Section, ApcParam,
  param_order, param_match, param_end, Parser, param_of, parse_rule_apc_param, section_params,
  section_of, parse_rule_section, top_loop, store_param, store_section,
}
use exact.Apconf.Read.{
  compile_all, compile_re, parse_rule_top, apconf_read, getsec_loop, apconf_getsec,
}

param_of-IsQuiet : (t : Option Token) (sc : Scanner) → IsQuiet (param_of t sc)
unfolding param_of
param_of-IsQuiet none sc = search quiet
param_of-IsQuiet (some token_match) sc = search quiet
param_of-IsQuiet (some token_order) sc = search quiet
param_of-IsQuiet (some token_close) sc = search quiet
param_of-IsQuiet (some token_server) sc = search quiet
param_of-IsQuiet (some token_comment) sc = search quiet
param_of-IsQuiet (some token_blank) sc = search quiet
param_of-IsQuiet (some token_eof) sc = search quiet

store_param-IsQuiet :
    (go : Parser → Outcome Parser) (p : Parser) (found : Option ApcParam)
    → ((q : Parser) → IsQuiet (go q))
    → IsQuiet (store_param go p found)
unfolding store_param
store_param-IsQuiet go p none h = search quiet
store_param-IsQuiet go p (some (param_order v)) h = h _
store_param-IsQuiet go p (some (param_match v)) h = h _
store_param-IsQuiet go p (some param_end) h = search quiet

rule_param-IsQuiet : (sc : Scanner) → IsQuiet (parse_rule_apc_param sc)
unfolding parse_rule_apc_param
rule_param-IsQuiet sc = search (quiet, param_of-IsQuiet)

section_params-IsQuiet : (fuel : ℕ) (p : Parser) → IsQuiet (section_params [] fuel p)
unfolding section_params
section_params-IsQuiet zero p = search quiet
section_params-IsQuiet (suc fuel) p =
    search (quiet, rule_param-IsQuiet, store_param-IsQuiet, section_params-IsQuiet fuel)

section_of-IsQuiet : (fuel : ℕ) (t : Option Token) (p : Parser) → IsQuiet (section_of [] fuel t p)
unfolding section_of
section_of-IsQuiet fuel none p = search quiet
section_of-IsQuiet fuel (some token_comment) p = search quiet
section_of-IsQuiet fuel (some token_blank) p = search quiet
section_of-IsQuiet fuel (some token_eof) p = search quiet
section_of-IsQuiet fuel (some token_server) p = search (quiet, section_params-IsQuiet)
section_of-IsQuiet fuel (some token_order) p = search quiet
section_of-IsQuiet fuel (some token_match) p = search quiet
section_of-IsQuiet fuel (some token_close) p = search quiet

compile_all-IsQuiet : (os : Os) (ps : List Bytes) → IsQuiet (compile_all os ps)
unfolding compile_all
compile_all-IsQuiet os [] = search quiet
compile_all-IsQuiet os (p ∷ ps) = search (quiet, compile_all-IsQuiet os ps)

rule_section-IsQuiet : (fuel : ℕ) (p : Parser) → IsQuiet (parse_rule_section [] fuel p)
unfolding parse_rule_section
rule_section-IsQuiet fuel p = search section_of-IsQuiet

store_section-IsQuiet :
    (owned : Bool) (go : Parser → List Section → Outcome (Option (List Section) × Parser))
    (found : List Section) (r : Option SectionType × Parser)
    → ((q : Parser) (l : List Section) → IsQuiet (go q l))
    → IsQuiet (store_section owned go found r)
unfolding store_section
store_section-IsQuiet owned go found (none, p) h = search quiet
store_section-IsQuiet owned go found (some section_eof, p) h = search quiet
store_section-IsQuiet owned go found (some section_stanza, p) h = search (quiet, h) depth 10
store_section-IsQuiet owned go found (some section_ignore, p) h = h p found
store_section-IsQuiet owned go found (some section_null, p) h = h p found

top_loop-IsQuiet :
    (owned : Bool) (fuel : ℕ) (p : Parser) (found : List Section)
    → IsQuiet (top_loop owned [] fuel p found)
unfolding top_loop
top_loop-IsQuiet owned zero p found = search quiet
top_loop-IsQuiet owned (suc fuel) p found =
    search (quiet, rule_section-IsQuiet, store_section-IsQuiet, top_loop-IsQuiet owned fuel)

getsec_loop-IsQuiet : (a : List Section) (name : Bytes) → IsQuiet (getsec_loop a name)
unfolding getsec_loop
getsec_loop-IsQuiet [] name = search quiet
getsec_loop-IsQuiet (s ∷ ss) name = search (quiet, getsec_loop-IsQuiet ss name)

pub apconf_getsec-IsQuiet :
    (owned : Bool) (a : List Section) (name : Bytes) → IsQuiet (apconf_getsec owned a name)
unfolding apconf_getsec
apconf_getsec-IsQuiet owned a name = search (quiet, getsec_loop-IsQuiet)

pub apconf_read-IsQuiet :
    (os : Os) (filename : Bytes) (s : Section) → IsQuiet (apconf_read os filename s)
unfolding apconf_read compile_re parse_rule_top
apconf_read-IsQuiet os filename s =
    IsQuiet-option (os.readable filename) _ _ (search quiet)
      (λ file. search (quiet, compile_all-IsQuiet, top_loop-IsQuiet) depth 10)
