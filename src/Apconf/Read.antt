-- ===== src/Apconf/Read.antt =====
-- apconf.c: `apconf_read`, `parse_rule_top` and `apconf_getsec`.
use exact.Base.{
  ℕ, ◌*◌, ◌&&◌, leb, ◌+◌, Bool, true, false, not, Option, none, some, List, [], ◌∷◌, Bytes, codes,
  ◌==◌, if◌then◌else◌, length,
}
use exact.Libc.{str_eq}
use exact.Os.{Os}
use exact.Outcome.{Outcome, fault, log_err, Arg, ◌>>=◌, ◌>>◌, pure, logger, deref}
use exact.Apconf.Parse.{Section, Parser, section_max, top_loop}

-- `token_string`
abbrev pub token_strings : List Bytes
token_strings =
    codes "[ \t]*<[ \t]*server[ \t]+([^>\n]+)>\n"
    ∷ codes "[ \t]*order[ \t]+([^\n]+)[ \t]*\n"
    ∷ codes "[ \t]*match[ \t]+([^\n]+)[ \t]*\n"
    ∷ codes "[ \t]*<[ \t]*/[ \t]*server[ \t]*>[ \t]*\n"
    ∷ codes "[ \t]*#.*\n"
    ∷ codes "[ \t]*\n"
    ∷ []

unfoldable pub compile_all : Os → List Bytes → Outcome Bool
compile_all os [] = pure true
compile_all os (p ∷ ps) =
    let rest = compile_all os ps in
    if os.regcomp p
    then rest
    else (logger log_err "Regex Error: %s" (Arg.str os.regerror ∷ []) >> pure false)

-- `compile_re`, with true for its result 0.
unfoldable pub compile_re : Os → Outcome Bool
unfolding compile_all
compile_re os = compile_all os token_strings

-- The bytes of an `apconf` up to the end of its count.
abbrev pub apconf_size : ℕ
apconf_size = section_max * 32 + 4

-- The sections and their count stand behind the 8 bytes that `malloc(sizeof(a))` asks for, the size of
-- a pointer. They are the program's only if the allocator's block is larger than that and, since only
-- 8 bytes are cleared, holds a 0 at the count.
abbrev pub owned : Os → Bool
owned os = leb apconf_size os.usable && os.stale_count == 0

-- `parse_rule_top`
unfoldable pub parse_rule_top : Os → ℕ → Parser → Outcome (Option (List Section) × Parser)
unfolding top_loop
parse_rule_top os fuel p =
    if not (os.realloc 8)
    then (logger log_err "Out of memory." [] >> pure (none, p))
    else top_loop (owned os) [] fuel p []

-- `apconf_read`, with the static section before and after. A file of n bytes has n + 1 calls of
-- `fgets` at most, so n + 2 rounds are enough for each loop.
unfoldable pub apconf_read : Os → Bytes → Section → Outcome (Option (List Section) × Section)
unfolding compile_re parse_rule_top
apconf_read os filename s = elim (os.readable filename) [
  | none ↦ logger log_err "Unable to open %s for reading." (Arg.str filename ∷ []) >> pure (none, s)
  | some file ↦ compile_re os >>= λ compiled.
      if not compiled
      then pure (none, s)
      else parse_rule_top os (length file + 2) (record {
        scanner = record { unread = file; feof = false; line_no = 0; scanner_text = [] };
        s = s;
      })
        >>= λ r. pure (r.0, r.1.s)
]

-- The loop of `apconf_getsec`: the first section of that name.
unfoldable pub getsec_loop : List Section → Bytes → Outcome (Option Section)
getsec_loop [] name = pure none
getsec_loop (s ∷ ss) name =
    let rest = getsec_loop ss name in
    deref s.name >>= λ n. if str_eq name n then pure (some s) else rest

-- `apconf_getsec`. It reads the count first.
unfoldable pub apconf_getsec : Bool → List Section → Bytes → Outcome (Option Section)
unfolding getsec_loop
apconf_getsec has_count sections name = if has_count then getsec_loop sections name else fault []
