-- ===== src/Conffile/Param.antt =====
-- conffile.c: the parameter table and `conffile_param`, `conffile_param_int`.
use exact.Base.{◌≡◌, Bool, Option, none, some, List, [], ◌∷◌, Bytes, if◌then◌else◌}
use exact.Base.Int.{ℤ}
use exact.Libc.{str_eq, atoi}
use exact.Apconf.Parse.{Section}
use exact.Outcome.{Outcome, exit, pure, stderr, Arg}
use exact.Outcome.Quiet.{IsQuiet, IsQuiet-option, quiet}

-- `param_t`. `allocated` says that both strings came from the heap; a name may also be a literal.
pub record Param : Type 0 where
  pub name : Bytes
  pub value : Bytes
  pub allocated : Bool

-- The globals of conffile.c; `param_max` is the length of `param`. `section` is the static section
-- of apconf.c, which only the reading of the server definitions looks at.
pub record Conf : Type 0 where
  pub param : List Param
  pub filename : Bytes
  pub filename_set : Bool
  pub section : Section

unfoldable pub lookup : Bytes → List Param → Option Bytes
lookup name [] = none
lookup name (p ∷ ps) = if str_eq name p.name then some p.value else lookup name ps

-- The first parameter of that name.
unfoldable pub conffile_param : Conf → Bytes → Option Bytes
unfolding lookup
conffile_param conf name = lookup name conf.param

unfoldable pub conffile_param_int : Conf → Bytes → Outcome ℤ
conffile_param_int conf name = elim (conffile_param conf name) [
  | none ↦ exit (stderr "ERROR: parameter %s does not exist\n" (Arg.str name ∷ []) ∷ []) 52
  | some s ↦ pure (atoi s)
]

pub conffile_param_int-some :
    (conf : Conf) (name s : Bytes)
    → conffile_param conf name ≡ some s
    → conffile_param_int conf name ≡ pure (atoi s)
unfolding conffile_param_int
conffile_param_int-some conf name s h = rw (h, conffile_param_int)

pub conffile_param_int-IsQuiet :
    (conf : Conf) (name : Bytes) → IsQuiet (conffile_param_int conf name)
unfolding conffile_param_int
conffile_param_int-IsQuiet conf name =
    IsQuiet-option (conffile_param conf name) _ _ (search quiet) (λ s. search quiet)
