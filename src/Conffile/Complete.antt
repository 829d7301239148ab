-- ===== src/Conffile/Complete.antt =====
-- conffile.c: the steps of the check on a complete configuration.
use Prim.Native.String.{String}
use exact.Base.{
  ℕ, ◌+◌, ◌≤◌, ◌<◌, true, false, Option, none, some, List, [], ◌∷◌, ◌++◌, ◌≡◌, refl, ap, ◌⊎◌, inl,
  inr, Bytes, codes, lt→ltb, if◌then◌else◌, length, length-append, All, arith, Bool-cases,
}
use exact.Libc.{str_eq, atoi}
use exact.Libc.Order.{str_eq_iff}
use exact.Outcome.{Outcome, Ends, after, ◌>>◌, pure, deref}
use exact.Outcome.Laws.{Ends-bind, Ends-after}
use exact.Apconf.Parse.{Section}
use exact.Apconf.Read.{getsec_loop, apconf_getsec}
use exact.Apconf.Written.{Def, section, sections}
use exact.Conffile.Param.{Param, Conf, lookup, conffile_param, conffile_param_int-some}
use exact.Conffile.File.{add_param, param_size}
use exact.Conffile.Check.{
  add_literal, check_choice, use_section, required_s, required_i, is_zero, check_present,
  check_ints,
}

-- The parameter is set.
abbrev pub HasValue : Conf → Bytes → Type 0
HasValue conf name = (v : Bytes) × (conffile_param conf name ≡ some v)

-- The parameter is a number but zero.
abbrev pub IsNumber : Conf → Bytes → Type 0
IsNumber conf name = (v : Bytes) × (conffile_param conf name ≡ some v) × (is_zero (atoi v) ≡ false)

-- The parameter is one of two words.
abbrev pub IsChoice : Conf → Bytes → Bytes → Bytes → Type 0
IsChoice conf name this that =
    (v : Bytes) × (conffile_param conf name ≡ some v) × ((v ≡ this) ⊎ (v ≡ that))

abbrev pub No : ℕ → Type 0
No n = ⊥

pub check_present-Ends :
    (conf : Conf) (names : List Bytes)
    → All (HasValue conf) names
    → Ends No (λ _. Unit) (check_present names conf)
unfolding check_present
check_present-Ends conf [] h = tt
check_present-Ends conf (n ∷ names) h =
    rw (h.0.1, check_present) (check_present-Ends conf names h.1)

pub check_ints-Ends :
    (conf : Conf) (names : List Bytes)
    → All (IsNumber conf) names
    → Ends No (λ _. Unit) (check_ints names conf)
unfolding check_ints
check_ints-Ends conf [] h = tt
check_ints-Ends conf (n ∷ names) ((v, is, number), h) =
    rw (is, check_ints, conffile_param_int-some conf n v is, number)
      (Ends-after No (λ _. Unit) [] (check_ints names conf) (check_ints-Ends conf names h))

check_choice-Ends :
    (message : String) (name this that : Bytes) (conf : Conf)
    → IsChoice conf name this that
    → Ends No (λ _. Unit) (check_choice message name this that conf)
unfolding check_choice
check_choice-Ends message name this that conf (v, is, inl same) =
    rw (is, (str_eq_iff v this).1 same) tt
check_choice-Ends message name this that conf (v, is, inr same) =
    elim (Bool-cases (str_eq v this)) [
      | inl first ↦ rw (is, first) tt
      | inr other ↦ rw (is, other, (str_eq_iff v that).1 same) tt
    ]

-- The first definition of that name.
abbrev pub def_of : Bytes → List Def → Option Def
def_of server [] = none
def_of server (d ∷ ds) = if str_eq server d.name then some d else def_of server ds

some_inj : (e d : Def) → some e ≡ some d → e ≡ d
some_inj e d is = cc

getsec_loop-Ends :
    (server : Bytes) (ds : List Def) (d : Def)
    → def_of server ds ≡ some d
    → Ends No (λ f. f ≡ some (section d)) (getsec_loop (sections ds) server)
unfolding getsec_loop
getsec_loop-Ends server [] d is = absurd (cc)
getsec_loop-Ends server (e ∷ ds) d is = elim (Bool-cases (str_eq server e.name)) [
  | inl here ↦ rw here (ap (λ x. some (section x)) (some_inj e d (rw here at is)))
  | inr there ↦ rw there (
      Ends-after No (λ f. f ≡ some (section d)) [] (getsec_loop (sections ds) server)
        (getsec_loop-Ends server ds d (rw there at is)))
]

pub apconf_getsec-Ends :
    (server : Bytes) (ds : List Def) (d : Def)
    → def_of server ds ≡ some d
    → Ends No (λ f. f ≡ some (section d)) (apconf_getsec true (sections ds) server)
unfolding apconf_getsec
apconf_getsec-Ends server ds d is = getsec_loop-Ends server ds d is

-- A parameter in front of an added one is found first.
lookup-append :
    (name : Bytes) (ps : List Param) (p : Param) (v : Bytes)
    → lookup name ps ≡ some v
    → lookup name (ps ++ p ∷ []) ≡ some v
unfolding lookup
lookup-append name [] p v is = absurd (cc)
lookup-append name (q ∷ ps) p v is = ground (arith, lookup-append name ps p v)

lookup-new :
    (name : Bytes) (ps : List Param) (p : Param)
    → lookup name ps ≡ none
    → str_eq name p.name ≡ true
    → lookup name (ps ++ p ∷ []) ≡ some p.value
unfolding lookup
lookup-new name [] p is same = rw (same, lookup) refl
lookup-new name (q ∷ ps) p is same = ground (arith, lookup-new name ps p)

abbrev pub literal : Bytes → Bytes → Param
literal name value = record { name = name; value = value; allocated = false }

-- The configuration with the section's two parameters.
abbrev pub completed : Conf → Def → Conf
completed conf d = record conf {
  param =
      (conf.param ++ literal (codes "order") d.order ∷ []) ++ literal (codes "match") d.match_ ∷ [];
}

add_literal-room :
    (name value : Bytes) (conf : Conf)
    → length conf.param < param_size
    → add_literal name value conf
      ≡ pure (record conf { param = conf.param ++ literal name value ∷ [] })
unfolding add_literal add_param
add_literal-room name value conf room = rw (lt→ltb (length conf.param) param_size room) refl

-- What the check needs of the configuration and of the server's definition.
pub record IsComplete (conf : Conf) (d : Def) : Type 0 where
  pub required : All (HasValue conf) required_s
  pub numbers : All (IsNumber conf) required_i
  pub authtype : IsChoice conf (codes "authtype") (codes "db") (codes "text")
  pub no_order : conffile_param conf (codes "order") ≡ none
  pub order : (d.order ≡ codes "username,address") ⊎ (d.order ≡ codes "address,username")
  pub room : length conf.param + 2 ≤ param_size

module _ (conf : Conf) (d : Def) (c : IsComplete conf d) where
  completed-kept :
      (name v : Bytes)
      → conffile_param conf name ≡ some v
      → conffile_param (completed conf d) name ≡ some v
  unfolding conffile_param
  completed-kept name v is =
      lookup-append name _ (literal (codes "match") d.match_) v
        (lookup-append name conf.param (literal (codes "order") d.order) v is)

  completed-order : conffile_param (completed conf d) (codes "order") ≡ some d.order
  unfolding conffile_param
  completed-order = lookup-append (codes "order") _ (literal (codes "match") d.match_) d.order (
      lookup-new (codes "order") conf.param (literal (codes "order") d.order) c.no_order
        ((str_eq_iff (codes "order") (codes "order")).1 refl))

  abbrev pub Q : Conf → Type 0
  Q x = x ≡ completed conf d

  abbrev order_choice : Outcome Unit
  order_choice =
      check_choice "Fatal Error: order %s incorrect\n" (codes "order") (codes "username,address")
        (codes "address,username") (completed conf d)

  abbrev authtype_choice : Outcome Unit
  authtype_choice =
      check_choice "Fatal Error: authtype %s incorrect\n" (codes "authtype") (codes "db")
        (codes "text") (completed conf d)

  abbrev choices : Outcome Conf
  choices = order_choice >> (authtype_choice >> pure (completed conf d))

  choices-Ends : Ends No Q choices
  choices-Ends =
      let (v, is, one_of) = c.authtype in
      Ends-bind No (λ _. Unit) Q order_choice _
        (check_choice-Ends "Fatal Error: order %s incorrect\n" (codes "order")
          (codes "username,address") (codes "address,username") (completed conf d)
          (d.order, completed-order, c.order))
        (λ _ _.
          Ends-bind No (λ _. Unit) Q authtype_choice _
            (check_choice-Ends "Fatal Error: authtype %s incorrect\n" (codes "authtype")
              (codes "db") (codes "text") (completed conf d)
              (v, completed-kept (codes "authtype") v is, one_of))
            (λ _ _. refl))

  pub use_section-Ends : Ends No (λ x. x ≡ completed conf d) (use_section (section d) conf)
  unfolding use_section
  use_section-Ends =
      let with_order : Conf = record conf {
        param = conf.param ++ literal (codes "order") d.order ∷ [];
      } in
      rw
        (
          add_literal-room (codes "order") d.order conf (omega (arith, c.room)),
          add_literal-room (codes "match") d.match_ with_order (
              omega
                (arith, c.room, length-append conf.param (literal (codes "order") d.order ∷ []))),
        )
        (Ends-after No Q [] (after [] (after [] (after [] choices))) (
          Ends-after No Q [] (after [] (after [] choices))
            (Ends-after No Q [] (after [] choices) (Ends-after No Q [] choices choices-Ends))))

pub deref-some : {A : Type 0} (o : Option A) (a : A) → o ≡ some a → Ends No (λ x. x ≡ a) (deref o)
deref-some o a is = rw is refl

-- A section that the reading left behind does not matter.
pub IsComplete-section :
    (conf : Conf) (d : Def) (s : Section)
    → IsComplete conf d
    → IsComplete (record conf { section = s }) d
unfolding conffile_param
IsComplete-section conf d s c = record {
  required = c.required;
  numbers = c.numbers;
  authtype = c.authtype;
  no_order = c.no_order;
  order = c.order;
  room = c.room;
}
