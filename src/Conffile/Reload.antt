-- ===== src/Conffile/Reload.antt =====
-- conffile.c: what the handler of signal 1 does to a checked configuration.
use exact.Base.{
  Bool, ◌+◌, ◌≤◌, false, Option, none, some, List, [], ◌∷◌, ◌++◌, ◌≡◌, refl, ◌⊎◌, inl, inr, Bytes,
  codes, ltb, le→ltb, length, length-append, arith, Bool-cases,
}
use exact.Os.{Os}
use exact.Outcome.{fault, log, log_debug, Arg, IsFault, deref}
use exact.Outcome.Returns.{
  Returns, Returns-after, Returns-bind, Returns-then, Returns-map, Returns-pure,
}
use exact.Apconf.Parse.{Section}
use exact.Apconf.Read.{owned, apconf_read, apconf_getsec}
use exact.Conffile.Param.{Param, Conf, conffile_param}
use exact.Conffile.File.{add_param, param_size}
use exact.Conffile.Check.{
  free_all, conffile_free, add_literal, check_choice, use_section, use_found, use_sections,
  server_check, required_s, required_i, check_present, check_ints, conffile_check, conffile_reload,
}

-- Some string of the table did not come from the heap.
abbrev pub HasLiteral : List Param → Type 0
HasLiteral [] = ⊥
HasLiteral (p ∷ ps) = (p.allocated ≡ false) ⊎ HasLiteral ps

literal-append : (ps : List Param) (p : Param) → p.allocated ≡ false → HasLiteral (ps ++ p ∷ [])
literal-append [] p h = inl h
literal-append (q ∷ ps) p h = inr (literal-append ps p h)

literal-append_left : (ps qs : List Param) → HasLiteral ps → HasLiteral (ps ++ qs)
literal-append_left [] qs h = absurd h
literal-append_left (p ∷ ps) qs (inl h) = inl h
literal-append_left (p ∷ ps) qs (inr h) = inr (literal-append_left ps qs h)

abbrev pub IsLiteral : Conf → Type 0
IsLiteral conf = HasLiteral conf.param

add_literal-IsLiteral :
    (name value : Bytes) (conf : Conf) → Returns IsLiteral (add_literal name value conf)
unfolding add_literal add_param Returns
add_literal-IsLiteral name value conf = elim (Bool-cases (ltb (length conf.param) param_size)) [
  | inl room ↦ rw room (literal-append conf.param _ refl)
  | inr full ↦ rw full tt
]

use_section-IsLiteral : (s : Section) (conf : Conf) → Returns IsLiteral (use_section s conf)
unfolding use_section
use_section-IsLiteral s conf = Returns-then IsLiteral (deref s.order) _ (λ order.
    Returns-then IsLiteral (add_literal (codes "order") order conf) _ (λ with_order.
      Returns-then IsLiteral (deref s.match_) _ (λ match_.
        Returns-bind IsLiteral IsLiteral (add_literal (codes "match") match_ with_order) _
          (add_literal-IsLiteral (codes "match") match_ with_order)
          (λ with_match h.
            Returns-then IsLiteral
              (check_choice "Fatal Error: order %s incorrect\n" (codes "order")
                (codes "username,address") (codes "address,username") with_match)
              _
              (λ _.
                Returns-then IsLiteral
                  (check_choice "Fatal Error: authtype %s incorrect\n" (codes "authtype")
                    (codes "db") (codes "text") with_match)
                  _ (λ _. Returns-pure IsLiteral with_match h))))))

use_found-IsLiteral :
    (server : Bytes) (conf : Conf) (found : Option Section)
    → Returns IsLiteral (use_found server conf found)
unfolding use_found Returns
use_found-IsLiteral server conf none = tt
use_found-IsLiteral server conf (some s) = use_section-IsLiteral s conf

use_sections-IsLiteral :
    (has_count : Bool) (serverdefs : Bytes) (conf : Conf) (a : Option (List Section))
    → Returns IsLiteral (use_sections has_count serverdefs conf a)
unfolding use_sections Returns
use_sections-IsLiteral has_count serverdefs conf none = tt
use_sections-IsLiteral has_count serverdefs conf (some a) =
    Returns-then IsLiteral (deref (conffile_param conf (codes "server"))) _ (λ server.
      Returns-then IsLiteral (apconf_getsec has_count a server) _ (use_found-IsLiteral server conf))

server_check-IsLiteral : (os : Os) (conf : Conf) → Returns IsLiteral (server_check os conf)
unfolding server_check
server_check-IsLiteral os conf =
    Returns-then IsLiteral (deref (conffile_param conf (codes "serverdefs"))) _ (λ serverdefs.
      Returns-after IsLiteral
        (log log_debug "Reading serverdefs from '%s'\n" (Arg.str serverdefs ∷ []) ∷ []) _
        (Returns-then IsLiteral (apconf_read os serverdefs conf.section) _
          (λ r. use_sections-IsLiteral (owned os) serverdefs (record conf { section = r.1 }) r.0)))

check-IsLiteral : (os : Os) (conf : Conf) → Returns IsLiteral (conffile_check os conf)
unfolding conffile_check
check-IsLiteral os conf =
    Returns-after IsLiteral (log log_debug "checking configuration file\n" [] ∷ []) _ (
      Returns-then IsLiteral (check_present required_s conf) _ (λ _.
        Returns-then IsLiteral (check_ints required_i conf) _ (λ _.
          Returns-bind IsLiteral IsLiteral (server_check os conf) _ (server_check-IsLiteral os conf)
            (λ c h.
              Returns-after IsLiteral
                (log log_debug "checking configuration file finished\n" [] ∷ []) _
                (Returns-pure IsLiteral c h)))))

free_all-fault : (ps : List Param) → HasLiteral ps → free_all ps ≡ fault []
unfolding free_all
free_all-fault [] h = absurd h
free_all-fault (p ∷ ps) (inl h) = rw h refl
free_all-fault (p ∷ ps) (inr h) = elim (Bool-cases p.allocated) [
  | inl heap ↦ rw heap (free_all-fault ps h)
  | inr literal ↦ rw literal refl
]

conffile_reload-IsFault :
    (os : Os) (conf : Conf) → IsLiteral conf → IsFault (conffile_reload os conf)
unfolding conffile_reload conffile_free
conffile_reload-IsFault os conf h = rw (free_all-fault conf.param h) tt

abbrev pub ReloadFails : Conf → Type 0
ReloadFails conf = (os : Os) → IsFault (conffile_reload os conf)

-- If the check of a configuration returns, then the handler of signal 1, called with what it
-- returned and any answers of the system, is a fault: it frees a string that never came from the
-- heap.
pub conffile_check-ReloadFails :
    (os : Os) (conf : Conf) → Returns ReloadFails (conffile_check os conf)
conffile_check-ReloadFails os conf =
    Returns-map IsLiteral ReloadFails (conffile_check os conf) (check-IsLiteral os conf)
      (λ checked h os'. conffile_reload-IsFault os' checked h)

add_literal-full :
    (name value : Bytes) (conf : Conf)
    → param_size ≤ length conf.param
    → add_literal name value conf ≡ fault []
unfolding add_literal add_param
add_literal-full name value conf h = rw (le→ltb (length conf.param) param_size h) refl

-- For a section with an order and a match, and 15 parameters or more in the table of 16: the use
-- of the section is a fault, since it writes past the table's end.
pub use_section-full :
    (s : Section) (conf : Conf) (order match_ : Bytes)
    → s.order ≡ some order
    → s.match_ ≡ some match_
    → 15 ≤ length conf.param
    → IsFault (use_section s conf)
unfolding use_section add_literal add_param
use_section-full s conf order match_ o m h =
    elim (Bool-cases (ltb (length conf.param) param_size)) [
      | inl room ↦
          let p : Param = record { name = codes "order"; value = order; allocated = false } in
          let grown : length (conf.param ++ p ∷ []) ≡ length conf.param + 1 =
            length-append conf.param (p ∷ []) in
          let full : ltb (length (conf.param ++ p ∷ [])) param_size ≡ false =
            le→ltb (length (conf.param ++ p ∷ [])) param_size (omega (arith, grown, h)) in
          rw (o, room, m, full) tt
      | inr none_left ↦ rw (o, none_left) tt
    ]
