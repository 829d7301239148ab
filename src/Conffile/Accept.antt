-- ===== src/Conffile/Accept.antt =====
-- conffile.c: a complete configuration with a server's definition passes the check.
use mathlib.Core.Path.{subst}
use exact.Base.{◌≤◌, true, some, List, [], ◌∷◌, ◌≡◌, sym, ap, Bytes, codes, length, All}
use exact.Os.{Os}
use exact.Outcome.{Ends, ◌>>=◌, ◌>>◌, pure, log, log_debug, Arg, logger, deref}
use exact.Outcome.Laws.{Ends-bind, Ends-map, Ends-after}
use exact.Apconf.Parse.{Section, section_max}
use exact.Apconf.Read.{owned, apconf_getsec, apconf_read}
use exact.Apconf.Written.{Def, IsWritable, print, section, sections}
use exact.Apconf.RoundTrip.{apconf_read-sections}
use exact.Conffile.Param.{Conf, conffile_param}
use exact.Conffile.Check.{
  use_section, use_found, use_sections, server_check, required_s, required_i, check_present,
  check_ints, conffile_check,
}
use exact.Conffile.Complete.{
  No, check_present-Ends, check_ints-Ends, def_of, apconf_getsec-Ends, completed, IsComplete, Q,
  use_section-Ends, deref-some, IsComplete-section,
}

-- The system reads these definitions from the file, compiles the expressions and has memory, with a
-- block for the sections that is large enough and has a zero at the count.
pub record Defines (os : Os) (serverdefs : Bytes) (ds : List Def) : Type 0 where
  pub writable : All IsWritable ds
  pub few : length ds ≤ section_max
  pub readable : os.readable serverdefs ≡ some (print ds)
  pub compiles : (e : Bytes) → os.regcomp e ≡ true
  pub memory : os.realloc 8 ≡ true
  pub owns : owned os ≡ true

module _ (os : Os) (conf : Conf) (serverdefs server : Bytes) (ds : List Def) (d : Def)
    (has_serverdefs : conffile_param conf (codes "serverdefs") ≡ some serverdefs)
    (has_server : conffile_param conf (codes "server") ≡ some server)
    (defines : Defines os serverdefs ds) (found : def_of server ds ≡ some d)
    (c : IsComplete conf d) where
  abbrev pub Accepted : Conf → Type 0
  Accepted x = x.param ≡ (completed conf d).param

  use_sections-Ends :
      (s : Section)
      → Ends No Accepted
          (use_sections true serverdefs (record conf { section = s }) (some (sections ds)))
  unfolding use_sections use_found conffile_param
  use_sections-Ends s =
      let conf' : Conf = record conf { section = s } in
      Ends-bind No (λ x. x ≡ server) Accepted (deref (conffile_param conf (codes "server"))) _
        (deref-some (conffile_param conf (codes "server")) server has_server)
        (λ x e.
          Ends-bind No (λ f. f ≡ some (section d)) Accepted (apconf_getsec true (sections ds) x) _
            (rw e (apconf_getsec-Ends server ds d found))
            (λ f fe. rw fe (
              Ends-map No No (Q conf' d (IsComplete-section conf d s c)) Accepted
                (use_section (section d) conf')
                (use_section-Ends conf' d (IsComplete-section conf d s c)) (λ _ n. n)
                (λ y h. ap (λ (z : Conf). z.param) h))))

  server_check-Ends : Ends No Accepted (server_check os conf)
  unfolding server_check
  server_check-Ends =
      let read = λ (x : Bytes). apconf_read os x conf.section >>= λ r.
      use_sections (owned os) x (record conf { section = r.1 }) r.0 in
      Ends-bind No (λ x. x ≡ serverdefs) Accepted (deref (conffile_param conf (codes "serverdefs")))
        _ (deref-some (conffile_param conf (codes "serverdefs")) serverdefs has_serverdefs)
        (λ x e. rw e (
          Ends-after No Accepted
            (log log_debug "Reading serverdefs from '%s'\n" (Arg.str serverdefs ∷ []) ∷ [])
            (read serverdefs)
            (Ends-bind No (λ r. r.0 ≡ some (sections ds)) Accepted
              (apconf_read os serverdefs conf.section) _
              (apconf_read-sections os serverdefs conf.section ds defines.writable defines.few
                defines.readable defines.compiles defines.memory defines.owns)
              (λ r h.
                subst
                  (λ o.
                    Ends No Accepted
                      (use_sections (owned os) serverdefs (record conf { section = r.1 }) o))
                  (sym h) (rw defines.owns (use_sections-Ends r.1))))))

  -- For a configuration whose required parameters are set, the numbers among them not zero, with an
  -- authtype of the two, no order of its own and room for two more parameters; and with definitions
  -- that can be written, sixteen at most, and a system that reads them from the configured file,
  -- compiles the expressions and has memory, with a block for the sections that is large enough and
  -- has a zero at the count, the first of the configured name having one of the two orders: the check
  -- neither exits nor faults, and leaves the parameters that there were, with that definition's order
  -- and match behind them.
  pub conffile_check-Ends : Ends No Accepted (conffile_check os conf)
  unfolding conffile_check
  conffile_check-Ends =
      let checks =
        check_present required_s conf
        >> (check_ints required_i conf
            >> (server_check os conf >>= λ x.
                logger log_debug "checking configuration file finished\n" [] >> pure x)) in
      Ends-after No Accepted (log log_debug "checking configuration file\n" [] ∷ []) checks (
        Ends-bind No (λ _. Unit) Accepted (check_present required_s conf) _
          (check_present-Ends conf required_s c.required)
          (λ _ _.
            Ends-bind No (λ _. Unit) Accepted (check_ints required_i conf) _
              (check_ints-Ends conf required_i c.numbers)
              (λ _ _.
                Ends-bind No Accepted Accepted (server_check os conf) _ server_check-Ends
                  (λ x h. h))))
