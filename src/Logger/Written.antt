-- ===== src/Logger/Written.antt =====
-- logger.c: which messages of a trace are written, and where to.
use Prim.Native.String.{String}
use exact.Base.{
  Bool, ◌&&◌, not, none, some, List, [], ◌∷◌, ◌≡◌, refl, if◌then◌else◌, Bool-cases, Option-cases,
  inl, inr,
}
use exact.Outcome.{Level, Arg, Trace, log}
use exact.Logger.{
  Logger, standard_error, Destination, syslog, printed, Message, is_debug, print_message, logger,
  written,
}

-- The destination that the globals name.
abbrev pub destination_of : Logger → Destination
destination_of l =
    if l.use_syslog
    then syslog
    else elim l.lf [ none ↦ printed standard_error | some stream ↦ printed stream ]

-- The calls of a trace with a level that is let through, each with the same destination.
abbrev pub selected : Bool → Destination → Trace → List Message
selected debug d [] = []
selected debug d (log level fmt args ∷ t) =
    let rest = selected debug d t in
    let message : Message = record { destination = d; level = level; format = fmt; args = args } in
    if is_debug level && not debug then rest else message ∷ rest
selected debug d (_ ∷ t) = selected debug d t

-- What one call leaves: the message, if its level is let through, and globals that name the same
-- destination.
logger-step :
    (l : Logger) (level : Level) (fmt : String) (args : List Arg)
    → ((logger l level fmt args).1 ≡ (
        if is_debug level && not l.debug
        then none
        else some
            (record { destination = destination_of l; level = level; format = fmt; args = args })))
      × (((logger l level fmt args).0.debug ≡ l.debug)
          × (destination_of (logger l level fmt args).0 ≡ destination_of l))
unfolding logger print_message
logger-step l level fmt args = elim (Bool-cases (is_debug level)) [
  | inl hidden ↦ elim (Bool-cases l.debug) [
    | inl on ↦ elim (Bool-cases l.use_syslog) [
      | inl sys ↦ rw (hidden, on, sys) (refl, (refl, refl))
      | inr own ↦ elim (Option-cases l.lf) [
        | inl null ↦ rw (hidden, on, own, null) (refl, (on, rw own refl))
        | inr (stream, set) ↦ rw (hidden, on, own, set) (refl, (on, rw (own, set) refl))
      ]
    ]
    | inr off ↦ rw (hidden, off) (refl, (refl, refl))
  ]
  | inr shown ↦ elim (Bool-cases l.use_syslog) [
    | inl sys ↦ rw (shown, sys) (refl, (refl, refl))
    | inr own ↦ elim (Option-cases l.lf) [
      | inl null ↦ rw (shown, own, null) (refl, (refl, rw own refl))
      | inr (stream, set) ↦ rw (shown, own, set) (refl, (refl, rw (own, set) refl))
    ]
  ]
]

-- Of the messages of a trace, exactly those are written whose level is not debug or, with the debug
-- flag, all of them: in the order of the calls, and all to the one destination that the globals name
-- before the first.
pub written-selected :
    (l : Logger) (t : Trace) → written l t ≡ selected l.debug (destination_of l) t
unfolding written
written-selected l [] = refl
written-selected l (log level fmt args ∷ t) =
    let step = logger-step l level fmt args in
    let l' = (logger l level fmt args).0 in
    let rest = written-selected l' t in
    elim (Bool-cases (is_debug level && not l.debug)) [
      | inl dropped ↦ simp (step.0, step.1.0, step.1.1, rest, dropped)
      | inr kept ↦ simp (step.0, step.1.0, step.1.1, rest, kept)
    ]
written-selected l (e ∷ t) = written-selected l t
