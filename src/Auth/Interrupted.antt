-- ===== src/Auth/Interrupted.antt =====
-- auth.c: the alarm's handler that runs in the middle of `auth_text_add`, behind the search.
use exact.Base.{
  ℕ, ◌<◌, [], ◌∷◌, Option, none, some, ◌≡◌, ◌≢◌, ap, ◌∙◌, Bytes, codes, ◌⊎◌, inl, inr, arith,
  if◌then◌else◌, length,
}
use exact.Base.Int.{ℤ}
use exact.Libc.{str_eq, atoi}
use exact.Os.{Os}
use exact.Outcome.{Outcome, log_notice, Arg, Ends, ◌>>=◌, ◌>>◌, pure, logger}
use exact.Outcome.Laws.{Ends-bind, Ends-map}
use exact.Conffile.Param.{Conf, conffile_param}
use exact.Auth.Table.{Auth, auth_present, hostname_max}
use exact.Auth.Table.Sorted.{times}
use exact.Auth.Table.Search.{Answers, auth_present-Answers}
use exact.Auth.Text.{touch, authorise}
use exact.Auth.Handlers.{auth_clean}
use exact.Auth.Invariant.{IsValid, times_of_get}
use exact.Auth.Add.{Refused, Added, authorise-Ends}
use exact.Auth.Clean.{expire, Cleaned, auth_clean-Ends}

-- The branch for a host that was found at index `i`, with the alarm in front of it. The handler
-- swaps the arrays, so that the pointer of the search points into the shadow array behind it.
unfoldable pub refresh_interrupted : Os → Os → Conf → Bytes → Bytes → ℕ → Auth → Outcome Auth
unfolding auth_clean touch
refresh_interrupted alarm_os os conf username hostname i a = do
  b ← auth_clean alarm_os conf a
  logger log_notice "updating timeout for %s at %s\n" (Arg.str username ∷ Arg.str hostname ∷ [])
  pure (record b { shadow_auth = touch i (os.time 0) b.shadow_auth })

-- `auth_text_add` with the alarm between the search and the test of its answer.
unfoldable pub add_interrupted : Os → Os → Conf → Bytes → Bytes → Auth → Outcome Auth
unfolding refresh_interrupted authorise
add_interrupted alarm_os os conf username hostname a = elim (auth_present a hostname) [
  | some i ↦ refresh_interrupted alarm_os os conf username hostname i a
  | none ↦ auth_clean alarm_os conf a >>= authorise os conf username hostname
]

-- The handler or the addition gives up.
abbrev pub RefusedBoth : Os → Os → Bytes → Bytes → ℕ → Type 0
RefusedBoth alarm_os os temp file n = Refused alarm_os temp file n ⊎ Refused os temp file n

-- The table behind the interrupted addition of a host, where the handler has `t` and `max` for the
-- time and the timeout.
pub record Interrupted (t : ℕ) (max : ℤ) (now : ℕ) (h : Bytes) (a b : Auth) : Type 0 where
  pub valid : IsValid b
  pub known : times a.auth h ≢ none → (k : Bytes) → times b.auth k ≡ expire t max (times a.auth k)
  pub new :
      times a.auth h ≡ none
      → (k : Bytes)
      → times b.auth k ≡ (if str_eq h k then some now else expire t max (times a.auth k))

module _ (alarm_os os : Os) (conf : Conf) (temp file timeout : Bytes)
    (has_temp : conffile_param conf (codes "authtemp") ≡ some temp)
    (has_file : conffile_param conf (codes "authfile") ≡ some file)
    (has_timeout : conffile_param conf (codes "timeout") ≡ some timeout) where
  abbrev Gives : Bytes → Auth → Auth → Type 0
  Gives = Interrupted (alarm_os.time 0) (atoi timeout) (os.time 0)

  abbrev Gave : ℕ → Type 0
  Gave = RefusedBoth alarm_os os temp file

  swept-Ends :
      (a : Auth)
      → IsValid a
      → Ends Gave (Cleaned (alarm_os.time 0) (atoi timeout) a) (auth_clean alarm_os conf a)
  swept-Ends a v =
      let C = Cleaned (alarm_os.time 0) (atoi timeout) a in
      Ends-map (Refused alarm_os temp file) Gave C C (auth_clean alarm_os conf a)
        (auth_clean-Ends alarm_os conf temp file timeout has_temp has_file has_timeout a v)
        (λ n r. inl r) (λ b c. c)

  refresh_interrupted-Ends :
      (user h : Bytes) (a : Auth) (i : ℕ)
      → IsValid a
      → Answers a.auth h (some i)
      → Ends Gave (Gives h a) (refresh_interrupted alarm_os os conf user h i a)
  unfolding refresh_interrupted
  refresh_interrupted-Ends user h a i v (e, g, same) =
      Ends-bind Gave (Cleaned (alarm_os.time 0) (atoi timeout) a) (Gives h a)
        (auth_clean alarm_os conf a) _ (swept-Ends a v)
        λ b c. record {
          valid = record {
            sorted = c.0.sorted;
            short = c.0.short;
            allocated = c.0.allocated;
            fits = c.0.fits;
          };
          known = λ _. c.1;
          new = λ missing. absurd (times_of_get a.auth i e g (ap (times a.auth) same ∙ missing));
        }

  authorise_interrupted-Ends :
      (user h : Bytes) (a : Auth)
      → IsValid a
      → length h < hostname_max
      → times a.auth h ≡ none
      → Ends Gave (Gives h a) (auth_clean alarm_os conf a >>= authorise os conf user h)
  authorise_interrupted-Ends user h a v short missing =
      Ends-bind Gave (Cleaned (alarm_os.time 0) (atoi timeout) a) (Gives h a)
        (auth_clean alarm_os conf a) (authorise os conf user h) (swept-Ends a v)
        λ b c.
          Ends-map (Refused os temp file) Gave (Added (os.time 0) h b) (Gives h a)
            (authorise os conf user h b)
            (authorise-Ends os conf temp file has_temp has_file user h b c.0 short
              (c.1 h ∙ ap (expire (alarm_os.time 0) (atoi timeout)) missing))
            (λ n r. inr r)
            λ d added. record {
              valid = added.0;
              known = λ found. absurd (found missing);
              new = λ _ k. rw (← c.1 k) (added.1 k);
            }

  -- With the two file parameters and the timeout set, a valid table and a host shorter than its
  -- field: an addition with the alarm right behind its search never faults, and gives up only where
  -- the system refuses memory or a file. It leaves a valid table. If the host was known, the table is
  -- as the cleaning alone leaves it: the login is lost, and a host whose time was out is dropped. If
  -- it was not, the host has the present time and every other host is kept or dropped by the cleaning.
  pub add_interrupted-Ends :
      (user h : Bytes) (a : Auth)
      → IsValid a
      → length h < hostname_max
      → Ends
          (RefusedBoth alarm_os os temp file)
          (Interrupted (alarm_os.time 0) (atoi timeout) (os.time 0) h a)
          (add_interrupted alarm_os os conf user h a)
  unfolding add_interrupted
  add_interrupted-Ends user h a v short =
      go (auth_present a h) (auth_present-Answers a h v.sorted (omega arith))
    where
      go :
          (r : Option ℕ)
          → Answers a.auth h r
          → Ends Gave (Gives h a) (elim r [
            | some i ↦ refresh_interrupted alarm_os os conf user h i a
            | none ↦ auth_clean alarm_os conf a >>= authorise os conf user h
          ])
      go none missing = authorise_interrupted-Ends user h a v short missing
      go (some i) found = refresh_interrupted-Ends user h a i v found
