-- ===== src/Auth/Relay/Clean.antt =====
-- auth.c: a cleaning cycle and a dump of a text database, and the relay file.
use exact.Base.{ℕ, none, some, List, [], ◌∷◌, ◌++◌, ◌≡◌, refl, Bytes, codes}
use exact.Libc.{strncpy}
use exact.Os.{Os}
use exact.Outcome.Files.{Printing, Apart}
use exact.Outcome.{Outcome, ◌>>=◌, logger, emit, signal, alarm, log_notice, log_debug}
use exact.Outcome.Quiet.{IsQuiet, IsQuiet-emit, quiet}
use exact.Outcome.Triple.{Triple-bind, Triple-pure, IsQuiet-Triple}
use exact.Conffile.Param.{Conf, conffile_param, conffile_param_int, conffile_param_int-IsQuiet}
use exact.Auth.Handlers.{auth_clean}
use exact.Base.Int.{ℤ}
use exact.Auth.Table.{Entry, Auth, hostname_max}
use exact.Auth.Text.{auth_text_clean, clean_with, clean_loop, swap_tables, auth_write_text}
use exact.Auth.Relay.{Shown, Whole, Relays, write-Relays, fclose-Fits}

clean_loop-IsQuiet :
    (t : ℕ) (max : ℤ) (capacity : ℕ) (es shadow : List Entry)
    → IsQuiet (clean_loop t max capacity es shadow)
unfolding clean_loop
clean_loop-IsQuiet t max capacity [] shadow = search quiet depth 4
clean_loop-IsQuiet t max capacity (e ∷ es) shadow =
    let keep =
      clean_loop-IsQuiet t max capacity es
        (shadow ++ record { hostname = strncpy e.hostname hostname_max; t = e.t } ∷ []) in
    let flush = clean_loop-IsQuiet t max capacity es shadow in search (keep, flush, quiet) depth 8

module _ (printing : Printing) (conf : Conf) (temp file : Bytes) (apart : Apart printing temp file)
    (has_temp : conffile_param conf (codes "authtemp") ≡ some temp)
    (has_file : conffile_param conf (codes "authfile") ≡ some file) (T : List Entry → Type 0)
    (any : (es : List Entry) → T es) (os : Os) (room : os.fclose temp ≡ none) where
  abbrev Publishes : List Entry → Outcome Auth → Type 0
  Publishes es m =
      Relays printing conf temp file apart has_temp has_file T es (λ (b : Auth). b.auth) m

  -- A first call that leaves the files alone.
  first :
      {A : Type 0} (es : List Entry) (m : Outcome A) (f : A → Outcome Auth)
      → IsQuiet m
      → ((a : A) → Publishes es (f a))
      → Publishes es (m >>= f)
  first es m f q k =
      Triple-bind printing file (Whole T) (Shown T es) (λ _. Shown T es) (λ b. Shown T b.auth) m f
        (IsQuiet-Triple printing file apart.1 (Whole T) (Shown T es) m q (λ c s. (es, s))) k

  swap_tables-Publishes :
      (a : Auth) (kept : List Entry) → Publishes a.auth (swap_tables os conf a kept)
  unfolding swap_tables
  swap_tables-Publishes a kept =
      Triple-bind printing file (Whole T) (Shown T a.auth) (λ _. Shown T kept) (λ b. Shown T b.auth)
        (auth_write_text os conf kept) _
        (write-Relays printing conf temp file apart has_temp has_file T os a.auth kept
          (fclose-Fits printing conf temp file apart has_temp has_file T os kept room)
          (λ _. any kept))
        (λ _.
          first kept (logger log_debug "Finished cleaning cycle\n" []) _ (search quiet depth 4)
            (λ _.
              Triple-pure printing file (Whole T) (Shown T kept) (λ (b : Auth). Shown T b.auth)
                (record a { auth = kept; shadow_auth = a.auth }) (λ c s. ((kept, s), s))))

  auth_text_clean-Publishes : (a : Auth) → Publishes a.auth (auth_text_clean os conf a)
  unfolding auth_text_clean clean_with
  auth_text_clean-Publishes a =
      first a.auth (conffile_param_int conf (codes "timeout")) _
        (conffile_param_int-IsQuiet conf (codes "timeout"))
        (λ max.
          first a.auth (logger log_notice "cleaning state tables\n" []) _ (search quiet depth 4)
            (λ _.
              first a.auth (logger log_debug "Starting cleaning cycle\n" []) _
                (search quiet depth 4)
                (λ _.
                  first a.auth (clean_loop (os.time 0) max a.capacity a.auth []) _
                    (clean_loop-IsQuiet (os.time 0) max a.capacity a.auth [])
                    (swap_tables-Publishes a))))

  pub auth_clean-Publishes : (a : Auth) → Publishes a.auth (auth_clean os conf a)
  unfolding auth_clean
  auth_clean-Publishes a =
      Triple-bind printing file (Whole T) (Shown T a.auth) (λ b. Shown T b.auth)
        (λ b. Shown T b.auth) (auth_text_clean os conf a) _ (auth_text_clean-Publishes a)
        (λ b.
          first b.auth (emit (signal 14 "auth_clean")) _
            (IsQuiet-emit (signal 14 "auth_clean") refl)
            (λ _.
              first b.auth (emit (alarm b.auth_alarm)) _ (IsQuiet-emit (alarm b.auth_alarm) refl)
                (λ _.
                  Triple-pure printing file (Whole T) (Shown T b.auth)
                    (λ (d : Auth). Shown T d.auth) b (λ c s. ((b.auth, s), s)))))
