-- ===== src/Apconf/Printed.antt =====
-- apconf.c: where the expressions find a printed section's name and values.
use exact.Base.{
  ℕ, ◌+◌, Bool, true, false, not, ◌||◌, none, some, List, [], ◌∷◌, ◌++◌, ◌≡◌, ◌≢◌, refl, ◌∙◌, Bytes,
  codes, arith, ◌==◌, length, All,
}
use exact.Apconf.Regex.{Atom, one, star, group_start, group_end, match_at, search_from}
use exact.Apconf.Greedy.{star-stop, group-run, search-here}
use exact.Apconf.Scan.{server_regex, order_regex, match_regex}

-- A byte of a server's name; one of a value.
abbrev pub IsNameByte : ℕ → Type 0
IsNameByte c = (c ≢ b'>') × (c ≢ b'\n')

abbrev pub IsValueByte : ℕ → Type 0
IsValueByte c = c ≢ b'\n'

abbrev pub blank : ℕ → Bool
blank c = c == b' ' || c == b'\t'

abbrev in_name : ℕ → Bool
in_name c = not (c == b'>' || c == b'\n')

abbrev in_value : ℕ → Bool
in_value c = not (c == b'\n')

abbrev line_end : List Atom
line_end = star blank ∷ one (λ c. c == b'\n') ∷ []

abbrev name_end : List Atom
name_end = one (λ c. c == b'>') ∷ one (λ c. c == b'\n') ∷ []

in_name-true : (s : Bytes) → All IsNameByte s → All (λ c. in_name c ≡ true) s
in_name-true [] h = tt
in_name-true (c ∷ s) h = (ground (arith, h.0), in_name-true s h.1)

in_value-true : (s : Bytes) → All IsValueByte s → All (λ c. in_value c ≡ true) s
in_value-true [] h = tt
in_value-true (c ∷ s) h = (ground (arith, h.0), in_value-true s h.1)

module _ (c : ℕ) (cs : Bytes) (black : blank c ≡ false) where
  pub server-found :
      All IsNameByte (c ∷ cs)
      → search_from server_regex 0 (codes "<server " ++ (c ∷ (cs ++ codes ">\n")))
        ≡ some (some (record { so = 8; eo = 8 + length (c ∷ cs) }))
  unfolding match_at
  server-found plain =
      let group = group_start ∷ one in_name ∷ star in_name ∷ group_end ∷ name_end in
      search-here server_regex 0 b'<' (codes "server " ++ (c ∷ (cs ++ codes ">\n")))
        (some (record { so = 8; eo = 8 + length (c ∷ cs) }))
        (star-stop blank group 8 c (cs ++ codes ">\n") 0 none black
          ∙ group-run in_name name_end c cs 8 b'>' (codes "\n") 0 none
              (some (record { so = 8; eo = 8 + length (c ∷ cs) })) (in_name-true (c ∷ cs) plain)
              refl refl)

  pub order-found :
      All IsValueByte (c ∷ cs)
      → search_from order_regex 0 (codes "order " ++ (c ∷ (cs ++ codes "\n")))
        ≡ some (some (record { so = 6; eo = 6 + length (c ∷ cs) }))
  unfolding match_at
  order-found plain =
      let group = group_start ∷ one in_value ∷ star in_value ∷ group_end ∷ line_end in
      search-here order_regex 0 b'o' (codes "rder " ++ (c ∷ (cs ++ codes "\n")))
        (some (record { so = 6; eo = 6 + length (c ∷ cs) }))
        (star-stop blank group 6 c (cs ++ codes "\n") 0 none black
          ∙ group-run in_value line_end c cs 6 b'\n' [] 0 none
              (some (record { so = 6; eo = 6 + length (c ∷ cs) })) (in_value-true (c ∷ cs) plain)
              refl refl)

  pub match-found :
      All IsValueByte (c ∷ cs)
      → search_from match_regex 0 (codes "match " ++ (c ∷ (cs ++ codes "\n")))
        ≡ some (some (record { so = 6; eo = 6 + length (c ∷ cs) }))
  unfolding match_at
  match-found plain =
      let group = group_start ∷ one in_value ∷ star in_value ∷ group_end ∷ line_end in
      search-here match_regex 0 b'm' (codes "atch " ++ (c ∷ (cs ++ codes "\n")))
        (some (record { so = 6; eo = 6 + length (c ∷ cs) }))
        (star-stop blank group 6 c (cs ++ codes "\n") 0 none black
          ∙ group-run in_value line_end c cs 6 b'\n' [] 0 none
              (some (record { so = 6; eo = 6 + length (c ∷ cs) })) (in_value-true (c ∷ cs) plain)
              refl refl)
