-- ===== src/Match/Reads.antt =====
-- What can be read of a match: the two groups, if they fit their arrays; and what happens if not.
use exact.Base.{
  ℕ, zero, suc, ◌+◌, ◌-◌, ◌≤◌, ◌<◌, List, [], ◌∷◌, ◌++◌, ◌≡◌, ◌≢◌, refl, ap, ◌∙◌, Bytes, arith,
  length, take, drop, All, append_assoc, length-append, length-take, length-drop, drop_append,
  take_append_long, take_append,
}
use exact.Libc.{c_string}
use exact.Match.Login.{username_max, hostname_max, login_size}

abbrev pub NonZero : Bytes → Type 0
NonZero = All (λ c. c ≢ 0)

pub c_string_end : (s rest : Bytes) → NonZero s → c_string (s ++ 0 ∷ rest) ≡ s
unfolding c_string
c_string_end [] rest n = refl
c_string_end (c ∷ s) rest n = ground (arith, n.0, c_string_end s rest n.1)

c_string_over : (s t : Bytes) → NonZero s → c_string (s ++ t) ≡ s ++ c_string t
unfolding c_string
c_string_over [] t n = refl
c_string_over (c ∷ s) t n = ground (arith, n.0, c_string_over s t n.1)

pub All-take {ℓ} : {A : Type ℓ} (P : A → Type 0) (n : ℕ) (s : List A) → All P s → All P (take n s)
All-take P zero s h = tt
All-take P (suc n) [] h = tt
All-take P (suc n) (c ∷ s) h = (h.0, All-take P n s h.1)

pub All-drop {ℓ} : {A : Type ℓ} (P : A → Type 0) (n : ℕ) (s : List A) → All P s → All P (drop n s)
All-drop P zero s h = h
All-drop P (suc n) [] h = tt
All-drop P (suc n) (c ∷ s) h = All-drop P n s h.1

-- The text of a group.
abbrev pub group_text : Bytes → ℕ → ℕ → Bytes
group_text buff so eo = take (eo - so) (drop so buff)

-- The memory behind the copy of the user, and behind the copy of the host.
unfoldable pub with_user : Bytes → Bytes → Bytes
with_user mem user = user ++ 0 ∷ drop (0 + length user + 1) mem

unfoldable pub with_both : Bytes → Bytes → Bytes → Bytes
unfolding with_user
with_both mem user host =
    take 255 (with_user mem user) ++ (host ++ 0 ∷ drop (255 + length host + 1) (with_user mem user))

module _ (mem user host : Bytes) (size : length mem ≡ login_size)
    (host_fits : length host < hostname_max) where
  module _ (user_fits : length user ≤ username_max) where
    pub length-with_user : length (with_user mem user) ≡ login_size
    unfolding with_user
    length-with_user = omega (
      arith,
      length-append user (0 ∷ drop (0 + length user + 1) mem),
      length-drop (0 + length user + 1) mem,
      size,
    )

    pub length-with_both : length (with_both mem user host) ≡ login_size
    unfolding with_both
    length-with_both = omega (
      arith,
      length-append (take 255 (with_user mem user))
          (host ++ 0 ∷ drop (255 + length host + 1) (with_user mem user)),
      length-append host (0 ∷ drop (255 + length host + 1) (with_user mem user)),
      length-take 255 (with_user mem user),
      length-drop (255 + length host + 1) (with_user mem user),
      length-with_user,
    )

    pub read_host : NonZero host → c_string (drop 255 (with_both mem user host)) ≡ host
    unfolding with_both
    read_host n =
        ap c_string (
          drop_append (take 255 (with_user mem user)) _ 255
            (omega (arith, length-take 255 (with_user mem user), length-with_user)))
        ∙ c_string_end host _ n

  pub read_user :
      length user < username_max → NonZero user → c_string (with_both mem user host) ≡ user
  unfolding with_both
  read_user fits n =
      let tail = drop (0 + length user + 1) mem in
      rw (take_append_long user (0 ∷ tail) 255 (suc (254 - length user)) (omega arith))
        (rw (append_assoc user (0 ∷ take (254 - length user) tail)) (c_string_end user _ n))

  -- A user of 255 bytes or more leaves no terminator, and the host is read behind it.
  pub read_user_over :
      length user ≡ username_max
      → NonZero user
      → NonZero host
      → c_string (with_both mem user host) ≡ user ++ host
  unfolding with_both
  read_user_over full n m =
      rw (take_append user (0 ∷ drop (0 + length user + 1) mem) 255 full)
        (c_string_over user _ n ∙ ap (λ r. user ++ r) (c_string_end host _ m))
