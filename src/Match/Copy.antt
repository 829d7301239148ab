-- ===== src/Match/Copy.antt =====
-- match.c: the copy of one group of a line into the memory of `match_login`.
use exact.Base.{
  ℕ, ◌+◌, ◌-◌, ◌≤◌, some, [], ◌∷◌, ◌++◌, ◌≡◌, ap, ◌∙◌, Bytes, arith, length, take, drop,
  append_assoc, append-nil, length-append, length-take, length-drop,
}
use exact.Outcome.{fault, pure}
use exact.Match.Login.{MatchLogin, poke, padded, clip, copy_group}
use exact.Match.Reads.{group_text}

pub length-group_text :
    (buff : Bytes) (so eo : ℕ)
    → so ≤ eo
    → eo ≤ length buff
    → length (group_text buff so eo) ≡ eo - so
length-group_text buff so eo h k =
    omega (arith, length-take (eo - so) (drop so buff), length-drop so buff)

pub padded_full : (n : ℕ) (s : Bytes) → length (take n s) ≡ n → padded n s ≡ take n s
padded_full n s full =
    let none_left : n - length (take n s) ≡ 0 = omega arith in rw none_left (append-nil (take n s))

pub poke_string :
    (at : ℕ) (s : Bytes) (l : MatchLogin)
    → at + length s + 1 ≤ length l.memory
    → poke at (s ++ 0 ∷ []) l
      ≡ pure (record { memory = take at l.memory ++ (s ++ 0 ∷ drop (at + length s + 1) l.memory) })
unfolding poke
poke_string at s l fits =
    let grown : at + length (s ++ 0 ∷ []) ≡ at + length s + 1 =
      omega (arith, length-append s (0 ∷ [])) in
    rw grown (
      ground (
        arith,
        append_assoc (take at l.memory) (s ++ 0 ∷ []) (drop (at + length s + 1) l.memory),
        append_assoc s (0 ∷ []) (drop (at + length s + 1) l.memory),
      ))

-- The copy of a group inside the line, clipped to `n` bytes, that fits the memory.
pub copy_group-done :
    (buff : Bytes) (so eo at max n : ℕ) (l : MatchLogin)
    → eo ≤ length buff
    → n ≤ eo - so
    → clip max (eo - so) ≡ n
    → at + n + 1 ≤ length l.memory
    → copy_group buff (some (so, eo)) at max l
      ≡ pure (record {
        memory =
            take at l.memory
            ++ (take n (drop so buff)
                ++ 0 ∷ drop (at + length (take n (drop so buff)) + 1) l.memory);
      })
unfolding copy_group
copy_group-done buff so eo at max n l inside le clipped fits =
    let full : length (take n (drop so buff)) ≡ n =
      omega (arith, length-take n (drop so buff), length-drop so buff) in
    ap (λ m. poke at (padded m (drop so buff) ++ 0 ∷ []) l) clipped
    ∙ ap (λ s. poke at (s ++ 0 ∷ []) l) (padded_full n (drop so buff) full)
    ∙ poke_string at (take n (drop so buff)) l (omega arith)

-- The host's copy when the group is 255 bytes or longer: the terminator is out of bounds.
pub copy_group-fault :
    (buff : Bytes) (so eo at max : ℕ) (l : MatchLogin)
    → eo ≤ length buff
    → max ≤ eo - so
    → length l.memory ≤ at + max
    → copy_group buff (some (so, eo)) at max l ≡ fault []
unfolding copy_group poke
copy_group-fault buff so eo at max l inside long full =
    let clipped : clip max (eo - so) ≡ max = ground arith in
    let whole : length (take max (drop so buff)) ≡ max =
      omega (arith, length-take max (drop so buff), length-drop so buff) in
    ap (λ m. poke at (padded m (drop so buff) ++ 0 ∷ []) l) clipped
    ∙ ap (λ s. poke at (s ++ 0 ∷ []) l) (padded_full max (drop so buff) whole)
    ∙ ground (arith, length-append (take max (drop so buff)) (0 ∷ []))
