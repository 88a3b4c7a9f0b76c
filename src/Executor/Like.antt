-- ===== src/Executor/Like.antt =====
-- src/executor/conditions.rs: the patterns of LIKE. A position in the text or the pattern is the
-- list of the characters from there on; a character is its code.
use Prim.Native.Char.{code}
use Prim.Native.String.{String}
use postgrust_sql.Prelude.{
  ℕ, ◌≡◌, refl, sym, ◌≢◌, ◌↔◌, Bool, true, false, ◌||◌, List, [], ◌∷◌, ◌++◌, nat_beq, nat_beq_iff,
  if◌then◌else◌, arith, Bool-cases, inl, inr, subst,
}

-- `chars().collect()`
abbrev pub chars : String → List ℕ
chars String.[] = []
chars (String.◌∷◌ c s) = code c ∷ chars s

match_recursive : List ℕ → List ℕ → Bool
match_recursive [] [] = true
match_recursive (t ∷ text) [] = false
match_recursive [] (p ∷ pattern) =
    let rest = match_recursive [] pattern in if nat_beq p b'%' then rest else false
match_recursive (t ∷ text) (p ∷ pattern) = elim (nat_beq p b'%') [
  | true ↦ match_recursive (t ∷ text) pattern || match_recursive text (p ∷ pattern)
  | false ↦ elim (nat_beq p b'_' || nat_beq t p) [
    | true ↦ match_recursive text pattern
    | false ↦ false
  ]
]

unfoldable pub like_pattern_match : String → String → Bool
unfolding match_recursive
like_pattern_match text pattern = match_recursive (chars text) (chars pattern)

-- What a pattern means: `%` stands for any text, `_` for one character, any other for itself.
pub data Matches : List ℕ → List ℕ → Type 0 where
  nothing : Matches [] []
  any_text :
      (skipped text pattern : List ℕ)
      → Matches text pattern
      → Matches (skipped ++ text) (b'%' ∷ pattern)
  any_char :
      (c : ℕ) (text pattern : List ℕ) → Matches text pattern → Matches (c ∷ text) (b'_' ∷ pattern)
  itself :
      (c : ℕ) (text pattern : List ℕ)
      → c ≢ b'%'
      → Matches text pattern
      → Matches (c ∷ text) (c ∷ pattern)

match_recursive_skip :
    (skipped text pattern : List ℕ)
    → match_recursive text pattern ≡ true
    → match_recursive (skipped ++ text) (b'%' ∷ pattern) ≡ true
unfolding match_recursive
match_recursive_skip [] [] pattern h = h
match_recursive_skip [] (t ∷ text) pattern h = ground (arith, h)
match_recursive_skip (c ∷ skipped) text pattern h =
    ground (arith, match_recursive_skip skipped text pattern h)

match_recursive_complete :
    {text pattern : List ℕ} → Matches text pattern → match_recursive text pattern ≡ true
unfolding match_recursive
match_recursive_complete nothing = refl
match_recursive_complete (any_text skipped text pattern m) =
    match_recursive_skip skipped text pattern (match_recursive_complete m)
match_recursive_complete (any_char c text pattern m) = match_recursive_complete m
match_recursive_complete (itself c text pattern h m) =
    ground (arith, nat_beq_iff c b'%', nat_beq_iff c c, match_recursive_complete m)

Matches-percent :
    (skipped text pattern : List ℕ) (p : ℕ)
    → nat_beq p b'%' ≡ true
    → Matches text pattern
    → Matches (skipped ++ text) (p ∷ pattern)
Matches-percent skipped text pattern p e m =
    subst (λ q. Matches (skipped ++ text) (q ∷ pattern)) (sym ((nat_beq_iff p b'%').0 e))
      (any_text skipped text pattern m)

-- a longer text for a `%` that already stands for some
Matches-longer :
    (c p : ℕ) (text pattern : List ℕ)
    → nat_beq p b'%' ≡ true
    → Matches text (p ∷ pattern)
    → Matches (c ∷ text) (p ∷ pattern)
Matches-longer c p text pattern e (any_text skipped rest _ m) =
    any_text (c ∷ skipped) rest pattern m
Matches-longer c p text pattern e (any_char d rest _ m) = absurd (ground (arith, e))
Matches-longer c p text pattern e (itself d rest _ h m) = absurd (h ((nat_beq_iff d b'%').0 e))

Matches-one :
    (c p : ℕ) (text pattern : List ℕ)
    → nat_beq p b'%' ≡ false
    → nat_beq p b'_' || nat_beq c p ≡ true
    → Matches text pattern
    → Matches (c ∷ text) (p ∷ pattern)
Matches-one c p text pattern other one m = elim (Bool-cases (nat_beq p b'_')) [
  | inl e ↦
      subst (λ q. Matches (c ∷ text) (q ∷ pattern)) (sym ((nat_beq_iff p b'_').0 e))
        (any_char c text pattern m)
  | inr e ↦
      subst (λ q. Matches (q ∷ text) (p ∷ pattern)) (ground (arith, nat_beq_iff c p, one, e))
        (itself p text pattern (ground (arith, nat_beq_iff p b'%', other)) m)
]

match_recursive_sound :
    (text pattern : List ℕ) → match_recursive text pattern ≡ true → Matches text pattern
unfolding match_recursive
match_recursive_sound [] [] h = nothing
match_recursive_sound (t ∷ text) [] h = absurd (ground (arith, h))
match_recursive_sound [] (p ∷ pattern) h =
    Matches-percent [] [] pattern p (ground (arith, h))
      (match_recursive_sound [] pattern (ground (arith, h)))
match_recursive_sound (t ∷ text) (p ∷ pattern) h = elim (Bool-cases (nat_beq p b'%')) [
  | inl e ↦ elim (Bool-cases (match_recursive (t ∷ text) pattern)) [
    | inl now ↦
        Matches-percent [] (t ∷ text) pattern p e (match_recursive_sound (t ∷ text) pattern now)
    | inr later ↦
        Matches-longer t p text pattern e
          (match_recursive_sound text (p ∷ pattern) (ground (arith, h, e, later)))
  ]
  | inr e ↦
      Matches-one t p text pattern e (ground (arith, h, e))
        (match_recursive_sound text pattern (ground (arith, h, e)))
]

-- LIKE ends on every text and pattern, and accepts exactly the texts that the pattern means: `%`
-- any text, `_` any one character, and every other character itself.
pub like_pattern_match_iff :
    (text pattern : String)
    → (like_pattern_match text pattern ≡ true) ↔ Matches (chars text) (chars pattern)
unfolding like_pattern_match
like_pattern_match_iff text pattern =
    (match_recursive_sound (chars text) (chars pattern), match_recursive_complete)
