-- ===== src/Core/Server/Collect.antt =====
-- The recursive collection of roles ends: each call enters a name that was missing.
use postgrust_sql.Prelude.{
  ℕ, zero, suc, ◌≤◌, ◌<◌, String, ◌≡◌, inl, inr, refl, true, false, Option, some, List, [], ◌∷◌,
  length, arith, ◌==◌, eq_iff, string_eq, if◌then◌else◌, Bool-cases,
}
use postgrust_sql.Prelude.Map.{Map}
use postgrust_sql.Prelude.Set
use postgrust_sql.Prelude.Set.{contains, contains-insert, contains-append}
use postgrust_sql.Core.Role.{Role}
use postgrust_sql.Core.Server.Roles.{parents, each_in_turn, collect_roles_recursive}

abbrev pub In : List String → String → Type 0
In xs a = contains xs a ≡ true

-- The number of names of the universe that are not collected.
pub missing : List String → List String → ℕ
missing [] c = 0
missing (u ∷ us) c = if contains c u then missing us c else suc (missing us c)

pub missing-le-length : (us c : List String) → missing us c ≤ length us
unfolding missing
missing-le-length [] c = omega arith
missing-le-length (u ∷ us) c = ground (arith, missing-le-length us c)

abbrev pub Subset : List String → List String → Type 0
Subset c d = (a : String) → In c a → In d a

missing_mono : (us c d : List String) → Subset c d → missing us d ≤ missing us c
unfolding missing
missing_mono [] c d h = omega arith
missing_mono (u ∷ us) c d h = ground (arith, missing_mono us c d h, h u)

missing-insert :
    (us c : List String) (n : String)
    → In us n
    → contains c n ≡ false
    → missing us (Set.insert c n) < missing us c
unfolding missing contains
missing-insert [] c n i h = ground arith
missing-insert (u ∷ us) c n i h = ground (
  arith,
  missing-insert us c n,
  missing_mono us c (Set.insert c n) (λ a ia. ground (arith, contains-insert c n a)),
  contains-insert c n u,
  eq_iff u n,
  eq_iff n u,
)

-- What one call does: it keeps what is collected, collects its name, and with each new name the
-- parents of that name.
pub record Collects (roles : Map String Role) (names c d : List String) : Type 0 where
  pub keeps : Subset c d
  pub enters : (n : String) → In names n → In d n
  pub closes :
      (a : String) → contains c a ≡ false → In d a → (p : String) → In (parents roles a) p → In d p

abbrev pub Total :
    Map String Role → List String → ℕ → (String → List String → Option (List String)) → Type 0
Total roles us m call =
    (n : String) (c : List String)
    → In us n
    → missing us c < m
    → (d : List String) × (call n c ≡ some d) × Collects roles (n ∷ []) c d

module _ (roles : Map String Role) (us : List String) where
  pub each_in_turn-Collects :
      (call : String → List String → Option (List String)) (m : ℕ) (ns c : List String)
      → Total roles us m call
      → ((n : String) → In ns n → In us n)
      → missing us c < m
      → (d : List String) × (each_in_turn call ns c ≡ some d) × Collects roles ns c d
  unfolding each_in_turn contains
  each_in_turn-Collects call m [] c total inside room = (
    c,
    refl,
    record {
      keeps = λ a i. i;
      enters = λ n i. ground arith;
      closes = λ a fresh i p ip. ground arith;
    },
  )
  each_in_turn-Collects call m (n ∷ ns) c total inside room =
      let (d, e, first) = total n c (inside n (ground (arith, eq_iff n n))) room in
      let (d', e', rest) =
        each_in_turn-Collects call m ns d total (λ k i. inside k (ground arith))
          (omega (arith, missing_mono us c d first.keeps)) in
      (
        d',
        rw (e, each_in_turn) e',
        record {
          keeps = λ a i. rest.keeps a (first.keeps a i);
          enters = λ k i. ground (arith, eq_iff n k, rest.keeps k, first.enters k, rest.enters k);
          closes = λ a fresh i p ip. elim (Bool-cases (contains d a)) [
            | inl known ↦ rest.keeps p (first.closes a fresh known p ip)
            | inr new ↦ rest.closes a new i p ip
          ];
        },
      )

  module _ (parents_inside : (a p : String) → In (parents roles a) p → In us p) where
    -- With more fuel than names are missing, a call returns, and does what it should.
    pub collect-Total : (fuel : ℕ) → Total roles us fuel (collect_roles_recursive fuel roles)
    unfolding collect_roles_recursive contains
    collect-Total zero n c i room = absurd (omega arith)
    collect-Total (suc fuel) n c i room = elim (Bool-cases (contains c n)) [
      | inl known ↦ (
        c,
        rw (known, collect_roles_recursive),
        record {
          keeps = λ a ia. ia;
          enters = λ k ik. ground (arith, eq_iff n k);
          closes = λ a fresh ia. absurd (ground arith);
        },
      )
      | inr new ↦
          let (d, e, deeper) =
            each_in_turn-Collects (collect_roles_recursive fuel roles) fuel (parents roles n)
              (Set.insert c n) (collect-Total fuel) (parents_inside n)
              (omega (arith, missing-insert us c n i new)) in
          (
            d,
            rw (new, collect_roles_recursive) e,
            record {
              keeps = λ a ia. deeper.keeps a (ground (arith, contains-insert c n a));
              enters = λ k ik. deeper.keeps k (ground (arith, contains-insert c n k));
              closes = λ a fresh ia p ip. elim (Bool-cases (n == a)) [
                | inl same ↦ deeper.enters p (rw ((eq_iff n a).0 same) ip)
                | inr other ↦ deeper.closes a (ground (arith, contains-insert c n a)) ia p ip
              ];
            },
          )
    ]
