-- ===== src/Core/Privilege.antt =====
-- src/core/privilege.rs
use postgrust_sql.Prelude.{ℕ, ◌≡◌, ◌↔◌, Bool, true, arith, Eq, nat_beq}

pub data Privilege : Type 0 where
  connect create select insert update delete all : Privilege

abbrev pub number : Privilege → ℕ
number connect = 0
number create = 1
number select = 2
number insert = 3
number update = 4
number delete = 5
number all = 6

abbrev pub privilege_beq : Privilege → Privilege → Bool
privilege_beq p q = nat_beq (number p) (number q)

pub privilege_beq_iff : (p q : Privilege) → (privilege_beq p q ≡ true) ↔ (p ≡ q)
privilege_beq_iff p q = ground arith

-- the derived `PartialEq`
instance abbrev pub privilege_eq : Eq Privilege
privilege_eq = record { beq = privilege_beq; beq_iff = privilege_beq_iff }
