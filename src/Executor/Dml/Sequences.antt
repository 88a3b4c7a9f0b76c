-- ===== src/Executor/Dml/Sequences.antt =====
-- The sequences of SERIAL columns after an INSERT.
use postgrust_sql.Prelude.{
  ℕ, String, zero, suc, ◌-◌, ◌^◌, ◌≡◌, ◌≢◌, refl, sym, ap, true, false, Option, none, some, List,
  [], ◌∷◌, get_elem?, arith, Bool-cases, inl, inr, ◌⊎◌, subst, ◌==◌, string_eq, eq_iff, nat_beq,
  nat_beq_iff,
}
use postgrust_sql.Prelude.Int.{ℤ, pos, negsuc}
use postgrust_sql.Prelude.Map
use postgrust_sql.Prelude.Map.{Map, get, get-insert}
use postgrust_sql.Prelude.Result.{ok, ok_inj}
use postgrust_sql.Core.Value.{Externals, Value, integer}
use postgrust_sql.Core.Table.{Column, is_serial}
use postgrust_sql.Executor.Compare.{int_gt}
use postgrust_sql.Executor.Dml.{or_one}
use postgrust_sql.Executor.Dml.Insert.{int_suc, int_max, advance, advance_sequences}

-- the sequence of the column will give a number above `n`
abbrev pub Above : ℤ → Option ℤ → Type 0
Above n none = ⊥
Above n (some k) = int_gt k n ≡ true

int_gt_trans : (a b c : ℤ) → int_gt a b ≡ true → int_gt b c ≡ true → int_gt a c ≡ true
int_gt_trans (pos a) (pos b) (pos c) h k = ground (arith, h, k)
int_gt_trans (pos a) (pos b) (negsuc c) h k = ground (arith, h, k)
int_gt_trans (pos a) (negsuc b) (pos c) h k = ground (arith, h, k)
int_gt_trans (pos a) (negsuc b) (negsuc c) h k = ground (arith, h, k)
int_gt_trans (negsuc a) (pos b) (pos c) h k = ground (arith, h, k)
int_gt_trans (negsuc a) (pos b) (negsuc c) h k = ground (arith, h, k)
int_gt_trans (negsuc a) (negsuc b) (pos c) h k = ground (arith, h, k)
int_gt_trans (negsuc a) (negsuc b) (negsuc c) h k = ground (arith, h, k)

int_gt-suc : (n : ℤ) → n ≢ pos (2 ^ 63 - 1) → int_gt (int_suc n) n ≡ true
int_gt-suc (pos n) h = elim (Bool-cases (nat_beq n (2 ^ 63 - 1))) [
  | inl e ↦ absurd (h (ap pos ((nat_beq_iff n (2 ^ 63 - 1)).0 e)))
  | inr e ↦ rw (e) (ground arith)
]
int_gt-suc (negsuc zero) h = refl
int_gt-suc (negsuc (suc n)) h = ground arith

int_gt_below : (a b n : ℤ) → int_gt a n ≡ true → int_gt a b ≡ false → int_gt b n ≡ true
int_gt_below (pos a) (pos b) (pos n) h k = ground (arith, h, k)
int_gt_below (pos a) (pos b) (negsuc n) h k = ground (arith, h, k)
int_gt_below (pos a) (negsuc b) (pos n) h k = ground (arith, h, k)
int_gt_below (pos a) (negsuc b) (negsuc n) h k = ground (arith, h, k)
int_gt_below (negsuc a) (pos b) (pos n) h k = ground (arith, h, k)
int_gt_below (negsuc a) (pos b) (negsuc n) h k = ground (arith, h, k)
int_gt_below (negsuc a) (negsuc b) (pos n) h k = ground (arith, h, k)
int_gt_below (negsuc a) (negsuc b) (negsuc n) h k = ground (arith, h, k)

-- the greater of two numbers is above what either is above
int_max-above :
    (a b n : ℤ) → (int_gt a n ≡ true) ⊎ (int_gt b n ≡ true) → int_gt (int_max a b) n ≡ true
int_max-above a b n h = elim (Bool-cases (int_gt a b)) [
  | inl e ↦ rw (e) (elim h [ inl h ↦ h | inr h ↦ int_gt_trans a b n e h ])
  | inr e ↦ rw (e) (elim h [ inl h ↦ int_gt_below a b n h e | inr h ↦ h ])
]

Above-insert :
    (m : Map String ℤ) (own name : String) (k n : ℤ)
    → Above n (get m name)
    → Above n (get (Map.insert m own (int_max (or_one (get m own)) (int_suc k))) name)
Above-insert m own name k n h = elim (Bool-cases (own == name)) [
  | inl e ↦
      rw (get-insert m own name (int_max (or_one (get m own)) (int_suc k)), e)
        (by_old (get m own) (subst (λ q. Above n (get m q)) (sym ((eq_iff own name).0 e)) h))
  | inr e ↦ rw (get-insert m own name (int_max (or_one (get m own)) (int_suc k)), e) h
]
  where
    by_old : (o : Option ℤ) → Above n o → int_gt (int_max (or_one o) (int_suc k)) n ≡ true
    by_old none h = absurd h
    by_old (some j) h = int_max-above j (int_suc k) n (inl h)

Above-advance_self :
    (x : Externals) (m : Map String ℤ) (col : Column) (n : ℤ)
    → is_serial col.data_type ≡ true
    → n ≢ pos (2 ^ 63 - 1)
    → Above n (get (advance {x = x} m col (integer n)) col.name)
Above-advance_self x m col n serial small =
    rw
      (
        serial,
        get-insert m col.name col.name (int_max (or_one (get m col.name)) (int_suc n)),
        (eq_iff col.name col.name).1 refl,
      )
      (int_max-above (or_one (get m col.name)) (int_suc n) n (inr (int_gt-suc n small)))

module _ {x : Externals} where
  Above-advance :
      (m : Map String ℤ) (col : Column) (v : Value x) (name : String) (n : ℤ)
      → Above n (get m name)
      → Above n (get (advance m col v) name)
  Above-advance m col (integer k) name n h = elim (Bool-cases (is_serial col.data_type)) [
    | inl e ↦ rw (e) (Above-insert m col.name name k n h)
    | inr e ↦ rw (e) h
  ]
  Above-advance m col v name n h = h

  Above-advance_sequences :
      (cols : List Column) (values : List (Value x)) (m m' : Map String ℤ) (name : String) (n : ℤ)
      → advance_sequences cols values m ≡ ok m'
      → Above n (get m name)
      → Above n (get m' name)
  unfolding advance_sequences
  Above-advance_sequences [] values m m' name n h above =
      subst (λ q. Above n (get q name)) (ok_inj h) above
  Above-advance_sequences (c ∷ cols) [] m m' name n h above =
      elim (Bool-cases (is_serial c.data_type)) [
        | inl e ↦ absurd (ground (arith, h, e))
        | inr e ↦ Above-advance_sequences cols [] m m' name n (ground (arith, h, e)) above
      ]
  Above-advance_sequences (c ∷ cols) (v ∷ values) m m' name n h above =
      Above-advance_sequences cols values (advance m c v) m' name n h
        (Above-advance m c v name n above)

  -- The walk over the columns of one row leaves the sequence of a SERIAL column above the 64-bit
  -- number that the row has in it, except the greatest.
  pub advance_sequences-Above :
      (cols : List Column) (values : List (Value x)) (m m' : Map String ℤ) (i : ℕ) (col : Column)
      (n : ℤ)
      → advance_sequences cols values m ≡ ok m'
      → get_elem? cols i ≡ some col
      → is_serial col.data_type ≡ true
      → get_elem? values i ≡ some (integer n)
      → n ≢ pos (2 ^ 63 - 1)
      → Above n (get m' col.name)
  unfolding advance_sequences
  advance_sequences-Above [] values m m' i col n h at serial here small =
      absurd (ground (arith, at))
  advance_sequences-Above (c ∷ cols) [] m m' i col n h at serial here small =
      absurd (ground (arith, here))
  advance_sequences-Above (c ∷ cols) (v ∷ values) m m' zero col n h at serial here small =
      let same : c ≡ col = cc (at) in
      let same_value : v ≡ integer n = cc (here) in
      Above-advance_sequences cols values (advance m c v) m' col.name n h (
        subst (λ q. Above n (get (advance m c q) col.name)) (sym same_value)
          (subst (λ (q : Column). Above n (get (advance {x = x} m q (integer n)) col.name))
            (sym same) (Above-advance_self x m col n serial small)))
  advance_sequences-Above (c ∷ cols) (v ∷ values) m m' (suc i) col n h at serial here small =
      advance_sequences-Above cols values (advance m c v) m' i col n h at serial here small
