-- ===== src/Storage/PagedTable/Sweep.antt =====
-- VACUUM on one page.
use postgrust_sql.Prelude.{
  ℕ, suc, ◌+◌, ◌≡◌, refl, sym, ap, ◌∙◌, inl, inr, Bool, true, false, not, List, [], ◌∷◌, length,
  retain, arith, if◌then◌else◌, subst, Bool-cases,
}
use mathlib.Core.List.{reverse}
use postgrust_sql.Prelude.Result.{Result, ok, err, ◌>>=◌, ok_inj}
use postgrust_sql.Core.Row.{Row, is_dead}
use postgrust_sql.Storage.Page.{
  Page, Slot, Bincode, Fault, failed, panicked, page_size, read_slot, get_all_rows, kept,
}
use postgrust_sql.Storage.Page.Layout.{IsValid, Laid, bottom}
use postgrust_sql.Storage.Page.Scan.{scan, get_all_rows-scan}
use postgrust_sql.Storage.TablePage.{delete_rows, vacuum_page, with_result}
use postgrust_sql.Storage.PagedTable.Slots.{
  dead_result, dead_slot, dead_numbers, swept, dead_slots-lem, delete_rows-swept,
}

module _ {V : Type 0} (codec : Bincode V) (oldest : ℕ) where
  abbrev pub alive : List (Row V) → List (Row V)
  alive rows = retain (λ r. not (is_dead r oldest)) rows

  -- one slot before and after the sweep
  scan_step :
      (R : Bool → Result Fault (Row V)) (used : Bool) (now old : Result Fault (List (Row V)))
      → now ≡ (old >>= λ rows. ok (alive rows))
      → (if if dead_result codec oldest (R used) then false else used
          then kept codec (R (if dead_result codec oldest (R used) then false else used)) now
          else now)
        ≡ ((if used then kept codec (R used) old else old) >>= λ rows. ok (alive rows))
  unfolding kept
  scan_step R false now old e = elim (Bool-cases (dead_result codec oldest (R false))) [
    | inl dead ↦ rw (dead) e
    | inr not_dead ↦ rw (not_dead) e
  ]
  scan_step R true now old e = by_read (R true) refl old e
    where
      by_read :
          (r : Result Fault (Row V))
          → R true ≡ r
          → (old : Result Fault (List (Row V))) → now ≡ (old >>= λ rows. ok (alive rows))
          → (if if dead_result codec oldest (R true) then false else true
              then kept codec (R (if dead_result codec oldest (R true) then false else true)) now
              else now)
            ≡ (kept codec (R true) old >>= λ rows. ok (alive rows))
      by_read (err (failed d)) h old e = rw (h, h) e
      by_read (err panicked) h old e = rw (h, h) refl
      by_read (ok row) h (err d) e = elim (Bool-cases (is_dead row oldest)) [
        | inl dead ↦ rw (h, dead) e
        | inr not_dead ↦ rw (h, not_dead, h, e) refl
      ]
      by_read (ok row) h (ok rows) e = elim (Bool-cases (is_dead row oldest)) [
        | inl dead ↦ rw (h, dead) e
        | inr not_dead ↦ rw (h, not_dead, h, e) refl
      ]

  scan-swept :
      (p : Page) (slots all : List Slot)
      → scan codec (record p { slots = all }) (swept codec oldest p slots)
        ≡ (scan codec p slots >>= λ rows. ok (alive rows))
  unfolding read_slot
  scan-swept p [] all = refl
  scan-swept p (s ∷ slots) all =
      scan_step (λ used. read_slot codec p (record s { is_used = used })) s.is_used
        (scan codec (record p { slots = all }) (swept codec oldest p slots)) (scan codec p slots)
        (scan-swept p slots all)

  unused_slot : (p : Page) (s : Slot) → s.is_used ≡ false → dead_slot codec oldest p s ≡ false
  unfolding read_slot
  unused_slot p s e = rw (e) refl

  -- the dead slots and the rows that stay are all rows
  dead-alive :
      (p : Page) (i : ℕ) (slots : List Slot) (rows : List (Row V))
      → scan codec p slots ≡ ok rows
      → length (dead_numbers codec oldest p i slots) + length (alive rows) ≡ length rows
  unfolding kept
  dead-alive p i [] rows e = ap (λ l. 0 + length (alive l)) (sym (ok_inj e)) ∙ ap length (ok_inj e)
  dead-alive p i (s ∷ slots) rows e =
      by_slot s.is_used (read_slot codec p s) (unused_slot p s) refl refl (scan codec p slots) e
        (dead-alive p (suc i) slots)
    where
      by_slot :
          (used : Bool) (r : Result Fault (Row V))
          → (s.is_used ≡ false → dead_slot codec oldest p s ≡ false)
          → s.is_used ≡ used
          → read_slot codec p s ≡ r
          → (old : Result Fault (List (Row V))) → (if used then kept codec r old else old) ≡ ok rows
          → ((rest : List (Row V))
              → old ≡ ok rest
              → length (dead_numbers codec oldest p (suc i) slots) + length (alive rest)
                ≡ length rest)
          → length (dead_numbers codec oldest p i (s ∷ slots)) + length (alive rows) ≡ length rows
      by_slot false r unused u h old e more = rw (unused u) (more rows e)
      by_slot true (err (failed d)) unused u h old e more = rw (h) (more rows e)
      by_slot true (err panicked) unused u h old e more = absurd (ground (arith, e))
      by_slot true (ok row) unused u h (err d) e more = absurd (ground (arith, e))
      by_slot true (ok row) unused u h (ok rest) e more =
          subst
            (λ l. length (dead_numbers codec oldest p i (s ∷ slots)) + length (alive l) ≡ length l)
            (ok_inj e)
            (elim (Bool-cases (is_dead row oldest)) [
              | inl dead ↦ rw (h, dead) (omega (arith, more rest refl))
              | inr not_dead ↦ rw (h, not_dead) (omega (arith, more rest refl))
            ])

  Laid-swept :
      (p : Page) (top : ℕ) (slots : List Slot)
      → Laid top slots
      → Laid top (swept codec oldest p slots)
        × (bottom top (swept codec oldest p slots) ≡ bottom top slots)
        × (length (swept codec oldest p slots) ≡ length slots)
  Laid-swept p top [] l = (l, refl, refl)
  Laid-swept p top (s ∷ slots) l =
      let (l', b, n) = Laid-swept p s.offset slots l.1 in ((l.0, l'), b, omega (arith, n))

  -- VACUUM on a page that is well laid out: it succeeds, keeps the layout and the header, leaves
  -- the rows that are not dead in their order, and counts the others.
  pub vacuum_page_effect :
      (p : Page) (rows : List (Row V))
      → IsValid p
      → get_all_rows codec p ≡ ok rows
      → (n : ℕ) × (p' : Page) × (vacuum_page codec oldest p ≡ (ok n, p'))
        × (n + length (alive rows) ≡ length rows)
        × IsValid p'
        × (get_all_rows codec p' ≡ ok (alive rows))
        × (p'.header ≡ p.header)
  unfolding vacuum_page
  vacuum_page_effect p rows v e =
      let dead : List ℕ = dead_numbers codec oldest p 0 p.slots in
      let p' : Page = record p { slots = swept codec oldest p p.slots } in
      let scanned : scan codec p p.slots ≡ ok rows = sym (get_all_rows-scan codec p v) ∙ e in
      let (l, b, n) = Laid-swept p page_size p.slots v.laid in
      let valid : IsValid p' = record {
        full_size = v.full_size;
        counted = v.counted ∙ sym n;
        slots_above = omega (arith, v.slots_above, n);
        apart = v.apart;
        lowest = v.lowest ∙ sym b;
        laid = l;
      } in
      (
        length dead,
        p',
        ap
              (λ o.
                with_result p (λ n. n)
                  (o >>= λ slots. delete_rows (reverse slots) p >>= λ q. ok (length slots, q)))
              (dead_slots-lem codec oldest p [] p.slots v refl)
            ∙ ap (λ o. with_result p (λ n. n) (o >>= λ q. ok (length dead, q)))
                (delete_rows-swept codec oldest p [] p.slots refl),
        dead-alive p 0 p.slots rows scanned,
        valid,
        get_all_rows-scan codec p' valid
            ∙ scan-swept p p.slots (swept codec oldest p p.slots)
            ∙ ap (λ o. o >>= λ l. ok (alive l)) scanned,
        refl,
      )
