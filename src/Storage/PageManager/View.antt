-- ===== src/Storage/PageManager/View.antt =====
-- What a page manager answers for a page, in memory or not.
use postgrust_sql.Prelude.{
  String, ◌≡◌, refl, sym, ◌∙◌, true, false, Option, none, some, arith, if◌then◌else◌, Bool-cases,
  inl, inr, ◌⊎◌,
}
use postgrust_sql.Prelude.Map
use postgrust_sql.Prelude.Map.{Map, get, contains_key, get-insert, get-remove}
use postgrust_sql.Prelude.Set.{contains}
use postgrust_sql.Prelude.Result.{Result, ok, err}
use postgrust_sql.Storage.Page
use postgrust_sql.Storage.Page.{Page, PageId, Bincode, page_id_eq, page_id_beq, page_id_beq_iff}
use postgrust_sql.Storage.PageManager.{PageManager, PageFiles}

pub get-insert_cases :
    {X : Type 0} (id j : PageId) (page p : X) (pages : Map PageId X)
    → get (Map.insert pages id page) j ≡ some p
    → ((id ≡ j) × (p ≡ page)) ⊎ ((page_id_beq id j ≡ false) × (get pages j ≡ some p))
get-insert_cases id j page p pages e =
    let laid : (if page_id_beq id j then some page else get pages j) ≡ some p =
      sym (get-insert pages id j page) ∙ e in
    elim (Bool-cases (page_id_beq id j)) [
      | inl here ↦ inl ((page_id_beq_iff id j).0 here, ground (arith, laid, here))
      | inr other ↦ inr (other, ground (arith, laid, other))
    ]

module _ {V : Type 0} (codec : Bincode V) (files : PageFiles) where
  open files use {Bytes, deserialize_page}

  abbrev pub or_new : PageId → Result String Page → Page
  or_new id (ok page) = page
  or_new id (err _) = Page.new codec id

  abbrev pub decoded : PageId → Option Bytes → Page
  decoded id none = Page.new codec id
  decoded id (some bytes) = or_new id (deserialize_page bytes)

  -- the page of the file, an empty page where there is none
  abbrev pub on_disk : Map PageId Bytes → PageId → Page
  on_disk disk id = decoded id (get disk id)

  abbrev pub page_or_file : Map PageId Bytes → PageId → Option Page → Page
  page_or_file disk id none = on_disk disk id
  page_or_file disk id (some page) = page

  -- the page in memory, or else the page of the file
  abbrev pub view : PageManager files → PageId → Page
  view m id = page_or_file m.disk id (get m.buffer_pool.pages id)

  pub record IsValid (m : PageManager files) : Type 0 where
    pub queued :
        (id : PageId)
        → contains m.buffer_pool.lru.queue id ≡ true
        → contains_key m.buffer_pool.pages id ≡ true
    pub own_id :
        (id : PageId) (page : Page)
        → get m.buffer_pool.pages id ≡ some page
        → page.header.page_id ≡ id
    pub clean :
        (id : PageId) (page : Page)
        → get m.buffer_pool.pages id ≡ some page
        → contains m.buffer_pool.dirty_pages id ≡ false
        → page ≡ on_disk m.disk id
    pub readable :
        (id : PageId) (bytes : Bytes)
        → get m.disk id ≡ some bytes
        → deserialize_page bytes ≡ ok (on_disk m.disk id)
    pub stored_id : (id : PageId) → (on_disk m.disk id).header.page_id ≡ id

  -- A valid state with the same answers.
  pub record Same (m m' : PageManager files) : Type 0 where
    pub valid : IsValid m'
    pub answers : (id : PageId) → view m' id ≡ view m id

  pub Same-trans : {m m' m'' : PageManager files} → Same m m' → Same m' m'' → Same m m''
  Same-trans a b = record { valid = b.valid; answers = λ id. b.answers id ∙ a.answers id }

  pub page_id-view :
      (m : PageManager files) (id : PageId) → IsValid m → (view m id).header.page_id ≡ id
  page_id-view m id v = by_page (get m.buffer_pool.pages id) refl
    where
      by_page :
          (o : Option Page)
          → get m.buffer_pool.pages id ≡ o
          → (page_or_file m.disk id o).header.page_id ≡ id
      by_page none e = v.stored_id id
      by_page (some page) e = v.own_id id page e

  pub page_or_file-remove :
      (disk : Map PageId Bytes) (pages : Map PageId Page) (id j : PageId)
      → page_or_file disk j (get (Map.remove pages id) j)
        ≡ (if page_id_beq id j then on_disk disk j else page_or_file disk j (get pages j))
  page_or_file-remove disk pages id j = elim (Bool-cases (page_id_beq id j)) [
    | inl here ↦ rw (get-remove pages id j, here) refl
    | inr other ↦ rw (get-remove pages id j, other) refl
  ]

  pub page_or_file-insert :
      (disk : Map PageId Bytes) (pages : Map PageId Page) (id j : PageId) (page : Page)
      → page_or_file disk j (get (Map.insert pages id page) j)
        ≡ (if page_id_beq id j then page else page_or_file disk j (get pages j))
  page_or_file-insert disk pages id j page = elim (Bool-cases (page_id_beq id j)) [
    | inl here ↦ rw (get-insert pages id j page, here) refl
    | inr other ↦ rw (get-insert pages id j page, other) refl
  ]
