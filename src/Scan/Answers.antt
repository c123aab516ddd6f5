-- ===== src/Scan/Answers.antt =====
-- What the answers of ScansHandler (internal/api/handlers/scans.go) tell.
use ditto.Prelude.{
  keys_of, find_by, find_by_lem, ℕ, ◌+◌, ◌≤◌, ◌≡◌, refl, inl, inr, List, [], ◌∷◌, ◌++◌, Option,
  none, some, Bool, false, String, ℤ, if◌then◌else◌, nat_beq, nat_beq_iff, take, drop, keep,
  AllDifferent, Member, Member-perm, Member-take, Member-drop, arith, ap, ◌∙◌, sym, subst,
  Bool-cases, Option-cases,
}
use mathlib.Core.List.{Permᴰ}
use ditto.Scan.Types.{unix}
use ditto.Scan.Records.{
  ScanRow, ScanTrigger, running, new_row, find_row, manual, insert_scan_record,
}
use ditto.Scan.Manager.{Manager, start, cancel}
use ditto.Trash.Handlers.{parse_pagination}
use ditto.Scan.Handlers.{
  Floats, ScanItem, ScanError, ErrorItem, accepted, cancelled_scan, page, detail, item_of, items_of,
  error_items, create, cancel_current, list_scans, get_scan,
}

abbrev pub row_ids : List ScanRow → List ℕ
row_ids = keys_of (λ r. r.id)

find_row-eq : (k : ℕ) (rs : List ScanRow) → find_row k rs ≡ find_by (λ (r : ScanRow). r.id) k rs
find_row-eq k [] = refl
find_row-eq k (r ∷ rs) = ground (arith, find_row-eq k rs)

-- Where the ids differ, a row is found by its id.
pub find_row_lem :
    (r : ScanRow) (rs : List ScanRow)
    → AllDifferent (row_ids rs)
    → Member r rs
    → find_row r.id rs ≡ some r
find_row_lem r rs u m = find_row-eq r.id rs ∙ find_by_lem (λ (x : ScanRow). x.id) r rs u m

find_row-append :
    (rs : List ScanRow) (r : ScanRow)
    → find_row r.id rs ≡ none
    → find_row r.id (rs ++ r ∷ []) ≡ some r
find_row-append [] r absent = rw ((nat_beq_iff r.id r.id).1 refl) refl
find_row-append (x ∷ rs) r absent = ground (arith, find_row-append rs r)

module _ (F : Floats) (rfc3339 : ℕ → String) where
  items_of-row :
      (it : ScanItem F.Float) (rs : List ScanRow)
      → Member it (items_of F rfc3339 rs)
      → (r : ScanRow) × Member r rs × (it ≡ item_of F rfc3339 r)
  items_of-row it [] m = absurd m
  items_of-row it (x ∷ rs) (inl here) = (x, inl refl, here)
  items_of-row it (x ∷ rs) (inr m) = let (r, there, e) = items_of-row it rs m in (r, inr there, e)

  -- The errors that Get lists.
  abbrev pub listed_errors :
      (List ScanError → List ScanError) → Bool → List ScanError → ℕ → List ErrorItem
  listed_errors by_time unlisted errors k =
      if unlisted
      then []
      else error_items F rfc3339 (by_time (keep (λ e. nat_beq e.scan_id k) errors))

  pub get_scan-found :
      (parse_int : String → Option ℕ) (rows : List ScanRow)
      (by_time : List ScanError → List ScanError) (unlisted : Bool) (errors : List ScanError)
      (id : String) (k : ℕ) (r : ScanRow)
      → parse_int id ≡ some k
      → find_row k rows ≡ some r
      → get_scan F rfc3339 parse_int false rows by_time unlisted errors id
        ≡ detail (item_of F rfc3339 r) (listed_errors by_time unlisted errors k)
  unfolding get_scan
  get_scan-found parse_int rows by_time unlisted errors id k r parsed found = ground arith

  -- If the ids of the rows differ and the query of List orders them, then for an item of a page of List,
  -- Get at its id answers with the same item, and errors beside it, unless its query is refused.
  pub get_scan-list_scans :
      (atoi : String → Option ℤ) (newest : List ScanRow → List ScanRow) (χ : Bool)
      (rows : List ScanRow) (limit offset : String) (items : List (ScanItem F.Float))
      (total n skip : ℕ) (it : ScanItem F.Float) (parse_int : String → Option ℕ)
      (by_time : List ScanError → List ScanError) (unlisted : Bool) (errors : List ScanError)
      (id : String)
      → AllDifferent (row_ids rows)
      → Permᴰ (newest rows) rows
      → list_scans F rfc3339 atoi newest false χ rows limit offset ≡ page items total n skip
      → Member it items
      → parse_int id ≡ some it.id
      → (es : List ErrorItem) × (get_scan F rfc3339 parse_int false rows by_time unlisted errors id
          ≡ detail it es)
  unfolding list_scans get_scan item_of
  get_scan-list_scans atoi newest χ rows limit offset items total n skip it parse_int by_time
        unlisted errors id differ ordered listed member parsed =
      let (m, k) = parse_pagination atoi limit offset in
      let shown = take m (drop k (newest rows)) in
      let same_items : items ≡ items_of F rfc3339 shown = ground arith in
      let (r, there, e) = items_of-row it shown (subst (λ l. Member it l) same_items member) in
      let row : Member r rows =
        Member-perm r ordered
          (Member-drop r k (newest rows) (Member-take r m (drop k (newest rows)) there)) in
      let found = find_row_lem r rows differ row in
      let found_it : find_row it.id rows ≡ some r =
        ap (λ (y : ScanItem F.Float). find_row y.id rows) e ∙ found in
      (
        listed_errors by_time unlisted errors it.id,
        get_scan-found parse_int rows by_time unlisted errors id it.id r parsed found_it
            ∙ ap (λ y. detail y (listed_errors by_time unlisted errors it.id)) (sym e),
      )

  -- If the ids of the rows are among those given out, a Create that is accepted answers with an id at which
  -- Get, unless its query is refused, finds a running manual scan with the time of the start that Create
  -- told, and a Cancel that follows
  -- answers with that id and time.
  pub create-get_scan :
      (m : Manager) (refused : Bool) (now k later : ℕ) (t : String) (trigger : ScanTrigger)
      (parse_int : String → Option ℕ) (by_time : List ScanError → List ScanError) (unlisted : Bool)
      (errors : List ScanError) (id : String)
      → ((j : ℕ) (r : ScanRow) → find_row j m.history.rows ≡ some r → j ≤ m.history.last_id)
      → (create F rfc3339 m refused now).1 ≡ accepted k t trigger
      → parse_int id ≡ some k
      → ((it : ScanItem F.Float) × (es : List ErrorItem) × (get_scan F rfc3339 parse_int false
              (create F rfc3339 m refused now).0.history.rows
              by_time
              unlisted
              errors
              id
            ≡ detail it es)
          × (it.id ≡ k)
          × (it.started_at ≡ t)
          × (it.status ≡ running)
          × (it.triggered_by ≡ manual))
        × ((cancel_current F rfc3339 (create F rfc3339 m refused now).0 later).1
            ≡ cancelled_scan k t (rfc3339 (unix later)))
  unfolding create get_scan item_of cancel_current start cancel insert_scan_record
  create-get_scan m refused now k later t trigger parse_int by_time unlisted errors id given done
        parsed =
      elim (Option-cases m.active) [
        | inr (a, busy) ↦ absurd (ground arith)
        | inl idle ↦ elim (Bool-cases refused) [
          | inl denied ↦ absurd (ground arith)
          | inr taken ↦
              let row = new_row (m.history.last_id + 1) now manual in
              let same_id : k ≡ m.history.last_id + 1 = ground arith in
              let told : t ≡ rfc3339 (unix now) = ground arith in
              let absent : find_row row.id m.history.rows ≡ none =
                elim (Option-cases (find_row row.id m.history.rows)) [
                  | inl e ↦ e
                  | inr (r, e) ↦ absurd (omega (arith, given row.id r e))
                ] in
              let new_rows : (create F rfc3339 m refused now).0.history.rows
                  ≡ m.history.rows ++ row ∷ [] =
                ground arith in
              let found : find_row k (create F rfc3339 m refused now).0.history.rows ≡ some row =
                ap (λ l. find_row k l) new_rows
                ∙ ap (λ j. find_row j (m.history.rows ++ row ∷ [])) same_id
                ∙ find_row-append m.history.rows row absent in
              (
                (
                  item_of F rfc3339 row,
                  listed_errors by_time unlisted errors k,
                  get_scan-found parse_int _ by_time unlisted errors id k row parsed found,
                  sym same_id,
                  sym told,
                  refl,
                  refl,
                ),
                ground arith,
              )
        ]
      ]
