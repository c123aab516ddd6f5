-- ===== src/Pages/Trash.antt =====
-- The page of the trash (internal/api/pages.go, trashPage) against the list of the API
-- (internal/api/handlers/trash.go). strconv's numbers, the format of a time and the order of the query's rows
-- are parameters.
use ditto.Prelude.{
  ℕ, ◌+◌, ◌-◌, ◌^◌, ◌<◌, ◌≡◌, refl, List, [], ◌∷◌, Option, none, Bool, false, not, ◌&&◌, String, ℤ,
  at_least, if◌then◌else◌, ltb, ◌==◌, string_key, keep, take, drop, length, arith, inl, inr,
  Bool-cases, ap, ◌∙◌,
}
use text.Mathlib.TextEquality.{eq_iff}
use ditto.Trash.Manager.{TrashItem, World, is_trashed}
use ditto.Trash.Handlers.{
  Listed, page, days_until, list_items, sum_sizes, parameter, parse_pagination, list,
}

abbrev pub trash_limit : ℕ
trash_limit = 50

-- trashPageItem.
pub record TrashRow : Type 0 where
  pub id : ℕ
  pub original_path : String
  pub file_size : ℕ
  pub trashed_at : String
  pub days_remaining : ℕ
  pub group_id : Option ℕ

-- trashPageData.
pub record TrashPage : Type 0 where
  pub items : List TrashRow
  pub total : ℕ
  pub total_size : ℕ
  pub limit : ℕ
  pub offset : ℕ
  pub next_offset : ℕ
  pub prev_offset : ℕ
  pub has_next : Bool
  pub has_prev : Bool

module _ (date_time : ℕ → String) where
  abbrev pub trash_row : ℕ → TrashItem → TrashRow
  trash_row now r = record {
    id = r.id;
    original_path = r.original_path;
    file_size = r.file_size;
    trashed_at = date_time r.trashed_at;
    days_remaining = days_until now r.expires_at;
    group_id = r.group_id;
  }

  abbrev pub trash_rows : ℕ → List TrashItem → List TrashRow
  trash_rows now [] = []
  trash_rows now (r ∷ rs) = trash_row now r ∷ trash_rows now rs

  -- trashPage: `χ` and `ψ` say whether the query of the totals and that of the items are refused; the totals
  -- are also lost where the sum is no signed 64-bit integer.
  unfoldable pub trash_page :
      (String → Option ℤ)
      → (List TrashItem → List TrashItem)
      → Bool
      → Bool
      → ℕ
      → World
      → String
      → TrashPage
  trash_page atoi newest χ ψ now w q =
      let offset = parameter (at_least 0) 0 (atoi q) in
      let active = keep is_trashed w.trash in
      let summed = not χ && ltb (sum_sizes active) (2 ^ 63) in
      let total = if summed then length active else 0 in
      record {
        items = if ψ then [] else trash_rows now (take trash_limit (drop offset (newest active)));
        total = total;
        total_size = if summed then sum_sizes active else 0;
        limit = trash_limit;
        offset = offset;
        next_offset = offset + trash_limit;
        prev_offset = offset - trash_limit;
        has_next = ltb (offset + trash_limit) total;
        has_prev = ltb 0 offset;
      }

  -- An item of the API as a row of the page.
  abbrev pub rows_of : List Listed → List TrashRow
  rows_of [] = []
  rows_of (it ∷ its) =
      record {
        id = it.item.id;
        original_path = it.item.original_path;
        file_size = it.item.file_size;
        trashed_at = date_time it.item.trashed_at;
        days_remaining = it.days_remaining;
        group_id = it.item.group_id;
      }
      ∷ rows_of its

  trash_rows-list_items :
      (now : ℕ) (rs : List TrashItem) → trash_rows now rs ≡ rows_of (list_items now rs)
  trash_rows-list_items now [] = refl
  trash_rows-list_items now (r ∷ rs) = λ i. trash_row now r ∷ trash_rows-list_items now rs i

  -- Where the database refuses neither query and the sizes sum up to a signed 64-bit integer, the page at
  -- an offset shows the items, the number and the size that the API's list gives without a limit at that
  -- offset.
  pub trash_page-eq-list :
      (atoi : String → Option ℤ) (newest : List TrashItem → List TrashItem) (now : ℕ) (w : World)
      (q : String) (items : List Listed) (total size limit offset : ℕ)
      → atoi "" ≡ none
      → sum_sizes (keep is_trashed w.trash) < 2 ^ 63
      → list atoi newest false false now w "" q ≡ page items total size limit offset
      → ((trash_page atoi newest false false now w q).items ≡ rows_of items)
        × ((trash_page atoi newest false false now w q).total ≡ total)
        × ((trash_page atoi newest false false now w q).total_size ≡ size)
        × ((trash_page atoi newest false false now w q).limit ≡ limit)
        × ((trash_page atoi newest false false now w q).offset ≡ offset)
  unfolding trash_page list parse_pagination
  trash_page-eq-list atoi newest now w q items total size limit offset blank small listed =
      let active = keep is_trashed w.trash in
      let start = parameter (at_least 0) 0 (atoi q) in
      let same = trash_rows-list_items now (take 50 (drop start (newest active))) in
      elim (Bool-cases (q == "")) [
        | inl empty ↦
            let none_given : atoi q ≡ none = ap atoi ((eq_iff q "").0 empty) ∙ blank in
            (
              ground (arith, same, none_given),
              ground (arith, none_given),
              ground (arith, none_given),
              ground (arith, none_given),
              ground (arith, none_given),
            )
        | inr given ↦ (ground (arith, same), ground arith, ground arith, ground arith, ground arith)
      ]
