-- ===== src/Trash/Handlers.antt =====
-- TrashHandler (internal/api/handlers/trash.go), and parsePagination, which the lists share
-- (internal/api/handlers/scans.go). strconv's numbers, the JSON body and the order of the query's rows are
-- parameters.
use ditto.Prelude.{
  ℕ, ◌+◌, ◌-◌, ◌*◌, ◌/◌, List, [], ◌∷◌, Option, none, some, Bool, true, false, String, ℤ, pos,
  negsuc, in_range, at_least, if◌then◌else◌, ◌==◌, string_key, keep, take, drop, length,
}
use ditto.Disk.{Faults}
use ditto.Trash.Manager.{
  TrashItem, World, DbFaults, Result, ok, err, not_trashed, restore_conflict, Names, is_trashed,
  find_trashed, restore, purge_all,
}

abbrev pub to_nat : ℤ → ℕ
to_nat (pos n) = n
to_nat (negsuc n) = 0

-- A query parameter: what it says if it is a number that is allowed, else the default.
abbrev pub parameter : (ℤ → Bool) → ℕ → Option ℤ → ℕ
parameter allowed default none = default
parameter allowed default (some n) = if allowed n then to_nat n else default

-- parsePagination: limit and offset. A parameter that is left out is the empty text.
unfoldable pub parse_pagination : (String → Option ℤ) → String → String → ℕ × ℕ
parse_pagination atoi limit offset = (
  if limit == "" then 50 else parameter (in_range 1 200) 50 (atoi limit),
  if offset == "" then 0 else parameter (at_least 0) 0 (atoi offset),
)

-- An item of the list, with its days_remaining.
pub record Listed : Type 0 where
  pub item : TrashItem
  pub days_remaining : ℕ

pub data Reply : Type 0 where
  invalid_id not_found conflict confirmation_required internal_error : Reply
  restored : ℕ → String → Reply
  purged : ℕ → ℕ → Reply
  -- the items, their number and size in all, the limit and the offset
  page : List Listed → ℕ → ℕ → ℕ → ℕ → Reply

-- Whole days from `now`, in nanoseconds, to a time in seconds; 0 if that is past.
abbrev pub days_until : ℕ → ℕ → ℕ
days_until now expires = (expires * 1_000_000_000 - now) / 86_400_000_000_000

abbrev pub list_items : ℕ → List TrashItem → List Listed
list_items now [] = []
list_items now (r ∷ rs) =
    record { item = r; days_remaining = days_until now r.expires_at } ∷ list_items now rs

abbrev pub sum_sizes : List TrashItem → ℕ
sum_sizes [] = 0
sum_sizes (r ∷ rs) = r.file_size + sum_sizes rs

-- List: the newest first, as `newest` orders them; `ψ` and `χ` say whether the queries of the page and of
-- the totals are refused, the latter of which leaves 0.
unfoldable pub list :
    (String → Option ℤ)
    → (List TrashItem → List TrashItem)
    → Bool
    → Bool
    → ℕ
    → World
    → String
    → String
    → Reply
list atoi newest ψ χ now w limit offset =
    let (n, skip) = parse_pagination atoi limit offset in
    let active = keep is_trashed w.trash in
    let items = list_items now (take n (drop skip (newest active))) in
    if ψ
    then internal_error
    else page items (if χ then 0 else length active) (if χ then 0 else sum_sizes active) n skip

abbrev pub restore_reply : ℕ → String → Result (Unit {0}) → Reply
restore_reply k path (ok tt) = restored k path
restore_reply k path (err not_trashed) = not_found
restore_reply k path (err restore_conflict) = conflict
restore_reply k path (err _) = internal_error

module _ (parse_int : String → Option ℕ) (φ : Faults) (ψ : DbFaults) (now : ℕ) (n : Names) where
  -- Restore: the path is read first, for the answer; `refused` says whether that query is refused.
  unfoldable pub answer_restore : Bool → World → String → World × Reply
  answer_restore refused w id = elim (parse_int id) [
    | none ↦ (w, invalid_id)
    | some k ↦ if refused then (w, internal_error) else elim (find_trashed k w.trash) [
      | none ↦ (w, not_found)
      | some r ↦
          let (w', done) = restore φ ψ now n w k in (w', restore_reply k r.original_path done)
    ]
  ]

  -- PurgeAll: `confirm` is the body's, or none if it cannot be decoded.
  unfoldable pub answer_purge : ℕ → World → Option Bool → World × Reply
  answer_purge live w none = (w, confirmation_required)
  answer_purge live w (some false) = (w, confirmation_required)
  answer_purge live w (some true) =
      let (w', done) = purge_all φ ψ now live w in
      elim done [ ok (count, bytes) ↦ (w', purged count bytes) | err e ↦ (w', internal_error) ]
