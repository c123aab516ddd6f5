-- ===== src/Trash/Answers.antt =====
-- What the answers of TrashHandler (internal/api/handlers/trash.go) tell.
use ditto.Prelude.{
  ℕ, zero, suc, ◌≤◌, ◌≡◌, refl, List, [], ◌∷◌, Option, none, some, Bool, true, false, String, ℤ,
  pos, negsuc, in_range, ◌==◌, string_key, arith, keep, take, drop, length, count_if, sym, ◌∙◌, ap,
}
use ditto.Disk.{File, Faults}
use ditto.Trash.Manager.{
  TrashItem, World, DbFaults, Result, ok, err, stat_failed, mkdir_failed, move_failed,
  insert_failed, query_failed, not_trashed, restore_conflict, Names, is_trashed, find_trashed,
  restore,
}
use ditto.Trash.Move.{Holds}
use ditto.Trash.Outcomes.{restore-ok}
use ditto.Trash.Handlers.{
  page, restored, Listed, parameter, parse_pagination, list_items, list, restore_reply,
  answer_restore,
}

length-list_items : (now : ℕ) (rs : List TrashItem) → length (list_items now rs) ≡ length rs
length-list_items now [] = refl
length-list_items now (r ∷ rs) = ap suc (length-list_items now rs)

module _ (p : TrashItem → Bool) where
  count_if-take : (n : ℕ) (rs : List TrashItem) → count_if p (take n rs) ≤ count_if p rs
  count_if-take zero rs = omega arith
  count_if-take (suc n) [] = omega arith
  count_if-take (suc n) (r ∷ rs) = omega (arith, count_if-take n rs)

  count_if-drop : (n : ℕ) (rs : List TrashItem) → count_if p (drop n rs) ≤ count_if p rs
  count_if-drop zero rs = omega arith
  count_if-drop (suc n) [] = omega arith
  count_if-drop (suc n) (r ∷ rs) = omega (arith, count_if-drop n rs)

length-take : (n : ℕ) (rs : List TrashItem) → length (take n rs) ≤ n
length-take zero rs = omega arith
length-take (suc n) [] = omega arith
length-take (suc n) (r ∷ rs) = omega (arith, length-take n rs)

count_if-all : (rs : List TrashItem) → count_if (λ r. true) rs ≡ length rs
count_if-all [] = refl
count_if-all (r ∷ rs) = omega (arith, count_if-all rs)

parameter_bounds :
    (o : Option ℤ) → (1 ≤ parameter (in_range 1 200) 50 o) × (parameter (in_range 1 200) 50 o ≤ 200)
parameter_bounds none = (omega arith, omega arith)
parameter_bounds (some (pos n)) = (ground arith, ground arith)
parameter_bounds (some (negsuc n)) = (ground arith, ground arith)

pagination_bounds :
    (atoi : String → Option ℤ) (limit offset : String)
    → (1 ≤ (parse_pagination atoi limit offset).0) × ((parse_pagination atoi limit offset).0 ≤ 200)
unfolding parse_pagination
pagination_bounds atoi limit offset =
    let (low, high) = parameter_bounds (atoi limit) in (ground (arith, low), ground (arith, high))

-- Whatever the query parameters are, a list has a limit of 1 to 200, no more items than that, and no more
-- than it says there are in all, where the query of the totals is not refused. Ordering the rows neither
-- loses nor repeats one.
pub list_bounds :
    (atoi : String → Option ℤ) (newest : List TrashItem → List TrashItem) (ψ : Bool) (now : ℕ)
    (w : World) (limit offset : String) (items : List Listed) (total size n skip : ℕ)
    → ((p : TrashItem → Bool) (rs : List TrashItem) → count_if p (newest rs) ≡ count_if p rs)
    → list atoi newest ψ false now w limit offset ≡ page items total size n skip
    → (1 ≤ n) × (n ≤ 200) × (length items ≤ n) × (length items ≤ total)
unfolding list parse_pagination
list_bounds atoi newest ψ now w limit offset items total size n skip once h =
    let active = keep is_trashed w.trash in
    let (m, k) = parse_pagination atoi limit offset in
    let shown = take m (drop k (newest active)) in
    let (low, high) = pagination_bounds atoi limit offset in
    let same_limit : n ≡ m = ground arith in
    let same_total : total ≡ length active = ground arith in
    let same_items : items ≡ list_items now shown = ground arith in
    let few = length-list_items now shown in
    let short = length-take m (drop k (newest active)) in
    let within = count_if-take (λ r. true) m (drop k (newest active)) in
    let within' = count_if-drop (λ r. true) k (newest active) in
    let in_all = once (λ r. true) active in
    let counted = ap length same_items in
    (
      omega (arith, low, same_limit),
      omega (arith, high, same_limit),
      omega arith,
      omega (arith, count_if-all shown, count_if-all active),
    )

restored_reply :
    (k j : ℕ) (p path : String) (done : Result (Unit {0}))
    → restore_reply k p done ≡ restored j path
    → (done ≡ ok tt) × (j ≡ k) × (path ≡ p)
restored_reply k j p path (ok tt) h = (refl, ground arith, ground arith)
restored_reply k j p path (err stat_failed) h = absurd (cc)
restored_reply k j p path (err mkdir_failed) h = absurd (cc)
restored_reply k j p path (err move_failed) h = absurd (cc)
restored_reply k j p path (err insert_failed) h = absurd (cc)
restored_reply k j p path (err query_failed) h = absurd (cc)
restored_reply k j p path (err not_trashed) h = absurd (cc)
restored_reply k j p path (err restore_conflict) h = absurd (cc)

restore-query :
    (φ : Faults) (ψ : DbFaults) (now : ℕ) (n : Names) (w : World) (k : ℕ)
    → (restore φ ψ now n w k).1 ≡ ok tt
    → ψ.query ≡ false
unfolding restore
restore-query φ ψ now n w k h = ground arith

-- A restore that is answered as done has put the content of the file in the trash at the path that the
-- answer names, which is the item's, and left nothing in the trash. (The two paths differ.)
pub answer_restore-restored :
    (parse_int : String → Option ℕ) (φ : Faults) (ψ : DbFaults) (now : ℕ) (n : Names)
    (refused : Bool) (w : World) (id path : String) (k j : ℕ) (r : TrashItem) (f : File)
    → parse_int id ≡ some k
    → find_trashed k w.trash ≡ some r
    → w.disk r.trash_path ≡ some f
    → (r.trash_path == r.original_path) ≡ false
    → (answer_restore parse_int φ ψ now n refused w id).1 ≡ restored j path
    → (j ≡ k)
      × (path ≡ r.original_path)
      × Holds (answer_restore parse_int φ ψ now n refused w id).0.disk path f.content
      × ((answer_restore parse_int φ ψ now n refused w id).0.disk r.trash_path ≡ none)
unfolding answer_restore
answer_restore-restored parse_int φ ψ now n refused w id path k j r f at there there_f ne h =
    let (w', done) = restore φ ψ now n w k in
    let answered : answer_restore parse_int φ ψ now n refused w id
        ≡ (w', restore_reply k r.original_path done) =
      ground arith in
    let (succeeded, same_id, same_path) =
      restored_reply k j r.original_path path done (ap (λ a. a.1) (sym answered) ∙ h) in
    let (held, gone) =
      restore-ok φ ψ now n w k r f (restore-query φ ψ now n w k succeeded) there there_f ne
        succeeded in
    (same_id, same_path, rw (answered, same_path) held, rw answered gone)
