-- ===== src/Scan/Walker/Complete.antt =====
-- What the walk finds (internal/scan/walker.go), in any interleaving of its workers.
use ditto.Prelude.{
  ℕ, ◌+◌, ◌≤◌, ◌≡◌, refl, inl, inr, List, [], ◌∷◌, ◌++◌, none, some, Bool, false, String, arith,
  count_if, count_if-append, sym, ap, ◌∙◌, Bool-cases,
}
use ditto.Scan.Types.{FileInfo}
use ditto.Scan.Walker.Queue.{
  DirQueue, new_dir_queue, add_pending, push, finish, view, IsWellFormed, push-view,
  push-IsWellFormed,
}
use ditto.Scan.Walker.Worker.{
  Tree, Kind, Entry, Worker, Shared, idle, waiting, exited, reading, scanning, pushing, closing,
  directory, symlink, special, regular, visit, visit_kind, act, seed, start_workers, start_shared,
  walk,
}
use ditto.Scan.Walker.Files.{
  listed, entry_files, files_below, IsFinite, files_below-read, files_below-unreadable,
}
use ditto.Scan.Walker.Pending.{sum-start_workers, start-IsWellFormed}
use ditto.Scan.Walker.Leaving.{AllExited, walk-AllExited}
use ditto.Scan.Walker.Turns.{
  sum, Uncancelled, Either, AllTurns-Either, after_pop-cases, after_read-cases, run-P,
}

module _ (t : Tree) (weight : String → ℕ) (finite : IsFinite t weight) (p : FileInfo → Bool) where
  -- The files that pass the test: below a directory, below several, and those a worker has yet to find.
  abbrev found_below : String → ℕ
  found_below dir = count_if p (files_below t weight dir)

  abbrev pub found_below_all : List String → ℕ
  found_below_all [] = 0
  found_below_all (d ∷ ds) = found_below d + found_below_all ds

  abbrev to_find : Worker → ℕ
  to_find idle = 0
  to_find waiting = 0
  to_find exited = 0
  to_find (reading dir) = found_below dir
  to_find (scanning dir es) = count_if p (listed t (files_below t weight) dir es)
  to_find (pushing path dir es) =
      found_below path + count_if p (listed t (files_below t weight) dir es)
  to_find (closing leaves) = 0

  -- What was sent and what is to be found, beside the `n` of the other workers.
  abbrev account : Worker × Shared → ℕ
  account (w, s) = count_if p s.out + found_below_all (view s.queue) + to_find w

  found_below_all-append :
      (ds es : List String) → found_below_all (ds ++ es) ≡ found_below_all ds + found_below_all es
  found_below_all-append [] es = omega arith
  found_below_all-append (d ∷ ds) es = omega (arith, found_below_all-append ds es)

  -- A step keeps the account, or lowers it where the context is done.
  abbrev Balances : Bool → ℕ → Worker × Shared → Type 0
  Balances c before after =
      IsWellFormed (after.1).queue × (account after ≤ before) × (c ≡ false → account after ≡ before)

  visit_kind-Balances :
      (c : Bool) (path dir : String) (k : Kind) (es : List Entry) (s : Shared) (before : ℕ)
      → IsWellFormed s.queue
      → count_if p s.out
          + found_below_all (view s.queue)
          + (count_if p (entry_files t (files_below t weight) path k)
              + count_if p (listed t (files_below t weight) dir es))
        ≡ before
      → Balances c before (visit_kind c path k dir es s)
  unfolding finish
  visit_kind-Balances c path dir directory es s before ok e = (ok, ground arith, λ h. ground arith)
  visit_kind-Balances c path dir symlink es s before ok e = (ok, ground arith, λ h. ground arith)
  visit_kind-Balances c path dir special es s before ok e = (ok, ground arith, λ h. ground arith)
  visit_kind-Balances c path dir (regular none) es s before ok e =
      (ok, ground arith, λ h. ground arith)
  visit_kind-Balances c path dir (regular (some (size, mtime))) es s before ok e =
      (ground arith, ground arith, λ h. ground arith)

  visit-Balances :
      (c : Bool) (dir : String) (e : Entry) (es : List Entry) (s : Shared)
      → IsWellFormed s.queue
      → Balances c (account (scanning dir (e ∷ es), s)) (visit t c dir e es s)
  unfolding visit
  visit-Balances c dir e es s ok =
      let path = t.join dir e.name in
      let split =
        count_if-append p (entry_files t (files_below t weight) path e.kind)
          (listed t (files_below t weight) dir es) in
      elim (Bool-cases (t.excluded path)) [
        | inl out ↦ rw out (ok, omega arith, λ _. refl)
        | inr kept ↦ rw kept (
            visit_kind-Balances c path dir e.kind es s _ ok
              (ap (λ k. count_if p s.out + found_below_all (view s.queue) + k) (sym split)))
      ]

  act-Balances :
      (c : Bool) (w : Worker) (s : Shared)
      → IsWellFormed s.queue
      → Balances c (account (w, s)) (act t c w s)
  unfolding act finish push
  act-Balances c idle s ok = (ok, ground arith, λ h. ground arith)
  act-Balances c exited s ok = (ok, omega arith, λ h. refl)
  act-Balances c waiting s ok =
      after_pop-cases (Balances c (account (waiting, s))) s (λ _ _. (ok, omega arith, λ h. refl))
        (λ _ _. (ok, omega arith, λ h. refl))
        (λ q d ds v rest.
          let moved : found_below_all (view s.queue) ≡ found_below d + found_below_all (view q) =
            ap found_below_all v ∙ rw (rest.0) refl in
          (rest.1, omega arith, λ h. omega arith))
  act-Balances c (reading dir) s ok =
      after_read-cases (Balances c (account (reading dir, s))) t dir s
        (λ failed.
          let none_below = ap (count_if p) (files_below-unreadable t weight finite dir failed) in
          (ok, ground arith, λ h. ground arith))
        (λ es read.
          let below = ap (count_if p) (files_below-read t weight finite dir es read) in
          (ok, omega arith, λ h. omega arith))
  act-Balances c (scanning dir []) s ok = (ok, ground arith, λ h. ground arith)
  act-Balances c (scanning dir (e ∷ es)) s ok = visit-Balances c dir e es s ok
  act-Balances c (pushing path dir es) s ok =
      let queued =
        ap found_below_all (push-view s.queue path ok)
        ∙ found_below_all-append (view s.queue) (path ∷ []) in
      (push-IsWellFormed s.queue path ok, omega arith, λ h. omega arith)
  act-Balances c (closing leaves) s ok = (ok, ground arith, λ h. ground arith)

  found_below_all-seed :
      (roots : List String) (q : DirQueue)
      → IsWellFormed q
      → found_below_all (view (seed roots q)) ≡ found_below_all (view q) + found_below_all roots
  unfolding push
  found_below_all-seed [] q ok = omega arith
  found_below_all-seed (r ∷ rs) q ok =
      let queued =
        ap found_below_all (push-view q r ok) ∙ found_below_all-append (view q) (r ∷ []) in
      omega
        (arith, queued, found_below_all-seed rs (push (add_pending q) r) (push-IsWellFormed q r ok))

  AllExited-to_find : (ws : List Worker) → AllExited ws → sum to_find ws ≡ 0
  AllExited-to_find [] all = refl
  AllExited-to_find (w ∷ ws) (left, all) = omega (arith, ap to_find left, AllExited-to_find ws all)

  module _ (roots : List String) (workers : ℕ) where
    -- What is sent and to be found, exactly or at most what there is.
    abbrev IsExact : Shared → ℕ → ℕ → Type 0
    IsExact s n m =
        IsWellFormed s.queue
        × (count_if p s.out + found_below_all (view s.queue) + n ≡ found_below_all roots)

    abbrev IsWithin : Shared → ℕ → ℕ → Type 0
    IsWithin s n m =
        IsWellFormed s.queue
        × (count_if p s.out + found_below_all (view s.queue) + n ≤ found_below_all roots)

    at_start : IsExact (start_shared roots) (sum to_find (start_workers workers) + 0) 0
    at_start =
        let counted = found_below_all-seed roots new_dir_queue (omega arith) in
        let sound = start-IsWellFormed roots in
        (sound, omega (arith, sum-start_workers to_find workers refl))

    exact_account :
        (steps : List (ℕ × Bool))
        → Uncancelled steps
        → count_if p (walk t roots workers steps).1.out
            + found_below_all (view (walk t roots workers steps).1.queue)
            + sum to_find (walk t roots workers steps).0
          ≡ found_below_all roots
    unfolding walk
    exact_account steps calm =
        let kept =
          run-P t (λ c. c ≡ false) IsExact to_find (λ w. 0)
            (λ c w s n m quiet (ok, e).
              let (ok', less, same) = act-Balances c w s ok in (ok', omega (arith, same quiet)))
            steps (start_workers workers) (start_shared roots) calm at_start in
        omega (arith, kept.1)

    within_account :
        (steps : List (ℕ × Bool))
        → count_if p (walk t roots workers steps).1.out ≤ found_below_all roots
    unfolding walk
    within_account steps =
        let (ok, e) = at_start in
        let kept =
          run-P t Either IsWithin to_find (λ w. 0)
            (λ c w s n m _ (ok, e).
              let (ok', less, same) = act-Balances c w s ok in (ok', omega arith))
            steps (start_workers workers) (start_shared roots) (AllTurns-Either steps)
            (ok, omega arith) in
        omega (arith, kept.1)

  pub walk_complete :
      (roots : List String) (workers : ℕ) (steps : List (ℕ × Bool))
      → Uncancelled steps
      → 1 ≤ workers
      → AllExited (walk t roots workers steps).0
      → count_if p (walk t roots workers steps).1.out ≡ found_below_all roots
  walk_complete roots workers steps calm some_worker all =
      let (down, v) = walk-AllExited t roots workers steps calm some_worker all in
      let nothing_left = ap found_below_all v in
      let idle_workers = AllExited-to_find (walk t roots workers steps).0 all in
      omega (arith, exact_account roots workers steps calm)

  -- Whatever is cancelled and when, a walk over a finite tree sends nothing that is not a regular file
  -- below its roots, by the same measure, and no file more often than there are roots above it.
  pub walk_within :
      (roots : List String) (workers : ℕ) (steps : List (ℕ × Bool))
      → count_if p (walk t roots workers steps).1.out ≤ found_below_all roots
  walk_within roots workers steps = within_account roots workers steps
