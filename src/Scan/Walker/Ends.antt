-- ===== src/Scan/Walker/Ends.antt =====
-- Why the walk ends (internal/scan/walker.go): every step that is not a wait in Pop uses up a finite
-- effort, and as long as a worker has not returned, one of them can move.
use ditto.Prelude.{
  ℕ, zero, suc, ◌+◌, ◌*◌, ◌≤◌, ◌<◌, ◌≡◌, ◌⊎◌, inl, inr, refl, List, [], ◌∷◌, ◌++◌, Bool, true,
  false, not, ◌||◌, String, if◌then◌else◌, arith, length, ap, ◌∙◌,
}
use ditto.Scan.Walker.Queue.{
  DirQueue, new_dir_queue, add_pending, push, finish, view, IsWellFormed, push-view,
  push-IsWellFormed,
}
use ditto.Scan.Walker.Worker.{
  Tree, Entry, Worker, Shared, idle, waiting, exited, reading, scanning, pushing, closing, visit,
  act, turn, run, seed, start_workers, start_shared, walk,
}
use ditto.Scan.Walker.Files.{total, IsFinite}
use ditto.Scan.Walker.Pending.{busy, closers, walk-IsSound, start-IsWellFormed, pending-seed}
use ditto.Scan.Walker.Leaving.{AllExited}
use ditto.Scan.Walker.Turns.{sum, Either, AllTurns-Either, after_pop-cases, after_read-cases, run-P}

abbrev pub is_nil : List String → Bool
is_nil [] = true
is_nil (d ∷ ds) = false

is_nil_lem : (ds : List String) → is_nil ds ≡ true → ds ≡ []
is_nil_lem [] h = refl
is_nil_lem (d ∷ ds) h = absurd (cc)

-- Can the worker go on? One that has returned cannot, nor one that waits in Pop on an open, empty queue.
abbrev pub can_move : Worker → Shared → Bool
can_move exited s = false
can_move waiting s = not (is_nil (view s.queue)) || s.queue.closed
can_move idle s = true
can_move (reading dir) s = true
can_move (scanning dir es) s = true
can_move (pushing path dir es) s = true
can_move (closing leaves) s = true

abbrev pub can_turn : ℕ → List Worker → Shared → Bool
can_turn i [] s = false
can_turn zero (w ∷ ws) s = can_move w s
can_turn (suc i) (w ∷ ws) s = can_turn i ws s

-- No worker can go on.
abbrev pub AllBlocked : List Worker → Shared → Type 0
AllBlocked [] s = Unit
AllBlocked (w ∷ ws) s = (can_move w s ≡ false) × AllBlocked ws s

-- Every step of the schedule is one of a worker that can go on.
abbrev pub AllMove : Tree → List (ℕ × Bool) → List Worker → Shared → Type 0
AllMove t [] ws s = Unit
AllMove t ((i, c) ∷ steps) ws s =
    (can_turn i ws s ≡ true) × AllMove t steps (turn t c i ws s).0 (turn t c i ws s).1

module _ (t : Tree) (weight : String → ℕ) (finite : IsFinite t weight) where
  abbrev dir_load : String → ℕ
  dir_load dir = 10 * weight dir + 6

  abbrev pub dirs_load : List String → ℕ
  dirs_load [] = 0
  dirs_load (d ∷ ds) = dir_load d + dirs_load ds

  abbrev pub effort : Worker → ℕ
  effort idle = 3
  effort waiting = 2
  effort exited = 0
  effort (reading dir) = 10 * weight dir + 6
  effort (scanning dir es) = 10 * total t weight dir es + 5
  effort (pushing path dir es) = dir_load path + 10 * total t weight dir es + 6
  effort (closing leaves) = 4

  dirs_load-append : (ds es : List String) → dirs_load (ds ++ es) ≡ dirs_load ds + dirs_load es
  dirs_load-append [] es = omega arith
  dirs_load-append (d ∷ ds) es = omega (arith, dirs_load-append ds es)

  -- A step lowers the effort, if the worker can move.
  abbrev Lowers : Bool → ℕ → Worker × Shared → Type 0
  Lowers moves before (w, s) =
      IsWellFormed s.queue × (moves ≡ true → dirs_load (view s.queue) + effort w < before)

  visit-Lowers :
      (c : Bool) (dir : String) (e : Entry) (es : List Entry) (s : Shared)
      → IsWellFormed s.queue
      → Lowers true
          (dirs_load (view s.queue) + effort (scanning dir (e ∷ es)))
          (visit t c dir e es s)
  unfolding visit finish
  visit-Lowers c dir e es s ok = (ground arith, λ h. ground arith)

  act-Lowers :
      (c : Bool) (w : Worker) (s : Shared)
      → IsWellFormed s.queue
      → Lowers (can_move w s) (dirs_load (view s.queue) + effort w) (act t c w s)
  unfolding act finish push
  act-Lowers c idle s ok = (ok, λ h. ground arith)
  act-Lowers c exited s ok = (ok, λ h. absurd (ground arith))
  act-Lowers c waiting s ok =
      after_pop-cases (Lowers (can_move waiting s) (dirs_load (view s.queue) + 2)) s
        (λ v up. (ok, λ h. absurd (ground arith))) (λ v down. (ok, λ h. omega arith))
        (λ q d ds v rest.
          let moved = ap dirs_load v in
          let kept = ap dirs_load rest.0 in (rest.1, λ h. omega arith))
  act-Lowers c (reading dir) s ok =
      after_read-cases (Lowers true (dirs_load (view s.queue) + effort (reading dir))) t dir s
        (λ failed. (ok, λ h. ground arith))
        (λ es read. (ok, λ h. omega (arith, finite dir es read)))
  act-Lowers c (scanning dir []) s ok = (ok, λ h. ground arith)
  act-Lowers c (scanning dir (e ∷ es)) s ok = visit-Lowers c dir e es s ok
  act-Lowers c (pushing path dir es) s ok =
      let queued =
        ap dirs_load (push-view s.queue path ok) ∙ dirs_load-append (view s.queue) (path ∷ []) in
      (push-IsWellFormed s.queue path ok, λ h. omega arith)
  act-Lowers c (closing leaves) s ok = (ok, λ h. ground arith)

  turn-Lowers :
      (c : Bool) (i : ℕ) (ws : List Worker) (s : Shared)
      → IsWellFormed s.queue
      → can_turn i ws s ≡ true
      → IsWellFormed (turn t c i ws s).1.queue
        × (dirs_load (view (turn t c i ws s).1.queue) + sum effort (turn t c i ws s).0
            < dirs_load (view s.queue) + sum effort ws)
  unfolding turn
  turn-Lowers c i [] s ok h = absurd (cc)
  turn-Lowers c zero (w ∷ ws) s ok h =
      let (ok', less) = act-Lowers c w s ok in (ok', omega (arith, less h))
  turn-Lowers c (suc i) (w ∷ ws) s ok h =
      let (ok', less) = turn-Lowers c i ws s ok h in (ok', omega arith)

  run-Lowers :
      (steps : List (ℕ × Bool)) (ws : List Worker) (s : Shared)
      → IsWellFormed s.queue
      → AllMove t steps ws s
      → length steps ≤ dirs_load (view s.queue) + sum effort ws
  unfolding run
  run-Lowers [] ws s ok h = omega arith
  run-Lowers ((i, c) ∷ steps) ws s ok (now, later) =
      let (ok', less) = turn-Lowers c i ws s ok now in
      omega (arith, run-Lowers steps (turn t c i ws s).0 (turn t c i ws s).1 ok' later)

  dirs_load-seed :
      (roots : List String) (q : DirQueue)
      → IsWellFormed q
      → dirs_load (view (seed roots q)) ≡ dirs_load (view q) + dirs_load roots
  unfolding push
  dirs_load-seed [] q ok = omega arith
  dirs_load-seed (r ∷ rs) q ok =
      let queued = ap dirs_load (push-view q r ok) ∙ dirs_load-append (view q) (r ∷ []) in
      omega (arith, queued, dirs_load-seed rs (push (add_pending q) r) (push-IsWellFormed q r ok))

  effort-start_workers : (n : ℕ) → sum effort (start_workers n) ≡ 3 * n
  effort-start_workers zero = refl
  effort-start_workers (suc n) = omega (arith, effort-start_workers n)

-- The queue is closed, or about to be, or a directory is pending.
abbrev open_or_closed : Bool → ℕ
open_or_closed closed = if closed then 1 else 0

abbrev IsAlive : Shared → ℕ → ℕ → Type 0
IsAlive s n m = 1 ≤ s.queue.pending + open_or_closed s.queue.closed + m

act-IsAlive :
    (t : Tree) (c : Bool) (w : Worker) (s : Shared) (n m : ℕ)
    → IsAlive s (0 + n) (closers w + m)
    → IsAlive (act t c w s).1 (0 + n) (closers (act t c w s).0 + m)
unfolding act finish push visit
act-IsAlive t c idle s n m h = ground arith
act-IsAlive t c exited s n m h = h
act-IsAlive t c waiting s n m h =
    after_pop-cases (λ r. IsAlive r.1 (0 + n) (closers r.0 + m)) s (λ _ _. h) (λ _ _. h)
      (λ q d ds v rest. omega (arith, rest.2, ap open_or_closed rest.3))
act-IsAlive t c (reading dir) s n m h =
    after_read-cases (λ r. IsAlive r.1 (0 + n) (closers r.0 + m)) t dir s (λ _. ground arith)
      (λ es _. h)
act-IsAlive t c (scanning dir []) s n m h = ground arith
act-IsAlive t c (scanning dir (e ∷ es)) s n m h = ground arith
act-IsAlive t c (pushing path dir es) s n m h = h
act-IsAlive t c (closing leaves) s n m h = ground arith

AllBlocked-cases :
    (ws : List Worker) (s : Shared)
    → AllBlocked ws s
    → (sum busy ws ≡ 0)
      × (sum closers ws ≡ 0)
      × (AllExited ws ⊎ ((view s.queue ≡ []) × (s.queue.closed ≡ false)))
AllBlocked-cases [] s h = (refl, refl, inl tt)
AllBlocked-cases (exited ∷ ws) s (_, h) =
    let (quiet, none_closing, rest) = AllBlocked-cases ws s h in
    (omega arith, omega arith, elim rest [ inl all ↦ inl (refl, all) | inr e ↦ inr e ])
AllBlocked-cases (waiting ∷ ws) s (stuck, h) =
    let (quiet, none_closing, _) = AllBlocked-cases ws s h in
    (omega arith, omega arith, inr (is_nil_lem (view s.queue) (ground arith), ground arith))
AllBlocked-cases (idle ∷ ws) s (stuck, h) = absurd (ground arith)
AllBlocked-cases (reading dir ∷ ws) s (stuck, h) = absurd (ground arith)
AllBlocked-cases (scanning dir es ∷ ws) s (stuck, h) = absurd (ground arith)
AllBlocked-cases (pushing path dir es ∷ ws) s (stuck, h) = absurd (ground arith)
AllBlocked-cases (closing leaves ∷ ws) s (stuck, h) = absurd (ground arith)

-- A walk with a root at least, over a finite tree, whose channel of files never blocks for want of a
-- receiver or of room: however its workers are interleaved and whenever the
-- context is done, it makes no more steps than a bound that depends on the tree, the roots and the
-- workers alone, not counting waits in Pop; and when no worker can go on, all have returned.
pub walk_ends :
    (t : Tree) (weight : String → ℕ) (finite : IsFinite t weight) (roots : List String)
    (workers : ℕ) (steps : List (ℕ × Bool))
    → 1 ≤ length roots
    → AllMove t steps (start_workers workers) (start_shared roots)
    → (length steps ≤ dirs_load t weight finite roots + 3 * workers)
      × (AllBlocked (walk t roots workers steps).0 (walk t roots workers steps).1
          → AllExited (walk t roots workers steps).0)
unfolding walk
walk_ends t weight finite roots workers steps rooted move =
    let counted = pending-seed roots in
    let alive =
      run-P t Either IsAlive (λ w. 0) closers (λ c w s n m _ h. act-IsAlive t c w s n m h) steps
        (start_workers workers) (start_shared roots) (AllTurns-Either steps) (omega arith) in
    let (ok, count, shut, last) = walk-IsSound t roots workers steps in
    let (ws, s) = walk t roots workers steps in
    (
      omega (
        arith,
        run-Lowers t weight finite steps (start_workers workers) (start_shared roots)
            (start-IsWellFormed roots) move,
        dirs_load-seed t weight finite roots new_dir_queue (omega arith),
        effort-start_workers t weight finite workers,
      ),
      λ stuck.
          let (quiet, none_closing, rest) = AllBlocked-cases ws s stuck in
          elim rest [
            | inl all ↦ all
            | inr (v, up) ↦ absurd (omega (arith, ap length v, ap open_or_closed up))
          ],
    )
