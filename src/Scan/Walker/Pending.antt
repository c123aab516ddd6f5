-- ===== src/Scan/Walker/Pending.antt =====
-- The counter of pending directories (internal/scan/walker.go): it counts the directories that are
-- queued or that a worker has, and the queue is closed only at 0.
use ditto.Prelude.{
  ℕ, zero, suc, ◌+◌, ◌≤◌, ◌≡◌, refl, List, [], ◌∷◌, Bool, true, false, String, arith, length,
  length-append, ap,
}
use ditto.Scan.Walker.Queue.{
  new_dir_queue, add_pending, push, finish, view, IsWellFormed, push-view, push-IsWellFormed,
}
use ditto.Scan.Walker.Turns.{sum, Either, AllTurns-Either, after_pop-cases, after_read-cases, run-P}
use ditto.Scan.Walker.Worker.{
  report, Tree, Entry, Worker, Shared, idle, waiting, exited, reading, scanning, pushing, closing,
  done, visit, act, seed, start_workers, start_shared, walk,
}

-- The directories that a worker is answerable for.
abbrev pub busy : Worker → ℕ
busy idle = 0
busy waiting = 0
busy exited = 0
busy (reading dir) = 1
busy (scanning dir es) = 1
busy (pushing path dir es) = 2
busy (closing leaves) = 0

-- Whether the worker is about to close the queue.
abbrev pub closers : Worker → ℕ
closers idle = 0
closers waiting = 0
closers exited = 0
closers (reading dir) = 0
closers (scanning dir es) = 0
closers (pushing path dir es) = 0
closers (closing leaves) = 1

-- With `n` directories in the hands of the workers and `m` workers about to close the queue: the counter
-- counts those directories and the queued ones, and is 0 if the queue is closed or about to be.
abbrev pub IsSound : Shared → ℕ → ℕ → Type 0
IsSound s n m =
    IsWellFormed s.queue
    × (n + length (view s.queue) ≡ s.queue.pending)
    × (s.queue.closed ≡ true → s.queue.pending ≡ 0)
    × (1 ≤ m → s.queue.pending ≡ 0)

-- What a step keeps, beside the directories and closers of the other workers.
abbrev Keeps : Worker × Shared → ℕ → ℕ → Type 0
Keeps (w, s) n m = IsSound s (busy w + n) (closers w + m)

done-Keeps :
    (leaves : Bool) (s : Shared) (n m : ℕ) → IsSound s (1 + n) (0 + m) → Keeps (done leaves s) n m
unfolding finish
done-Keeps leaves s n m (ok, count, shut, last) =
    (ok, ground arith, λ h. ground (arith, shut h), λ h. ground (arith, last))

visit-Keeps :
    (t : Tree) (c : Bool) (dir : String) (e : Entry) (es : List Entry) (s : Shared) (n m : ℕ)
    → IsSound s (1 + n) (0 + m)
    → Keeps (visit t c dir e es s) n m
unfolding visit finish
visit-Keeps t c dir e es s n m (ok, count, shut, last) =
    (ground arith, ground arith, λ h. ground (arith, shut), λ h. ground (arith, last))

act-Keeps :
    (t : Tree) (c : Bool) (w : Worker) (s : Shared) (n m : ℕ)
    → IsSound s (busy w + n) (closers w + m)
    → Keeps (act t c w s) n m
unfolding act finish push
act-Keeps t c idle s n m (ok, count, shut, last) =
    (ok, ground arith, shut, λ h. last (ground arith))
act-Keeps t c exited s n m sound = sound
act-Keeps t c waiting s n m (ok, count, shut, last) =
    after_pop-cases (λ r. Keeps r n m) s (λ _ _. (ok, count, shut, last))
      (λ _ _. (ok, count, shut, last))
      (λ q d ds v rest. (
        rest.1,
        ground (arith, rest),
        λ h. ground (arith, shut, rest),
        λ h. ground (arith, last, rest),
      ))
act-Keeps t c (reading dir) s n m (ok, count, shut, last) =
    after_read-cases (λ r. Keeps r n m) t dir s
      (λ _. done-Keeps false (report dir s) n m (ok, count, shut, last))
      (λ es _. (ok, count, shut, last))
act-Keeps t c (scanning dir []) s n m sound = done-Keeps false s n m sound
act-Keeps t c (scanning dir (e ∷ es)) s n m sound = visit-Keeps t c dir e es s n m sound
act-Keeps t c (pushing path dir es) s n m (ok, count, shut, last) = (
  push-IsWellFormed s.queue path ok,
  omega (arith, ap length (push-view s.queue path ok), length-append (view s.queue) (path ∷ [])),
  shut,
  last,
)
act-Keeps t c (closing leaves) s n m (ok, count, shut, last) =
    (ok, ground arith, λ h. last (omega arith), λ h. last (omega arith))

-- At the start, the roots are counted and queued.
seed-IsSound :
    (roots : List String) (s : Shared)
    → IsSound s 0 0
    → s.queue.closed ≡ false
    → IsSound (record s { queue = seed roots s.queue }) 0 0
      × (s.queue.pending + length roots ≡ (seed roots s.queue).pending)
      × ((seed roots s.queue).closed ≡ false)
unfolding push
seed-IsSound [] s sound up = (sound, omega arith, up)
seed-IsSound (r ∷ rs) s (ok, count, shut, last) up =
    let q = add_pending s.queue in
    let sound : IsSound (record s { queue = push q r }) 0 0 = (
      push-IsWellFormed q r ok,
      omega (arith, ap length (push-view q r ok), length-append (view q) (r ∷ [])),
      λ h. absurd (ground arith),
      λ h. absurd (omega arith),
    ) in
    let (sound', counted, up') = seed-IsSound rs (record s { queue = push q r }) sound up in
    (sound', omega (arith, counted), up')

pub sum-start_workers : (f : Worker → ℕ) (n : ℕ) → f idle ≡ 0 → sum f (start_workers n) ≡ 0
sum-start_workers f zero h = refl
sum-start_workers f (suc n) h = omega (arith, h, sum-start_workers f n h)

start-IsSound : (roots : List String) → IsSound (start_shared roots) 0 0
start-IsSound roots =
    let begin : Shared = record { queue = new_dir_queue; out = []; reports = [] } in
    (seed-IsSound roots begin (omega arith, refl, λ _. refl, λ _. refl) refl).0

pub start-IsWellFormed : (roots : List String) → IsWellFormed (start_shared roots).queue
start-IsWellFormed roots = (start-IsSound roots).0

pub pending-seed : (roots : List String) → (seed roots new_dir_queue).pending ≡ length roots
pending-seed roots =
    let begin : Shared = record { queue = new_dir_queue; out = []; reports = [] } in
    let (sound, counted, up) =
      seed-IsSound roots begin (omega arith, refl, λ _. refl, λ _. refl) refl in
    omega arith

-- Whatever the directories are, however the workers are interleaved and whenever the context is done:
-- the counter is the number of directories queued or in the hands of workers, and the queue is closed,
-- or about to be, only when there are none.
pub walk-IsSound :
    (t : Tree) (roots : List String) (workers : ℕ) (steps : List (ℕ × Bool))
    → IsSound
        (walk t roots workers steps).1
        (sum busy (walk t roots workers steps).0 + 0)
        (sum closers (walk t roots workers steps).0 + 0)
unfolding walk
walk-IsSound t roots workers steps =
    let (ok, count, shut, last) = start-IsSound roots in
    let none_busy = sum-start_workers busy workers refl in
    let none_closing = sum-start_workers closers workers refl in
    run-P t Either IsSound busy closers (λ c w s n m _ sound. act-Keeps t c w s n m sound) steps
      (start_workers workers) (start_shared roots) (AllTurns-Either steps)
      (ok, omega arith, shut, λ h. last (omega arith))
