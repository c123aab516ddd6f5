-- ===== src/Scan/Walker/Leaving.antt =====
-- When the workers of a walk return (internal/scan/walker.go).
use ditto.Prelude.{
  ℕ, zero, suc, ◌+◌, ◌≤◌, ◌≡◌, ◌≢◌, ◌∙◌, length, refl, List, [], ◌∷◌, Bool, true, false, String,
  arith, ap, sym,
}
use ditto.Scan.Walker.Queue.{push, finish, view}
use ditto.Scan.Walker.Worker.{
  Tree, Entry, Worker, Shared, idle, waiting, exited, reading, scanning, pushing, closing, visit,
  act, start_workers, start_shared, walk,
}
use ditto.Scan.Walker.Pending.{busy, closers, walk-IsSound, sum-start_workers}
use ditto.Scan.Walker.Turns.{
  sum, Uncancelled, Either, AllTurns-Either, after_pop-cases, after_read-cases, run-P,
}

-- Where a worker is gone, the queue is closed, unless the context was done.
abbrev pub gone : Worker → ℕ
gone idle = 0
gone waiting = 0
gone exited = 1
gone (reading dir) = 0
gone (scanning dir es) = 0
gone (pushing path dir es) = 0
gone (closing leaves) = 0

abbrev pub one : Worker → ℕ
one w = 1

sum-one : (n : ℕ) → sum one (start_workers n) ≡ n
sum-one zero = refl
sum-one (suc n) = omega (arith, sum-one n)

-- All workers have returned.
abbrev pub AllExited : List Worker → Type 0
AllExited [] = Unit
AllExited (w ∷ ws) = (w ≡ exited) × AllExited ws

-- How many workers there are, and whether the queue is closed once one is gone.
abbrev pub Leaves : ℕ → Shared → ℕ → ℕ → Type 0
Leaves workers s n m = (n ≡ workers) × (1 ≤ m → s.queue.closed ≡ true)

visit-Leaves :
    (t : Tree) (c : Bool) (dir : String) (e : Entry) (es : List Entry) (s : Shared)
    → c ≡ false
    → ((visit t c dir e es s).1.queue.closed ≡ s.queue.closed) × (gone (visit t c dir e es s).0 ≡ 0)
unfolding visit finish
visit-Leaves t c dir e es s calm = (ground arith, ground arith)

act-Leaves :
    (t : Tree) (workers : ℕ) (c : Bool) (w : Worker) (s : Shared) (n m : ℕ)
    → c ≡ false
    → Leaves workers s (one w + n) (gone w + m)
    → Leaves workers (act t c w s).1 (one (act t c w s).0 + n) (gone (act t c w s).0 + m)
unfolding act finish push
act-Leaves t workers c idle s n m calm (many, shut) = (many, λ h. ground (arith, shut))
act-Leaves t workers c exited s n m calm kept = kept
act-Leaves t workers c waiting s n m calm (many, shut) =
    after_pop-cases (λ r. Leaves workers r.1 (one r.0 + n) (gone r.0 + m)) s (λ _ _. (many, shut))
      (λ v down. (many, λ _. down)) (λ q d ds v rest. (many, λ h. ground (arith, shut, rest)))
act-Leaves t workers c (reading dir) s n m calm (many, shut) =
    after_read-cases (λ r. Leaves workers r.1 (one r.0 + n) (gone r.0 + m)) t dir s
      (λ _. (ground arith, λ h. ground (arith, shut))) (λ es _. (many, shut))
act-Leaves t workers c (scanning dir []) s n m calm (many, shut) =
    (ground arith, λ h. ground (arith, shut))
act-Leaves t workers c (scanning dir (e ∷ es)) s n m calm (many, shut) =
    let (same, stays) = visit-Leaves t c dir e es s calm in (many, λ h. same ∙ shut (omega arith))
act-Leaves t workers c (pushing path dir es) s n m calm kept = kept
act-Leaves t workers c (closing leaves) s n m calm (many, shut) = (ground arith, λ _. refl)

-- In a walk whose context is never done, the workers stay as many, and none returns before the queue
-- is closed.
pub walk-Leaves :
    (t : Tree) (roots : List String) (workers : ℕ) (steps : List (ℕ × Bool))
    → Uncancelled steps
    → Leaves workers
        (walk t roots workers steps).1
        (sum one (walk t roots workers steps).0 + 0)
        (sum gone (walk t roots workers steps).0 + 0)
unfolding walk
walk-Leaves t roots workers steps calm =
    run-P t (λ c. c ≡ false) (Leaves workers) one gone
      (λ c w s n m quiet kept. act-Leaves t workers c w s n m quiet kept) steps
      (start_workers workers) (start_shared roots) calm
      (
        omega (arith, sum-one workers),
        λ h. absurd (omega (arith, sum-start_workers gone workers refl)),
      )

nil_or_cons : (d : String) (ds : List String) → [] ≢ d ∷ ds
nil_or_cons d ds h = absurd (cc)

no_items : (ds : List String) → length ds ≡ 0 → ds ≡ []
no_items [] h = refl
no_items (d ∷ ds) h = absurd (omega arith)

-- What is shared when there is no root: nothing is queued, and the queue stays open.
abbrev IsRootless : Shared → ℕ → ℕ → Type 0
IsRootless s n m = (view s.queue ≡ []) × (s.queue.closed ≡ false) × (n ≡ 0) × (m ≡ 0)

act-IsRootless :
    (t : Tree) (c : Bool) (w : Worker) (s : Shared) (n m : ℕ)
    → IsRootless s (busy w + n) (closers w + m)
    → IsRootless (act t c w s).1 (busy (act t c w s).0 + n) (closers (act t c w s).0 + m)
unfolding act
act-IsRootless t c idle s n m kept = ground (arith, kept)
act-IsRootless t c exited s n m kept = kept
act-IsRootless t c waiting s n m (v, up, e, e') =
    after_pop-cases (λ r. IsRootless r.1 (busy r.0 + n) (closers r.0 + m)) s (λ _ _. (v, up, e, e'))
      (λ _ _. (v, up, e, e')) (λ q d ds v' rest. absurd (nil_or_cons d ds (sym v ∙ v')))
act-IsRootless t c (reading dir) s n m (v, up, e, e') = absurd (omega arith)
act-IsRootless t c (scanning dir es) s n m (v, up, e, e') = absurd (omega arith)
act-IsRootless t c (pushing path dir es) s n m (v, up, e, e') = absurd (omega arith)
act-IsRootless t c (closing leaves) s n m (v, up, e, e') = absurd (omega arith)

-- With no root, no worker ever returns, however long the walk runs, unless its context is done.
pub walk-no_roots :
    (t : Tree) (workers : ℕ) (steps : List (ℕ × Bool))
    → Uncancelled steps
    → ((walk t [] workers steps).1.queue.closed ≡ false)
      × (sum gone (walk t [] workers steps).0 ≡ 0)
unfolding walk
walk-no_roots t workers steps calm =
    let (many, shut) = walk-Leaves t [] workers steps calm in
    let none_busy = sum-start_workers busy workers refl in
    let none_closing = sum-start_workers closers workers refl in
    let (v, up, e, e') =
      run-P t Either IsRootless busy closers (λ c w s n m _ kept. act-IsRootless t c w s n m kept)
        steps (start_workers workers) (start_shared []) (AllTurns-Either steps)
        (refl, refl, omega arith, omega arith) in
    (up, ground (arith, shut))

AllExited-sum : (ws : List Worker) → AllExited ws → (sum busy ws ≡ 0) × (sum gone ws ≡ sum one ws)
AllExited-sum [] all = (refl, refl)
AllExited-sum (w ∷ ws) (left, all) =
    let (quiet, counted) = AllExited-sum ws all in
    (omega (arith, ap busy left), omega (arith, ap gone left))

-- When all workers of such a walk have returned, no directory is left, and if there was a worker, the
-- queue is closed.
pub walk-AllExited :
    (t : Tree) (roots : List String) (workers : ℕ) (steps : List (ℕ × Bool))
    → Uncancelled steps
    → 1 ≤ workers
    → AllExited (walk t roots workers steps).0
    → ((walk t roots workers steps).1.queue.closed ≡ true)
      × (view (walk t roots workers steps).1.queue ≡ [])
walk-AllExited t roots workers steps calm some_worker all =
    let (quiet, counted) = AllExited-sum (walk t roots workers steps).0 all in
    let (many, shut) = walk-Leaves t roots workers steps calm in
    let down = shut (omega arith) in
    let (ok, count, zero_pending, last) = walk-IsSound t roots workers steps in
    (down, no_items _ (omega (arith, zero_pending down)))
