-- ===== src/Scan/Walker/Worker.antt =====
-- The workers of Walk (internal/scan/walker.go), interleaved in any order. What a worker does between
-- two accesses to what they share is one step; the directories do not change during the walk.
use ditto.Prelude.{
  ℕ, zero, suc, List, [], ◌∷◌, Option, none, some, Bool, true, false, String, if◌then◌else◌,
}
use ditto.Scan.Types.{FileInfo}
use ditto.Scan.Walker.Queue.{
  DirQueue, new_dir_queue, add_pending, push, pop, finish, close, Popped, waits, none_left, popped,
}

-- What an entry of a directory is; for a regular file, its size and time, unless Info fails.
pub data Kind : Type 0 where
  directory symlink special : Kind
  regular : Option (ℕ × ℕ) → Kind

pub record Entry : Type 0 where
  pub name : String
  pub kind : Kind

-- What the walker asks of the file system (`os.ReadDir`, or none if it fails), of path/filepath, and
-- the excluded paths.
pub record Tree : Type 0 where
  pub read_dir : String → Option (List Entry)
  pub join : String → String → String
  pub excluded : String → Bool

-- Where a worker stands in its loop: at the test of the context, in Pop, with a directory to read, with
-- entries left, after `pending.Add(1)` for a child, after `pending.Add(-1)` gave 0 (and whether it
-- returns then), or returned.
pub data Worker : Type 0 where
  idle waiting exited : Worker
  reading : String → Worker
  scanning : String → List Entry → Worker
  pushing : String → String → List Entry → Worker
  closing : Bool → Worker

-- What the workers share: the queue, the output channel, and the reporter of errors.
pub record Shared : Type 0 where
  pub queue : DirQueue
  pub out : List FileInfo
  pub reports : List String

abbrev pub next : Bool → Worker
next leaves = if leaves then exited else idle

-- `q.Done()`, then on to the loop's start or out of the function.
abbrev pub done : Bool → Shared → Worker × Shared
done leaves s =
    let (q, last) = finish s.queue in
    (if last then closing leaves else next leaves, record s { queue = q })

abbrev pub report : String → Shared → Shared
report path s = record s { reports = path ∷ s.reports }

abbrev pub send : FileInfo → Shared → Shared
send f s = record s { out = f ∷ s.out }

-- A blocked Pop stays; false returns; a directory is to be read.
abbrev pub after_pop : Popped → Shared → Worker × Shared
after_pop waits s = (waiting, s)
after_pop none_left s = (exited, s)
after_pop (popped q dir) s = (reading dir, record s { queue = q })

abbrev pub after_read : String → Option (List Entry) → Shared → Worker × Shared
after_read dir none s = done false (report dir s)
after_read dir (some es) s = (scanning dir es, s)

-- An entry at `path` that is not excluded. `cancelled`: the select takes `ctx.Done()`. Else the file is
-- sent at once: a full channel, on which the source waits, is not modelled.
abbrev pub visit_kind : Bool → String → Kind → String → List Entry → Shared → Worker × Shared
visit_kind cancelled path directory dir es s =
    (pushing path dir es, record s { queue = add_pending s.queue })
visit_kind cancelled path symlink dir es s = (scanning dir es, s)
visit_kind cancelled path special dir es s = (scanning dir es, s)
visit_kind cancelled path (regular none) dir es s = (scanning dir es, report path s)
visit_kind cancelled path (regular (some (size, mtime))) dir es s =
    if cancelled
    then done true s
    else (scanning dir es, send (record { path = path; size = size; mtime = mtime }) s)

module _ (t : Tree) where
  -- One entry.
  unfoldable pub visit : Bool → String → Entry → List Entry → Shared → Worker × Shared
  visit cancelled dir e es s =
      let path = t.join dir e.name in
      if t.excluded path then (scanning dir es, s) else visit_kind cancelled path e.kind dir es s

  -- One step of a worker.
  unfoldable pub act : Bool → Worker → Shared → Worker × Shared
  act cancelled exited s = (exited, s)
  act cancelled idle s = (if cancelled then exited else waiting, s)
  act cancelled waiting s = after_pop (pop s.queue) s
  act cancelled (reading dir) s = after_read dir (t.read_dir dir) s
  act cancelled (scanning dir []) s = done false s
  act cancelled (scanning dir (e ∷ es)) s = visit cancelled dir e es s
  act cancelled (pushing path dir es) s = (scanning dir es, record s { queue = push s.queue path })
  act cancelled (closing leaves) s = (next leaves, record s { queue = close s.queue })

  -- A step of the `i`-th worker.
  unfoldable pub turn : Bool → ℕ → List Worker → Shared → List Worker × Shared
  turn cancelled i [] s = ([], s)
  turn cancelled zero (w ∷ ws) s = let (w', s') = act cancelled w s in (w' ∷ ws, s')
  turn cancelled (suc i) (w ∷ ws) s = let (ws', s') = turn cancelled i ws s in (w ∷ ws', s')

  -- The walk along a schedule: who steps, and whether the context is found done.
  unfoldable pub run : List (ℕ × Bool) → List Worker → Shared → List Worker × Shared
  run [] ws s = (ws, s)
  run ((i, cancelled) ∷ steps) ws s = let (ws', s') = turn cancelled i ws s in run steps ws' s'

-- Walk's start: the roots are counted and pushed, and `n` workers begin.
abbrev pub seed : List String → DirQueue → DirQueue
seed [] q = q
seed (r ∷ rs) q = seed rs (push (add_pending q) r)

abbrev pub start_workers : ℕ → List Worker
start_workers zero = []
start_workers (suc n) = idle ∷ start_workers n

abbrev pub start_shared : List String → Shared
start_shared roots = record { queue = seed roots new_dir_queue; out = []; reports = [] }

unfoldable pub walk : Tree → List String → ℕ → List (ℕ × Bool) → List Worker × Shared
walk t roots workers steps = run t steps (start_workers workers) (start_shared roots)
