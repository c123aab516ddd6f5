-- ===== src/Tests/Walker.antt =====
-- The walker (internal/scan/walker.go) on a directory with a file, a symbolic link, an excluded file and
-- a directory that holds a file, walked by two workers.
use Prim.Native.String as Str
use ditto.Prelude.{
  ℕ, ◌+◌, ◌≤◌, ◌<◌, ◌≡◌, refl, List, [], ◌∷◌, ◌++◌, ◌*◌, Option, none, some, Bool, true, false,
  String, if◌then◌else◌, ◌==◌, string_key, Bool-cases, inl, inr, length, count_if, arith, ap, subst,
  sym,
}
use ditto.Scan.Types.{FileInfo}
use ditto.Scan.Walker.Worker.{
  Tree, Entry, directory, symlink, regular, run, turn, act, visit, walk, start_workers,
  start_shared,
}
use ditto.Scan.Walker.Queue.{DirQueue, pop, push, view, IsFifo, finish, compact, pop-push-IsFifo}
use ditto.Scan.Walker.Turns.{sum, Uncancelled}
use ditto.Scan.Walker.Pending.{busy, closers, IsSound, walk-IsSound}
use ditto.Scan.Walker.Leaving.{AllExited, gone, walk-no_roots}
use ditto.Scan.Walker.Complete.{found_below_all}
use ditto.Scan.Walker.Ends.{AllMove, AllBlocked, dirs_load, walk_ends}
use ditto.Scan.Walker.Files.{IsFinite, files_below, files_in, total}

abbrev pub at_root : List Entry
at_root =
    record { name = "a"; kind = regular (some (2, 5)) }
    ∷ record { name = "s"; kind = directory }
    ∷ record { name = "l"; kind = symlink }
    ∷ record { name = "x"; kind = regular (some (9, 9)) }
    ∷ []

abbrev pub at_sub : List Entry
at_sub = record { name = "b"; kind = regular (some (2, 6)) } ∷ []

abbrev pub entries : String → Option (List Entry)
entries dir = if dir == "/m" then some at_root else if dir == "/m/s" then some at_sub else none

abbrev pub tree : Tree
tree = record {
  read_dir = entries;
  join = λ dir name. Str.◌++◌ dir (Str.◌++◌ "/" name);
  excluded = λ path. path == "/m/x";
}

abbrev pub weight : String → ℕ
weight dir = if dir == "/m" then 7 else if dir == "/m/s" then 2 else 0

abbrev or_nil : Option (List Entry) → List Entry
or_nil none = []
or_nil (some es) = es

root_light :
    (dir : String) (es : List Entry)
    → dir ≡ "/m"
    → entries dir ≡ some es
    → total tree weight dir es < weight dir
root_light dir es at read =
    subst (λ d. (es : List Entry) → entries d ≡ some es → total tree weight d es < weight d)
      (sym at) (λ fs e. subst (λ gs. total tree weight "/m" gs < 7) (ap or_nil e) (omega arith)) es
      read

sub_light :
    (dir : String) (es : List Entry)
    → dir ≡ "/m/s"
    → entries dir ≡ some es
    → total tree weight dir es < weight dir
sub_light dir es at read =
    subst (λ d. (es : List Entry) → entries d ≡ some es → total tree weight d es < weight d)
      (sym at) (λ fs e. subst (λ gs. total tree weight "/m/s" gs < 2) (ap or_nil e) (omega arith))
      es read

pub finite : IsFinite tree weight
finite dir es read = elim (Bool-cases (dir == "/m")) [
  | inl top ↦ root_light dir es ((string_key.same_iff dir "/m").0 top) read
  | inr not_top ↦ elim (Bool-cases (dir == "/m/s")) [
    | inl sub ↦ sub_light dir es ((string_key.same_iff dir "/m/s").0 sub) read
    | inr not_sub ↦ absurd (ground (arith, not_top, not_sub, read))
  ]
]

-- The second worker takes the subdirectory; the first returns last.
abbrev pub steps : List (ℕ × Bool)
steps =
    (1, false)
    ∷ (0, false)
    ∷ (0, false)
    ∷ (0, false)
    ∷ (0, false)
    ∷ (0, false)
    ∷ (0, false)
    ∷ (1, false)
    ∷ (1, false)
    ∷ (0, false)
    ∷ (0, false)
    ∷ (0, false)
    ∷ (0, false)
    ∷ (1, false)
    ∷ (1, false)
    ∷ (1, false)
    ∷ (1, false)
    ∷ (1, false)
    ∷ (0, false)
    ∷ []

abbrev pub roots : List String
roots = "/m" ∷ []

abbrev any : FileInfo → Bool
any f = true

pub all_left : AllExited (walk tree roots 2 steps).0
unfolding walk run turn act visit pop push finish compact
all_left = (refl, (refl, tt))

pub calm : Uncancelled steps
calm = (
  refl,
  (
    refl,
    (
      refl,
      (
        refl,
        (
          refl,
          (
            refl,
            (
              refl,
              (
                refl,
                (
                  refl,
                  (
                    refl,
                    (refl, (refl, (refl, (refl, (refl, (refl, (refl, (refl, (refl, tt))))))))),
                  ),
                ),
              ),
            ),
          ),
        ),
      ),
    ),
  ),
)

-- Two files are found.
two_found : count_if any (walk tree roots 2 steps).1.out ≡ 2
unfolding walk run turn act visit pop push finish compact
two_found = refl

two_there : found_below_all tree weight finite any roots ≡ 2
unfolding files_below files_in
two_there = refl

-- The context is done before the file of the subdirectory is sent.
abbrev cancelled_steps : List (ℕ × Bool)
cancelled_steps =
    (1, false)
    ∷ (0, false)
    ∷ (0, false)
    ∷ (0, false)
    ∷ (0, false)
    ∷ (0, false)
    ∷ (0, false)
    ∷ (1, false)
    ∷ (1, false)
    ∷ (1, true)
    ∷ (0, false)
    ∷ (0, false)
    ∷ (0, true)
    ∷ []

walk-IsSound_example :
    IsSound
      (walk tree roots 2 cancelled_steps).1
      (sum busy (walk tree roots 2 cancelled_steps).0 + 0)
      (sum closers (walk tree roots 2 cancelled_steps).0 + 0)
walk-IsSound_example = walk-IsSound tree roots 2 cancelled_steps

all_move : AllMove tree steps (start_workers 2) (start_shared roots)
unfolding run turn act visit pop push finish compact
all_move = (
  refl,
  (
    refl,
    (
      refl,
      (
        refl,
        (
          refl,
          (
            refl,
            (
              refl,
              (
                refl,
                (
                  refl,
                  (
                    refl,
                    (refl, (refl, (refl, (refl, (refl, (refl, (refl, (refl, (refl, tt))))))))),
                  ),
                ),
              ),
            ),
          ),
        ),
      ),
    ),
  ),
)

walk_ends_example :
    (length steps ≤ dirs_load tree weight finite roots + 3 * 2)
    × (AllBlocked (walk tree roots 2 steps).0 (walk tree roots 2 steps).1
        → AllExited (walk tree roots 2 steps).0)
walk_ends_example = walk_ends tree weight finite roots 2 steps (omega arith) all_move

walk-no_roots_example :
    ((walk tree [] 2 steps).1.queue.closed ≡ false) × (sum gone (walk tree [] 2 steps).0 ≡ 0)
walk-no_roots_example = walk-no_roots tree 2 steps calm

abbrev queue : DirQueue
queue = record { items = "" ∷ "/m/s" ∷ "/m/t" ∷ []; head = 1; pending = 2; closed = false }

pop-push-IsFifo_example :
    IsFifo queue (view queue) (pop queue) × (view (push queue "/m/u") ≡ view queue ++ ("/m/u" ∷ []))
pop-push-IsFifo_example = pop-push-IsFifo queue "/m/u" (omega arith)
