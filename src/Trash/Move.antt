-- ===== src/Trash/Move.antt =====
-- moveFile and copyThenDelete (internal/trash/trash.go).
use ditto.Prelude.{
  ℕ, ◌≡◌, List, Option, none, some, Bool, true, false, String, arith, if◌then◌else◌, update, ◌==◌,
  take, string_key,
}
use text.Mathlib.TextEquality.{eq_iff}
use ditto.Disk.{File, Disk, Faults, done, crosses_devices, refused, erase}

-- The deferred clean-up: `dst` is removed, unless the system refuses that too.
clean_up : Faults → Disk → String → Disk
clean_up φ d dst = if φ.remove dst then d else erase d dst

-- The end of copyThenDelete. What a copy that stops has written is left in `dst`, or `dst` is written at the time `now`; then `src` is removed.
copied : Faults → ℕ → Disk → File → String → String → Disk × Bool
copied φ now d f src dst =
    let written : Disk = update d dst (some (record f { mtime = now })) in
    elim (φ.copy src dst) [
      | some n ↦ (
        clean_up φ (update d dst (some (record { content = take n f.content; mtime = now }))) dst,
        false,
      )
      | none ↦
          if φ.close dst
          then (clean_up φ written dst, false)
          else if φ.remove src
          then (clean_up φ written dst, false)
          else (erase written src, true)
    ]

-- copyThenDelete at the time `now`: the disk after it, and whether it returned no error.
pub copy_then_delete : Faults → ℕ → Disk → String → String → Disk × Bool
unfolding copied clean_up
copy_then_delete φ now d src dst = elim (d src) [
  | none ↦ (d, false)
  | some f ↦
      if φ.open_file src
      then (d, false)
      else if φ.create dst
      then (d, false)
      else copied φ now d f src dst
]

-- `os.Rename`.
rename : Disk → String → String → Disk × Bool
rename d src dst = elim (d src) [
  | none ↦ (d, false)
  | some f ↦ (if src == dst then d else erase (update d dst (some f)) src, true)
]

-- moveFile: the rename, or the copy across devices.
unfoldable pub move_file : Faults → ℕ → Disk → String → String → Disk × Bool
unfolding rename copy_then_delete
move_file φ now d src dst = elim (φ.rename src dst) [
  | done ↦ rename d src dst
  | crosses_devices ↦ copy_then_delete φ now d src dst
  | refused ↦ (d, false)
]

-- The content at a path.
abbrev pub content_of : Option File → Option (List ℕ)
content_of none = none
content_of (some f) = some f.content

abbrev pub Holds : Disk → String → List ℕ → Type 0
Holds d p c = content_of (d p) ≡ some c

module _ (φ : Faults) (now : ℕ) (d : Disk) (src dst : String) where
  -- Between two different paths, a move that returns no error takes the content to `dst` and
  -- leaves nothing at `src`; one that returns an error leaves the file at `src` as it was.
  pub move_file-src-dst :
      (f : File)
      → (src == dst) ≡ false
      → d src ≡ some f
      → ((move_file φ now d src dst).1 ≡ true
          → Holds (move_file φ now d src dst).0 dst f.content
            × ((move_file φ now d src dst).0 src ≡ none))
        × ((move_file φ now d src dst).1 ≡ false → (move_file φ now d src dst).0 src ≡ some f)
  unfolding move_file
  move_file-src-dst f ne h =
      ground (arith, eq_iff src dst, eq_iff dst src, eq_iff src src, eq_iff dst dst)

  -- Other paths are never touched.
  pub move_file-other :
      (p : String) → (p == src) ≡ false → (p == dst) ≡ false → (move_file φ now d src dst).0 p ≡ d p
  unfolding move_file
  move_file-other p ns nd = ground (arith, eq_iff p src, eq_iff p dst, eq_iff src dst)
