-- ===== src/Scan/Walker/Files.antt =====
-- What a walk (internal/scan/walker.go) should find: the regular files below its roots, by recursion on
-- the directories.
use ditto.Prelude.{
  ℕ, zero, suc, ◌+◌, ◌≤◌, ◌<◌, ◌≡◌, refl, List, [], ◌∷◌, ◌++◌, Option, none, some, String,
  if◌then◌else◌, arith, Option-cases, inl, inr, ◌∙◌,
}
use ditto.Scan.Types.{FileInfo}
use ditto.Scan.Walker.Worker.{Tree, Kind, Entry, directory, symlink, special, regular}

module _ (t : Tree) where
  -- What an entry stands for, with `below` the files of a directory: nothing if its path is excluded, if
  -- it is no regular file and no directory, or if it cannot be examined.
  abbrev pub entry_files : (String → List FileInfo) → String → Kind → List FileInfo
  entry_files below path directory = below path
  entry_files below path symlink = []
  entry_files below path special = []
  entry_files below path (regular none) = []
  entry_files below path (regular (some (size, mtime))) =
      record { path = path; size = size; mtime = mtime } ∷ []

  abbrev pub listed : (String → List FileInfo) → String → List Entry → List FileInfo
  listed below dir [] = []
  listed below dir (e ∷ es) =
      let path = t.join dir e.name in
      (if t.excluded path then [] else entry_files below path e.kind) ++ listed below dir es

  abbrev read_files : (List Entry → List FileInfo) → Option (List Entry) → List FileInfo
  read_files list none = []
  read_files list (some es) = list es

  -- The files below a directory, to the depth given by the fuel.
  unfoldable pub files_in : ℕ → String → List FileInfo
  files_in zero dir = []
  files_in (suc fuel) dir = read_files (listed (files_in fuel) dir) (t.read_dir dir)

  -- The entries of a directory, and what its subdirectories weigh.
  abbrev kind_weight : (String → ℕ) → String → Kind → ℕ
  kind_weight weight path directory = weight path
  kind_weight weight path symlink = 0
  kind_weight weight path special = 0
  kind_weight weight path (regular info) = 0

  abbrev pub total : (String → ℕ) → String → List Entry → ℕ
  total weight dir [] = 0
  total weight dir (e ∷ es) =
      1 + kind_weight weight (t.join dir e.name) e.kind + total weight dir es

  -- The directories form a finite tree, as they do where symbolic links are not followed: each has a
  -- weight, more than that of all its entries.
  abbrev pub IsFinite : (String → ℕ) → Type 0
  IsFinite weight =
      (dir : String) (es : List Entry) → t.read_dir dir ≡ some es → total weight dir es < weight dir

  -- The regular files below a directory of a finite tree that a walk may find: those whose Info is not
  -- refused and whose path is not excluded, in directories that are read and not excluded.
  unfoldable pub files_below : (String → ℕ) → String → List FileInfo
  files_below weight dir = files_in (weight dir) dir

  module _ (weight : String → ℕ) where
    entry_files_congr :
        (f g : String → List FileInfo) (path : String) (k : Kind) (n : ℕ)
        → ((d : String) → weight d ≤ n → f d ≡ g d)
        → kind_weight weight path k ≤ n
        → entry_files f path k ≡ entry_files g path k
    entry_files_congr f g path directory n same h = same path h
    entry_files_congr f g path symlink n same h = refl
    entry_files_congr f g path special n same h = refl
    entry_files_congr f g path (regular none) n same h = refl
    entry_files_congr f g path (regular (some info)) n same h = refl

    listed_congr :
        (f g : String → List FileInfo) (dir : String) (es : List Entry) (n : ℕ)
        → ((d : String) → weight d ≤ n → f d ≡ g d)
        → total weight dir es ≤ n
        → listed f dir es ≡ listed g dir es
    listed_congr f g dir [] n same h = refl
    listed_congr f g dir (e ∷ es) n same h = rw (
      entry_files_congr f g (t.join dir e.name) e.kind n same (omega arith),
      listed_congr f g dir es n same (omega arith),
    )

    -- Fuel from the weight of the directory on is enough.
    module _ (finite : IsFinite weight) where
      files_in_fuel :
          (n m : ℕ) (dir : String)
          → weight dir ≤ n
          → weight dir ≤ m
          → files_in n dir ≡ files_in m dir
      unfolding files_in
      files_in_fuel zero zero dir h h' = refl
      files_in_fuel zero (suc m) dir h h' = elim (Option-cases (t.read_dir dir)) [
        | inl e ↦ rw e refl
        | inr (es, e) ↦ absurd (omega (arith, finite dir es e))
      ]
      files_in_fuel (suc n) zero dir h h' = elim (Option-cases (t.read_dir dir)) [
        | inl e ↦ rw e refl
        | inr (es, e) ↦ absurd (omega (arith, finite dir es e))
      ]
      files_in_fuel (suc n) (suc m) dir h h' = elim (Option-cases (t.read_dir dir)) [
        | inl e ↦ rw e refl
        | inr (es, e) ↦
            let small = finite dir es e in
            rw e (
              listed_congr (files_in n) (files_in m) dir es (total weight dir es)
                (λ d light. files_in_fuel n m d (omega arith) (omega arith)) (omega arith))
      ]

      pub files_below-unreadable :
          (dir : String) → t.read_dir dir ≡ none → files_below weight dir ≡ []
      unfolding files_in files_below
      files_below-unreadable dir e =
          files_in_fuel (weight dir) (suc (weight dir)) dir (omega arith) (omega arith) ∙ rw e refl

      pub files_below-read :
          (dir : String) (es : List Entry)
          → t.read_dir dir ≡ some es
          → files_below weight dir ≡ listed (files_below weight) dir es
      unfolding files_in files_below
      files_below-read dir es e =
          let small = finite dir es e in
          files_in_fuel (weight dir) (suc (weight dir)) dir (omega arith) (omega arith)
          ∙ rw e (
              listed_congr (files_in (weight dir)) (files_below weight) dir es (total weight dir es)
                (λ d light. files_in_fuel (weight dir) (weight d) d (omega arith) (omega arith))
                (omega arith))
