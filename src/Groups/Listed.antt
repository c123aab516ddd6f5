-- ===== src/Groups/Listed.antt =====
-- What GroupsHandler.Ignore and Reset (internal/api/handlers/groups.go) leave.
use ditto.Prelude.{
  pos, ℕ, ◌+◌, ◌≡◌, refl, List, [], ◌∷◌, ◌++◌, Option, none, some, Bool, true, false, String, arith,
  nat_beq_iff, string_key, Option-cases, inl, inr, ap, sym, ◌∙◌,
}
use text.Mathlib.TextEquality.{eq_iff}
use ditto.Tables.{
  DuplicateGroup, GroupStatus, unresolved, ignored, watching, find_group, files_of,
  find_group-update,
}
use ditto.Scan.Records.{ScanTrigger}
use ditto.Scan.Manager.{Manager, Scanner, update_config, start}
use ditto.Groups.Ignore.{
  Kind, hash, path_pair, dir, kind_beq, Entry, Settings, Desk, IgnoreFaults, Body, of_kind,
  other_type, Reply, listed, bad_request, missing_path, not_found, internal_error, has_entry,
  insert_entry, paths_of, exclude_dir, listing, enlist, ignore, reset,
}

abbrev pub is_listed : Reply → Bool
is_listed bad_request = false
is_listed missing_path = false
is_listed not_found = false
is_listed internal_error = false
is_listed (listed k kind value status) = true

abbrev config_or : Settings × Manager → Option (Settings × Manager) → Settings × Manager
config_or c none = c
config_or c (some x) = x

kind_beq_refl : (k : Kind) → kind_beq k k ≡ true
kind_beq_refl hash = refl
kind_beq_refl path_pair = refl
kind_beq_refl dir = refl

has_entry-append :
    (kind : Kind) (value : String) (es : List Entry) (e : Entry)
    → e.kind ≡ kind
    → e.value ≡ value
    → has_entry kind value (es ++ e ∷ []) ≡ true
has_entry-append kind value [] e k v =
    rw (k, v) (ground (arith, kind_beq_refl kind, eq_iff value value))
has_entry-append kind value (x ∷ xs) e k v = ground (arith, has_entry-append kind value xs e k v)

insert_entry-has_entry :
    (s : Desk) (now : ℕ) (kind : Kind) (value : String) (expected : Option String)
    → has_entry kind value (insert_entry s now kind value expected).whitelist ≡ true
unfolding insert_entry
insert_entry-has_entry s now kind value expected =
    let e : Entry = record {
      id = s.last_id + 1;
      kind = kind;
      value = value;
      added_at = now;
      expected_hash = expected;
    } in
    ground (arith, has_entry-append kind value s.whitelist e refl refl)

module _ (sort : List String → List String) (json : List String → String) (χ : IgnoreFaults)
    (now : ℕ) (s : Desk) (group : ℕ) where
  -- A request to ignore a group that is answered with an error changes nothing.
  pub ignore-refused :
      (body : Option Body)
      → is_listed (ignore sort json χ now s group body).1 ≡ false
      → (ignore sort json χ now s group body).0 ≡ s
  unfolding ignore enlist listing
  ignore-refused none h = refl
  ignore-refused (some other_type) h = ground arith
  ignore-refused (some (of_kind hash path)) h = ground arith
  ignore-refused (some (of_kind path_pair path)) h = ground arith
  ignore-refused (some (of_kind dir path)) h = ground arith

  enlist-listed :
      (asked : Kind) (path v : String) (expected : Option String) (st : GroupStatus)
      (g : DuplicateGroup) (k : ℕ) (kind : Kind) (value : String) (status : GroupStatus)
      → χ.update_status ≡ false
      → find_group group s.groups ≡ some g
      → (enlist sort json χ now s group asked path v expected st).1 ≡ listed k kind value status
      → (has_entry kind value (enlist sort json χ now s group asked path v expected st).0.whitelist
          ≡ true)
        × ((g' : DuplicateGroup) × (find_group group
                (enlist sort json χ now s group asked path v expected st).0.groups
              ≡ some g')
            × (g'.status ≡ status)
            × (g'.ignored_at ≡ some now))
  unfolding enlist
  enlist-listed asked path v expected st g k kind value status ok at h =
      let change =
        λ (r : DuplicateGroup). record r { status = st; ignored_at = some now; updated_at = now } in
      let entry = insert_entry-has_entry s now asked v expected in
      (
        ground arith,
        (
          change g,
          ground (
            arith,
            nat_beq_iff group group,
            find_group-update group group change s.groups (λ r. refl),
          ),
          ground arith,
          refl,
        ),
      )

  -- A request to ignore a group that succeeds leaves the answered type and value in the whitelist, and
  -- the group's row with the answered status and the time, if the database takes the status.
  pub ignore-listed :
      (body : Option Body) (k : ℕ) (kind : Kind) (value : String) (status : GroupStatus)
      → χ.update_status ≡ false
      → (ignore sort json χ now s group body).1 ≡ listed k kind value status
      → (has_entry kind value (ignore sort json χ now s group body).0.whitelist ≡ true)
        × ((g : DuplicateGroup) × (find_group group (ignore sort json χ now s group body).0.groups
              ≡ some g)
            × (g.status ≡ status)
            × (g.ignored_at ≡ some now))
  unfolding ignore enlist listing
  ignore-listed none k kind value status ok h = absurd (ground arith)
  ignore-listed (some other_type) k kind value status ok h = absurd (ground arith)
  ignore-listed (some (of_kind hash path)) k kind value status ok h =
      elim (Option-cases (find_group group s.groups)) [
        | inl e ↦ absurd (ground arith)
        | inr (g, at) ↦
            let whole : ignore sort json χ now s group (some (of_kind hash path))
                ≡ enlist sort json χ now s group hash path g.content_hash none ignored =
              ground arith in
            rw whole (
              enlist-listed hash path g.content_hash none ignored g k kind value status ok at
                (ground arith))
      ]
  ignore-listed (some (of_kind path_pair path)) k kind value status ok h =
      elim (Option-cases (find_group group s.groups)) [
        | inl e ↦ absurd (ground arith)
        | inr (g, at) ↦
            let paths = json (sort (paths_of (files_of g.id s.files))) in
            let whole : ignore sort json χ now s group (some (of_kind path_pair path))
                ≡ enlist sort json χ now s group path_pair path paths (some g.content_hash)
                    watching =
              ground arith in
            rw whole (
              enlist-listed path_pair path paths (some g.content_hash) watching g k kind value
                status ok at (ground arith))
      ]
  ignore-listed (some (of_kind dir path)) k kind value status ok h =
      elim (Option-cases (find_group group s.groups)) [
        | inl e ↦ absurd (ground arith)
        | inr (g, at) ↦
            let whole : ignore sort json χ now s group (some (of_kind dir path))
                ≡ enlist sort json χ now s group dir path path none ignored =
              ground arith in
            rw whole
              (enlist-listed dir path path none ignored g k kind value status ok at (ground arith))
      ]

  excluded :
      (path : String) (c : Settings) (m : Manager) (k : ℕ) (value : String) (status : GroupStatus)
      → s.config ≡ some (c, m)
      → (ignore sort json χ now s group (some (of_kind dir path))).1 ≡ listed k dir value status
      → (ignore sort json χ now s group (some (of_kind dir path))).0.config
        ≡ some (exclude_dir path (c, m))
  unfolding ignore enlist listing
  excluded path c m k value status here h = ground arith

  -- Once a directory is excluded through a group while the scan manager is idle, the next scan that
  -- starts has no cache checker, whatever the configuration was, and leaves that directory out
  -- besides those that were excluded before.
  pub ignore-start :
      (path : String) (c : Settings) (m : Manager) (k : ℕ) (value : String) (status : GroupStatus)
      (c' : Settings) (m' : Manager) (t : ℕ) (trigger : ScanTrigger)
      → s.config ≡ some (c, m)
      → m.active ≡ none
      → (ignore sort json χ now s group (some (of_kind dir path))).1 ≡ listed k dir value status
      → (ignore sort json χ now s group (some (of_kind dir path))).0.config ≡ some (c', m')
      → (sc : Scanner) × ((start m' false t trigger).0.scanner ≡ some sc)
        × (sc.cfg.cache_checkers ≡ pos 0)
        × (sc.exclude_paths ≡ c.exclude_paths ++ path ∷ [])
  unfolding ignore enlist listing exclude_dir update_config start
  ignore-start path c m k value status c' m' t trigger here idle h after =
      let given = exclude_dir path (c, m) in
      let config : (ignore sort json χ now s group (some (of_kind dir path))).0.config
          ≡ some given =
        excluded path c m k value status here h in
      let same : m' ≡ given.1 = ap (λ o. (config_or given o).1) (sym after ∙ config) in
      (
        record { roots = given.1.roots; exclude_paths = given.1.excludes; cfg = given.1.cfg },
        ground arith,
        refl,
        refl,
      )

  -- Reset after a request to ignore a group that succeeded makes the group unresolved again, with no
  -- time, but the answered type and value stay in the whitelist.
  pub reset-ignore :
      (body : Option Body) (k : ℕ) (kind : Kind) (value : String) (status : GroupStatus) (t : ℕ)
      → χ.update_status ≡ false
      → (ignore sort json χ now s group body).1 ≡ listed k kind value status
      → (has_entry kind value
            (reset false t (ignore sort json χ now s group body).0 group).0.whitelist
          ≡ true)
        × ((g : DuplicateGroup) × (find_group group
                (reset false t (ignore sort json χ now s group body).0 group).0.groups
              ≡ some g)
            × (g.status ≡ unresolved)
            × (g.ignored_at ≡ none))
  unfolding reset
  reset-ignore body k kind value status t ok h =
      let left = (ignore sort json χ now s group body).0 in
      let (entry, (g, at, st, time)) = ignore-listed body k kind value status ok h in
      let change = λ (r : DuplicateGroup). record r {
        status = unresolved;
        ignored_at = none;
        updated_at = t;
      } in
      (
        ground arith,
        (
          change g,
          ground (
            arith,
            nat_beq_iff group group,
            find_group-update group group change left.groups (λ r. refl),
          ),
          refl,
          refl,
        ),
      )
