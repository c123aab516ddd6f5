-- ===== src/Trash/Purge.antt =====
-- PurgeAll and AutoPurge (internal/trash/trash.go): which rows and files they touch.
use ditto.Prelude.{
  ℕ, zero, suc, ◌+◌, ◌≤◌, ◌%◌, ◌≡◌, refl, inl, inr, List, [], ◌∷◌, ◌++◌, Option, none, some, Bool,
  true, false, ◌||◌, String, arith, if◌then◌else◌, nat_beq, nat_beq_iff, keep, length, string_key,
  Bool-cases, ◌∙◌, sym, append-nil, append_assoc,
}
use ditto.Scan.Types.{word, add64}
use ditto.Disk.{Disk, Faults, erase}
use ditto.Trash.Manager.{
  Deletion, deletion, TrashItem, Trigger, user, auto, World, DbFaults, ok, is_trashed, is_expired,
  update_item, set_purged, stuck, purge_item, purge_items, purge_all, auto_purge,
}

-- SELECT … WHERE id = ?.
abbrev pub row_of : ℕ → List TrashItem → Option TrashItem
row_of k [] = none
row_of k (r ∷ rs) = if nat_beq r.id k then some r else row_of k rs

abbrev mem : ℕ → List ℕ → Bool
mem k [] = false
mem k (j ∷ js) = nat_beq j k || mem k js

abbrev ids : List TrashItem → List ℕ
ids [] = []
ids (r ∷ rs) = r.id ∷ ids rs

-- No two rows have one id.
abbrev pub IsKeyed : List TrashItem → Type 0
IsKeyed [] = Unit
IsKeyed (r ∷ rs) = (row_of r.id rs ≡ none) × IsKeyed rs

module _ (φ : Faults) (ψ : DbFaults) (now : ℕ) (trigger : Trigger) where
  -- The ids of the rows that a run of the loop marks.
  marked : ℕ → Disk → List TrashItem → List ℕ
  marked zero d items = []
  marked (suc live) d [] = []
  marked (suc live) d (r ∷ items) =
      let skipped = marked live d items in
      let removed = marked live (erase d r.trash_path) items in
      if stuck φ d r.trash_path
      then skipped
      else if ψ.update_item r.id
      then removed
      else r.id ∷ removed

  abbrev mark : List ℕ → Option TrashItem → Option TrashItem
  mark js none = none
  mark js (some r) = if mem r.id js then some (set_purged now trigger r) else some r

  row_of-id : (k : ℕ) (rs : List TrashItem) (r : TrashItem) → row_of k rs ≡ some r → r.id ≡ k
  row_of-id k [] r h = absurd (ground arith)
  row_of-id k (s ∷ rs) r h = ground (arith, row_of-id k rs r)

  row_of-update :
      (k j : ℕ) (rs : List TrashItem)
      → row_of k (update_item j (set_purged now trigger) rs) ≡ mark (j ∷ []) (row_of k rs)
  row_of-update k j [] = refl
  row_of-update k j (r ∷ rs) = ground (arith, row_of-update k j rs)

  mark-nil : (o : Option TrashItem) → o ≡ mark [] o
  mark-nil none = refl
  mark-nil (some r) = refl

  mark-mark :
      (j : ℕ) (js : List ℕ) (o : Option TrashItem) → mark js (mark (j ∷ []) o) ≡ mark (j ∷ js) o
  mark-mark j js none = refl
  mark-mark j js (some r) = ground arith

  -- After the loop the row of an id is the old one, marked if the loop has marked it.
  row_of-purge_items :
      (live : ℕ) (w : World) (count bytes : ℕ) (items : List TrashItem) (k : ℕ)
      → row_of k (purge_items φ ψ now trigger live w count bytes items).0.trash
        ≡ mark (marked live w.disk items) (row_of k w.trash)
  unfolding purge_items purge_item marked
  row_of-purge_items zero w count bytes items k = mark-nil (row_of k w.trash)
  row_of-purge_items (suc live) w count bytes [] k = mark-nil (row_of k w.trash)
  row_of-purge_items (suc live) w count bytes (r ∷ items) k =
      let w' = purge_item φ ψ now trigger w r in
      let js = marked live (erase w.disk r.trash_path) items in
      ground (
        arith,
        row_of-purge_items live w count bytes items k,
        row_of-purge_items live w' (add64 count 1) (add64 bytes r.file_size) items k,
        row_of-update k r.id w.trash,
        mark-mark r.id js (row_of k w.trash),
      )

  -- Only items are marked.
  mem-marked :
      (live : ℕ) (d : Disk) (items : List TrashItem) (k : ℕ)
      → mem k (ids items) ≡ false
      → mem k (marked live d items) ≡ false
  unfolding marked
  mem-marked zero d items k h = refl
  mem-marked (suc live) d [] k h = refl
  mem-marked (suc live) d (r ∷ items) k h =
      ground (arith, mem-marked live d items k, mem-marked live (erase d r.trash_path) items k)

  -- Every item that nothing refuses is marked, if the context lasts.
  marked_all :
      (live : ℕ) (d : Disk) (items : List TrashItem) (k : ℕ)
      → length items ≤ live
      → ((p : String) → φ.remove p ≡ false)
      → ((j : ℕ) → ψ.update_item j ≡ false)
      → mem k (ids items) ≡ true
      → mem k (marked live d items) ≡ true
  unfolding marked
  marked_all live d [] k len free kept h = absurd (cc)
  marked_all zero d (r ∷ items) k len free kept h = absurd (omega arith)
  marked_all (suc live) d (r ∷ items) k len free kept h = ground (
    arith,
    free r.trash_path,
    kept r.id,
    marked_all live (erase d r.trash_path) items k (omega arith) free kept,
  )

mem-keep-none :
    (p : TrashItem → Bool) (rs : List TrashItem) (k : ℕ)
    → row_of k rs ≡ none
    → mem k (ids (keep p rs)) ≡ false
mem-keep-none p [] k h = refl
mem-keep-none p (s ∷ rs) k h = ground (arith, mem-keep-none p rs k)

-- The rows that a query selects, by id, where ids are unique.
mem-keep :
    (p : TrashItem → Bool) (rs : List TrashItem) (k : ℕ) (r : TrashItem)
    → IsKeyed rs
    → row_of k rs ≡ some r
    → mem k (ids (keep p rs)) ≡ p r
mem-keep p [] k r u h = absurd (cc)
mem-keep p (s ∷ rs) k r u h = elim (Bool-cases (nat_beq s.id k)) [
  | inl here ↦
      let e : s.id ≡ k = (nat_beq_iff s.id k).0 here in
      ground (arith, mem-keep-none p rs k (rw (← e) u.0))
  | inr there ↦ ground (arith, mem-keep p rs k r u.1)
]

length-keep-le : (p : TrashItem → Bool) (rs : List TrashItem) → length (keep p rs) ≤ length rs
length-keep-le p [] = omega arith
length-keep-le p (r ∷ rs) = ground (arith, length-keep-le p rs)

module _ (φ : Faults) (ψ : DbFaults) (now : ℕ) (live : ℕ) (w : World) (k : ℕ) (r : TrashItem) where
  -- Whatever is refused and whenever the context is done, PurgeAll leaves a row that is not in the
  -- trash as it was, and AutoPurge one that is not in the trash or has not expired, if ids are
  -- unique.
  pub purge-kept :
      IsKeyed w.trash
      → row_of k w.trash ≡ some r
      → (is_trashed r ≡ false → row_of k (purge_all φ ψ now live w).0.trash ≡ some r)
        × (is_expired now r ≡ false → row_of k (auto_purge φ ψ now live w).0.trash ≡ some r)
  unfolding purge_all auto_purge
  purge-kept u h = (
    λ kept. ground (
      arith,
      row_of-purge_items φ ψ now user live w 0 0 (keep is_trashed w.trash) k,
      mem-keep is_trashed w.trash k r u h,
      row_of-id φ ψ now user k w.trash r h,
      mem-marked φ ψ now user live w.disk (keep is_trashed w.trash) k,
    ),
    λ kept. ground (
      arith,
      row_of-purge_items φ ψ now auto live w 0 0 (keep (is_expired now) w.trash) k,
      mem-keep (is_expired now) w.trash k r u h,
      row_of-id φ ψ now auto k w.trash r h,
      mem-marked φ ψ now auto live w.disk (keep (is_expired now) w.trash) k,
    ),
  )

  -- If nothing is refused and the context lasts, PurgeAll marks every row in the trash as purged
  -- by the user, and AutoPurge every row in the trash that has expired as purged automatically, if
  -- ids are unique.
  pub purge-purged :
      IsKeyed w.trash
      → row_of k w.trash ≡ some r
      → length w.trash ≤ live
      → ψ.query ≡ false
      → ((p : String) → φ.remove p ≡ false)
      → ((j : ℕ) → ψ.update_item j ≡ false)
      → (is_trashed r ≡ true
          → row_of k (purge_all φ ψ now live w).0.trash ≡ some (set_purged now user r))
        × (is_expired now r ≡ true
            → row_of k (auto_purge φ ψ now live w).0.trash ≡ some (set_purged now auto r))
  unfolding purge_all auto_purge
  purge-purged u h len q free kept = (
    λ sel. ground (
      arith,
      row_of-purge_items φ ψ now user live w 0 0 (keep is_trashed w.trash) k,
      mem-keep is_trashed w.trash k r u h,
      row_of-id φ ψ now user k w.trash r h,
      length-keep-le is_trashed w.trash,
      marked_all φ ψ now user live w.disk (keep is_trashed w.trash) k
          (omega (arith, length-keep-le is_trashed w.trash)) free kept,
    ),
    λ sel. ground (
      arith,
      row_of-purge_items φ ψ now auto live w 0 0 (keep (is_expired now) w.trash) k,
      mem-keep (is_expired now) w.trash k r u h,
      row_of-id φ ψ now auto k w.trash r h,
      marked_all φ ψ now auto live w.disk (keep (is_expired now) w.trash) k
          (omega (arith, length-keep-le (is_expired now) w.trash)) free kept,
    ),
  )

-- The bytes that a stretch of the deletion log accounts for.
abbrev pub logged_bytes : List Deletion → ℕ
logged_bytes [] = 0
logged_bytes (e ∷ es) = e.file_size + logged_bytes es

module _ (φ : Faults) (ψ : DbFaults) (now : ℕ) (trigger : Trigger) where
  -- What the loop has counted, against what it has logged.
  Accounted : World → ℕ → ℕ → World × ℕ × ℕ → Type 0
  Accounted w count bytes (w', count', bytes') =
      (es : List Deletion) × (w'.deletion_log ≡ w.deletion_log ++ es)
      × (count' % word ≡ (count + length es) % word)
      × (bytes' % word ≡ (bytes + logged_bytes es) % word)

  purge_items-Accounted :
      ((j : ℕ) → ψ.log j ≡ false)
      → (live : ℕ) (w : World) (count bytes : ℕ) (items : List TrashItem)
      → Accounted w count bytes (purge_items φ ψ now trigger live w count bytes items)
  unfolding purge_items Accounted purge_item
  purge_items-Accounted free zero w count bytes items =
      ([], sym (append-nil w.deletion_log), omega arith, omega arith)
  purge_items-Accounted free (suc live) w count bytes [] =
      ([], sym (append-nil w.deletion_log), omega arith, omega arith)
  purge_items-Accounted free (suc live) w count bytes (r ∷ items) =
      elim (Bool-cases (stuck φ w.disk r.trash_path)) [
        | inl left ↦ rw left (purge_items-Accounted free live w count bytes items)
        | inr gone ↦
            let (es, logged, counted, freed) =
              purge_items-Accounted free live (purge_item φ ψ now trigger w r) (add64 count 1)
                (add64 bytes r.file_size) items in
            rw gone (
              deletion now trigger r ∷ es,
              logged ∙ rw (free r.id) (append_assoc w.deletion_log _ _),
              omega arith,
              omega arith,
            )
      ]

module _ (φ : Faults) (ψ : DbFaults) (now : ℕ) (live : ℕ) (w : World) where
  -- If the log is written, PurgeAll returns the number of the rows that it logged and the sum of
  -- their sizes, both as 64-bit words, whatever else is refused and whenever the context is done.
  pub purge_all_accounts :
      ψ.query ≡ false
      → ((j : ℕ) → ψ.log j ≡ false)
      → (es : List Deletion) × (count : ℕ) × (bytes : ℕ) × ((purge_all φ ψ now live w).1
          ≡ ok (count, bytes))
        × ((purge_all φ ψ now live w).0.deletion_log ≡ w.deletion_log ++ es)
        × (count % word ≡ length es % word)
        × (bytes % word ≡ logged_bytes es % word)
  unfolding purge_all Accounted
  purge_all_accounts q free =
      let run = purge_items φ ψ now user live w 0 0 (keep is_trashed w.trash) in
      let (es, logged, counted, freed) =
        purge_items-Accounted φ ψ now user free live w 0 0 (keep is_trashed w.trash) in
      (es, run.1, run.2, simp q, simp q logged, omega arith, omega arith)
