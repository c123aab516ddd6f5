-- ===== src/Scan/Writer/Iteration.antt =====
-- The map of RunDBWriter (internal/scan/writer.go): what its entries hold after the results, and what
-- does not depend on the order of an iteration over it.
use ditto.Prelude.{
  ℕ, ◌+◌, ◌≤◌, ◌≡◌, refl, List, [], ◌∷◌, Option, Bool, String, arith, if◌then◌else◌, leb, keep,
  length, length-append, count_if-append, ◌==◌, string_key, ap, ◌∙◌, sym,
}
use mathlib.Core.List.{Permᴰ}
use text.Mathlib.TextEquality.{eq_iff}
use ditto.Scan.Types.{HashedFile}
use ditto.Scan.Writer.Defs.{GroupEntry}
use ditto.Scan.Writer.Collect.{add_file, is_duplicate, total_files, files_at}
use ditto.Scan.Writer.Insert.{at_path}
use ditto.Scan.Writer.View.{Listed, listed_of}
use ditto.Scan.Writer.All.{total, named, holds, brings, hollow, IsOrderly, recorded}

-- The results of a list, one by one, into the map.
abbrev pub add_files : List HashedFile → List GroupEntry → List GroupEntry
add_files [] es = es
add_files (x ∷ xs) es = add_files xs (add_file x es)

holds-add_file :
    (p : String) (x : HashedFile) (es : List GroupEntry)
    → total (holds p) (add_file x es) ≡ total (holds p) es + at_path p (x ∷ [])
unfolding add_file
holds-add_file p x [] = omega arith
holds-add_file p x (e ∷ es) = ground (
  arith,
  count_if-append (λ (f : HashedFile). f.path == p) e.files (x ∷ []),
  holds-add_file p x es,
)

named-add_file :
    (h : String) (x : HashedFile) (es : List GroupEntry)
    → total (named h) (add_file x es) ≡ (
        if x.hash == h
        then (if leb (total (named h) es) 0 then 1 else total (named h) es)
        else total (named h) es)
unfolding add_file
named-add_file h x [] = ground arith
named-add_file h x (e ∷ es) =
    ground (arith, eq_iff e.hash h, eq_iff x.hash h, eq_iff e.hash x.hash, named-add_file h x es)

hollow-add_file :
    (x : HashedFile) (es : List GroupEntry) → total hollow es ≡ 0 → total hollow (add_file x es) ≡ 0
unfolding add_file
hollow-add_file x [] solid = refl
hollow-add_file x (e ∷ es) solid =
    ground (arith, length-append e.files (x ∷ []), hollow-add_file x es)

files-add_file :
    (x : HashedFile) (es : List GroupEntry) → total_files (add_file x es) ≡ total_files es + 1
unfolding add_file
files-add_file x [] = omega arith
files-add_file x (e ∷ es) = ground (arith, length-append e.files (x ∷ []), files-add_file x es)

-- The sum of a weight does not depend on the order.
pub total-perm :
    (w : GroupEntry → ℕ) {es fs : List GroupEntry} → Permᴰ es fs → total w es ≡ total w fs
total-perm w Permᴰ.nil = refl
total-perm w (Permᴰ.cons e p) = omega (arith, ap w e, total-perm w p)
total-perm w (Permᴰ.swap e e') = omega (arith, ap w e, ap w e')
total-perm w (Permᴰ.trans p q) = total-perm w p ∙ total-perm w q

-- What one entry leaves, if it passes a test.
abbrev overwritten : String → (GroupEntry → Bool) → GroupEntry → Option Listed → Option Listed
overwritten h q e old = if q e then if e.hash == h then listed_of e.files else old else old

recorded-keep :
    (h : String) (q : GroupEntry → Bool) (e : GroupEntry) (es : List GroupEntry)
    (old : Option Listed)
    → recorded h (keep q (e ∷ es)) old ≡ recorded h (keep q es) (overwritten h q e old)
recorded-keep h q e es old = ground arith

overwritten_comm :
    (h : String) (q : GroupEntry → Bool) (d e : GroupEntry) (old : Option Listed)
    → named h d + named h e ≤ 1
    → overwritten h q e (overwritten h q d old) ≡ overwritten h q d (overwritten h q e old)
overwritten_comm h q d e old once = ground arith

-- What the entries that pass a test leave of a digest's record does not depend on the order either.
pub recorded-perm :
    (h : String) (q : GroupEntry → Bool) {es fs : List GroupEntry}
    → Permᴰ es fs
    → total (named h) es ≤ 1
    → (old : Option Listed) → recorded h (keep q es) old ≡ recorded h (keep q fs) old
recorded-perm h q Permᴰ.nil once old = refl
recorded-perm h q {es = x ∷ xs} {fs = y ∷ ys} (Permᴰ.cons e p) once old =
    recorded-keep h q x xs old
    ∙ recorded-perm h q p (omega arith) _
    ∙ ap (λ z. recorded h (keep q ys) (overwritten h q z old)) e
    ∙ sym (recorded-keep h q y ys old)
recorded-perm h q {es = x ∷ y ∷ xs} {fs = y' ∷ x' ∷ ys} (Permᴰ.swap e e') once old =
    recorded-keep h q x (y ∷ xs) old
    ∙ recorded-keep h q y xs _
    ∙ ap (recorded h (keep q xs)) (overwritten_comm h q x y old (omega arith))
    ∙ ap (λ z. recorded h (keep q xs) (overwritten h q z (overwritten h q y old))) e
    ∙ ap (λ z. recorded h (keep q xs) (overwritten h q x' (overwritten h q z old))) e'
    ∙ sym (recorded-keep h q x' xs _)
    ∙ sym (recorded-keep h q y' (x' ∷ xs) old)
recorded-perm h q (Permᴰ.trans p p') once old =
    recorded-perm h q p once old ∙ recorded-perm h q p' (omega (arith, total-perm (named h) p)) old

recorded_none :
    (h : String) (q : GroupEntry → Bool) (es : List GroupEntry) (old : Option Listed)
    → total (named h) es ≡ 0
    → recorded h (keep q es) old ≡ old
recorded_none h q [] old absent = refl
recorded_none h q (e ∷ es) old absent = ground (arith, recorded_none h q es old)

files_at_none : (h : String) (es : List GroupEntry) → total (named h) es ≡ 0 → files_at h es ≡ []
files_at_none h [] absent = refl
files_at_none h (e ∷ es) absent = ground (arith, files_at_none h es)

-- The duplicates of a map leave the record of the digest's files, if it has two or more.
pub recorded-files_at :
    (h : String) (es : List GroupEntry) (old : Option Listed)
    → total (named h) es ≤ 1
    → recorded h (keep is_duplicate es) old
      ≡ (if leb 2 (length (files_at h es)) then listed_of (files_at h es) else old)
recorded-files_at h [] old once = refl
recorded-files_at h (e ∷ es) old once = ground (
  arith,
  recorded-files_at h es old,
  recorded_none h is_duplicate es (listed_of e.files),
  recorded_none h is_duplicate es old,
)

-- The files with a path that the duplicates bring to a digest are those of the digest.
pub brings-files_at :
    (h p : String) (es : List GroupEntry)
    → total (named h) es ≤ 1
    → total (λ e. if is_duplicate e then brings h p e else 0) es
      ≡ (if leb 2 (length (files_at h es)) then at_path p (files_at h es) else 0)
brings-files_at h p [] once = refl
brings-files_at h p (e ∷ es) once = ground (arith, brings-files_at h p es, files_at_none h es)

-- A filter is a weight of nothing for what it drops.
pub total-keep :
    (w : GroupEntry → ℕ) (q : GroupEntry → Bool) (es : List GroupEntry)
    → total w (keep q es) ≡ total (λ e. if q e then w e else 0) es
total-keep w q [] = refl
total-keep w q (e ∷ es) = ground (arith, total-keep w q es)

pub total-keep-le :
    (w : GroupEntry → ℕ) (q : GroupEntry → Bool) (es : List GroupEntry)
    → total w (keep q es) ≤ total w es
total-keep-le w q [] = omega arith
total-keep-le w q (e ∷ es) = ground (arith, total-keep-le w q es)

-- The map of results in which no path comes twice.
pub add_files-IsOrderly :
    (xs : List HashedFile) (es : List GroupEntry)
    → ((h : String) → total (named h) es ≤ 1)
    → ((p : String) → total (holds p) es + at_path p xs ≤ 1)
    → total hollow es ≡ 0
    → IsOrderly (add_files xs es)
add_files-IsOrderly [] es names paths solid = (names, λ p. omega (arith, paths p), solid)
add_files-IsOrderly (x ∷ xs) es names paths solid =
    add_files-IsOrderly xs (add_file x es) (λ h. ground (arith, names h, named-add_file h x es))
      (λ p. ground (arith, paths p, holds-add_file p x es)) (hollow-add_file x es solid)

pub files-add_files :
    (xs : List HashedFile) (es : List GroupEntry)
    → total_files (add_files xs es) ≡ total_files es + length xs
files-add_files [] es = omega arith
files-add_files (x ∷ xs) es = omega (arith, files-add_files xs (add_file x es), files-add_file x es)

length-add_file : (x : HashedFile) (es : List GroupEntry) → length (add_file x es) ≤ length es + 1
unfolding add_file
length-add_file x [] = omega arith
length-add_file x (e ∷ es) = ground (arith, length-add_file x es)

pub total_one : (es : List GroupEntry) → total (λ e. 1) es ≡ length es
total_one [] = refl
total_one (e ∷ es) = omega (arith, total_one es)

-- There are no more digests than files.
pub length-add_files :
    (xs : List HashedFile) (es : List GroupEntry) → length (add_files xs es) ≤ length es + length xs
length-add_files [] es = omega arith
length-add_files (x ∷ xs) es =
    omega (arith, length-add_files xs (add_file x es), length-add_file x es)

pub total_files-perm : {es fs : List GroupEntry} → Permᴰ es fs → total_files es ≡ total_files fs
total_files-perm Permᴰ.nil = refl
total_files-perm (Permᴰ.cons e p) =
    omega (arith, ap (λ (x : GroupEntry). length x.files) e, total_files-perm p)
total_files-perm (Permᴰ.swap e e') =
    omega
      (arith, ap (λ (x : GroupEntry). length x.files) e, ap (λ (x : GroupEntry). length x.files) e')
total_files-perm (Permᴰ.trans p q) = total_files-perm p ∙ total_files-perm q
