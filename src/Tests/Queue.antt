-- ===== src/Tests/Queue.antt =====
-- The queue by size (internal/scan/priority.go), with a sorted list for the heap.
use ditto.Prelude.{
  ℕ, ◌+◌, ◌*◌, ◌≤◌, ◌≡◌, refl, List, [], ◌∷◌, Bool, true, ◌&&◌, if◌then◌else◌, leb, length,
  count_if, Member, inl, inr, arith,
}
use ditto.Scan.Types.{HashedFile}
use ditto.Scan.PriorityQueue.{
  SizeHeap, Ascends, run_size_priority_queue, run_size_priority_queue-Ascends,
}

abbrev insert : List HashedFile → HashedFile → List HashedFile
insert [] a = a ∷ []
insert (b ∷ h) a = if leb a.size b.size then a ∷ b ∷ h else b ∷ insert h a

abbrev first_least : HashedFile → List HashedFile → Bool
first_least a [] = true
first_least a (b ∷ h) = leb a.size b.size

abbrev is_sorted : List HashedFile → Bool
is_sorted [] = true
is_sorted (a ∷ h) = first_least a h && is_sorted h

abbrev tail : List HashedFile → List HashedFile
tail [] = []
tail (a ∷ h) = h

insert-is_sorted :
    (h : List HashedFile) (a : HashedFile) → is_sorted h ≡ true → is_sorted (insert h a) ≡ true
insert-is_sorted [] a e = refl
insert-is_sorted (b ∷ []) a e = ground arith
insert-is_sorted (b ∷ c ∷ h) a e = ground (arith, insert-is_sorted (c ∷ h) a)

tail-is_sorted : (h : List HashedFile) → is_sorted h ≡ true → is_sorted (tail h) ≡ true
tail-is_sorted [] e = refl
tail-is_sorted (a ∷ h) e = ground arith

count_if-insert :
    (p : HashedFile → Bool) (h : List HashedFile) (a : HashedFile)
    → count_if p (insert h a) ≡ count_if p (a ∷ h)
count_if-insert p [] a = refl
count_if-insert p (b ∷ h) a = ground (arith, count_if-insert p h a)

sorted_least :
    (h : List HashedFile) (a b : HashedFile)
    → is_sorted (a ∷ h) ≡ true
    → Member b (a ∷ h)
    → a.size ≤ b.size
sorted_least h a b e (inl at) = ground (arith, at)
sorted_least [] a b e (inr at) = absurd at
sorted_least (c ∷ h) a b e (inr at) = ground (arith, sorted_least h c b)

pub sorted_list : SizeHeap
sorted_list = record {
  is_heap = is_sorted;
  push = insert;
  pop = tail;
  nil-is_heap = refl;
  push-is_heap = insert-is_sorted;
  pop-is_heap = tail-is_sorted;
  count_if-push = count_if-insert;
  count_if-pop = λ p h a. refl;
  least = sorted_least;
}

abbrev sized : ℕ → HashedFile
sized n = record { file_info = record { path = "/f"; size = n; mtime = 0 }; hash = "h" }

abbrev arriving : List HashedFile
arriving = sized 5 ∷ sized 2 ∷ sized 9 ∷ []

abbrev any : HashedFile → Bool
any f = true

run_size_priority_queue-Ascends_example :
    Ascends (run_size_priority_queue sorted_list 4 (λ i. true) arriving)
    × (count_if any
          (run_size_priority_queue sorted_list (2 * length arriving + 1) (λ i. true) arriving)
        ≡ count_if any arriving)
run_size_priority_queue-Ascends_example =
    run_size_priority_queue-Ascends sorted_list 4 (λ i. true) arriving any (λ j. refl)
