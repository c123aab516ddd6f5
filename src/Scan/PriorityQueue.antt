-- ===== src/Scan/PriorityQueue.antt =====
-- RunSizePriorityQueue (internal/scan/priority.go): the smallest file that has come goes first.
use ditto.Prelude.{
  ℕ, zero, suc, ◌+◌, ◌*◌, ◌≤◌, ◌≡◌, refl, List, [], ◌∷◌, Bool, true, false, arith, length, count_if,
  Member, inl, inr, sym, subst, ltb,
}
use ditto.Scan.Types.{HashedFile}

-- What container/heap does with a sizeHeap, by its documentation: Push keeps the heap a heap, of one item
-- more; Pop removes the item at index 0 and keeps it a heap; that item has the least size.
pub record SizeHeap : Type 0 where
  pub is_heap : List HashedFile → Bool
  pub push : List HashedFile → HashedFile → List HashedFile
  pub pop : List HashedFile → List HashedFile
  pub nil-is_heap : is_heap [] ≡ true
  pub push-is_heap :
      (h : List HashedFile) (a : HashedFile) → is_heap h ≡ true → is_heap (push h a) ≡ true
  pub pop-is_heap : (h : List HashedFile) → is_heap h ≡ true → is_heap (pop h) ≡ true
  pub count_if-push :
      (p : HashedFile → Bool) (h : List HashedFile) (a : HashedFile)
      → count_if p (push h a) ≡ count_if p (a ∷ h)
  pub count_if-pop :
      (p : HashedFile → Bool) (h : List HashedFile) (a : HashedFile)
      → count_if p (pop (a ∷ h)) ≡ count_if p h
  pub least :
      (h : List HashedFile) (a b : HashedFile)
      → is_heap (a ∷ h) ≡ true
      → Member b (a ∷ h)
      → a.size ≤ b.size

module _ (q : SizeHeap) where
  -- The input is closed: the heap is drained, with `live` sends before the context is done.
  unfoldable pub drain : ℕ → List HashedFile → List HashedFile
  drain zero h = []
  drain (suc live) [] = []
  drain (suc live) (a ∷ h) = a ∷ drain live (q.pop (a ∷ h))

  -- The loop: where the heap is not empty, `accepts i` says whether the `i`-th channel operation is a
  -- receive or the send of the first item. What is sent.
  unfoldable pub dispatch : ℕ → (ℕ → Bool) → ℕ → List HashedFile → List HashedFile → List HashedFile
  dispatch zero accepts i h xs = []
  dispatch (suc live) accepts i [] [] = []
  dispatch (suc live) accepts i [] (x ∷ xs) = dispatch live accepts (i + 1) (q.push [] x) xs
  dispatch (suc live) accepts i (a ∷ h) [] = elim (accepts i) [
    | true ↦ drain live (a ∷ h)
    | false ↦ a ∷ dispatch live accepts (i + 1) (q.pop (a ∷ h)) []
  ]
  dispatch (suc live) accepts i (a ∷ h) (x ∷ xs) = elim (accepts i) [
    | true ↦ dispatch live accepts (i + 1) (q.push (a ∷ h) x) xs
    | false ↦ a ∷ dispatch live accepts (i + 1) (q.pop (a ∷ h)) (x ∷ xs)
  ]

  -- The stage over all that arrives; every item is received and sent once.
  unfoldable pub run_size_priority_queue : ℕ → (ℕ → Bool) → List HashedFile → List HashedFile
  run_size_priority_queue live accepts xs = dispatch live accepts 0 [] xs

  abbrev pub always : HashedFile → Bool
  always x = true

  count_if-always : (xs : List HashedFile) → count_if always xs ≡ length xs
  count_if-always [] = refl
  count_if-always (x ∷ xs) = omega (arith, count_if-always xs)

  length-push : (h : List HashedFile) (a : HashedFile) → length (q.push h a) ≡ length h + 1
  length-push h a =
      omega (arith, q.count_if-push always h a, count_if-always (q.push h a), count_if-always h)

  length-pop : (h : List HashedFile) (a : HashedFile) → length (q.pop (a ∷ h)) ≡ length h
  length-pop h a =
      omega (arith, q.count_if-pop always h a, count_if-always (q.pop (a ∷ h)), count_if-always h)

  count_if-drain :
      (live : ℕ) (h : List HashedFile) (p : HashedFile → Bool)
      → length h ≤ live
      → count_if p (drain live h) ≡ count_if p h
  unfolding drain
  count_if-drain zero [] p e = refl
  count_if-drain zero (a ∷ h) p e = absurd (omega arith)
  count_if-drain (suc live) [] p e = refl
  count_if-drain (suc live) (a ∷ h) p e =
      ground (arith, length-pop h a, q.count_if-pop p h a, count_if-drain live (q.pop (a ∷ h)) p)

  count_if-dispatch :
      (live : ℕ) (accepts : ℕ → Bool) (i : ℕ) (h xs : List HashedFile) (p : HashedFile → Bool)
      → 2 * length xs + length h + 1 ≤ live
      → count_if p (dispatch live accepts i h xs) ≡ count_if p h + count_if p xs
  unfolding dispatch
  count_if-dispatch zero accepts i h xs p e = absurd (omega arith)
  count_if-dispatch (suc live) accepts i [] [] p e = refl
  count_if-dispatch (suc live) accepts i [] (x ∷ xs) p e = ground (
    arith,
    length-push [] x,
    q.count_if-push p [] x,
    count_if-dispatch live accepts (i + 1) (q.push [] x) xs p,
  )
  count_if-dispatch (suc live) accepts i (a ∷ h) [] p e = ground (
    arith,
    length-pop h a,
    q.count_if-pop p h a,
    count_if-drain live (a ∷ h) p,
    count_if-dispatch live accepts (i + 1) (q.pop (a ∷ h)) [] p,
  )
  count_if-dispatch (suc live) accepts i (a ∷ h) (x ∷ xs) p e = ground (
    arith,
    length-pop h a,
    length-push (a ∷ h) x,
    q.count_if-pop p h a,
    q.count_if-push p (a ∷ h) x,
    count_if-dispatch live accepts (i + 1) (q.push (a ∷ h) x) xs p,
    count_if-dispatch live accepts (i + 1) (q.pop (a ∷ h)) (x ∷ xs) p,
  )

  -- In a run that is not cancelled, whenever the queue receives and sends, no file is lost or repeated.
  pub count_if-run_size_priority_queue :
      (accepts : ℕ → Bool) (xs : List HashedFile) (p : HashedFile → Bool)
      → count_if p (run_size_priority_queue (2 * length xs + 1) accepts xs) ≡ count_if p xs
  unfolding run_size_priority_queue
  count_if-run_size_priority_queue accepts xs p =
      omega (arith, count_if-dispatch (2 * length xs + 1) accepts 0 [] xs p (omega arith))

-- Sizes never fall from one file to the next.
abbrev pub Ascends : List HashedFile → Type 0
Ascends [] = Unit
Ascends (a ∷ []) = Unit
Ascends (a ∷ b ∷ fs) = (a.size ≤ b.size) × Ascends (b ∷ fs)

abbrev AtLeast : ℕ → List HashedFile → Type 0
AtLeast n [] = Unit
AtLeast n (a ∷ fs) = n ≤ a.size

abbrev smaller : ℕ → HashedFile → Bool
smaller n a = ltb a.size n

count_if-smaller :
    (n : ℕ) (fs : List HashedFile)
    → ((b : HashedFile) → Member b fs → n ≤ b.size)
    → count_if (smaller n) fs ≡ 0
count_if-smaller n [] least = refl
count_if-smaller n (b ∷ fs) least =
    ground (arith, least b (inl refl), count_if-smaller n fs (λ c m. least c (inr m)))

AtLeast-count_if : (n : ℕ) (fs : List HashedFile) → count_if (smaller n) fs ≡ 0 → AtLeast n fs
AtLeast-count_if n [] h = tt
AtLeast-count_if n (b ∷ fs) h = ground arith

Ascends-cons :
    (a : HashedFile) (fs : List HashedFile) → AtLeast a.size fs → Ascends fs → Ascends (a ∷ fs)
Ascends-cons a [] least rest = tt
Ascends-cons a (b ∷ fs) least rest = (least, rest)

module _ (q : SizeHeap) where
  -- The item that comes to the front after a Pop is no smaller.
  AtLeast-pop :
      (a : HashedFile) (h : List HashedFile)
      → q.is_heap (a ∷ h) ≡ true
      → AtLeast a.size (q.pop (a ∷ h))
  AtLeast-pop a h ok =
      let none_smaller = count_if-smaller a.size (a ∷ h) (λ b m. q.least h a b ok m) in
      AtLeast-count_if a.size (q.pop (a ∷ h)) (ground (arith, q.count_if-pop (smaller a.size) h a))

  AtLeast-drain : (live n : ℕ) (h : List HashedFile) → AtLeast n h → AtLeast n (drain q live h)
  unfolding drain
  AtLeast-drain zero n h least = tt
  AtLeast-drain (suc live) n [] least = tt
  AtLeast-drain (suc live) n (a ∷ h) least = least

  drain-Ascends : (live : ℕ) (h : List HashedFile) → q.is_heap h ≡ true → Ascends (drain q live h)
  unfolding drain
  drain-Ascends zero h ok = tt
  drain-Ascends (suc live) [] ok = tt
  drain-Ascends (suc live) (a ∷ h) ok =
      Ascends-cons a (drain q live (q.pop (a ∷ h)))
        (AtLeast-drain live a.size (q.pop (a ∷ h)) (AtLeast-pop a h ok))
        (drain-Ascends live (q.pop (a ∷ h)) (q.pop-is_heap (a ∷ h) ok))

  dispatch-Ascends :
      (live : ℕ) (accepts : ℕ → Bool) (i : ℕ) (h xs : List HashedFile)
      → ((j : ℕ) → accepts j ≡ true)
      → q.is_heap h ≡ true
      → Ascends (dispatch q live accepts i h xs)
  unfolding dispatch
  dispatch-Ascends zero accepts i h xs eager ok = tt
  dispatch-Ascends (suc live) accepts i [] [] eager ok = tt
  dispatch-Ascends (suc live) accepts i [] (x ∷ xs) eager ok =
      dispatch-Ascends live accepts (i + 1) (q.push [] x) xs eager (q.push-is_heap [] x ok)
  dispatch-Ascends (suc live) accepts i (a ∷ h) [] eager ok =
      let received : dispatch q (suc live) accepts i (a ∷ h) [] ≡ drain q live (a ∷ h) =
        ground (arith, eager i) in
      subst Ascends (sym received) (drain-Ascends live (a ∷ h) ok)
  dispatch-Ascends (suc live) accepts i (a ∷ h) (x ∷ xs) eager ok =
      let received : dispatch q (suc live) accepts i (a ∷ h) (x ∷ xs)
          ≡ dispatch q live accepts (i + 1) (q.push (a ∷ h) x) xs =
        ground (arith, eager i) in
      subst Ascends (sym received) (
        dispatch-Ascends live accepts (i + 1) (q.push (a ∷ h) x) xs eager
          (q.push-is_heap (a ∷ h) x ok))

  -- A queue that receives whenever it can sends the files by ascending size, in a run of any length;
  -- and in one that is not cancelled, as often as they came.
  pub run_size_priority_queue-Ascends :
      (live : ℕ) (accepts : ℕ → Bool) (xs : List HashedFile) (p : HashedFile → Bool)
      → ((j : ℕ) → accepts j ≡ true)
      → Ascends (run_size_priority_queue q live accepts xs)
        × (count_if p (run_size_priority_queue q (2 * length xs + 1) accepts xs) ≡ count_if p xs)
  unfolding run_size_priority_queue
  run_size_priority_queue-Ascends live accepts xs p eager = (
    dispatch-Ascends live accepts 0 [] xs eager q.nil-is_heap,
    count_if-run_size_priority_queue q accepts xs p,
  )
