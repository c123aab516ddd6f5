-- ===== src/Scan/Walker/Queue.antt =====
-- dirQueue (internal/scan/walker.go). Every method holds the mutex, or is one atomic operation on the
-- counter, and is one step here.
use ditto.Prelude.{
  ℕ, zero, suc, ◌+◌, ◌-◌, ◌/◌, ◌≤◌, ◌<◌, ◌≡◌, ◌⊎◌, inl, inr, ◌∙◌, refl, Bool-cases, List, [], ◌∷◌,
  ◌++◌, Bool, true, false, ◌&&◌, String, arith, if◌then◌else◌, leb, nat_beq, length, drop,
  length-append,
}

pub record DirQueue : Type 0 where
  pub items : List String
  pub head : ℕ
  pub pending : ℕ
  pub closed : Bool

abbrev pub new_dir_queue : DirQueue
new_dir_queue = record { items = []; head = 0; pending = 0; closed = false }

-- `q.pending.Add(1)`.
abbrev pub add_pending : DirQueue → DirQueue
add_pending q = record q { pending = q.pending + 1 }

unfoldable pub push : DirQueue → String → DirQueue
push q dir = record q { items = q.items ++ (dir ∷ []) }

-- `q.items[i] = ""`.
abbrev pub blank : ℕ → List String → List String
blank i [] = []
blank zero (d ∷ ds) = "" ∷ ds
blank (suc i) (d ∷ ds) = d ∷ blank i ds

-- Drop what was consumed, when it is at least 1000 items and half of all.
unfoldable pub compact : DirQueue → DirQueue
compact q =
    if leb 1000 q.head && leb (length q.items / 2) q.head
    then record q { items = drop q.head q.items; head = 0 }
    else q

-- What Pop comes to: it waits (the queue is empty and open), it returns false, or a directory.
pub data Popped : Type 0 where
  waits none_left : Popped
  popped : DirQueue → String → Popped

abbrev pub take_first : DirQueue → List String → Popped
take_first q [] = if q.closed then none_left else waits
take_first q (d ∷ ds) =
    popped (compact (record q { items = blank q.head q.items; head = suc q.head })) d

-- `q.items[q.head]`, if `q.head < len(q.items)`, is the first item from `head` on.
unfoldable pub pop : DirQueue → Popped
pop q = take_first q (drop q.head q.items)

-- `q.pending.Add(-1)`, and whether the result is 0. The counter is never 0 before (Pending).
unfoldable pub finish : DirQueue → DirQueue × Bool
finish q = (record q { pending = q.pending - 1 }, nat_beq q.pending 1)

abbrev pub close : DirQueue → DirQueue
close q = record q { closed = true }

-- The queue as a list: what was pushed and not popped.
abbrev pub view : DirQueue → List String
view q = drop q.head q.items

abbrev pub IsWellFormed : DirQueue → Type 0
IsWellFormed q = q.head ≤ length q.items

drop-append : (n : ℕ) (ds es : List String) → n ≤ length ds → drop n (ds ++ es) ≡ drop n ds ++ es
drop-append zero ds es h = refl
drop-append (suc n) [] es h = absurd (omega arith)
drop-append (suc n) (d ∷ ds) es h = drop-append n ds es (omega arith)

length-blank : (i : ℕ) (ds : List String) → length (blank i ds) ≡ length ds
length-blank i [] = refl
length-blank zero (d ∷ ds) = refl
length-blank (suc i) (d ∷ ds) = omega (arith, length-blank i ds)

drop-blank :
    (i : ℕ) (ds : List String) (e : String) (es : List String)
    → drop i ds ≡ e ∷ es
    → (drop (suc i) (blank i ds) ≡ es) × (suc i ≤ length ds)
drop-blank zero [] e es h = absurd (cc)
drop-blank zero (d ∷ ds) e es h = (ground arith, omega arith)
drop-blank (suc i) [] e es h = absurd (cc)
drop-blank (suc i) (d ∷ ds) e es h =
    let (same, short) = drop-blank i ds e es h in (same, omega arith)

pub push-view :
    (q : DirQueue) (dir : String) → IsWellFormed q → view (push q dir) ≡ view q ++ (dir ∷ [])
unfolding push
push-view q dir ok = drop-append q.head q.items (dir ∷ []) ok

pub push-IsWellFormed : (q : DirQueue) (dir : String) → IsWellFormed q → IsWellFormed (push q dir)
unfolding push
push-IsWellFormed q dir ok = omega (arith, length-append q.items (dir ∷ []))

compact-view : (q : DirQueue) → view (compact q) ≡ view q
unfolding compact
compact-view q = ground arith

compact-IsWellFormed : (q : DirQueue) → IsWellFormed q → IsWellFormed (compact q)
unfolding compact
compact-IsWellFormed q ok = ground arith

-- What a Pop that returns a directory leaves.
abbrev pub IsRest : DirQueue → List String → DirQueue → Type 0
IsRest q ds q' =
    (view q' ≡ ds) × IsWellFormed q' × (q'.pending ≡ q.pending) × (q'.closed ≡ q.closed)

take_first-IsRest :
    (q : DirQueue) (d : String) (ds : List String)
    → view q ≡ d ∷ ds
    → IsRest q ds (compact (record q { items = blank q.head q.items; head = suc q.head }))
unfolding compact
take_first-IsRest q d ds h =
    let (rest, short) = drop-blank q.head q.items d ds h in
    let q' = record q { items = blank q.head q.items; head = suc q.head } in
    let ok : IsWellFormed q' = omega (arith, length-blank q.head q.items) in
    (compact-view q' ∙ rest, compact-IsWellFormed q' ok, ground arith, ground arith)

take_first-cases :
    (q : DirQueue) (ds : List String)
    → view q ≡ ds
    → ((ds ≡ []) × (take_first q ds ≡ waits) × (q.closed ≡ false))
      ⊎ ((ds ≡ []) × (take_first q ds ≡ none_left) × (q.closed ≡ true))
      ⊎ ((q' : DirQueue) × (e : String) × (es : List String) × (take_first q ds ≡ popped q' e)
          × (ds ≡ e ∷ es)
          × IsRest q es q')
take_first-cases q [] h = elim (Bool-cases q.closed) [
  | inl shut ↦ inr (inl (refl, ground arith, shut))
  | inr up ↦ inl (refl, ground arith, up)
]
take_first-cases q (d ∷ ds) h =
    let q' = record q { items = blank q.head q.items; head = suc q.head } in
    inr (inr (compact q', d, ds, refl, refl, take_first-IsRest q d ds h))

-- What Pop comes to on a queue that is a list.
abbrev pub IsFifo : DirQueue → List String → Popped → Type 0
IsFifo q [] waits = q.closed ≡ false
IsFifo q [] none_left = q.closed ≡ true
IsFifo q [] (popped q' d) = ⊥
IsFifo q (e ∷ es) (popped q' d) =
    (d ≡ e) × IsRest q es q' × ((q'.head < 1000) ⊎ (q'.head < length q'.items / 2))
IsFifo q (e ∷ es) waits = ⊥
IsFifo q (e ∷ es) none_left = ⊥

compact-head :
    (q : DirQueue) → ((compact q).head < 1000) ⊎ ((compact q).head < length (compact q).items / 2)
unfolding compact
compact-head q = ground arith

take_first-IsFifo : (q : DirQueue) (ds : List String) → view q ≡ ds → IsFifo q ds (take_first q ds)
unfolding compact
take_first-IsFifo q [] h = ground arith
take_first-IsFifo q (d ∷ ds) h = (
  refl,
  take_first-IsRest q d ds h,
  compact-head (record q { items = blank q.head q.items; head = suc q.head }),
)

-- The queue is first in, first out: on a queue whose head is within its items, Push appends to what is
-- to be popped; Pop returns the first directory of it, keeps the rest whether or not it compacts the
-- items, and leaves a head below 1000 or below half of the items; it waits or gives up only when there
-- is none, as the queue is open or closed.
pub pop-push-IsFifo :
    (q : DirQueue) (dir : String)
    → IsWellFormed q
    → IsFifo q (view q) (pop q) × (view (push q dir) ≡ view q ++ (dir ∷ []))
unfolding pop
pop-push-IsFifo q dir ok = (take_first-IsFifo q (view q) refl, push-view q dir ok)

pub pop-cases :
    (q : DirQueue)
    → ((view q ≡ []) × (pop q ≡ waits) × (q.closed ≡ false))
      ⊎ ((view q ≡ []) × (pop q ≡ none_left) × (q.closed ≡ true))
      ⊎ ((q' : DirQueue) × (d : String) × (ds : List String) × (pop q ≡ popped q' d)
          × (view q ≡ d ∷ ds)
          × IsRest q ds q')
unfolding pop
pop-cases q = take_first-cases q (view q) refl
