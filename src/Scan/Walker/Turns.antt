-- ===== src/Scan/Walker/Turns.antt =====
-- Invariants of the walk (internal/scan/walker.go) that add up over its workers: what one step of one
-- worker keeps, a schedule of steps keeps.
use ditto.Prelude.{
  ℕ, zero, suc, ◌+◌, ◌≡◌, List, [], ◌∷◌, Bool, true, false, none, some, String, arith, subst, sym,
  inl, inr, Option-cases,
}
use ditto.Scan.Walker.Queue.{DirQueue, pop, view, IsRest, pop-cases}
use ditto.Scan.Walker.Worker.{
  Tree, Entry, Worker, waiting, exited, reading, scanning, Shared, done, report, after_pop,
  after_read, act, turn, run,
}

abbrev pub sum : (Worker → ℕ) → List Worker → ℕ
sum f [] = 0
sum f (w ∷ ws) = f w + sum f ws

-- Every step of the schedule takes the context for what `C` allows.
abbrev pub AllTurns : (Bool → Type 0) → List (ℕ × Bool) → Type 0
AllTurns C [] = Unit
AllTurns C ((i, c) ∷ steps) = C c × AllTurns C steps

abbrev pub Either : Bool → Type 0
Either c = Unit

abbrev pub Uncancelled : List (ℕ × Bool) → Type 0
Uncancelled = AllTurns (λ c. c ≡ false)

pub AllTurns-Either : (steps : List (ℕ × Bool)) → AllTurns Either steps
AllTurns-Either [] = tt
AllTurns-Either (x ∷ steps) = (tt, AllTurns-Either steps)

-- What a Pop or a ReadDir comes to, case by case.
pub after_pop-cases :
    (Q : Worker × Shared → Type 0) (s : Shared)
    → (view s.queue ≡ [] → s.queue.closed ≡ false → Q (waiting, s))
    → (view s.queue ≡ [] → s.queue.closed ≡ true → Q (exited, s))
    → ((q : DirQueue) (d : String) (ds : List String)
        → view s.queue ≡ d ∷ ds
        → IsRest s.queue ds q
        → Q (reading d, record s { queue = q }))
    → Q (after_pop (pop s.queue) s)
after_pop-cases Q s stay leave go = elim (pop-cases s.queue) [
  | inl (v, e, up) ↦ subst (λ p. Q (after_pop p s)) (sym e) (stay v up)
  | inr (inl (v, e, down)) ↦ subst (λ p. Q (after_pop p s)) (sym e) (leave v down)
  | inr (inr (q, d, ds, e, v, rest)) ↦ subst (λ p. Q (after_pop p s)) (sym e) (go q d ds v rest)
]

pub after_read-cases :
    (Q : Worker × Shared → Type 0) (t : Tree) (dir : String) (s : Shared)
    → (t.read_dir dir ≡ none → Q (done false (report dir s)))
    → ((es : List Entry) → t.read_dir dir ≡ some es → Q (scanning dir es, s))
    → Q (after_read dir (t.read_dir dir) s)
after_read-cases Q t dir s failed scan = elim (Option-cases (t.read_dir dir)) [
  | inl e ↦ subst (λ r. Q (after_read dir r s)) (sym e) (failed e)
  | inr (es, e) ↦ subst (λ r. Q (after_read dir r s)) (sym e) (scan es e)
]

regroup : (a b c : ℕ) → a + b + c ≡ a + (b + c)
regroup a b c = omega arith

exchange : (a b c : ℕ) → a + b + c ≡ b + (a + c)
exchange a b c = omega arith

-- `P s n m` speaks of what is shared and of two numbers, the sums of `f` and of `g` over all workers.
module _ (t : Tree) (C : Bool → Type 0) (P : Shared → ℕ → ℕ → Type 0) (f g : Worker → ℕ)
    (act-P : (c : Bool) (w : Worker) (s : Shared) (n m : ℕ)
      → C c
      → P s (f w + n) (g w + m)
      → P (act t c w s).1 (f (act t c w s).0 + n) (g (act t c w s).0 + m)) where
  P_congr : (s : Shared) {n n' m m' : ℕ} → n ≡ n' → m ≡ m' → P s n m → P s n' m'
  P_congr s {n' = n'} {m = m} e e' p = subst (P s n') e' (subst (λ k. P s k m) e p)

  turn-P :
      (c : Bool) (i : ℕ) (ws : List Worker) (s : Shared) (n m : ℕ)
      → C c
      → P s (sum f ws + n) (sum g ws + m)
      → P (turn t c i ws s).1 (sum f (turn t c i ws s).0 + n) (sum g (turn t c i ws s).0 + m)
  unfolding turn
  turn-P c i [] s n m h p = p
  turn-P c zero (w ∷ ws) s n m h p =
      let (w', s') = act t c w s in
      let there = P_congr s (regroup (f w) (sum f ws) n) (regroup (g w) (sum g ws) m) p in
      P_congr s' (sym (regroup (f w') (sum f ws) n)) (sym (regroup (g w') (sum g ws) m))
        (act-P c w s (sum f ws + n) (sum g ws + m) h there)
  turn-P c (suc i) (w ∷ ws) s n m h p =
      let (ws', s') = turn t c i ws s in
      let there = P_congr s (exchange (f w) (sum f ws) n) (exchange (g w) (sum g ws) m) p in
      P_congr s' (sym (exchange (f w) (sum f ws') n)) (sym (exchange (g w) (sum g ws') m))
        (turn-P c i ws s (f w + n) (g w + m) h there)

  pub run-P :
      (steps : List (ℕ × Bool)) (ws : List Worker) (s : Shared)
      → AllTurns C steps
      → P s (sum f ws + 0) (sum g ws + 0)
      → P (run t steps ws s).1 (sum f (run t steps ws s).0 + 0) (sum g (run t steps ws s).0 + 0)
  unfolding run
  run-P [] ws s h p = p
  run-P ((i, c) ∷ steps) ws s (now, later) p =
      let (ws', s') = turn t c i ws s in run-P steps ws' s' later (turn-P c i ws s 0 0 now p)
