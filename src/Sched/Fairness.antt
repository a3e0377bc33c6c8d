-- ===== src/Sched/Fairness.antt =====
-- How long a process waits for its turn.
use zeos_soa.Prelude.{
  ℕ, zero, suc, ◌+◌, ◌*◌, ◌≡◌, refl, ◌≤◌, ◌<◌, true, List, [], ◌∷◌, ◌++◌, length, arith, ap, ◌∙◌,
  append_assoc,
}
use zeos_soa.Prelude.Int.{ℤ, pos, ltb_ℤ}
use zeos_soa.Lists.{Ptr}
use zeos_soa.Kernel.{Kernel}
use zeos_soa.Sched.{schedule}
use zeos_soa.Sched.RoundRobin.{View, tick, Shows, schedule_refines}

-- `schedule` at each of `n` ticks of the clock, and the same of the round robin.
unfoldable pub schedules : (n : ℕ) → Kernel → Kernel
schedules zero k = k
schedules (suc n) k = schedules n (schedule k)

unfoldable pub ticks : (quantum : Ptr → ℕ) → (n : ℕ) → View → View
ticks quantum zero v = v
ticks quantum (suc n) v = ticks quantum n (tick quantum v)

schedules_refines :
    (pid : Ptr → ℤ) (quantum : Ptr → ℕ) (n : ℕ) (k : Kernel) (v : View)
    → Shows pid quantum k v
    → Shows pid quantum (schedules n k) (ticks quantum n v)
unfolding schedules ticks
schedules_refines pid quantum zero k v s = s
schedules_refines pid quantum (suc n) k v s =
    schedules_refines pid quantum n (schedule k) (tick quantum v)
      (schedule_refines pid quantum k v s)

ticks_add :
    (quantum : Ptr → ℕ) (m n : ℕ) (v : View)
    → ticks quantum (m + n) v ≡ ticks quantum n (ticks quantum m v)
unfolding ticks
ticks_add quantum zero n v = let all : 0 + n ≡ n = omega arith in rw all refl
ticks_add quantum (suc m) n v =
    let more : suc m + n ≡ suc (m + n) = omega arith in
    rw more (ticks_add quantum m n (tick quantum v))

-- The ticks that a quantum lasts: at least one.
abbrev pub span : ℕ → ℕ
span zero = 1
span (suc n) = suc n

-- The ticks until the process behind `xs` is served, when the running one has `left` ticks left.
abbrev pub wait_of : (quantum : Ptr → ℕ) → (left : ℕ) → (xs : List Ptr) → ℕ
wait_of quantum left [] = span left
wait_of quantum left (x ∷ xs) = span left + wait_of quantum (quantum x) xs

goes_on :
    (quantum : Ptr → ℕ) (n : ℕ) (r t : Ptr) (ts : List Ptr)
    → tick quantum (record { running = r; ready = t ∷ ts; left = pos (suc (suc n)) })
      ≡ record { running = r; ready = t ∷ ts; left = pos (suc n) }
unfolding tick
goes_on quantum n r t ts =
    let more : ltb_ℤ (pos 0) (pos (suc n)) ≡ true = ground arith in rw more refl

-- While somebody waits, the running process keeps the processor until its quantum is over.
turn :
    (quantum : Ptr → ℕ) (left : ℕ) (r t : Ptr) (ts : List Ptr)
    → ticks quantum (span left) (record { running = r; ready = t ∷ ts; left = pos left })
      ≡ record { running = t; ready = ts ++ r ∷ []; left = pos (quantum t) }
unfolding ticks tick
turn quantum zero r t ts = refl
turn quantum (suc zero) r t ts = refl
turn quantum (suc (suc n)) r t ts =
    ap (ticks quantum (suc n)) (goes_on quantum n r t ts) ∙ turn quantum (suc n) r t ts

-- The view with the process `p` behind `xs` in the queue.
abbrev pub behind : (r p : Ptr) → (xs ys : List Ptr) → (left : ℕ) → View
behind r p xs ys left = record { running = r; ready = xs ++ p ∷ ys; left = pos left }

served :
    (quantum : Ptr → ℕ) (r p : Ptr) (xs ys : List Ptr) (left : ℕ)
    → (ticks quantum (wait_of quantum left xs) (behind r p xs ys left)).running ≡ p
served quantum r p [] ys left = rw (turn quantum left r p ys) refl
served quantum r p (x ∷ xs) ys left =
    rw
      (
        ticks_add quantum (span left) (wait_of quantum (quantum x) xs)
            (behind r p (x ∷ xs) ys left),
        turn quantum left r x (xs ++ p ∷ ys),
        append_assoc xs (p ∷ ys) (r ∷ []),
      )
      (served quantum x p xs (ys ++ r ∷ []) (quantum x))

wait_of_le :
    (quantum : Ptr → ℕ) (q left : ℕ) (xs : List Ptr)
    → 0 < q
    → left ≤ q
    → ((x : Ptr) → quantum x ≤ q)
    → wait_of quantum left xs ≤ (length xs + 1) * q
wait_of_le quantum q zero [] p l b = ground arith
wait_of_le quantum q (suc n) [] p l b = ground arith
wait_of_le quantum q zero (x ∷ xs) p l b =
    ground (arith, wait_of_le quantum q (quantum x) xs p (b x) b)
wait_of_le quantum q (suc n) (x ∷ xs) p l b =
    ground (arith, wait_of_le quantum q (quantum x) xs p (b x) b)

-- No process starves: where no quantum and no rest of one is longer than `q`, and `q` is not 0, a
-- process behind `xs` in the ready queue runs after at most `(length xs + 1) * q` calls of
-- `schedule`.
pub schedules-served :
    (pid : Ptr → ℤ) (quantum : Ptr → ℕ) (k : Kernel) (r p : Ptr) (xs ys : List Ptr) (left q : ℕ)
    → Shows pid quantum k (behind r p xs ys left)
    → 0 < q
    → left ≤ q
    → ((x : Ptr) → quantum x ≤ q)
    → (n : ℕ) × (n ≤ (length xs + 1) * q) × ((schedules n k).current ≡ p)
schedules-served pid quantum k r p xs ys left q s z l b =
    let n = wait_of quantum left xs in
    (
      n,
      wait_of_le quantum q left xs z l b,
      (schedules_refines pid quantum n k (behind r p xs ys left) s).running
          ∙ served quantum r p xs ys left,
    )
