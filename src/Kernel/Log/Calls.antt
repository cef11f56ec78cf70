-- ===== src/Kernel/Log/Calls.antt =====
-- The file system calls that kernel/log.c serves, between `begin_op` and `end_op`, each with at
-- most `MAXOPBLOCKS` writes, one step at a time.
use sleep_e_pingpong.Base.{
  ℕ, zero, suc, ◌+◌, ◌-◌, ◌*◌, ◌≤◌, ◌≡◌, refl, ap, ◌≢◌, ◌⊎◌, inl, inr, true, false, Option, none,
  some, List, [], ◌∷◌, arith, ltb, ◌==◌, if◌then◌else◌, Bool-cases, get_elem?, set, length, All,
}
use sleep_e_pingpong.Kernel.Log.{
  Block, logsize, maxopblocks, Log, modify, begin_op, end_op, end_op_enter, end_op_leave, commit,
  log_write,
}

-- The log, and how many writes each call in progress has left.
pub record World : Type 0 where
  pub log : Log
  pub left : List ℕ

-- A call begins (or sleeps and changes nothing), call `j` changes and logs block `b`, or ends.
pub data Action : Type 0 where
  begin : Action
  write : ℕ → ℕ → Block → Action
  finish : ℕ → Action

abbrev pub remove : List ℕ → ℕ → List ℕ
remove [] i = []
remove (x ∷ xs) zero = xs
remove (x ∷ xs) (suc i) = x ∷ remove xs i

abbrev pub total : List ℕ → ℕ
total [] = 0
total (x ∷ xs) = x + total xs

-- Call `j` has `k` writes left after one with this result.
unfoldable pub logged : ℕ → ℕ → World → Option Log → Option World
logged j k w none = none
logged j k w (some s) = some (record { log = s; left = set w.left j k })

-- A call with no writes left makes none; `none` is a panic.
unfoldable pub write_call : ℕ → ℕ → Block → ℕ → World → Option World
unfolding logged
write_call j b v k w =
    if k == 0 then some w else logged j (k - 1) w (log_write b (modify b v w.log))

unfoldable pub end_call : ℕ → World → Option World
end_call j w = elim (end_op w.log) [
  | none ↦ none
  | some s ↦ some (record { log = s; left = remove w.left j })
]

unfoldable pub act : Action → World → Option World
act begin w = elim (begin_op w.log) [
  | none ↦ some w
  | some s ↦ some (record { log = s; left = maxopblocks ∷ w.left })
]
act (write j b v) w = elim (get_elem? w.left j) [ none ↦ some w | some k ↦ write_call j b v k w ]
act (finish j) w = elim (get_elem? w.left j) [ none ↦ some w | some k ↦ end_call j w ]

unfoldable pub acts : List Action → World → Option World
acts [] w = some w
acts (a ∷ as') w = elim (act a w) [ none ↦ none | some w' ↦ acts as' w' ]

pub total-set :
    (xs : List ℕ) (j k : ℕ) → get_elem? xs j ≡ some (suc k) → suc (total (set xs j k)) ≡ total xs
total-set [] j k h = cc
total-set (x ∷ xs) zero k h = ground arith
total-set (x ∷ xs) (suc j) k h = omega (arith, total-set xs j k h)

pub total-remove :
    (xs : List ℕ) (j k : ℕ) → get_elem? xs j ≡ some k → k + total (remove xs j) ≡ total xs
total-remove [] j k h = cc
total-remove (x ∷ xs) zero k h = ground arith
total-remove (x ∷ xs) (suc j) k h = omega (arith, total-remove xs j k h)

pub length-remove :
    (xs : List ℕ) (j : ℕ) {k : ℕ} → get_elem? xs j ≡ some k → suc (length (remove xs j)) ≡ length xs
length-remove [] j h = cc
length-remove (x ∷ xs) zero h = refl
length-remove (x ∷ xs) (suc j) h = ap suc (length-remove xs j h)

pub All-set :
    (xs : List ℕ) (j k m : ℕ) → k ≤ m → All (λ x. x ≤ m) xs → All (λ x. x ≤ m) (set xs j k)
All-set [] j k m h a = tt
All-set (x ∷ xs) zero k m h (p, a) = (h, a)
All-set (x ∷ xs) (suc j) k m h (p, a) = (p, All-set xs j k m h a)

pub All-remove : (xs : List ℕ) (j m : ℕ) → All (λ x. x ≤ m) xs → All (λ x. x ≤ m) (remove xs j)
All-remove [] j m a = tt
All-remove (x ∷ xs) zero m (p, a) = a
All-remove (x ∷ xs) (suc j) m (p, a) = (p, All-remove xs j m a)

pub total_bound : (xs : List ℕ) (m : ℕ) → All (λ x. x ≤ m) xs → total xs ≤ length xs * m
total_bound [] m a = omega arith
total_bound (x ∷ xs) m (p, a) = omega (arith, total_bound xs m a)

pub All-get :
    (xs : List ℕ) (j m : ℕ) {k : ℕ} → get_elem? xs j ≡ some k → All (λ x. x ≤ m) xs → k ≤ m
All-get [] j m h a = cc
All-get (x ∷ xs) zero m h (p, a) = ground arith
All-get (x ∷ xs) (suc j) m h (p, a) = All-get xs j m h a

pub begin_op-cases :
    (s : Log)
    → s.committing ≡ false
    → (begin_op s ≡ none)
      ⊎ (s.n + (s.outstanding + 1) * maxopblocks ≤ logsize)
        × (begin_op s ≡ some (record s { outstanding = s.outstanding + 1 }))
unfolding begin_op
begin_op-cases s quiet = elim (Bool-cases (ltb logsize (s.n + (s.outstanding + 1) * maxopblocks))) [
  | inl full ↦ inl (simp (quiet, full))
  | inr fits ↦ inr (ground arith, simp (quiet, fits))
]

end_op_enter-last :
    (s : Log)
    → s.committing ≡ false
    → s.outstanding ≡ 1
    → end_op_enter s ≡ some (record s { outstanding = s.outstanding - 1; committing = true }, true)
unfolding end_op_enter
end_op_enter-last s quiet one = ground arith

end_op_enter-more :
    (s : Log)
    → s.committing ≡ false
    → s.outstanding ≢ 1
    → end_op_enter s ≡ some (record s { outstanding = s.outstanding - 1 }, false)
unfolding end_op_enter
end_op_enter-more s quiet more = ground arith

pub end_op-last :
    (s : Log)
    → s.committing ≡ false
    → s.outstanding ≡ 1
    → end_op s
      ≡ some
          (end_op_leave (commit (record s { outstanding = s.outstanding - 1; committing = true })))
unfolding end_op
end_op-last s quiet one = rw (end_op_enter-last s quiet one, end_op) refl

pub end_op-more :
    (s : Log)
    → s.committing ≡ false
    → s.outstanding ≢ 1
    → end_op s ≡ some (record s { outstanding = s.outstanding - 1 })
unfolding end_op
end_op-more s quiet more = rw (end_op_enter-more s quiet more, end_op) refl

pub write_call_step :
    (j b : ℕ) (v : Block) (k : ℕ) (w : World) {s : Log}
    → log_write b (modify b v w.log) ≡ some s
    → write_call j b v (suc k) w ≡ some (record { log = s; left = set w.left j k })
unfolding write_call
write_call_step j b v k w done =
    let go : (suc k == 0) ≡ false = ground arith in
    let one_less : suc k - 1 ≡ k = omega arith in rw (go, one_less, done) refl

pub commit_idle : (s : Log) → s.n ≡ 0 → commit s ≡ s
unfolding commit
commit_idle s e = let idle : ltb 0 s.n ≡ false = ground arith in rw idle refl

pub leave_quiet : (s : Log) → (end_op_leave s).committing ≡ false
unfolding end_op_leave
leave_quiet s = refl

pub leave_calls : (s : Log) → (end_op_leave s).outstanding ≡ s.outstanding
unfolding end_op_leave
leave_calls s = refl
