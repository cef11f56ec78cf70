-- ===== src/Kernel/Proc/Family.antt =====
-- Pids and parents in the process table of kernel/proc.c: the invariant, slot by slot.
use sleep_e_pingpong.Base.{
  ℕ, ◌+◌, ◌≤◌, ◌<◌, ◌≡◌, refl, sym, ◌∙◌, ◌≢◌, ◌⊎◌, inl, inr, Bool, true, false, none, some, ◌==◌,
  Bool-cases, arith,
}
use sleep_e_pingpong.Kernel.Proc.{ProcState, unused, zombie, is_state, Proc, Table, at}
use sleep_e_pingpong.Kernel.Proc.Slots.{is_state_iff}

-- A process that has neither exited nor is a free slot.
unfoldable pub is_live : ProcState → Bool
is_live unused = false
is_live zombie = false
is_live _ = true

-- What a slot holds, given the counter of pids: a free slot has pid 0, any other a pid below the
-- counter.
abbrev pub IsNumbered : ℕ → Proc → Type 0
IsNumbered n p = (p.state ≡ unused → p.pid ≡ 0) × (p.state ≢ unused → (0 < p.pid) × (p.pid < n))

-- Pids are distinct, parents are live, and so is the first process.
pub record IsFamily (t : Table) : Type 0 where
  pub counter : 0 < t.nextpid
  pub numbered : (i : ℕ) → IsNumbered t.nextpid (at t i)
  pub distinct : (i j : ℕ) → (at t i).state ≢ unused → (at t i).pid ≡ (at t j).pid → i ≡ j
  pub parented : (i j : ℕ) → (at t i).parent ≡ some j → is_live (at t j).state ≡ true
  pub init : is_live (at t t.initproc).state ≡ true

-- `p'` is `p` with, at most, another state of the same kind.
pub record SameKin (p p' : Proc) : Type 0 where
  pub pid : p'.pid ≡ p.pid
  pub parent : p'.parent ≡ p.parent
  pub free : p'.state ≡ unused → p.state ≡ unused
  pub in_use : p.state ≡ unused → p'.state ≡ unused
  pub live : is_live p.state ≡ true → is_live p'.state ≡ true

pub SameKin-refl : (p : Proc) → SameKin p p
SameKin-refl p = record { pid = refl; parent = refl; free = λ e. e; in_use = λ e. e; live = λ e. e }

-- A call that changes no pid, parent or liveness keeps the invariant.
pub IsFamily-kin :
    (t t' : Table)
    → t'.nextpid ≡ t.nextpid
    → t'.initproc ≡ t.initproc
    → ((i : ℕ) → SameKin (at t i) (at t' i))
    → IsFamily t
    → IsFamily t'
IsFamily-kin t t' en ei kin f = record {
  counter = omega (arith, f.counter);
  numbered = λ i.
      let (free, taken) = f.numbered i in
      (
        λ u. (kin i).pid ∙ free ((kin i).free u),
        λ u.
            let (lo, hi) = taken (λ e. u ((kin i).in_use e)) in
            let e = (kin i).pid in (omega arith, omega arith),
      );
  distinct = λ i j live e.
      f.distinct i j (λ u. live ((kin i).in_use u)) (sym (kin i).pid ∙ e ∙ (kin j).pid);
  parented = λ i j e. (kin j).live (f.parented i j (sym (kin i).parent ∙ e));
  init = rw ei ((kin t.initproc).live f.init);
}

pub live_used : (s : ProcState) → is_live s ≡ true → s ≢ unused
unfolding is_live
live_used s h e = absurd (grind arith)

pub pid_bound : (t : Table) → IsFamily t → (i : ℕ) → (at t i).pid < t.nextpid
unfolding is_state
pid_bound t f i = elim (Bool-cases (is_state (at t i).state unused)) [
  | inl e ↦ omega (arith, (f.numbered i).0 (is_state_iff _ unused e), f.counter)
  | inr e ↦ ((f.numbered i).1 (λ u. cc)).1
]

IsNumbered-le : (m n : ℕ) (p : Proc) → m ≤ n → IsNumbered m p → IsNumbered n p
IsNumbered-le m n p le (free, taken) = (free, λ u. let (lo, hi) = taken u in (lo, omega arith))

-- `t'` is `t` but for slot `i`, which holds `p`.
module _ (t t' : Table) (i : ℕ) (p : Proc) (new : at t' i ≡ p)
    (others : (j : ℕ) → j ≢ i → at t' j ≡ at t j) where
  pub slot_cases : (j : ℕ) → ((j ≡ i) × (at t' j ≡ p)) ⊎ ((j ≢ i) × (at t' j ≡ at t j))
  slot_cases j = elim (Bool-cases (j == i)) [
    | inl e ↦ let e' : j ≡ i = ground arith in inl (e', rw e' new)
    | inr e ↦ let ne : j ≢ i = ground arith in inr (ne, others j ne)
  ]

  -- A free slot that is filled with a process under the next pid, whose parent is live.
  pub IsFamily-born :
      t'.nextpid ≡ t.nextpid + 1
      → t'.initproc ≡ t.initproc
      → (at t i).state ≡ unused
      → p.pid ≡ t.nextpid
      → is_live p.state ≡ true
      → ((j : ℕ) → p.parent ≡ some j → is_live (at t j).state ≡ true)
      → IsFamily t
      → IsFamily t'
  IsFamily-born en ei free pid live parent f =
      let keep : (j : ℕ) → is_live (at t j).state ≡ true → is_live (at t' j).state ≡ true =
        λ j h. elim (slot_cases j) [ inl (_, e) ↦ rw e live | inr (_, e) ↦ rw e h ] in
      record {
        counter = omega (arith, f.counter);
        numbered = λ j. elim (slot_cases j) [
          | inl (_, e) ↦
              rw e (
                λ u. absurd (live_used p.state live u),
                λ u. (omega (arith, f.counter), omega arith),
              )
          | inr (_, e) ↦
              rw e (IsNumbered-le t.nextpid t'.nextpid (at t j) (omega arith) (f.numbered j))
        ];
        distinct = λ j k. elim (slot_cases j) [
          | inl (ej, e) ↦ elim (slot_cases k) [
            | inl (ek, e') ↦ λ _ _. ej ∙ sym ek
            | inr (_, e') ↦ rw (e, e') (λ _ h. absurd (omega (arith, pid_bound t f k)))
          ]
          | inr (_, e) ↦ elim (slot_cases k) [
            | inl (_, e') ↦ rw (e, e') (λ _ h. absurd (omega (arith, pid_bound t f j)))
            | inr (_, e') ↦ rw (e, e') (f.distinct j k)
          ]
        ];
        parented = λ j k. elim (slot_cases j) [
          | inl (_, e) ↦ rw e (λ h. keep k (parent k h))
          | inr (_, e) ↦ rw e (λ h. keep k (f.parented j k h))
        ];
        init = rw ei (keep t.initproc f.init);
      }

  -- A slot that is not live becomes a free one; the counter may have moved on.
  pub IsFamily-freed :
      t.nextpid ≤ t'.nextpid
      → t'.initproc ≡ t.initproc
      → is_live (at t i).state ≡ false
      → p.state ≡ unused
      → p.pid ≡ 0
      → p.parent ≡ none
      → IsFamily t
      → IsFamily t'
  unfolding is_live
  IsFamily-freed en ei dead free pid parent f =
      let keep : (j : ℕ) → is_live (at t j).state ≡ true → is_live (at t' j).state ≡ true = λ j h.
        elim (slot_cases j) [
          | inl (ej, _) ↦ absurd (let h' = rw ej at h in cc)
          | inr (_, e) ↦ rw e h
        ] in
      record {
        counter = omega (arith, f.counter);
        numbered = λ j. elim (slot_cases j) [
          | inl (_, e) ↦ rw e (λ _. pid, λ u. absurd (u free))
          | inr (_, e) ↦ rw e (IsNumbered-le t.nextpid t'.nextpid (at t j) en (f.numbered j))
        ];
        distinct = λ j k. elim (slot_cases j) [
          | inl (_, e) ↦ rw e (λ u. absurd (u free))
          | inr (_, e) ↦ elim (slot_cases k) [
            | inl (_, e') ↦ rw (e, e') (λ u h. absurd (omega (arith, ((f.numbered j).1 u).0)))
            | inr (_, e') ↦ rw (e, e') (f.distinct j k)
          ]
        ];
        parented = λ j k. elim (slot_cases j) [
          | inl (_, e) ↦ rw e (λ h. absurd cc)
          | inr (_, e) ↦ rw e (λ h. keep k (f.parented j k h))
        ];
        init = rw ei (keep t.initproc f.init);
      }
