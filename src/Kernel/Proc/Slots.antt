-- ===== src/Kernel/Proc/Slots.antt =====
-- The slots of the process table of kernel/proc.c: writing one, and finding a free one.
use sleep_e_pingpong.Base.{
  Bool, ℕ, zero, suc, ◌+◌, ◌<◌, ◌≡◌, refl, ◌≢◌, inl, inr, true, false, List, [], ◌∷◌, none, some,
  get_or, length, get_or-set_self, get_or-set_ne, Bool-cases, arith,
}
use sleep_e_pingpong.Kernel.Proc.{
  ProcState, unused, used, sleeping, runnable, running, zombie, is_state, Proc, blank, Table, at,
  put, find_unused,
}

pub is_state_iff : (s s' : ProcState) → is_state s s' ≡ true → s ≡ s'
unfolding is_state
is_state_iff unused unused h = refl
is_state_iff used used h = refl
is_state_iff sleeping sleeping h = refl
is_state_iff runnable runnable h = refl
is_state_iff running running h = refl
is_state_iff zombie zombie h = refl
is_state_iff _ _ h = cc

pub is_state_refl : (s : ProcState) → is_state s s ≡ true
unfolding is_state
is_state_refl unused = refl
is_state_refl used = refl
is_state_refl sleeping = refl
is_state_refl runnable = refl
is_state_refl running = refl
is_state_refl zombie = refl

-- A slot that is in use lies in the table.
pub used_bound : (ps : List Proc) (i : ℕ) → (get_or ps i blank).state ≢ unused → i < length ps
used_bound [] i h = absurd (h refl)
used_bound (p ∷ ps) zero h = omega arith
used_bound (p ∷ ps) (suc i) h = omega (arith, used_bound ps i h)

pub at-put_self : (t : Table) (i : ℕ) (p : Proc) → i < length t.procs → at (put t i p) i ≡ p
at-put_self t i p h = get_or-set_self t.procs i p blank h

pub at-put_ne : (t : Table) (i j : ℕ) (p : Proc) → i ≢ j → at (put t i p) j ≡ at t j
at-put_ne t i j p h = get_or-set_ne t.procs i j p blank h

abbrev pub is_free : Proc → Bool
is_free p = is_state p.state unused

-- What the scan of `allocproc` finds is the first free slot.
pub record FirstFree (ps : List Proc) (i : ℕ) : Type 0 where
  pub bound : i < length ps
  pub free : (get_or ps i blank).state ≡ unused
  pub first : (j : ℕ) → j < i → is_free (get_or ps j blank) ≡ false

-- A test that fails on every slot, from the first on.
pub later_slot :
    (f : Proc → Bool) (p : Proc) (ps : List Proc) (n : ℕ)
    → f p ≡ false
    → ((j : ℕ) → j < n → f (get_or ps j blank) ≡ false)
    → (j : ℕ) → j < suc n
    → f (get_or (p ∷ ps) j blank) ≡ false
later_slot f p ps n e rest zero lt = e
later_slot f p ps n e rest (suc j) lt = rest j (omega arith)

FirstFree-cons :
    (p : Proc) (ps : List Proc) (i : ℕ)
    → is_state p.state unused ≡ false
    → FirstFree ps i
    → FirstFree (p ∷ ps) (suc i)
FirstFree-cons p ps i e f = record {
  bound = omega (arith, f.bound);
  free = f.free;
  first = later_slot is_free p ps i e f.first;
}

find_unused_from :
    (ps : List Proc) (k i : ℕ) → find_unused ps k ≡ some i → (j : ℕ) × (i ≡ k + j) × FirstFree ps j
unfolding find_unused
find_unused_from [] k i h = absurd cc
find_unused_from (p ∷ ps) k i h = elim (Bool-cases (is_state p.state unused)) [
  | inl e ↦ (
    0,
    ground arith,
    record {
      bound = omega arith;
      free = is_state_iff p.state unused e;
      first = λ j lt. absurd (omega arith);
    },
  )
  | inr e ↦
      let (j, at_j, f) = find_unused_from ps (k + 1) i (rw e at h) in
      (suc j, omega arith, FirstFree-cons p ps j e f)
]

pub find_unused-some : (ps : List Proc) (i : ℕ) → find_unused ps 0 ≡ some i → FirstFree ps i
find_unused-some ps i h =
    let (j, e, f) = find_unused_from ps 0 i h in let e' : i ≡ j = omega arith in rw e' f

pub find_unused-none :
    (ps : List Proc) (k : ℕ)
    → find_unused ps k ≡ none
    → (j : ℕ) → j < length ps
    → is_free (get_or ps j blank) ≡ false
unfolding find_unused is_state
find_unused-none [] k h j lt = absurd (omega arith)
find_unused-none (p ∷ ps) k h j lt = elim (Bool-cases (is_state p.state unused)) [
  | inl e ↦ absurd (ground arith)
  | inr e ↦ later_slot is_free p ps (length ps) e (find_unused-none ps (k + 1) (rw e at h)) j lt
]
