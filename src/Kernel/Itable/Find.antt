-- ===== src/Kernel/Itable/Find.antt =====
-- The loop of `iget` of kernel/fs.c: what it finds.
use mathlib.Core.Path.{subst}
use sleep_e_pingpong.Base.{
  ℕ, zero, suc, ◌+◌, ◌<◌, ◌≡◌, refl, sym, ap, ◌∙◌, ◌≢◌, ◌⊎◌, inl, inr, Bool, Bool-cases, true,
  false, ◌&&◌, List, [], ◌∷◌, Option, none, some, ltb, ◌==◌, length, arith,
}
use sleep_e_pingpong.Kernel.Inode.{Inode}
use sleep_e_pingpong.Kernel.Itable.{entry, Search, hit, miss, remember, find_inode}

-- Whether an entry is in use for number `inum`.
abbrev pub is_for : ℕ → Inode → Bool
is_for inum ip = ltb 0 ip.ref && (ip.inum == inum)

-- The slot that is remembered is the one from before, or is free among those of `t`.
abbrev pub IsEmpty : List Inode → ℕ → Option ℕ → Option ℕ → Type 0
IsEmpty t i empty e =
    (e ≡ empty) ⊎ ((k : ℕ) × (k < length t) × ((entry t k).ref ≡ 0) × (e ≡ some (k + i)))

pub data FindRun (t : List Inode) (inum i : ℕ) (empty : Option ℕ) : Search → Type 0 where
  found :
      (k : ℕ) → k < length t → is_for inum (entry t k) ≡ true → FindRun t inum i empty (hit (k + i))
  lacks :
      (e : Option ℕ)
      → ((k : ℕ) → k < length t → is_for inum (entry t k) ≡ false)
      → IsEmpty t i empty e
      → (e ≡ none → (k : ℕ) → k < length t → (entry t k).ref ≢ 0)
      → FindRun t inum i empty (miss e)

shift : (k i : ℕ) → k + (i + 1) ≡ suc k + i
shift k i = omega arith

-- What holds of the first entry and of the others holds of all.
each_later :
    (P : Inode → Type 0) (ip : Inode) (t : List Inode)
    → P ip
    → ((k : ℕ) → k < length t → P (entry t k))
    → (k : ℕ) → k < suc (length t)
    → P (entry (ip ∷ t) k)
each_later P ip t h hs zero l = h
each_later P ip t h hs (suc k) l = hs k (omega (arith, l))

IsEmpty-later :
    (ip : Inode) (t : List Inode) (i : ℕ) (empty e : Option ℕ)
    → IsEmpty t (i + 1) (remember empty ip i) e
    → IsEmpty (ip ∷ t) i empty e
IsEmpty-later ip t i empty e (inr (k, l, z, q)) =
    inr (suc k, omega (arith, l), z, q ∙ ap some (shift k i))
IsEmpty-later ip t i (some s) e (inl q) = inl q
IsEmpty-later ip t i none e (inl q) = elim (Bool-cases (ip.ref == 0)) [
  | inl z ↦ inr (0, omega arith, ground arith, q ∙ (rw z (ap some (omega arith))))
  | inr z ↦ inl (q ∙ (rw z refl))
]

-- A first entry that is free is remembered.
remember_free :
    (ip : Inode) (t : List Inode) (i : ℕ) (empty e : Option ℕ)
    → IsEmpty t (i + 1) (remember empty ip i) e
    → e ≡ none
    → ip.ref ≢ 0
remember_free ip t i empty e (inr (k, l, z, q)) n = absurd (cc)
remember_free ip t i (some s) e (inl q) n = absurd (cc)
remember_free ip t i none e (inl q) n = elim (Bool-cases (ip.ref == 0)) [
  | inl z ↦ let q' = rw z at q in absurd (cc)
  | inr z ↦ ground arith
]

run_later :
    (ip : Inode) (t : List Inode) (inum i : ℕ) (empty : Option ℕ) (r : Search)
    → is_for inum ip ≡ false
    → FindRun t inum (i + 1) (remember empty ip i) r
    → FindRun (ip ∷ t) inum i empty r
run_later ip t inum i empty _ other (found k l e) =
    subst (λ n. FindRun (ip ∷ t) inum i empty (hit n)) (sym (shift k i))
      (found (suc k) (omega (arith, l)) e)
run_later ip t inum i empty _ other (lacks e none_of slot full) =
    lacks e (each_later (λ x. is_for inum x ≡ false) ip t other none_of)
      (IsEmpty-later ip t i empty e slot)
      (λ n. each_later (λ x. x.ref ≢ 0) ip t (remember_free ip t i empty e slot n) (full n))

pub find_inode-FindRun :
    (t : List Inode) (inum i : ℕ) (empty : Option ℕ)
    → FindRun t inum i empty (find_inode t inum i empty)
unfolding find_inode
find_inode-FindRun [] inum i empty =
    lacks empty (λ k l. absurd (omega (arith, l))) (inl refl) (λ _ k l. absurd (omega (arith, l)))
find_inode-FindRun (ip ∷ t) inum i empty = elim (Bool-cases (is_for inum ip)) [
  | inl e ↦
      rw e
        (subst (λ n. FindRun (ip ∷ t) inum i empty (hit n)) (omega arith) (found 0 (omega arith) e))
  | inr e ↦
      rw e
        (run_later ip t inum i empty _ e (find_inode-FindRun t inum (i + 1) (remember empty ip i)))
]
