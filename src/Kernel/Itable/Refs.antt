-- ===== src/Kernel/Itable/Refs.antt =====
-- The inodes in memory of kernel/fs.c under any sequence of calls: the reference counts are right, and
-- no inode has two entries.
use mathlib.Core.Path.{subst}
use sleep_e_pingpong.Base.{
  ℕ, ◌<◌, ◌≡◌, sym, ap, ◌∙◌, ◌≢◌, inl, inr, Bool-cases, List, ◌==◌, set, length, arith, count,
  length-set, get_or-set_self, get_or-set_ne,
}
use sleep_e_pingpong.Kernel.Inode.{Inode}
use sleep_e_pingpong.Kernel.Itable.{free_inode, entry}

-- The pointers `held` are those that the callers have.
pub record IsTable (t : List Inode) (held : List ℕ) : Type 0 where
  pub refs : (i : ℕ) → i < length t → (entry t i).ref ≡ count i held
  pub inside : (i : ℕ) → count i held ≢ 0 → i < length t
  pub unique :
      (i j : ℕ)
      → i < length t
      → j < length t
      → count i held ≢ 0
      → count j held ≢ 0
      → (entry t i).inum ≡ (entry t j).inum
      → i ≡ j

pub entry-set_self :
    (t : List Inode) (i : ℕ) (ip : Inode) → i < length t → entry (set t i ip) i ≡ ip
entry-set_self t i ip h = get_or-set_self t i ip free_inode h

pub entry-set_ne :
    (t : List Inode) (i j : ℕ) (ip : Inode) → i ≢ j → entry (set t i ip) j ≡ entry t j
entry-set_ne t i j ip h = get_or-set_ne t i j ip free_inode h

-- An entry is given other contents, with as many references as are held afterwards.
module _ (t : List Inode) (held held' : List ℕ) (i : ℕ) (ip : Inode) (w : IsTable t held)
    (inside : i < length t) (ref : ip.ref ≡ count i held')
    (others : (j : ℕ) → j ≢ i → count j held' ≡ count j held) where
  set_inum : (j : ℕ) → j ≢ i → (entry (set t i ip) j).inum ≡ (entry t j).inum
  set_inum j h = ap (λ (x : Inode). x.inum) (entry-set_ne t i j ip (λ e. h (sym e)))

  pub set-IsTable :
      ((j : ℕ)
        → j < length t
        → j ≢ i
        → count i held' ≢ 0
        → count j held ≢ 0
        → ip.inum ≢ (entry t j).inum)
      → IsTable (set t i ip) held'
  set-IsTable apart =
      let own : entry (set t i ip) i ≡ ip = entry-set_self t i ip inside in
      let own_inum : (entry (set t i ip) i).inum ≡ ip.inum = ap (λ (x : Inode). x.inum) own in
      let size = length-set t i ip in
      record {
        refs = λ j h. elim (Bool-cases (j == i)) [
          | inl e ↦
              let q : i ≡ j = ground arith in
              subst (λ k. (entry (set t i ip) k).ref ≡ count k held') q
                (ap (λ (x : Inode). x.ref) own ∙ ref)
          | inr e ↦
              let ne : j ≢ i = ground arith in
              ap (λ (x : Inode). x.ref) (entry-set_ne t i j ip (λ q. ne (sym q)))
              ∙ w.refs j (omega (arith, h, size))
              ∙ sym (others j ne)
        ];
        inside = λ j h. elim (Bool-cases (j == i)) [
          | inl e ↦ let q : i ≡ j = ground arith in omega (arith, inside, q, size)
          | inr e ↦
              let old = w.inside j (λ z. h (others j (ground arith) ∙ z)) in
              omega (arith, old, size)
        ];
        unique = λ j k hj hk nj nk q.
            let hj' : j < length t = omega (arith, hj, size) in
            let hk' : k < length t = omega (arith, hk, size) in
            elim (Bool-cases (j == i)) [
              | inl e ↦ elim (Bool-cases (k == i)) [
                | inl e' ↦ ground arith
                | inr e' ↦
                    let here : j ≡ i = ground arith in
                    let ne : k ≢ i = ground arith in
                    let q' : (entry (set t i ip) i).inum ≡ (entry (set t i ip) k).inum =
                      subst (λ m. (entry (set t i ip) m).inum ≡ (entry (set t i ip) k).inum) here
                        q in
                    absurd (
                      apart k hk' ne (subst (λ m. count m held' ≢ 0) here nj)
                        (λ z. nk (others k ne ∙ z)) (sym own_inum ∙ q' ∙ set_inum k ne))
              ]
              | inr e ↦ elim (Bool-cases (k == i)) [
                | inl e' ↦
                    let here : k ≡ i = ground arith in
                    let ne : j ≢ i = ground arith in
                    let q' : (entry (set t i ip) j).inum ≡ (entry (set t i ip) i).inum =
                      subst (λ m. (entry (set t i ip) j).inum ≡ (entry (set t i ip) m).inum) here
                        q in
                    absurd (
                      apart j hj' ne (subst (λ m. count m held' ≢ 0) here nk)
                        (λ z. nj (others j ne ∙ z)) (sym (sym (set_inum j ne) ∙ q' ∙ own_inum)))
                | inr e' ↦
                    let nej : j ≢ i = ground arith in
                    let nek : k ≢ i = ground arith in
                    w.unique j k hj' hk' (λ z. nj (others j nej ∙ z)) (λ z. nk (others k nek ∙ z))
                      (sym (set_inum j nej) ∙ q ∙ set_inum k nek)
              ]
            ];
      }
