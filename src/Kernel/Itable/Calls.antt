-- ===== src/Kernel/Itable/Calls.antt =====
-- iget, idup and iput of kernel/fs.c, and any sequence of them and of changes that the holders make.
use mathlib.Core.Path.{subst}
use sleep_e_pingpong.Base.{
  ℕ, zero, suc, ◌+◌, ◌-◌, ◌<◌, ◌≡◌, refl, sym, ap, ◌∙◌, ◌≢◌, inl, inr, Bool-cases, true, false,
  ◌&&◌, List, [], ◌∷◌, Option, none, some, ◌==◌, if◌then◌else◌, set, length, arith, count, drop_one,
  count-drop_one, replicate,
}
use sleep_e_pingpong.Kernel.Fs.{Disk, Superblock}
use sleep_e_pingpong.Kernel.Inode.{Inode}
use sleep_e_pingpong.Kernel.Trunc.{itrunc}
use sleep_e_pingpong.Kernel.Trunc.Keeps.{Keeps, itrunc-Keeps}
use sleep_e_pingpong.Kernel.Itable.{
  ninode, free_inode, boot_inodes, entry, Search, hit, miss, find_inode, get_found, iget, idup,
  drop_inode, drop_ref, iput,
}
use sleep_e_pingpong.Kernel.Itable.Find.{is_for, FindRun, found, lacks, find_inode-FindRun}
use sleep_e_pingpong.Kernel.Itable.Refs.{IsTable, entry-set_self, entry-set_ne, set-IsTable}

abbrev bump : Inode → Inode
bump ip = record ip { ref = ip.ref + 1 }

abbrev renew : ℕ → Inode → Inode
renew inum ip = record ip { inum = inum; ref = 1; valid = false }

count_self : (i : ℕ) (held : List ℕ) → count i (i ∷ held) ≡ count i held + 1
count_self i held = ground arith

count_other : (i j : ℕ) (held : List ℕ) → j ≢ i → count j (i ∷ held) ≡ count j held
count_other i j held h = ground arith

-- What `iget` returns: it panics when every entry is in use for another inode.
pub data Got (t : List Inode) (held : List ℕ) (inum : ℕ) : Option (ℕ × List Inode) → Type 0 where
  full :
      ((k : ℕ) → k < length t → ((entry t k).ref ≢ 0) × (is_for inum (entry t k) ≡ false))
      → Got t held inum none
  got :
      (i : ℕ) (t' : List Inode)
      → i < length t
      → IsTable t' (i ∷ held)
      → (entry t' i).inum ≡ inum
      → (count i held ≢ 0 → (entry t i).inum ≡ inum)
      → ((j : ℕ) → j ≢ i → entry t' j ≡ entry t j)
      → Got t held inum (some (i, t'))

module _ (t : List Inode) (held : List ℕ) (w : IsTable t held) where
  held_ref : (j : ℕ) → j < length t → count j held ≢ 0 → (entry t j).ref ≢ 0
  held_ref j h nz z = nz (sym (w.refs j h) ∙ z)

  -- One more reference to an entry in use.
  once_more :
      (i : ℕ) → i < length t → count i held ≢ 0 → IsTable (set t i (bump (entry t i))) (i ∷ held)
  once_more i h nz =
      set-IsTable t held (i ∷ held) i (bump (entry t i)) w h
        (ap (λ n. n + 1) (w.refs i h) ∙ sym (count_self i held)) (λ j ne. count_other i j held ne)
        (λ j h' ne _ nj q. ne (sym (w.unique i j h h' nz nj q)))

  found_held : (inum i : ℕ) → i < length t → is_for inum (entry t i) ≡ true → count i held ≢ 0
  found_held inum i h e z = let q = w.refs i h ∙ z in absurd (ground arith)

  found_inum : (inum : ℕ) (ip : Inode) → is_for inum ip ≡ true → ip.inum ≡ inum
  found_inum inum ip e = ground arith

  other_inum : (inum : ℕ) (ip : Inode) → ip.ref ≢ 0 → is_for inum ip ≡ false → inum ≢ ip.inum
  other_inum inum ip nz e q = absurd (ground arith)

  run-Got : (inum : ℕ) (r : Search) → FindRun t inum 0 none r → Got t held inum (get_found t inum r)
  unfolding get_found
  run-Got inum _ (found k l e) =
      let z : k ≡ k + 0 = omega arith in
      subst (λ i. Got t held inum (get_found t inum (hit i))) z
        (got k (set t k (bump (entry t k))) l (once_more k l (found_held inum k l e))
          (ap (λ (x : Inode). x.inum) (entry-set_self t k _ l) ∙ found_inum inum (entry t k) e)
          (λ _. found_inum inum (entry t k) e) (λ j ne. entry-set_ne t k j _ (λ q. ne (sym q))))
  run-Got inum _ (lacks none none_of slot in_use) = full (λ k l. (in_use refl k l, none_of k l))
  run-Got inum _ (lacks (some i) none_of (inl q) in_use) = absurd (cc)
  run-Got inum _ (lacks (some i) none_of (inr (k, l, z, q)) in_use) =
      let here : k ≡ i = let e : i ≡ k + 0 = cc in omega (arith, e) in
      subst (λ m. Got t held inum (get_found t inum (miss (some m)))) here
        (got k (set t k (renew inum (entry t k))) l
          (set-IsTable t held (k ∷ held) k (renew inum (entry t k)) w l
            (let none_held = sym (w.refs k l) ∙ z in
              sym (count_self k held ∙ ap (λ n. n + 1) none_held))
            (λ j ne. count_other k j held ne)
            (λ j h' ne _ nj. other_inum inum (entry t j) (held_ref j h' nj) (none_of j h')))
          (ap (λ (x : Inode). x.inum) (entry-set_self t k _ l)) (λ nz. absurd (held_ref k l nz z))
          (λ j ne. entry-set_ne t k j _ (λ q'. ne (sym q'))))

-- `iget` of a table in which every pointer that is held is counted and no inode has two entries in
-- use. It panics only when every entry is in use and none of them for this number; otherwise it
-- returns an entry for the number, which is not one that is held for another. The table counts that
-- pointer as well then, still has no inode twice, and no other entry has changed.
pub iget-Got :
    (t : List Inode) (held : List ℕ) (inum : ℕ) → IsTable t held → Got t held inum (iget t inum)
unfolding iget
iget-Got t held inum w =
    run-Got t held w inum (find_inode t inum 0 none) (find_inode-FindRun t inum 0 none)

abbrev GotTable : List ℕ → Option (ℕ × List Inode) → Type 0
GotTable held none = Unit
GotTable held (some (i, t)) = IsTable t (i ∷ held)

abbrev ReleasedTable : List ℕ → Option (List Inode × Disk) → Type 0
ReleasedTable held none = Unit
ReleasedTable held (some (t, d)) = IsTable t held

Got-IsTable :
    (t : List Inode) (held : List ℕ) (inum : ℕ) (r : Option (ℕ × List Inode)) (i : ℕ)
    (t' : List Inode)
    → Got t held inum r
    → r ≡ some (i, t')
    → IsTable t' (i ∷ held)
Got-IsTable t held inum _ i t' (full h) e = absurd (cc)
Got-IsTable t held inum _ i t' (got k t'' l w _ _ _) e =
    subst (λ (x : Option (ℕ × List Inode)). GotTable held x) e w

-- A table after the calls, with the pointers that are held: each of them may be used to change the
-- inode, but not its number or its references.
pub data Uses (sb : Superblock) : Disk → List Inode → List ℕ → Type 0 where
  start : (d : Disk) → Uses sb d boot_inodes []
  gets :
      {d : Disk} {t : List Inode} {held : List ℕ} (inum i : ℕ) (t' : List Inode)
      → Uses sb d t held
      → iget t inum ≡ some (i, t')
      → Uses sb d t' (i ∷ held)
  dups :
      {d : Disk} {t : List Inode} {held : List ℕ} (i : ℕ)
      → Uses sb d t held
      → count i held ≢ 0
      → Uses sb d (idup t i) (i ∷ held)
  puts :
      {d : Disk} {t : List Inode} {held : List ℕ} (i : ℕ) (t' : List Inode) (d' : Disk)
      → Uses sb d t held
      → count i held ≢ 0
      → iput sb d t i ≡ some (t', d')
      → Uses sb d' t' (drop_one i held)
  works :
      {d : Disk} {t : List Inode} {held : List ℕ} (i : ℕ) (ip : Inode) (d' : Disk)
      → Uses sb d t held
      → count i held ≢ 0
      → ip.ref ≡ (entry t i).ref
      → ip.inum ≡ (entry t i).inum
      → Uses sb d' (set t i ip) held

module _ (sb : Superblock) (t : List Inode) (held : List ℕ) (w : IsTable t held) (i : ℕ)
    (nz : count i held ≢ 0) where
  keep-IsTable :
      (ip : Inode)
      → ip.ref ≡ (entry t i).ref
      → ip.inum ≡ (entry t i).inum
      → IsTable (set t i ip) held
  keep-IsTable ip e e' =
      let l = w.inside i nz in
      set-IsTable t held held i ip w l (e ∙ w.refs i l) (λ j ne. refl)
        (λ j h ne _ nj q. ne (sym (w.unique i j l h nz nj (sym e' ∙ q))))

  idup-IsTable : IsTable (idup t i) (i ∷ held)
  unfolding idup
  idup-IsTable = once_more t held w i (w.inside i nz) nz

  drop_ref-IsTable :
      (r : Option (Inode × Disk)) (t' : List Inode) (d' : Disk)
      → Keeps (entry t i) r
      → drop_ref t i r ≡ some (t', d')
      → IsTable t' (drop_one i held)
  unfolding drop_ref
  drop_ref-IsTable none t' d' k e = absurd (cc)
  drop_ref-IsTable (some (ip, d)) t' d' k e =
      let l = w.inside i nz in
      let counted = w.refs i l in
      let same = k.0 in
      let own : count i (drop_one i held) ≡ count i held - (if i == i then 1 else 0) =
        count-drop_one i i held nz in
      let ref : ip.ref - 1 ≡ count i (drop_one i held) = ground arith in
      subst (λ (x : Option (List Inode × Disk)). ReleasedTable (drop_one i held) x) e
        (set-IsTable t held (drop_one i held) i (record ip { ref = ip.ref - 1 }) w l ref
          (λ j ne. let c = count-drop_one i j held nz in ground arith)
          (λ j h ne _ nj q. ne (sym (w.unique i j l h nz nj (sym k.1 ∙ q)))))

  drop_inode-Keeps :
      (r : Option (Inode × Disk)) → Keeps (entry t i) r → Keeps (entry t i) (drop_inode sb r)
  unfolding drop_inode
  drop_inode-Keeps none k = tt
  drop_inode-Keeps (some (ip, d)) k = k

  iput-IsTable :
      (d : Disk) (t' : List Inode) (d' : Disk)
      → iput sb d t i ≡ some (t', d')
      → IsTable t' (drop_one i held)
  unfolding iput
  iput-IsTable d t' d' =
      let ip = entry t i in
      elim (Bool-cases ((ip.ref == 1) && ip.valid && (ip.nlink == 0))) [
        | inl z ↦ rw z (
            drop_ref-IsTable (drop_inode sb (itrunc sb d ip)) t' d'
              (drop_inode-Keeps (itrunc sb d ip) (itrunc-Keeps sb d ip)))
        | inr z ↦ rw z (drop_ref-IsTable (some (ip, d)) t' d' (refl, refl))
      ]

boot_free : (n i : ℕ) → (entry (replicate n free_inode) i).ref ≡ 0
boot_free zero i = refl
boot_free (suc n) zero = refl
boot_free (suc n) (suc i) = boot_free n i

-- In every table that the kernel reaches from boot by iget, idup, iput and changes that keep an
-- inode's number and references, where only pointers that are held are duplicated, put back or used:
-- each entry counts as many references as there are pointers to it, and no two entries in use are for
-- the same inode.
pub Uses-IsTable :
    (sb : Superblock) (d : Disk) (t : List Inode) (held : List ℕ)
    → Uses sb d t held
    → IsTable t held
Uses-IsTable sb _ _ _ (start d) = record {
  refs = λ i h. boot_free ninode i;
  inside = λ i nz. absurd (nz refl);
  unique = λ i j _ _ nz _ _. absurd (nz refl);
}
Uses-IsTable sb _ _ _ (gets {d} {t} {held} inum i t' u e) =
    Got-IsTable t held inum (iget t inum) i t' (iget-Got t held inum (Uses-IsTable sb d t held u)) e
Uses-IsTable sb _ _ _ (dups {d} {t} {held} i u nz) =
    idup-IsTable sb t held (Uses-IsTable sb d t held u) i nz
Uses-IsTable sb _ _ _ (puts {d} {t} {held} i t' d' u nz e) =
    iput-IsTable sb t held (Uses-IsTable sb d t held u) i nz d t' d' e
Uses-IsTable sb _ _ _ (works {d} {t} {held} i ip d' u nz e e') =
    keep-IsTable sb t held (Uses-IsTable sb d t held u) i nz ip e e'
