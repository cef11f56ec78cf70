-- ===== src/Kernel/File/Refs.antt =====
-- The reference counts of kernel/file.c under any sequence of calls.
use mathlib.Core.Path.{subst}
use sleep_e_pingpong.Base.{
  ℕ, zero, suc, ◌+◌, ◌-◌, ◌<◌, ◌≡◌, sym, ap, ◌∙◌, ◌≢◌, inl, inr, Bool-cases, false, List, [], ◌∷◌,
  Option, none, some, ltb, ◌==◌, if◌then◌else◌, set, length, arith, count, drop_one, count-drop_one,
  length-set, get_or-set_self, get_or-set_ne,
}
use sleep_e_pingpong.Kernel.File.{
  fd_none, fd_pipe, fd_inode, fd_device, FileKind, close_pipe, put_inode, File, closed_file,
  file_at, find_file, take_file, filealloc, Last, nothing, last_close, fileclose,
}

-- Each file counts the pointers to it in `held`, and a pointer that is held is one of the table.
pub record IsCounted (t : List File) (held : List ℕ) : Type 0 where
  pub refs : (i : ℕ) → i < length t → (file_at t i).ref ≡ count i held
  pub inside : (i : ℕ) → count i held ≢ 0 → i < length t

-- One file gets other contents.
set-IsCounted :
    (t : List File) (held held' : List ℕ) (i : ℕ) (f : File)
    → IsCounted t held
    → i < length t
    → f.ref ≡ count i held'
    → ((j : ℕ) → j ≢ i → count j held' ≡ count j held)
    → IsCounted (set t i f) held'
set-IsCounted t held held' i f w h ref others =
    let size = length-set t i f in
    record {
      refs = λ j l. elim (Bool-cases (j == i)) [
        | inl e ↦
            let q : i ≡ j = ground arith in
            subst (λ k. (file_at (set t i f) k).ref ≡ count k held') q
              (ap (λ (x : File). x.ref) (get_or-set_self t i f closed_file h) ∙ ref)
        | inr e ↦
            let ne : i ≢ j = ground arith in
            ap (λ (x : File). x.ref) (get_or-set_ne t i j f closed_file ne)
            ∙ w.refs j (omega (arith, l, size))
            ∙ sym (others j (λ q. ne (sym q)))
      ];
      inside = λ j nz. elim (Bool-cases (j == i)) [
        | inl e ↦ let q : i ≡ j = ground arith in omega (arith, h, q, size)
        | inr e ↦
            let ne : j ≢ i = ground arith in
            let old = w.inside j (λ z. nz (others j ne ∙ z)) in omega (arith, old, size)
      ];
    }

-- What the search finds: the first free entry, if there is one.
pub data FoundFile (t : List File) (i : ℕ) : Option ℕ → Type 0 where
  none_free : ((k : ℕ) → k < length t → (file_at t k).ref ≢ 0) → FoundFile t i none
  free_at : (k : ℕ) → k < length t → (file_at t k).ref ≡ 0 → FoundFile t i (some (k + i))

all_used :
    (f : File) (t : List File)
    → f.ref ≢ 0
    → ((k : ℕ) → k < length t → (file_at t k).ref ≢ 0)
    → (k : ℕ) → k < suc (length t)
    → (file_at (f ∷ t) k).ref ≢ 0
all_used f t h hs zero l = h
all_used f t h hs (suc k) l = hs k (omega (arith, l))

found_later :
    (f : File) (t : List File) (i : ℕ) (r : Option ℕ)
    → (f.ref == 0) ≡ false
    → FoundFile t (i + 1) r
    → FoundFile (f ∷ t) i r
found_later f t i _ e (none_free h) = none_free (all_used f t (ground arith) h)
found_later f t i _ e (free_at k l z) =
    subst (λ n. FoundFile (f ∷ t) i (some n)) (omega arith) (free_at (suc k) (omega (arith, l)) z)

pub find_file-FoundFile : (t : List File) (i : ℕ) → FoundFile t i (find_file t i)
unfolding find_file
find_file-FoundFile [] i = none_free (λ k l. absurd (omega (arith, l)))
find_file-FoundFile (f ∷ t) i = elim (Bool-cases (f.ref == 0)) [
  | inl e ↦ rw e (
      subst (λ n. FoundFile (f ∷ t) i (some n)) (omega arith)
        (free_at 0 (omega arith) (ground arith)))
  | inr e ↦ rw e (found_later f t i _ e (find_file-FoundFile t (i + 1)))
]

-- What `filealloc` returns.
pub data Allocated (t : List File) (held : List ℕ) : Option (ℕ × List File) → Type 0 where
  full : ((k : ℕ) → k < length t → (file_at t k).ref ≢ 0) → Allocated t held none
  new_file :
      (i : ℕ) (t' : List File)
      → count i held ≡ 0
      → IsCounted t' (i ∷ held)
      → Allocated t held (some (i, t'))

-- What goes with the last pointer to a file, by its kind: nothing, its end of a pipe, or its inode.
pub data GivesUp (f : File) : FileKind → Last → Type 0 where
  of_free : GivesUp f fd_none nothing
  of_pipe : GivesUp f fd_pipe (close_pipe f.pipe f.writable)
  of_inode : GivesUp f fd_inode (put_inode f.ip)
  of_device : GivesUp f fd_device (put_inode f.ip)

last_close-GivesUp : (f : File) (k : FileKind) → GivesUp f k (last_close k f)
unfolding last_close
last_close-GivesUp f fd_none = of_free
last_close-GivesUp f fd_pipe = of_pipe
last_close-GivesUp f fd_inode = of_inode
last_close-GivesUp f fd_device = of_device

-- What `fileclose` of a file returns: the pipe or the inode is given up with the last pointer.
pub data Closing (t : List File) (held : List ℕ) (i : ℕ) : Option (List File × Last) → Type 0 where
  no_pointer : count i held ≡ 0 → Closing t held i none
  shared :
      (t' : List File)
      → 1 < count i held
      → IsCounted t' (drop_one i held)
      → (file_at t' i).kind ≡ (file_at t i).kind
      → Closing t held i (some (t', nothing))
  last :
      (t' : List File) (what : Last)
      → count i held ≡ 1
      → IsCounted t' (drop_one i held)
      → (file_at t' i).kind ≡ fd_none
      → GivesUp (file_at t i) (file_at t i).kind what
      → Closing t held i (some (t', what))

module _ (t : List File) (held : List ℕ) (w : IsCounted t held) where
  one_more :
      (i : ℕ) (f : File)
      → i < length t
      → f.ref ≡ count i held + 1
      → IsCounted (set t i f) (i ∷ held)
  one_more i f l e = set-IsCounted t held (i ∷ held) i f w l (ground arith) (λ j ne. ground arith)

  one_less :
      (i : ℕ) (f : File)
      → i < length t
      → count i held ≢ 0
      → f.ref ≡ count i held - 1
      → IsCounted (set t i f) (drop_one i held)
  one_less i f l nz e =
      let own : count i (drop_one i held) ≡ count i held - (if i == i then 1 else 0) =
        count-drop_one i i held nz in
      set-IsCounted t held (drop_one i held) i f w l (ground arith)
        (λ j ne. let c = count-drop_one i j held nz in ground arith)

  take_file-Allocated : (r : Option ℕ) → FoundFile t 0 r → Allocated t held (take_file t r)
  unfolding take_file
  take_file-Allocated _ (none_free h) = full h
  take_file-Allocated _ (free_at k l z) =
      let none_held : count k held ≡ 0 = sym (w.refs k l) ∙ z in
      let same : k ≡ k + 0 = omega arith in
      subst (λ i. Allocated t held (take_file t (some i))) same
        (new_file k _ none_held
          (one_more k (record (file_at t k) { ref = 1 }) l (omega (arith, none_held))))

  -- `filealloc` of a table whose files count the pointers that are held returns a file that no one
  -- holds, and counts the new pointer to it; it returns 0 only when every file is in use.
  pub filealloc-Allocated : Allocated t held (filealloc t)
  unfolding filealloc
  filealloc-Allocated = take_file-Allocated (find_file t 0) (find_file-FoundFile t 0)

  -- `fileclose` of a file of the table, where every file counts the pointers that are held. It panics
  -- exactly when no one holds the file; while it is held more than once it keeps its kind and nothing
  -- is given up; with the last pointer it becomes free, and its pipe's end or its inode is given up, as
  -- its kind says. In both cases the table counts one pointer less.
  pub fileclose-Closing : (i : ℕ) → i < length t → Closing t held i (fileclose t i)
  unfolding fileclose
  fileclose-Closing i l =
      let f = file_at t i in
      let counted = w.refs i l in
      elim (Bool-cases (ltb f.ref 1)) [
        | inl e ↦ rw e (no_pointer (ground arith))
        | inr e ↦ elim (Bool-cases (ltb 0 (f.ref - 1))) [
          | inl e' ↦
              rw (e, e')
                (shared (set t i (record f { ref = f.ref - 1 })) (ground arith)
                  (one_less i (record f { ref = f.ref - 1 }) l (ground arith)
                    (omega (arith, counted)))
                  (ap (λ (x : File). x.kind)
                    (get_or-set_self t i (record f { ref = f.ref - 1 }) closed_file l)))
          | inr e' ↦
              rw (e, e')
                (last (set t i (record f { ref = 0; kind = fd_none })) _ (ground arith)
                  (one_less i (record f { ref = 0; kind = fd_none }) l (ground arith)
                    (ground arith))
                  (ap (λ (x : File). x.kind)
                    (get_or-set_self t i (record f { ref = 0; kind = fd_none }) closed_file l))
                  (last_close-GivesUp f f.kind))
        ]
      ]
