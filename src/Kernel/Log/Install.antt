-- ===== src/Kernel/Log/Install.antt =====
-- `install_trans` of kernel/log.c copies the logged blocks home, during a commit or a recovery.
use sleep_e_pingpong.Base.{
  ◌≤◌, ◌%◌, uint_mod, ℕ, zero, suc, ◌+◌, ◌-◌, ◌<◌, ◌≡◌, refl, sym, ◌∙◌, ap, ◌≢◌, inl, inr, Bool,
  true, false, List, [], ◌∷◌, ◌++◌, append_assoc, arith, ◌==◌, ==_refl, if◌then◌else◌, Bool-cases,
  get_or, length, All,
}
use sleep_e_pingpong.Kernel.Log.{Block, Disk, update, Log, modify, bwrite, bunpin, install_loop}
use sleep_e_pingpong.Kernel.Log.Disk.{
  Updates, apply, mentions, HasBlocks, HasData, in_log, Outside, HasData-frame, Redo, Recoverable,
  Redo-update,
}

-- The fields that neither loop changes.
pub record Same (s s' : Log) : Type 0 where
  pub start : s'.start ≡ s.start
  pub size : s'.size ≡ s.size
  pub n : s'.n ≡ s.n
  pub block : s'.block ≡ s.block
  pub outstanding : s'.outstanding ≡ s.outstanding
  pub committing : s'.committing ≡ s.committing

pub Same-trans : {s t u : Log} → Same s t → Same t u → Same s u
Same-trans a b = record {
  start = b.start ∙ a.start;
  size = b.size ∙ a.size;
  n = b.n ∙ a.n;
  block = b.block ∙ a.block;
  outstanding = b.outstanding ∙ a.outstanding;
  committing = b.committing ∙ a.committing;
}

-- Between `s` and `s'` each new disk satisfies `P`.
abbrev pub Through : (Disk → Type 0) → Log → Log → Type 0
Through P s s' = (h : List Disk) × (s'.history ≡ h ++ s.history) × All P h

pub Through-refl : (P : Disk → Type 0) (s : Log) → Through P s s
Through-refl P s = ([], refl, tt)

pub All-append {ℓ κ} :
    {A : Type ℓ} (P : A → Type κ) (xs ys : List A) → All P xs → All P ys → All P (xs ++ ys)
All-append P [] ys a b = b
All-append P (x ∷ xs) ys (p, a) b = (p, All-append P xs ys a b)

pub Through-trans :
    (P : Disk → Type 0) (s t u : Log) → Through P s t → Through P t u → Through P s u
Through-trans P s t u (h, e, a) (h', e', a') =
    (h' ++ h, rw (e', e) (sym (append_assoc h' h _)), All-append P h' h a' a)

-- One copy of the loop.
abbrev pub copy_home : Bool → ℕ → Block → Log → Log
copy_home recovering b v s =
    let s' = bwrite b (modify b v s) in if recovering then s' else bunpin b s'

install_loop_step :
    (recovering : Bool) (left tail : ℕ) (s : Log)
    → install_loop recovering (suc left) tail s
      ≡ install_loop recovering left
          (tail + 1)
          (copy_home recovering (get_or s.block tail 0) (s.view (s.start + tail + 1)) s)
unfolding install_loop
install_loop_step recovering left tail s = refl

install_loop_stop :
    (recovering : Bool) (tail : ℕ) (s : Log) → install_loop recovering zero tail s ≡ s
unfolding install_loop
install_loop_stop recovering tail s = refl

pub record Copied (recovering : Bool) (b : ℕ) (v : Block) (s s' : Log) : Type 0 where
  pub same : Same s s'
  pub view : s'.view ≡ update s.view b v
  pub disk : s'.disk ≡ update s.disk b v
  pub pins :
      (x : ℕ)
      → s'.pins x ≡ (
          if recovering
          then s.pins x
          else if x == b
          then (s.pins x + uint_mod - 1) % uint_mod
          else s.pins x)
  pub history : s'.history ≡ update s.disk b v ∷ s.history

Same-record : {s : Log} → Same s s
Same-record = record {
  start = refl;
  size = refl;
  n = refl;
  block = refl;
  outstanding = refl;
  committing = refl;
}

copy_home-Copied :
    (recovering : Bool) (b : ℕ) (v : Block) (s : Log)
    → Copied recovering b v s (copy_home recovering b v s)
unfolding modify bwrite bunpin
copy_home-Copied true b v s = record {
  same = record {
    start = refl;
    size = refl;
    n = refl;
    block = refl;
    outstanding = refl;
    committing = refl;
  };
  view = refl;
  disk = simp (==_refl);
  pins = λ x. refl;
  history = simp (==_refl);
}
copy_home-Copied false b v s = record {
  same = record {
    start = refl;
    size = refl;
    n = refl;
    block = refl;
    outstanding = refl;
    committing = refl;
  };
  view = refl;
  disk = simp (==_refl);
  pins = λ x. ground arith;
  history = simp (==_refl);
}

same_at :
    (x b : ℕ) (v : Block) (s : Log) (rest : Updates)
    → (mentions x ((b, v) ∷ rest) ≡ 0 → s.view x ≡ s.disk x)
    → mentions x rest ≡ 0
    → update s.view b v x ≡ update s.disk b v x
same_at x b v s rest h e = elim (Bool-cases (x == b)) [
  | inl here ↦ rw here refl
  | inr away ↦ rw away (h (ground arith))
]

module _ (recovering : Bool) (st sz : ℕ) (goal : Disk) where
  -- What installing `rest` does, for a disk on which redoing `ps` yields `goal`.
  pub record Installed (rest ps : Updates) (s s' : Log) : Type 0 where
    pub same : Same s s'
    pub disk : (x : ℕ) → s'.disk x ≡ apply rest s.disk x
    pub log_view : (x : ℕ) → in_log st sz x ≡ true → s'.view x ≡ s.view x
    pub clean : (x : ℕ) → (mentions x rest ≡ 0 → s.view x ≡ s.disk x) → s'.view x ≡ s'.disk x
    pub kept : recovering ≡ true → (x : ℕ) → s'.pins x ≡ s.pins x
    pub pins :
        recovering ≡ false
        → (x : ℕ) → mentions x rest ≤ s.pins x
        → s.pins x < uint_mod
        → s'.pins x ≡ s.pins x - mentions x rest
    pub redo : Redo st sz ps goal s'.disk
    pub through : Through (Recoverable st sz goal) s s'

  Installed-nil : (ps : Updates) (s : Log) → Redo st sz ps goal s.disk → Installed [] ps s s
  Installed-nil ps s r = record {
    same = Same-record;
    disk = λ x. refl;
    log_view = λ x h. refl;
    clean = λ x h. h refl;
    kept = λ _ x. refl;
    pins = λ _ x _ _. omega arith;
    redo = r;
    through = Through-refl _ s;
  }

  Installed-cons :
      (ps rest : Updates) (b : ℕ) (v : Block) (s s₁ s₂ : Log)
      → in_log st sz b ≡ false
      → Redo st sz ps goal (update s.disk b v)
      → Copied recovering b v s s₁
      → Installed rest ps s₁ s₂
      → Installed ((b, v) ∷ rest) ps s s₂
  Installed-cons ps rest b v s s₁ s₂ out r c i = record {
    same = Same-trans c.same i.same;
    disk = λ x. i.disk x ∙ ap (λ (d : Disk). apply rest d x) c.disk;
    log_view = λ x h. i.log_view x h ∙ rw c.view (ground arith);
    clean = λ x h. i.clean x (λ e. rw (c.view, c.disk) (same_at x b v s rest h e));
    kept = λ e x. let e₁ = c.pins x in i.kept e x ∙ ground arith;
    pins = λ e x le lt.
        let e₁ : s₁.pins x ≡ s.pins x - (if x == b then 1 else 0) =
          let c₁ = c.pins x in ground arith in
        ground (arith, i.pins e x (ground arith) (ground arith));
    redo = i.redo;
    through =
        Through-trans (Recoverable st sz goal) s s₁ s₂
          (update s.disk b v ∷ [], c.history, ((ps, r), tt)) i.through;
  }

  pub install_loop-Installed :
      (ps rest : Updates) (tail : ℕ) (s : Log)
      → s.start ≡ st
      → Redo st sz ps goal s.disk
      → HasBlocks s.block tail rest
      → HasData s.view st tail rest
      → tail + length rest < sz
      → Outside st sz rest
      → ((x : ℕ) → mentions x rest ≢ 0 → mentions x ps ≢ 0)
      → Installed rest ps s (install_loop recovering (length rest) tail s)
  install_loop-Installed ps [] tail s e r hb hd fits out sub =
      rw install_loop_stop (Installed-nil ps s r)
  install_loop-Installed ps ((b, v) ∷ rest) tail s e r (eb, hb) (ed, hd) fits (ob, out) sub =
      let s₁ = copy_home recovering b v s in
      let c = copy_home-Copied recovering b v s in
      let r₁ = Redo-update st sz b v r ob (sub b (ground arith)) in
      let hb₁ : HasBlocks s₁.block (tail + 1) rest = rw c.same.block hb in
      let kept : (x : ℕ) → in_log st sz x ≡ true → s₁.view x ≡ s.view x =
        λ x h. rw c.view (ground arith) in
      let hd₁ : HasData s₁.view st (tail + 1) rest =
        HasData-frame st sz {d = s.view} {d' = s₁.view} (tail + 1) rest (λ x _ h. kept x h)
          (omega arith) hd in
      let ed' : s.view (s.start + tail + 1) ≡ v = rw e ed in
      rw (install_loop_step, eb, ed')
        (Installed-cons ps rest b v s s₁ (install_loop recovering (length rest) (tail + 1) s₁) ob r₁
          c
          (install_loop-Installed ps rest (tail + 1) s₁ (c.same.start ∙ e) (rw c.disk r₁) hb₁ hd₁
            (omega arith) out (λ x h. sub x (ground arith))))
