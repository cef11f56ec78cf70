-- ===== src/Kernel/File/Whole.antt =====
-- `filewrite` of kernel/file.c on an inode as a whole.
use mathlib.Core.Path.{subst}
use sleep_e_pingpong.Base.{
  ℕ, zero, suc, ◌+◌, ◌-◌, ◌≤◌, ◌<◌, ◌≡◌, refl, sym, ap, ◌∙◌, inl, inr, Bool-cases, true, false,
  Option, none, some, ltb, ◌==◌, if◌then◌else◌, min, arith,
}
use sleep_e_pingpong.Kernel.Fs.{Disk, Superblock}
use sleep_e_pingpong.Kernel.Strings.{Mem}
use sleep_e_pingpong.Kernel.Inode.{Inode}
use sleep_e_pingpong.Kernel.Content.{Copyin, writei}
use sleep_e_pingpong.Kernel.Content.Bytes.{max_bytes, CopiesIn}
use sleep_e_pingpong.Kernel.Content.Store.{writei-WriteRun}
use sleep_e_pingpong.Kernel.File.{
  max_chunk, Progress, filewrite_loop, filewrite_end, filewrite_inode,
}
use sleep_e_pingpong.Kernel.File.Chunks.{
  IsReady, Chunked, Chunked-start, WriteRun-Chunked, Chunked-trans,
}

abbrev piece : ℕ → ℕ → ℕ
piece n i = min (n - i) max_chunk

chunk_written :
    (fuel : ℕ) (copyin : Copyin) (sb : Superblock) (d d' : Disk) (ip ip' : Inode)
    (addr off n i r : ℕ)
    → ltb i n ≡ true
    → writei copyin sb d ip (addr + i) off (piece n i) ≡ some (some r, (ip', d'))
    → filewrite_loop (suc fuel) copyin sb d ip addr off n i ≡ (
        if r == piece n i
        then filewrite_loop fuel copyin sb d' ip' addr (off + r) n (i + r)
        else some (i, (off + r, (ip', d'))))
unfolding filewrite_loop
chunk_written fuel copyin sb d d' ip ip' addr off n i r more w = rw (more, w) refl

CopiesIn-part :
    (copyin : Copyin) (bytes : Mem) (lo hi lo' hi' : ℕ)
    → lo ≤ lo'
    → hi' ≤ hi
    → CopiesIn copyin bytes lo hi
    → CopiesIn copyin bytes lo' hi'
CopiesIn-part copyin bytes lo hi lo' hi' h h' into = record {
  succeeds =
      λ blk i src m l l'. into.succeeds blk i src m (omega (arith, l, h)) (omega (arith, l', h'));
  copies =
      λ blk i src m l l'. into.copies blk i src m (omega (arith, l, h)) (omega (arith, l', h'));
}

none_left :
    (fuel : ℕ) (copyin : Copyin) (sb : Superblock) (d : Disk) (ip : Inode) (addr off n i : ℕ)
    → ltb i n ≡ false
    → filewrite_loop fuel copyin sb d ip addr off n i ≡ some (i, (off, (ip, d)))
unfolding filewrite_loop
none_left zero copyin sb d ip addr off n i e = refl
none_left (suc fuel) copyin sb d ip addr off n i e = rw e refl

-- What the loop returns: the bytes of whole chunks, where a last chunk may be short.
pub LoopRun : Superblock → Disk → Inode → Mem → ℕ → ℕ → ℕ → ℕ → Option Progress → Type 0
LoopRun sb d ip bytes addr off n i r =
    (j : ℕ) × (k : ℕ) × (ip' : Inode) × (d' : Disk) × (r ≡ some (j, (off + k, (ip', d'))))
    × ((j == n) ≡ (k == (n - i)))
    × Chunked sb d ip bytes off (addr + i) (n - i) k ip' d'

run_done :
    (sb : Superblock) (d : Disk) (ip : Inode) (bytes : Mem) (addr off n i : ℕ) (r : Option Progress)
    → IsReady sb d ip off
    → i ≡ n
    → r ≡ some (i, (off, (ip, d)))
    → LoopRun sb d ip bytes addr off n i r
unfolding LoopRun
run_done sb d ip bytes addr off n i r ready e q =
    let none_to_go : 0 ≡ n - i = omega (arith, e) in
    let start : off ≡ off + 0 = omega arith in
    let both_done : (i == n) ≡ (0 == (n - i)) = ground arith in
    (
      i,
      0,
      ip,
      d,
      q ∙ ap (λ o. some (i, (o, (ip, d)))) start,
      both_done,
      subst (λ m. Chunked sb d ip bytes off (addr + i) m 0 ip d) none_to_go
          (Chunked-start sb d ip bytes off (addr + i) ready),
    )

run_short :
    (sb : Superblock) (d d' : Disk) (ip ip' : Inode) (bytes : Mem) (addr off n i k : ℕ)
    (r : Option Progress)
    → i < n
    → k < piece n i
    → Chunked sb d ip bytes off (addr + i) (piece n i) k ip' d'
    → r ≡ some (i, (off + k, (ip', d')))
    → LoopRun sb d ip bytes addr off n i r
unfolding LoopRun
run_short sb d d' ip ip' bytes addr off n i k r more lt c q =
    let neither : (i == n) ≡ (k == (n - i)) = ground arith in
    (
      i,
      k,
      ip',
      d',
      q,
      neither,
      record {
        bound = omega (arith, lt);
        short = λ _. c.short lt;
        ready = c.ready;
        holds = c.holds;
        size = c.size;
      },
    )

run_next :
    (sb : Superblock) (d d' : Disk) (ip ip' : Inode) (bytes : Mem) (addr off n i k : ℕ)
    (r : Option Progress)
    → i < n
    → k ≡ piece n i
    → Chunked sb d ip bytes off (addr + i) (piece n i) k ip' d'
    → LoopRun sb d' ip' bytes addr (off + k) n (i + k) r
    → LoopRun sb d ip bytes addr off n i r
unfolding LoopRun
run_next sb d d' ip ip' bytes addr off n i k r more whole c (j, k', ip'', d'', q, done, c') =
    let sum : (off + k) + k' ≡ off + (k + k') = omega arith in
    let place : addr + (i + k) ≡ (addr + i) + k = omega arith in
    let left : n - (i + k) ≡ (n - i) - k = omega arith in
    let c₁ = subst (λ m. Chunked sb d ip bytes off (addr + i) m k ip' d') (sym whole) c in
    let c₂ : Chunked sb d' ip' bytes (off + k) ((addr + i) + k) ((n - i) - k) k' ip'' d'' =
      subst (λ m. Chunked sb d' ip' bytes (off + k) ((addr + i) + k) m k' ip'' d'') left
        (subst (λ s. Chunked sb d' ip' bytes (off + k) s (n - (i + k)) k' ip'' d'') place c') in
    let bound = c'.bound in
    let all : (k' == (n - (i + k))) ≡ ((k + k') == (n - i)) = ground arith in
    (
      j,
      k + k',
      ip'',
      d'',
      q ∙ ap (λ o. some (j, (o, (ip'', d'')))) sum,
      done ∙ all,
      Chunked-trans sb d d' d'' ip ip' ip'' bytes off (addr + i) k (n - i) k' (omega (arith, whole))
          c₁ c₂,
    )

module _ (copyin : Copyin) (sb : Superblock) (bytes : Mem) (addr n : ℕ)
    (into : CopiesIn copyin bytes addr (addr + n)) (is_bytes : (a : ℕ) → bytes a < 256) where
  filewrite_loop-LoopRun :
      (fuel : ℕ) (d : Disk) (ip : Inode) (off i : ℕ)
      → IsReady sb d ip off
      → n - i ≤ fuel
      → i ≤ n
      → off + (n - i) ≤ max_bytes
      → LoopRun sb d ip bytes addr off n i (filewrite_loop fuel copyin sb d ip addr off n i)
  filewrite_loop-LoopRun zero d ip off i ready enough le fits =
      run_done sb d ip bytes addr off n i _ ready (omega (arith, enough, le))
        (none_left zero copyin sb d ip addr off n i (ground arith))
  filewrite_loop-LoopRun (suc fuel) d ip off i ready enough le fits = elim (Bool-cases (ltb i n)) [
    | inr e ↦
        run_done sb d ip bytes addr off n i _ ready (ground arith)
          (none_left (suc fuel) copyin sb d ip addr off n i e)
    | inl e ↦
        let lt : i < n = ground arith in
        let part =
          CopiesIn-part copyin bytes addr (addr + n) (addr + i) ((addr + i) + piece n i)
            (omega arith) (omega (arith, lt)) into in
        let room : off + piece n i ≤ max_bytes = omega (arith, fits) in
        let (k, ip', d', q, w) =
          writei-WriteRun copyin sb d ip bytes off (addr + i) (piece n i) part is_bytes ready.good
            ready.narrow ready.home.0 ready.home.1 ready.size ready.inside room in
        let c = WriteRun-Chunked sb d d' ip ip' bytes off (addr + i) (piece n i) k ready room w in
        let bound = w.bound in
        let next = chunk_written fuel copyin sb d d' ip ip' addr off n i k e q in
        elim (Bool-cases (k == piece n i)) [
          | inl h ↦
              let whole : k ≡ piece n i = ground arith in
              subst (LoopRun sb d ip bytes addr off n i) (sym (next ∙ (rw h refl))) (
                run_next sb d d' ip ip' bytes addr off n i k _ lt whole c (
                  filewrite_loop-LoopRun fuel d' ip' (off + k) (i + k) c.ready
                    (omega (arith, enough, whole, lt)) (omega (arith, whole, lt))
                    (omega (arith, fits, whole, lt))))
          | inr h ↦
              run_short sb d d' ip ip' bytes addr off n i k _ lt (ground arith) c
                (next ∙ (rw h refl))
        ]
  ]

whole_run :
    (sb : Superblock) (d : Disk) (ip : Inode) (bytes : Mem) (addr off n : ℕ) (r : Option Progress)
    → LoopRun sb d ip bytes addr off n 0 r
    → (k : ℕ) × (ip' : Inode) × (d' : Disk) × (filewrite_end n r
        ≡ some (if k == n then some n else none, (off + k, (ip', d'))))
      × Chunked sb d ip bytes off addr n k ip' d'
unfolding LoopRun filewrite_end
whole_run sb d ip bytes addr off n r (j, k, ip', d', q, done, c) =
    let start : addr + 0 ≡ addr = omega arith in
    let all : n - 0 ≡ n = omega arith in
    let result : (if j == n then some n else none) ≡ (if k == n then some n else none) =
      ap (λ b. if b then some n else none) (done ∙ ap (λ m. k == m) all) in
    (
      k,
      ip',
      d',
      ap (filewrite_end n) q ∙ ap (λ s. some (s, (off + k, (ip', d')))) result,
      subst (λ s. Chunked sb d ip bytes off s n k ip' d') start
          (subst (λ m. Chunked sb d ip bytes off (addr + 0) m k ip' d') all c),
    )

-- `filewrite` on an inode that owns its blocks, from an offset within the file or at its end, where
-- the end of what is written is in range, the source is bytes that can be read, and the inode's
-- numbers fit and its place on the disk is a used block that is not its own. However many calls of
-- writei it takes, it does not panic and writes the first `k` of `n` bytes at the offset and no
-- others; the file's offset advances by `k`, and the size is the end of the range if that is larger.
-- It returns `n` when `k` is `n`, and -1 otherwise, which happens only when no block of the disk is
-- free. The inode can be written to again from the new offset.
pub filewrite_inode-Chunked :
    (copyin : Copyin) (sb : Superblock) (d : Disk) (ip : Inode) (bytes : Mem) (addr off n : ℕ)
    → CopiesIn copyin bytes addr (addr + n)
    → ((a : ℕ) → bytes a < 256)
    → IsReady sb d ip off
    → off + n ≤ max_bytes
    → (k : ℕ) × (ip' : Inode) × (d' : Disk) × (filewrite_inode copyin sb d ip addr off n
        ≡ some (if k == n then some n else none, (off + k, (ip', d'))))
      × Chunked sb d ip bytes off addr n k ip' d'
unfolding filewrite_inode
filewrite_inode-Chunked copyin sb d ip bytes addr off n into is_bytes ready fits =
    whole_run sb d ip bytes addr off n (filewrite_loop n copyin sb d ip addr off n 0) (
      filewrite_loop-LoopRun copyin sb bytes addr n into is_bytes n d ip off 0 ready (omega arith)
        (omega arith) (omega (arith, fits)))
