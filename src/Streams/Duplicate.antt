-- ===== src/Streams/Duplicate.antt =====
-- The reference counts under `sys_Dup2`.
use disasteros.Common.{
  ℕ, ◌+◌, ◌<◌, ◌≡◌, refl, ap, ◌∙◌, subst, inl, inr, true, false, none, some, [], ◌∷◌, arith,
  count-append, ◌==◌, if◌then◌else◌, Bool-cases, Option-cases, ltb,
}
use disasteros.Common.Int.{ℤ, pos, negsuc}
use disasteros.World.{Pcb, World, returned, and_then, Cpu, curthread, curproc, max_fileid, max_proc}
use disasteros.Streams.Table.{holds, fcb_incref, set_fidt, get_fcb}
use disasteros.Streams.Calls.{fcb_decref, sys_dup2, drop_new}
use disasteros.Streams.Refs.{refs, refs-set_fidt, refs-bound, refs-of_pcb, IsValid}
use disasteros.Streams.Closing.{Dropped, fcb_decref-Dropped}
use disasteros.Streams.Frame.{and_then-returned}

-- The last step: file id `i` of process `p` stands for `old`, which has one reference more.
abbrev linked : (p i old : ℕ) → World → World
linked p i old w = set_fidt p i (some old) (fcb_incref old w)

module _ {w : World} (p i j old : ℕ) (v : IsValid w) (h : p < max_proc) (k : i < max_fileid)
    (l : j < max_fileid) (source : (w.pcb p).fidt j ≡ some old) where
  -- A file id stands for `old`, so it is in use.
  in_use : 0 < refs w old
  in_use = ground (arith, refs-set_fidt p j old none w h l)

  refs-linked :
      (w₁ : World) (u : ℕ)
      → w₁.pcb ≡ w.pcb
      → refs (linked p i old w₁) u + (if holds ((w.pcb p).fidt i) u then 1 else 0)
        ≡ refs w u + (if old == u then 1 else 0)
  unfolding fcb_incref
  refs-linked w₁ u e = ground (
    arith,
    refs-of_pcb w w₁ u e,
    refs-of_pcb w₁ (fcb_incref old w₁) u refl,
    refs-set_fidt p i u (some old) (fcb_incref old w₁) h k,
    ap (λ (t : ℕ → Pcb). (t p).fidt i) e,
  )

  fresh-IsValid : (w.pcb p).fidt i ≡ none → IsValid (linked p i old w)
  unfolding fcb_incref
  fresh-IsValid e = record {
    counted = λ u. ground (arith, v.counted u, refs-linked w u refl, refs-bound w u);
    unused = λ u. ground (arith, v.unused u, refs-linked w u refl, in_use);
    no_leak = λ u. ground (arith, v.no_leak u, refs-linked w u refl);
  }

  replaced-IsValid :
      (new : ℕ) (w₁ : World)
      → (w.pcb p).fidt i ≡ some new
      → (new == old) ≡ false
      → Dropped new w w₁
      → IsValid (linked p i old w₁)
  unfolding fcb_incref
  replaced-IsValid new w₁ e ne d =
      let r = λ (u : ℕ). refs-linked w₁ u d.pcb in
      record {
        counted = λ u. ground (arith, d.refcount u, r u, v.counted u, refs-bound w u, in_use);
        unused = λ u. ground (
          arith,
          d.freelist,
          r u,
          r new,
          v.counted new,
          v.unused u,
          v.unused new,
          refs-bound w new,
          in_use,
          count-append u w.fcb_freelist (new ∷ []),
        );
        no_leak = λ u. ground (
          arith,
          d.freelist,
          r u,
          r new,
          v.counted new,
          v.no_leak u,
          refs-bound w new,
          count-append u w.fcb_freelist (new ∷ []),
        );
      }

sys_dup2-copies :
    (c : Cpu) (w : World) (i j old : ℕ) {r : ℤ} {w' : World}
    → ltb i max_fileid ≡ true
    → ltb j max_fileid ≡ true
    → (w.pcb (curproc c w)).fidt j ≡ some old
    → holds ((w.pcb (curproc c w)).fidt i) old ≡ false
    → sys_dup2 c (pos j) (pos i) w ≡ returned r w'
    → and_then
        (drop_new c ((w.pcb (curproc c w)).fidt i) w)
        (λ _ u. returned (pos 0) (linked (curproc c u) i old u))
      ≡ returned r w'
unfolding sys_dup2 get_fcb
sys_dup2-copies c w i j old k l o s e = simp (k, l, o, s) at e

module _ (c : Cpu) {w : World} (v : IsValid w) (h : curproc c w < max_proc) where
  copy-IsValid :
      (i j old : ℕ) {q : ℤ} {w₁ w' : World}
      → i < max_fileid
      → j < max_fileid
      → (w.pcb (curproc c w)).fidt j ≡ some old
      → holds ((w.pcb (curproc c w)).fidt i) old ≡ false
      → drop_new c ((w.pcb (curproc c w)).fidt i) w ≡ returned q w₁
      → linked (curproc c w₁) i old w₁ ≡ w'
      → IsValid w'
  copy-IsValid i j old {q} {w₁} {w'} k l source ne e f =
      elim (Option-cases ((w.pcb (curproc c w)).fidt i)) [
        | inl n ↦
            let g : w ≡ w₁ = ground arith in
            subst IsValid (ap (λ t. linked (curproc c t) i old t) g ∙ f)
              (fresh-IsValid (curproc c w) i j old v h k l source n)
        | inr (new, n) ↦
            let g : fcb_decref c new w ≡ returned q w₁ = ground arith in
            let d = fcb_decref-Dropped c new w g in
            let o : curproc c w ≡ curproc c w₁ =
              ground (arith, d.owners.current c.core, d.owners.owner (curthread c w)) in
            let m : (new == old) ≡ false = ground arith in
            subst IsValid (ap (λ p. linked p i old w₁) o ∙ f)
              (replaced-IsValid (curproc c w) i j old v h k l source new w₁ n m d)
      ]

  -- With the reference counts right, and a calling process of the table, a `sys_Dup2` that
  -- returns, on whatever file ids, leaves them right: each FCB counts the file ids that stand for
  -- it, and the free list holds, once each, the FCBs that none stands for.
  pub sys_dup2-IsValid :
      (oldfd newfd : ℤ) {r : ℤ} {w' : World} → sys_dup2 c oldfd newfd w ≡ returned r w' → IsValid w'
  unfolding sys_dup2 get_fcb
  sys_dup2-IsValid (negsuc m) newfd e = subst IsValid (ground arith) v
  sys_dup2-IsValid (pos j) (negsuc n) e = subst IsValid (ground arith) v
  sys_dup2-IsValid (pos j) (pos i) {r} {w'} e = elim (Bool-cases (ltb j max_fileid)) [
    | inr l ↦ subst IsValid (ground arith) v
    | inl l ↦ elim (Bool-cases (ltb i max_fileid)) [
      | inr k ↦ subst IsValid (ground arith) v
      | inl k ↦ elim (Option-cases ((w.pcb (curproc c w)).fidt j)) [
        | inl o ↦ subst IsValid (ground arith) v
        | inr (old, o) ↦ elim (Bool-cases (holds ((w.pcb (curproc c w)).fidt i) old)) [
          | inl s ↦ subst IsValid (ground arith) v
          | inr s ↦
              let (q, w₁, x, y) =
                and_then-returned (drop_new c ((w.pcb (curproc c w)).fidt i) w)
                  (λ _ u. returned (pos 0) (linked (curproc c u) i old u)) {r = r} {w' = w'}
                  (sys_dup2-copies c w i j old k l o s e) in
              copy-IsValid i j old (ground arith) (ground arith) o s x (ground arith)
        ]
      ]
    ]
  ]
