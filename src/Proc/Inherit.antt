-- ===== src/Proc/Inherit.antt =====
-- The reference counts under `sys_Exec`: a child takes a reference for each file id that it inherits.
use disasteros.Common.{
  ℕ, zero, suc, ◌+◌, ◌≤◌, ◌<◌, ◌≡◌, ◌≢◌, refl, sym, subst, Option, none, some, arith, ◌==◌,
  if◌then◌else◌, Option-cases, Bool-cases, inl, inr,
}
use disasteros.World.{World, max_fileid, max_proc}
use disasteros.Streams.Table.{fcb_incref, set_fidt}
use disasteros.Streams.Refs.{refs, refs-set_fidt, refs-bound, refs-of_pcb, IsValid}
use disasteros.Proc.Exec.{inherit_fids}

module _ (parent child : ℕ) (ne : parent ≢ child) (h : parent < max_proc)
    (k : child < max_proc) where
  share-IsValid :
      (i f : ℕ) {w : World}
      → IsValid w
      → i < max_fileid
      → (w.pcb parent).fidt i ≡ some f
      → (w.pcb child).fidt i ≡ none
      → IsValid (fcb_incref f (set_fidt child i (some f) w))
  unfolding fcb_incref
  share-IsValid i f {w} v l e n =
      let t = set_fidt child i (some f) w in
      let same = λ (u : ℕ). refs-of_pcb t (fcb_incref f t) u refl in
      let r = λ (u : ℕ). refs-set_fidt child i u (some f) w k l in
      let in_use : 0 < refs w f = ground (arith, refs-set_fidt parent i f none w h l) in
      record {
        counted = λ u. ground (arith, v.counted u, r u, same u, refs-bound w u);
        unused = λ u. ground (arith, v.unused u, r u, same u, in_use);
        no_leak = λ u. ground (arith, v.no_leak u, r u, same u);
      }

  skip-IsValid :
      (i : ℕ) {w : World}
      → IsValid w
      → i < max_fileid
      → (w.pcb child).fidt i ≡ none
      → IsValid (set_fidt child i none w)
  skip-IsValid i {w} v l n =
      let r = λ (u : ℕ). refs-set_fidt child i u none w k l in
      record {
        counted = λ u. ground (arith, v.counted u, r u);
        unused = λ u. ground (arith, v.unused u, r u);
        no_leak = λ u. ground (arith, v.no_leak u, r u);
      }

  -- One round of the loop.
  abbrev inherited : Option ℕ → (i : ℕ) → World → World
  inherited none i w = set_fidt child i none w
  inherited (some f) i w = fcb_incref f (set_fidt child i (some f) w)

  inherited-IsValid :
      (o : Option ℕ) (i : ℕ) {w : World}
      → IsValid w
      → i < max_fileid
      → (w.pcb parent).fidt i ≡ o
      → (w.pcb child).fidt i ≡ none
      → IsValid (inherited o i w)
  inherited-IsValid none i v l e n = skip-IsValid i v l n
  inherited-IsValid (some f) i v l e n = share-IsValid i f v l e n

  inherited-fidt :
      (o : Option ℕ) (i p j : ℕ) (w : World)
      → ((inherited o i w).pcb p).fidt j
        ≡ (if p == child then (if j == i then o else (w.pcb p).fidt j) else (w.pcb p).fidt j)
  unfolding fcb_incref
  inherited-fidt none i p j w = ground arith
  inherited-fidt (some f) i p j w = ground arith

  -- The tables of the two processes, when the loop has run from entry `i` on.
  record Copied (i : ℕ) (w w' : World) : Type 0 where
    valid : IsValid w'
    same : (j : ℕ) → (w'.pcb parent).fidt j ≡ (w.pcb parent).fidt j
    before : (j : ℕ) → j < i → (w'.pcb child).fidt j ≡ (w.pcb child).fidt j
    copy : (j : ℕ) → i ≤ j → j < max_fileid → (w'.pcb child).fidt j ≡ (w.pcb parent).fidt j

  inherit_fids-suc :
      (n i : ℕ) (w : World)
      → inherit_fids (suc n) i parent child w
        ≡ inherit_fids n (i + 1) parent child (inherited ((w.pcb parent).fidt i) i w)
  unfolding inherit_fids
  inherit_fids-suc n i w = elim (Option-cases ((w.pcb parent).fidt i)) [
    | inl e ↦ rw e refl
    | inr (f, e) ↦ rw e refl
  ]

  inherit_fids-Copied :
      (n i : ℕ) (w : World)
      → n + i ≡ max_fileid
      → IsValid w
      → ((j : ℕ) → i ≤ j → (w.pcb child).fidt j ≡ none)
      → Copied i w (inherit_fids n i parent child w)
  unfolding inherit_fids
  inherit_fids-Copied zero i w e v free = record {
    valid = v;
    same = λ j. refl;
    before = λ j l. refl;
    copy = λ j a b. absurd (omega arith);
  }
  inherit_fids-Copied (suc n) i w e v free =
      let o = (w.pcb parent).fidt i in
      let w₁ = inherited o i w in
      let at = λ (p j : ℕ). inherited-fidt o i p j w in
      let c =
        inherit_fids-Copied n (i + 1) w₁ (omega arith)
          (inherited-IsValid o i v (omega arith) refl (free i (omega arith)))
          (λ j l. ground (arith, at child j, free j)) in
      subst (Copied i w) (sym (inherit_fids-suc n i w)) (record {
        valid = c.valid;
        same = λ j. ground (arith, c.same j, at parent j);
        before = λ j l. ground (arith, c.before j, at child j);
        copy = λ j a b. elim (Bool-cases (j == i)) [
          | inl q ↦ ground (arith, c.before j, at child j)
          | inr q ↦ ground (arith, c.copy j, at parent j)
        ];
      })

  -- With the reference counts right, a process of the table with an empty fileid table that
  -- inherits the files of another one has then the same file ids as its parent, each standing for
  -- the same FCB; the parent's table has not changed, and the reference counts are right.
  pub inherit_fids_lem :
      (w : World)
      → IsValid w
      → ((j : ℕ) → (w.pcb child).fidt j ≡ none)
      → let w' = inherit_fids max_fileid 0 parent child w in
        IsValid w'
        × ((j : ℕ) → j < max_fileid → (w'.pcb child).fidt j ≡ (w.pcb parent).fidt j)
        × ((j : ℕ) → (w'.pcb parent).fidt j ≡ (w.pcb parent).fidt j)
  inherit_fids_lem w v free =
      let c = inherit_fids-Copied max_fileid 0 w (omega arith) v (λ j a. free j) in
      (c.valid, λ j l. c.copy j (omega arith) l, c.same)
