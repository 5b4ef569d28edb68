-- ===== src/Streams/Refs.antt =====
-- Reference counts: an FCB counts the file ids, of all processes, that stand for it.
use disasteros.Common.{
  ℕ, zero, suc, ◌+◌, ◌*◌, ◌≤◌, ◌<◌, ◌≡◌, refl, ap, inl, inr, Option, none, arith, count, update,
  ◌==◌, if◌then◌else◌, Bool-cases,
}
use disasteros.World.{Pcb, World, max_fileid, max_proc}
use disasteros.Streams.Table.{holds, max_files, set_fidt}

abbrev hit : Option ℕ → ℕ → ℕ
hit o f = if holds o f then 1 else 0

-- How many of the first `n` entries of a fileid table stand for `f`.
refs_in : (n : ℕ) → (ℕ → Option ℕ) → (f : ℕ) → ℕ
refs_in zero fidt f = 0
refs_in (suc n) fidt f = hit (fidt n) f + refs_in n fidt f

-- The same, over the tables of the first `n` processes.
refs_of : (n : ℕ) → (ℕ → Pcb) → (f : ℕ) → ℕ
refs_of zero pcb f = 0
refs_of (suc n) pcb f = refs_in max_fileid (pcb n).fidt f + refs_of n pcb f

pub refs : World → ℕ → ℕ
refs w f = refs_of max_proc w.pcb f

refs_in-above :
    (n i f : ℕ) (o : Option ℕ) (fidt : ℕ → Option ℕ)
    → n ≤ i
    → refs_in n (update fidt i o) f ≡ refs_in n fidt f
unfolding refs_in
refs_in-above zero i f o fidt h = refl
refs_in-above (suc n) i f o fidt h = ground (arith, refs_in-above n i f o fidt)

refs_in-update :
    (n i f : ℕ) (o : Option ℕ) (fidt : ℕ → Option ℕ)
    → i < n
    → refs_in n (update fidt i o) f + hit (fidt i) f ≡ refs_in n fidt f + hit o f
unfolding refs_in
refs_in-update zero i f o fidt h = absurd (omega arith)
refs_in-update (suc n) i f o fidt h = elim (Bool-cases (n == i)) [
  | inl e ↦ ground (arith, refs_in-above n i f o fidt)
  | inr e ↦ ground (arith, refs_in-update n i f o fidt)
]

refs_in-le : (n f : ℕ) (fidt : ℕ → Option ℕ) → refs_in n fidt f ≤ n
unfolding refs_in
refs_in-le zero f fidt = omega arith
refs_in-le (suc n) f fidt = ground (arith, refs_in-le n f fidt)

refs_of-le : (n f : ℕ) (pcb : ℕ → Pcb) → refs_of n pcb f ≤ n * max_fileid
unfolding refs_of
refs_of-le zero f pcb = omega arith
refs_of-le (suc n) f pcb = omega (arith, refs_of-le n f pcb, refs_in-le max_fileid f (pcb n).fidt)

refs_of-above :
    (n p f : ℕ) (b : Pcb) (pcb : ℕ → Pcb) → n ≤ p → refs_of n (update pcb p b) f ≡ refs_of n pcb f
unfolding refs_of
refs_of-above zero p f b pcb h = refl
refs_of-above (suc n) p f b pcb h = ground (arith, refs_of-above n p f b pcb)

refs_of-update :
    (n p i f : ℕ) (o : Option ℕ) (b : Pcb) (pcb : ℕ → Pcb)
    → p < n
    → i < max_fileid
    → b.fidt ≡ update (pcb p).fidt i o
    → refs_of n (update pcb p b) f + hit ((pcb p).fidt i) f ≡ refs_of n pcb f + hit o f
unfolding refs_of
refs_of-update zero p i f o b pcb h k e = absurd (omega arith)
refs_of-update (suc n) p i f o b pcb h k e = elim (Bool-cases (n == p)) [
  | inl q ↦ ground (arith, refs_of-above n p f b pcb, refs_in-update max_fileid i f o (pcb p).fidt)
  | inr q ↦ ground (arith, refs_of-update n p i f o b pcb)
]

-- A new entry of a fileid table takes a reference, and the old one's goes.
pub refs-set_fidt :
    (p i f : ℕ) (o : Option ℕ) (w : World)
    → p < max_proc
    → i < max_fileid
    → refs (set_fidt p i o w) f + (if holds ((w.pcb p).fidt i) f then 1 else 0)
      ≡ refs w f + (if holds o f then 1 else 0)
unfolding refs
refs-set_fidt p i f o w h k = refs_of-update max_proc p i f o _ w.pcb h k refl

pub refs-of_pcb : (w w' : World) (f : ℕ) → w'.pcb ≡ w.pcb → refs w' f ≡ refs w f
unfolding refs
refs-of_pcb w w' f e = ap (λ (t : ℕ → Pcb). refs_of max_proc t f) e

pub refs-bound : (w : World) (f : ℕ) → refs w f ≤ 1048576
unfolding refs
refs-bound w f = refs_of-le max_proc f w.pcb

-- Between two system calls the reference count of an FCB is the number of file ids that stand for it,
-- and the free list holds, once each, FCBs that no file id stands for, among them every such FCB of
-- the table.
pub record IsValid (w : World) : Type 0 where
  pub counted : (f : ℕ) → (w.fcb f).refcount ≡ refs w f
  pub unused : (f : ℕ) → 0 < count f w.fcb_freelist → (refs w f ≡ 0) × (count f w.fcb_freelist ≡ 1)
  pub no_leak : (f : ℕ) → f < max_files → refs w f ≡ 0 → 0 < count f w.fcb_freelist

refs_in-none : (n f : ℕ) (fidt : ℕ → Option ℕ) → ((i : ℕ) → fidt i ≡ none) → refs_in n fidt f ≡ 0
unfolding refs_in
refs_in-none zero f fidt h = refl
refs_in-none (suc n) f fidt h = ground (arith, h n, refs_in-none n f fidt h)

refs_of-none : (n f : ℕ) (pcb : ℕ → Pcb) → ((p i : ℕ) → (pcb p).fidt i ≡ none) → refs_of n pcb f ≡ 0
unfolding refs_of
refs_of-none zero f pcb h = refl
refs_of-none (suc n) f pcb h =
    omega (arith, refs_in-none max_fileid f (pcb n).fidt (h n), refs_of-none n f pcb h)

pub refs-none : (w : World) → ((p i : ℕ) → (w.pcb p).fidt i ≡ none) → (f : ℕ) → refs w f ≡ 0
unfolding refs
refs-none w h f = refs_of-none max_proc f w.pcb h
