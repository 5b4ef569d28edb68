-- ===== src/Streams/Frame.antt =====
-- What closing the end of a pipe leaves alone: the FCB table and the fileid tables.
use disasteros.Common.{
  ℕ, ◌≡◌, refl, ◌∙◌, inl, inr, Bool, true, false, Option, none, some, arith, if◌then◌else◌,
  Bool-cases, Option-cases,
}
use disasteros.Common.Int.{ℤ}
use disasteros.World.{World, Outcome, returned, asleep, fault, or_fault, and_then, Pipe}
use disasteros.Pipe.Ends.{reader_close, writer_close, broadcast_space, broadcast_data, set_pipe}
use disasteros.Cc.CondVar.{cond_broadcast}
use disasteros.Cc.Frame.{SameOwners, SameOwners-trans, cond_broadcast-SameOwners}

-- What a `Close` leaves alone.
pub record SameTables (w w' : World) : Type 0 where
  pub fcb : w'.fcb ≡ w.fcb
  pub freelist : w'.fcb_freelist ≡ w.fcb_freelist
  pub pcb : w'.pcb ≡ w.pcb
  pub owners : SameOwners w.kernel.sched w'.kernel.sched

broadcast_data-SameTables :
    (a : ℕ) (p : Pipe) (w : World) {w' : World} → broadcast_data a p w ≡ some w' → SameTables w w'
unfolding broadcast_data
broadcast_data-SameTables a p w {w'} e = elim (Option-cases (cond_broadcast p.has_data w.kernel)) [
  | inl f ↦ ground arith
  | inr ((cv, k), f) ↦
      let o = cond_broadcast-SameOwners p.has_data w.kernel f in
      record {
        fcb = ground arith;
        freelist = ground arith;
        pcb = ground arith;
        owners = record {
          current = λ core. ground (arith, o.current core);
          owner = λ u. ground (arith, o.owner u);
        };
      }
]

broadcast_space-SameTables :
    (a : ℕ) (p : Pipe) (w : World) {w' : World} → broadcast_space a p w ≡ some w' → SameTables w w'
unfolding broadcast_space
broadcast_space-SameTables a p w {w'} e =
    elim (Option-cases (cond_broadcast p.has_space w.kernel)) [
      | inl f ↦ ground arith
      | inr ((cv, k), f) ↦
          let o = cond_broadcast-SameOwners p.has_space w.kernel f in
          record {
            fcb = ground arith;
            freelist = ground arith;
            pcb = ground arith;
            owners = record {
              current = λ core. ground (arith, o.current core);
              owner = λ u. ground (arith, o.owner u);
            };
          }
    ]

pub or_fault-returned {ℓ} :
    {A : Type ℓ} (o : Option A) (k : A → Outcome ℤ) {r : ℤ} {w' : World}
    → or_fault o k ≡ returned r w'
    → (a : A) × (o ≡ some a) × (k a ≡ returned r w')
or_fault-returned none k e = cc
or_fault-returned (some a) k e = (a, refl, e)

pub and_then-returned :
    (o : Outcome ℤ) (k : ℤ → World → Outcome ℤ) {r : ℤ} {w' : World}
    → and_then o k ≡ returned r w'
    → (q : ℤ) × (u : World) × (o ≡ returned q u) × (k q u ≡ returned r w')
and_then-returned (returned q u) k e = (q, u, refl, e)
and_then-returned (asleep u) k e = cc
and_then-returned fault k e = cc

pub else_of {ℓ} :
    {A : Type ℓ} (x : A) {y z : A} (b : Bool) → b ≡ false → (if b then x else y) ≡ z → y ≡ z
else_of x true h e = cc
else_of x false h e = e

pub then_of {ℓ} :
    {A : Type ℓ} (y : A) {x z : A} (b : Bool) → b ≡ true → (if b then x else y) ≡ z → x ≡ z
then_of y true h e = e
then_of y false h e = cc

pub SameTables-refl : {w w' : World} {r q : ℤ} → returned r w ≡ returned q w' → SameTables w w'
SameTables-refl e = record {
  fcb = ground arith;
  freelist = ground arith;
  pcb = ground arith;
  owners = record { current = λ core. ground arith; owner = λ u. ground arith };
}

pub SameTables-trans : {w w' w'' : World} → SameTables w w' → SameTables w' w'' → SameTables w w''
SameTables-trans a b = record {
  fcb = b.fcb ∙ a.fcb;
  freelist = b.freelist ∙ a.freelist;
  pcb = b.pcb ∙ a.pcb;
  owners = SameOwners-trans a.owners b.owners;
}

pub writer_close-SameTables :
    (a : ℕ) (w : World) {r : ℤ} {w' : World} → writer_close a w ≡ returned r w' → SameTables w w'
unfolding writer_close
writer_close-SameTables a w e =
    let (p, f, g) = or_fault-returned (w.pipes a) _ e in
    elim (Bool-cases p.writer_closed) [
      | inl h ↦ SameTables-refl (then_of _ p.writer_closed h g)
      | inr h ↦
          let (u, m, n) =
            or_fault-returned (broadcast_data a (record p { writer_closed = true }) w) _
              (else_of _ p.writer_closed h g) in
          SameTables-trans (broadcast_data-SameTables a (record p { writer_closed = true }) w m)
            (SameTables-refl n)
    ]

pub reader_close-SameTables :
    (a : ℕ) (w : World) {r : ℤ} {w' : World} → reader_close a w ≡ returned r w' → SameTables w w'
unfolding reader_close
reader_close-SameTables a w e =
    let (p, f, g) = or_fault-returned (w.pipes a) _ e in
    elim (Bool-cases p.reader_closed) [
      | inl h ↦ SameTables-refl (then_of _ p.reader_closed h g)
      | inr h ↦
          let q : Pipe = record p { reader_closed = true } in
          let (u, m, n) =
            or_fault-returned (broadcast_space a q w) _ (else_of _ p.reader_closed h g) in
          let (z, v, x, y) = and_then-returned (writer_close a u) _ n in
          SameTables-trans (broadcast_space-SameTables a q w m) (
            SameTables-trans (writer_close-SameTables a u x)
              (SameTables-trans (gone a v) (SameTables-refl y)))
    ]
  where
    gone : (a : ℕ) (v : World) → SameTables v (set_pipe a none v)
    gone a v = record {
      fcb = refl;
      freelist = refl;
      pcb = refl;
      owners = record { current = λ core. refl; owner = λ u. refl };
    }
