-- ===== src/Pipe/Fifo.antt =====
-- The ring buffer as a queue of bytes.
use native.Mathlib.Nat.{zero-add}
use disasteros.Common.{
  ℕ, zero, suc, ◌+◌, ◌-◌, ◌%◌, ◌≤◌, ◌<◌, ◌≡◌, ◌≢◌, refl, ap, ◌∙◌, sym, List, [], ◌∷◌, ◌++◌, arith,
  min, length, take, drop, update, append_assoc, append-nil, ltb, ◌==◌, if◌then◌else◌, Bool-cases,
  inl, inr,
}
use disasteros.World.{Pipe}
use disasteros.Pipe.Ring.{buff_size, used_space, copy_out, copy_in, take_bytes, put_bytes}
use disasteros.Pipe.Window.{
  window, bytes_of, take-window, drop-window, window-snoc, step_mod, length-window,
}

-- The indices are inside the buffer, and `write_p` stands behind the bytes that are used.
pub record IsValid (p : Pipe) : Type 0 where
  pub space : p.available_space ≤ buff_size
  pub read_in : p.read_p < buff_size
  pub write_at : p.write_p ≡ (p.read_p + (buff_size - p.available_space)) % buff_size

-- The bytes that were written and not yet read, oldest first.
abbrev pub contents : Pipe → List ℕ
contents p = window p.buffer p.read_p (buff_size - p.available_space)

-- How many bytes a call for `size` bytes moves when `n` could be moved: the loop stops when its count
-- reaches `size`, which for a size of 0 it never does.
abbrev pub moved : (size n : ℕ) → ℕ
moved size n = if size == 0 then n else min size n

-- The same, with a count already made.
still : (size done n : ℕ) → ℕ
still size done n = if ltb done size then min (size - done) n else n

still-zero : (size done : ℕ) → still size done 0 ≡ 0
unfolding still
still-zero size done = ground arith

still-last : (size done n : ℕ) → done + 1 ≡ size → still size done (suc n) ≡ 1
unfolding still
still-last size done n h = ground arith

still-more :
    (size done n : ℕ) → done + 1 ≢ size → still size done (suc n) ≡ suc (still size (done + 1) n)
unfolding still
still-more size done n h = ground arith

still-start : (size n : ℕ) → still size 0 n ≡ moved size n
unfolding still
still-start size n = ground arith

copy_out_lem :
    (n : ℕ) (buffer : ℕ → ℕ) (r done size : ℕ)
    → r < buff_size
    → copy_out n buffer r done size ≡ (
      window buffer r (still size done n),
      (r + still size done n) % buff_size,
      done + still size done n,
    )
unfolding copy_out
copy_out_lem zero buffer r done size b = rw (still-zero size done) (ground arith)
copy_out_lem (suc n) buffer r done size b = elim (Bool-cases (done + 1 == size)) [
  | inl e ↦ rw (e, still-last size done n (ground arith)) refl
  | inr e ↦
      rw (e, still-more size done n (ground arith))
        (ground (
          arith,
          copy_out_lem n buffer ((r + 1) % buff_size) (done + 1) size,
          step_mod r (still size (done + 1) n),
        ))
]

-- `copy_in` writes behind the `k` bytes that are used.
copy_in_lem :
    (n : ℕ) (buf buffer : ℕ → ℕ) (r k i w done size : ℕ)
    → r < buff_size
    → n + k ≤ buff_size
    → w ≡ (r + k) % buff_size
    → let (b, w', d) = copy_in n buf buffer i w done size in
      let m = still size done n in
      (window b r (k + m) ≡ window buffer r k ++ bytes_of buf i m)
      × (w' ≡ (r + (k + m)) % buff_size)
      × (d ≡ done + m)
unfolding copy_in
copy_in_lem zero buf buffer r k i w done size b h e =
    rw (still-zero size done)
      (rw append-nil (ap (window buffer r) (omega arith)), omega arith, omega arith)
copy_in_lem (suc n) buf buffer r k i w done size b h e =
    let u = update buffer w (buf i) in
    let snoc : window u r (k + 1) ≡ window buffer r k ++ (buf i ∷ []) =
      ap (window u r) {y = suc k} (omega arith)
      ∙ window-snoc buffer (buf i) r k w b (omega arith) e in
    elim (Bool-cases (done + 1 == size)) [
      | inl f ↦ rw (f, still-last size done n (ground arith)) (snoc, omega arith, refl)
      | inr f ↦
          let m = still size (done + 1) n in
          let (x, y, z) =
            copy_in_lem n buf u r (k + 1) (i + 1) ((w + 1) % buff_size) (done + 1) size b
              (omega arith) (omega arith) in
          rw (f, still-more size done n (ground arith))
            (
              ap (window _ r) (omega arith)
                  ∙ x
                  ∙ ap (λ (l : List ℕ). l ++ bytes_of buf (i + 1) m) snoc
                  ∙ append_assoc (window buffer r k) (buf i ∷ []) (bytes_of buf (i + 1) m),
              y ∙ omega arith,
              z ∙ omega arith,
            )
    ]

-- On a valid ring buffer `take_bytes` takes the oldest bytes, in order: `size` of them, or all if
-- there are fewer, or if the size is 0. The rest stays, and the ring buffer is valid again.
pub take_bytes_lem :
    (size : ℕ) {p : Pipe}
    → IsValid p
    → let (bytes, n, p') = take_bytes size p in
      let m = moved size (length (contents p)) in
      (n ≡ m) × (bytes ≡ take m (contents p)) × (contents p' ≡ drop m (contents p)) × IsValid p'
unfolding take_bytes
take_bytes_lem size {p} v =
    let k = buff_size - p.available_space in
    let used : used_space p ≡ k = omega arith in
    let m = moved size k in
    let le : m ≤ k = ground arith in
    let c = copy_out_lem k p.buffer p.read_p 0 size v.read_in in
    let c' : copy_out (used_space p) p.buffer p.read_p 0 size
        ≡ (window p.buffer p.read_p m, (p.read_p + m) % buff_size, m) =
      ap (λ (x : ℕ). copy_out x p.buffer p.read_p 0 size) used ∙ rw (still-start, zero-add) at c in
    rw (c', length-window p.buffer p.read_p k)
      (
        refl,
        sym (take-window p.buffer p.read_p k m le),
        ap (window p.buffer ((p.read_p + m) % buff_size)) (omega arith)
            ∙ sym (drop-window p.buffer p.read_p k m v.read_in le),
        record { space = omega arith; read_in = omega arith; write_at = omega arith },
      )

-- On a valid ring buffer `put_bytes` appends the caller's first bytes: `size` of them, or as many
-- as there is space for if that is less, or if the size is 0. The ring buffer is valid again.
pub put_bytes_lem :
    (buf : ℕ → ℕ) (size : ℕ) {p : Pipe}
    → IsValid p
    → let (n, p') = put_bytes buf size p in
      let m = moved size p.available_space in
      (n ≡ m) × (contents p' ≡ contents p ++ bytes_of buf 0 m) × IsValid p'
unfolding put_bytes
put_bytes_lem buf size {p} v =
    let k = buff_size - p.available_space in
    let m = moved size p.available_space in
    let le : m ≤ p.available_space = ground arith in
    let (x, y, z) = rw still-start at (
      copy_in_lem p.available_space buf p.buffer p.read_p k 0 p.write_p 0 size v.read_in
        (omega arith) v.write_at) in
    (
      z ∙ omega arith,
      ap (window _ p.read_p) (omega (arith, z)) ∙ x,
      record { space = omega (arith, z); read_in = v.read_in; write_at = omega (arith, y, z) },
    )
