-- ===== src/Pipe/Window.antt =====
-- A stretch of the ring buffer, read round its end.
use disasteros.Common.{
  ℕ, zero, suc, ◌+◌, ◌-◌, ◌%◌, ◌≤◌, ◌<◌, ◌≡◌, refl, ap, ap₂, ◌∙◌, List, [], ◌∷◌, ◌++◌, arith,
  length, take, drop, update, update_ne,
}
use disasteros.Pipe.Ring.{buff_size}

-- The `n` bytes from index `r` on.
abbrev pub window : (ℕ → ℕ) → (r n : ℕ) → List ℕ
window buffer r zero = []
window buffer r (suc n) = buffer r ∷ window buffer ((r + 1) % buff_size) n

-- The first `n` bytes of a caller's buffer, from index `i` on.
abbrev pub bytes_of : (ℕ → ℕ) → (i n : ℕ) → List ℕ
bytes_of buf i zero = []
bytes_of buf i (suc n) = buf i ∷ bytes_of buf (i + 1) n

pub length-bytes_of : (buf : ℕ → ℕ) (i n : ℕ) → length (bytes_of buf i n) ≡ n
length-bytes_of buf i zero = refl
length-bytes_of buf i (suc n) = ap suc (length-bytes_of buf (i + 1) n)

pub length-window : (buffer : ℕ → ℕ) (r n : ℕ) → length (window buffer r n) ≡ n
length-window buffer r zero = refl
length-window buffer r (suc n) = ap suc (length-window buffer ((r + 1) % buff_size) n)

pub step_mod : (r n : ℕ) → ((r + 1) % buff_size + n) % buff_size ≡ (r + suc n) % buff_size
step_mod r n = omega arith

pub take-window :
    (buffer : ℕ → ℕ) (r n m : ℕ) → m ≤ n → take m (window buffer r n) ≡ window buffer r m
take-window buffer r n zero h = refl
take-window buffer r zero (suc m) h = absurd (omega arith)
take-window buffer r (suc n) (suc m) h =
    ap (◌∷◌ (buffer r)) (take-window buffer ((r + 1) % buff_size) n m (omega arith))

pub drop-window :
    (buffer : ℕ → ℕ) (r n m : ℕ)
    → r < buff_size
    → m ≤ n
    → drop m (window buffer r n) ≡ window buffer ((r + m) % buff_size) (n - m)
drop-window buffer r n zero b h = ap₂ (λ (k l : ℕ). window buffer k l) (omega arith) (omega arith)
drop-window buffer r zero (suc m) b h = absurd (omega arith)
drop-window buffer r (suc n) (suc m) b h =
    drop-window buffer ((r + 1) % buff_size) n m (omega arith) (omega arith)
    ∙ ap₂ (λ (k l : ℕ). window buffer k l) (step_mod r m) (omega arith)

-- A byte written at the end of a window that does not fill the buffer extends it.
pub window-snoc :
    (buffer : ℕ → ℕ) (v r n w : ℕ)
    → r < buff_size
    → n < buff_size
    → w ≡ (r + n) % buff_size
    → window (update buffer w v) r (suc n) ≡ window buffer r n ++ v ∷ []
window-snoc buffer v r zero w b h e = ap (λ (x : ℕ). x ∷ []) (ground arith)
window-snoc buffer v r (suc n) w b h e =
    ap₂ ◌∷◌ (update_ne buffer w r v (omega arith))
      (window-snoc buffer v ((r + 1) % buff_size) n w (omega arith) (omega arith) (omega arith))
