-- ===== src/Shell/Messages.antt =====
-- tinyos_shell.c: the messages of the remote client and server, whatever Read and Write give.
use disasteros.Common.{
  ℕ, zero, suc, ◌+◌, ◌-◌, ◌≡◌, ◌<◌, ◌≤◌, refl, ap, false, List, [], ◌++◌, ltb, ◌==◌, if◌then◌else◌,
  drop, length, length-append, arith, Bool-cases, inl, inr,
}
use disasteros.Shell.Remote.{Channel, Received, broken, asserted, request, recv_loop, send_loop}

-- A request that the server goes on with is as long as was announced, and that is neither nothing nor
-- more than 2048 bytes.
abbrev pub Fits : (announced : ℕ) → Received → Type 0
Fits announced broken = Unit
Fits announced asserted = Unit
Fits announced (request args) = (length args ≡ announced) × (0 < announced) × (announced ≤ 2048)

module _ {R W : Type 0} (io : Channel R W) where
  recv_fuel :
      (f g len : ℕ) (got : List ℕ) (r : R)
      → len ≤ f + length got
      → len ≤ g + length got
      → recv_loop io f len got r ≡ recv_loop io g len got r
  unfolding recv_loop
  recv_fuel zero zero len got r a b = refl
  recv_fuel zero (suc g) len got r a b =
      let e : ltb (length got) len ≡ false = ground (arith, a) in rw e refl
  recv_fuel (suc f) zero len got r a b =
      let e : ltb (length got) len ≡ false = ground (arith, b) in rw e refl
  recv_fuel (suc f) (suc g) len got r a b =
      let bs = (io.read (len - length got) r).0 in
      let r' = (io.read (len - length got) r).1 in
      elim (Bool-cases (length bs == 0)) [
        | inl z ↦ rw z refl
        | inr z ↦
            let size = length-append got bs in
            let more : 0 < length bs = ground (arith, z) in
            rw z (
              ap (λ x. if ltb (length got) len then x else (got, r))
                (recv_fuel f g len (got ++ bs) r' (omega (arith, a, size, more))
                  (omega (arith, b, size, more))))
      ]

  send_fuel :
      (f g : ℕ) (buf : List ℕ) (count : ℕ) (w : W)
      → length buf ≤ f + count
      → length buf ≤ g + count
      → send_loop io f buf count w ≡ send_loop io g buf count w
  unfolding send_loop
  send_fuel zero zero buf count w a b = refl
  send_fuel zero (suc g) buf count w a b =
      let e : ltb count (length buf) ≡ false = ground (arith, a) in rw e refl
  send_fuel (suc f) zero buf count w a b =
      let e : ltb count (length buf) ≡ false = ground (arith, b) in rw e refl
  send_fuel (suc f) (suc g) buf count w a b =
      let rc = (io.write (drop count buf) w).0 in
      let w' = (io.write (drop count buf) w).1 in
      elim (Bool-cases (rc == 0)) [
        | inl z ↦ rw z refl
        | inr z ↦
            let more : 0 < rc = ground (arith, z) in
            rw z (
              ap (λ x. if ltb count (length buf) then x else (count, w))
                (send_fuel f g buf (count + rc) w' (omega (arith, a, more))
                  (omega (arith, b, more))))
      ]

  -- Whatever `Read` and `Write` give, the loops of `recv_message` and `send_message` end after as many
  -- rounds as there are bytes in the message: with more rounds allowed, they come to the same.
  pub message_loops_lem :
      (len n : ℕ) (r : R) (buf : List ℕ) (w : W)
      → (recv_loop io (len + n) len [] r ≡ recv_loop io len len [] r)
        × (send_loop io (length buf + n) buf 0 w ≡ send_loop io (length buf) buf 0 w)
  message_loops_lem len n r buf w = (
    recv_fuel (len + n) len len [] r (omega arith) (omega arith),
    send_fuel (length buf + n) (length buf) buf 0 w (omega arith) (omega arith),
  )
