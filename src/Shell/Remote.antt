-- ===== src/Shell/Remote.antt =====
-- tinyos_shell.c: the request that RemoteClient sends and the thread of the server receives.
use disasteros.Common.{
  ℕ, zero, suc, ◌+◌, ◌-◌, ◌*◌, ◌/◌, ◌%◌, Bool, false, ◌&&◌, List, [], ◌∷◌, ◌++◌, ltb, leb, ◌==◌,
  if◌then◌else◌, length, drop,
}

-- The ends of a connection: `Read` of at most a number of bytes, where an error or the end of the
-- stream is no bytes, and `Write` with its result, where an error is 0.
pub record Channel (R W : Type 0) : Type 0 where
  pub read : (size : ℕ) → R → List ℕ × R
  pub write : List ℕ → W → ℕ × W

-- The bytes of an `int`, the lowest first.
abbrev pub int_bytes : ℕ → List ℕ
int_bytes n = n % 256 ∷ n / 256 % 256 ∷ n / 65536 % 256 ∷ n / 16777216 % 256 ∷ []

abbrev pub int_of : List ℕ → ℕ
int_of [] = 0
int_of (b ∷ bs) = b + 256 * int_of bs

-- What the server has of a client: it ended in the middle of a message, it made an assert fail, or
-- its argument vector came.
pub data Received : Type 0 where
  broken asserted : Received
  request : (args : List ℕ) → Received

module _ {R W : Type 0} (io : Channel R W) where
  -- The loop of `recv_message`, with what it has so far, on fuel.
  unfoldable pub recv_loop : (fuel len : ℕ) (got : List ℕ) → R → List ℕ × R
  recv_loop zero len got r = (got, r)
  recv_loop (suc fuel) len got r =
      let (bs, r') = io.read (len - length got) r in
      let rest = recv_loop fuel len (got ++ bs) r' in
      if ltb (length got) len then (if length bs == 0 then (got, r') else rest) else (got, r)

  -- `recv_message`, with what is in the buffer.
  unfoldable pub recv_message : (len : ℕ) → R → Bool × List ℕ × R
  recv_message len r = let (got, r') = recv_loop len len [] r in (length got == len, got, r')

  -- The loop of `send_message`, on fuel.
  unfoldable pub send_loop : (fuel : ℕ) → (buf : List ℕ) → (count : ℕ) → W → ℕ × W
  send_loop zero buf count w = (count, w)
  send_loop (suc fuel) buf count w =
      let (rc, w') = io.write (drop count buf) w in
      let rest = send_loop fuel buf (count + rc) w' in
      if ltb count (length buf) then (if rc == 0 then (count, w') else rest) else (count, w)

  -- `send_message`; `false` is `Exit(1)`.
  unfoldable pub send_message : List ℕ → W → Bool × W
  send_message buf w = let (count, w') = send_loop (length buf) buf 0 w in (count == length buf, w')

  -- What `RemoteClient` sends for an argument vector as argvpack makes it.
  unfoldable pub send_args : (args : List ℕ) → W → Bool × W
  send_args args w =
      let (ok, w₁) = send_message (int_bytes (length args)) w in
      if ok then send_message args w₁ else (false, w₁)

  -- The rest of a request, behind its length. A negative `argl` is more than 2048 here.
  unfoldable pub receive_args : (argl : ℕ) → R → Received × R
  receive_args argl r =
      let (ok, args, r') = recv_message argl r in
      if ltb 0 argl && leb argl 2048
      then (if ok then (request args, r') else (broken, r'))
      else (asserted, r)

  -- What `rsrv_client` receives before it starts a process.
  unfoldable pub receive_request : R → Received × R
  receive_request r =
      let (ok, bs, r₁) = recv_message 4 r in
      if ok then receive_args (int_of bs) r₁ else (broken, r₁)
