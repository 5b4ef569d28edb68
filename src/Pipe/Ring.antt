-- ===== src/Pipe/Ring.antt =====
-- The ring buffer that `pipe_read` and `pipe_write` work on, without the condition variables.
use disasteros.Common.{
  ℕ, zero, suc, ◌+◌, ◌-◌, ◌%◌, ◌^◌, Bool, ◌&&◌, List, [], ◌∷◌, ◌==◌, if◌then◌else◌, update,
}
use disasteros.World.{Pipe}

-- BUFF_SIZE, Kilobytes(16). It divides 2^32, so a remainder by it is the same whether or not a sum of
-- uint32_t wraps.
abbrev pub buff_size : ℕ
buff_size = 16384

abbrev pub u32_mod : ℕ
u32_mod = 2 ^ 32

-- `BUFF_SIZE - pipe->available_space`, a subtraction of uint32_t.
abbrev pub used_space : Pipe → ℕ
used_space p = (u32_mod + buff_size - p.available_space) % u32_mod

-- The tests of the two waiting loops.
abbrev pub is_drained : Pipe → Bool
is_drained p = p.read_p == p.write_p && p.available_space == buff_size

abbrev pub is_full : Pipe → Bool
is_full p = p.read_p == p.write_p && p.available_space == 0

-- The loop of `pipe_read`, with `n` rounds left: the bytes that go to `buf`, in order, and the final
-- `read_p` and `bytes_read`.
unfoldable pub copy_out : (n : ℕ) → (buffer : ℕ → ℕ) → (read_p bytes_read size : ℕ) → List ℕ × ℕ × ℕ
copy_out zero buffer read_p bytes_read size = ([], read_p, bytes_read)
copy_out (suc n) buffer read_p bytes_read size =
    let rest = copy_out n buffer ((read_p + 1) % buff_size) (bytes_read + 1) size in
    if bytes_read + 1 == size
    then (buffer read_p ∷ [], (read_p + 1) % buff_size, bytes_read + 1)
    else (buffer read_p ∷ rest.0, rest.1, rest.2)

-- The loop of `pipe_write`, over the bytes from `buf[i]` on: the buffer, `write_p` and
-- `bytes_writen`. `buf` is a function of the index, since the loop may read past the caller's bytes.
unfoldable pub copy_in :
    (n : ℕ) → (buf buffer : ℕ → ℕ) → (i write_p bytes_writen size : ℕ) → (ℕ → ℕ) × ℕ × ℕ
copy_in zero buf buffer i write_p bytes_writen size = (buffer, write_p, bytes_writen)
copy_in (suc n) buf buffer i write_p bytes_writen size =
    let rest =
      copy_in n buf (update buffer write_p (buf i)) (i + 1) ((write_p + 1) % buff_size)
        (bytes_writen + 1) size in
    if bytes_writen + 1 == size
    then (update buffer write_p (buf i), (write_p + 1) % buff_size, bytes_writen + 1)
    else rest

-- "Update everyone" in `pipe_read`, and its counterpart in `pipe_write`.
unfoldable pub take_bytes : (size : ℕ) → Pipe → List ℕ × ℕ × Pipe
take_bytes size p =
    let (bytes, read_p, bytes_read) = copy_out (used_space p) p.buffer p.read_p 0 size in
    (
      bytes,
      bytes_read,
      record p { read_p = read_p; available_space = (p.available_space + bytes_read) % u32_mod },
    )

unfoldable pub put_bytes : (buf : ℕ → ℕ) → (size : ℕ) → Pipe → ℕ × Pipe
put_bytes buf size p =
    let (buffer, write_p, bytes_writen) =
      copy_in p.available_space buf p.buffer 0 p.write_p 0 size in
    (
      bytes_writen,
      record p {
        buffer = buffer;
        write_p = write_p;
        available_space = (p.available_space + u32_mod - bytes_writen) % u32_mod;
      },
    )
