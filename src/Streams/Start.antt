-- ===== src/Streams/Start.antt =====
-- The tables after `initialize_files`.
use disasteros.Common.{ℕ, zero, suc, ◌+◌, ◌≡◌, ◌&&◌, none, arith, count, ltb, leb, if◌then◌else◌}
use disasteros.World.{World}
use disasteros.Streams.Table.{range_from, initialize_files, max_files}
use disasteros.Streams.Refs.{refs, refs-none, IsValid}

pub count-range_from :
    (n i f : ℕ) → count f (range_from n i) ≡ (if leb i f && ltb f (i + n) then 1 else 0)
unfolding range_from
count-range_from zero i f = ground arith
count-range_from (suc n) i f = ground (arith, count-range_from n (i + 1) f)

-- `initialize_files` makes the reference counts right, when no process has a file id yet and every
-- reference count is 0.
pub initialize_files-IsValid :
    (w : World)
    → ((p i : ℕ) → (w.pcb p).fidt i ≡ none)
    → ((f : ℕ) → (w.fcb f).refcount ≡ 0)
    → IsValid (initialize_files w)
unfolding initialize_files
initialize_files-IsValid w no_fids zeros =
    let nothing : (f : ℕ) → refs (initialize_files w) f ≡ 0 =
      refs-none (initialize_files w) no_fids in
    record {
      counted = λ f. ground (arith, nothing f, zeros f);
      unused = λ f. ground (arith, nothing f, count-range_from max_files 0 f);
      no_leak = λ f. ground (arith, count-range_from max_files 0 f);
    }
