-- ===== src/Tests/Files.antt =====
-- The FCB table and the file ids on the small machine.
use disasteros.Common.{◌≡◌, ◌<◌, refl, none, some, arith}
use disasteros.Common.Int.{pos}
use disasteros.World.{World, nulldev_fops, returned, curproc, max_proc}
use disasteros.Streams.Table.{
  initialize_files, range_from, acquire_fcb, acquire_all, next_free, find_fids, install,
  fcb_reserve, fcb_incref, drop_ref, release_fcb, set_fidt, get_fcb,
}
use disasteros.Devices.{dev_null, device_open, device_no, dev_fops}
use disasteros.Streams.Open.{finish_open, open_device, open_stream}
use disasteros.Streams.Calls.{attach, close_stream, fcb_decref, sys_close, sys_dup2}
use disasteros.Streams.Refs.{IsValid}
use disasteros.Streams.Start.{initialize_files-IsValid}
use disasteros.Streams.Reserve.{Reserved, fcb_reserve_lem}
use disasteros.Streams.Closing.{sys_close-IsValid}
use disasteros.Streams.Duplicate.{sys_dup2-IsValid}
use disasteros.Tests.Machine.{world, cpu}
use disasteros.Tests.Pipes.{some_bytes}

abbrev fresh : World
fresh = initialize_files (world some_bytes)

fresh-IsValid : IsValid fresh
fresh-IsValid = initialize_files-IsValid (world some_bytes) (λ p i. refl) (λ f. refl)

fcb_reserve_example : IsValid (fcb_reserve 1 2 fresh).1 × Reserved 1 2 fresh (fcb_reserve 1 2 fresh)
fcb_reserve_example = fcb_reserve_lem 1 2 fresh-IsValid (omega arith)

-- The process 1 with two file ids.
abbrev pub opened : World
opened = (fcb_reserve 1 2 fresh).1

pub opened-IsValid : IsValid opened
opened-IsValid = (fcb_reserve_lem 1 2 fresh-IsValid (omega arith)).0

abbrev closed : World
closed = release_fcb 0 (drop_ref 0 (set_fidt 1 0 none opened))

opened-curproc : curproc cpu opened ≡ 1
unfolding fcb_reserve acquire_all acquire_fcb install fcb_incref initialize_files range_from
    find_fids next_free
opened-curproc = refl

close_test : sys_close cpu (pos 0) opened ≡ returned (pos 0) closed
unfolding sys_close get_fcb fcb_decref close_stream fcb_reserve acquire_all acquire_fcb install
    fcb_incref initialize_files range_from find_fids next_free drop_ref
close_test = refl

pub curproc_small : curproc cpu opened < max_proc
curproc_small = omega (arith, opened-curproc)

sys_close-IsValid_example : IsValid closed
sys_close-IsValid_example = sys_close-IsValid cpu opened-IsValid curproc_small (pos 0) close_test

abbrev doubled : World
doubled = set_fidt 1 1 (some 0) (fcb_incref 0 (release_fcb 1 (drop_ref 1 opened)))

dup2_test : sys_dup2 cpu (pos 0) (pos 1) opened ≡ returned (pos 0) doubled
unfolding sys_dup2 get_fcb fcb_decref close_stream fcb_reserve acquire_all acquire_fcb install
    fcb_incref initialize_files range_from find_fids next_free drop_ref
dup2_test = refl

sys_dup2-IsValid_example : IsValid doubled
sys_dup2-IsValid_example =
    sys_dup2-IsValid cpu opened-IsValid curproc_small (pos 0) (pos 1) dup2_test

abbrev null_opened : World
null_opened = attach 0 0 nulldev_fops (fcb_reserve 1 1 fresh).1

open_test : open_stream cpu dev_null 0 fresh ≡ returned (pos 0) null_opened
unfolding open_stream open_device finish_open device_open device_no dev_fops fcb_reserve acquire_all
    acquire_fcb install fcb_incref initialize_files range_from find_fids next_free
open_test = refl

fresh-curproc : curproc cpu fresh < max_proc
unfolding initialize_files range_from
fresh-curproc = omega arith
