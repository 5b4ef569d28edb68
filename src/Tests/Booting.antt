-- ===== src/Tests/Booting.antt =====
-- The boot of the kernel from cold memory.
use disasteros.Common.{ℕ, ◌+◌, ◌≡◌, refl, false, none}
use disasteros.Common.Int.{pos}
use disasteros.World.{World, returned, set_kernel}
use disasteros.Boot.{Blocks, boot_tinyos_kernel}
use disasteros.Boot.Calls.{Unlocked}
use disasteros.Boot.Start.{Cold, Booted, boot_lem}
use disasteros.Tests.Machine.{machine, kernel, world, cpu}
use disasteros.Tests.Pipes.{some_bytes}

abbrev cold : World
cold =
    set_kernel
      (record kernel {
        sched = record machine { live = λ t. false; current_thread = λ core. core };
      })
      (world some_bytes)

cold-Unlocked : Unlocked cold.kernel
cold-Unlocked = record { sem = refl; nobody = refl }

cold-Cold : Cold cold
cold-Cold = record {
  lock = cold-Unlocked;
  no_fids = λ p i. refl;
  no_refs = λ f. refl;
  no_threads = λ t. refl;
}

abbrev blocks : ℕ → Blocks
blocks n = record { ptcb = n; thread = n + 100; copy = n + 200 }

boot_example :
    (w' : World) × (boot_tinyos_kernel cpu 7 0 none (blocks 0) (blocks 1) cold
      ≡ returned (pos 1) w')
    × Booted 7 0 none 1 101 201 w'
boot_example = boot_lem cpu 7 0 none (blocks 0) (blocks 1) cold cold-Cold refl
