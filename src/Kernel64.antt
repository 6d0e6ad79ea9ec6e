-- ===== src/Kernel64.antt =====
-- core/kernel64/main.c: how the 64-bit kernel starts its parts, one after the other. The parts have
-- their own memory here, since the regions are apart. The instructions that load the tables into the
-- processor are assembly. What the interrupts do while the file system starts is a parameter.
use ghittle.Base.{ℕ, ◌*◌, ◌/◌, Bool, true, false, Option, none, some, List, [], ◌++◌, if◌then◌else◌}
use ghittle.Base.Text.{codes}
use ghittle.Mem.{Mem}
use ghittle.Bitmap.{Bitmap}
use ghittle.Console.{Console, init_console}
use ghittle.Console.Print.{printk}
use ghittle.Desc.{init_gdt_tss, init_idt}
use ghittle.Sched.{Kernel, init_scheduler}
use ghittle.Timer.{Writes, init_pit, init_pic, mask_pic}
use ghittle.Keyboard.{Keyboard}
use ghittle.Keyboard.Controller.{init_keyboard}
use ghittle.Kmem.{Kmem, init_kmem, init_page_pool}
use ghittle.Drive.{Drive}
use ghittle.Fs.{Fs}
use ghittle.Fs.Mount.{init_filesys}

-- `tables` is the memory of the descriptor tables, `ports` what is written to the timer and the
-- interrupt controllers, `mem` the memory of the allocators, and `boot_flag` is PBOOT_FLAG.
pub record System (S : Type 0) : Type 0 where
  pub console : Console
  pub tables : Mem
  pub kernel : Kernel
  pub keyboard : Keyboard
  pub ports : Writes
  pub fs : Fs S
  pub boot_flag : ℕ
  pub page_pool : Bitmap
  pub kmem : Kmem
  pub mem : Mem

-- What the linker and the assembler give: the service routines, and the addresses of the static
-- data. `fuel` is that of `change_led`.
pub record Layout : Type 0 where
  pub isr : List ℕ
  pub readylist : ℕ
  pub waitlist : ℕ
  pub key_buffer : ℕ
  pub page_map : ℕ
  pub kmem_map : ℕ
  pub shard_map : ℕ
  pub fuel : ℕ

-- PIT_FREQUENCY * x / 1000
abbrev pub ms_to_count : ℕ → ℕ
ms_to_count x = 1193182 * x / 1000

infixl 5 ◌>>=◌
abbrev pub ◌>>=◌ : {A B : Type 0} → Option A → (A → Option B) → Option B
◌>>=◌ m f = elim m [ none ↦ none | some a ↦ f a ]

abbrev pub say : {S : Type 0} → List ℕ → System S → Option (System S)
say text k = elim (printk k.console text []) [
  | none ↦ none
  | some console ↦ some (record k { console = console })
]

module _ (d : Drive) (l : Layout) (start : Drive.State d → Bool × Drive.State d) where
  open d use {State}

  -- The part that cannot fail: the console, the tables, the scheduler and the timer.
  unfoldable pub start_tables : System State → Option (System State)
  start_tables k = do
    k1 ← say (codes "Console initialized\n") (record k { console = init_console k.console 0 10 })
    k2 ← say (codes "Initializing GDT...\n") k1
    k3 ← say (codes "Loading TSS segment...\n") (record k2 { tables = init_gdt_tss k2.tables })
    k4 ← say (codes "Initializing IDT...\n") k3
    k5 ←
        say (codes "Initializing taskpool & scheduler\n")
          (record k4 { tables = init_idt l.isr k4.tables })
    some (record k5 {
      kernel = init_scheduler k5.kernel l.readylist l.waitlist;
      ports = k5.ports ++ init_pit (ms_to_count 1) true;
    })

  -- The keyboard and the interrupt controllers. `init_keyboard` gives 0 or 1, so that the test for
  -- less than 0 never holds.
  unfoldable pub start_devices : System State → Option (System State)
  start_devices k = do
    let (res, keyboard) = init_keyboard l.fuel l.key_buffer k.keyboard
    k1 ← say (codes "Initializing PIC...\n") (record k { keyboard = keyboard })
    some (record k1 {
      ports = k1.ports ++ init_pic ++ mask_pic 0;
      kernel = record (k1.kernel) { interrupt = true };
    })

  -- The flag and the allocators.
  unfoldable pub start_memory : System State → System State
  start_memory k =
      let (pool, m) = init_page_pool k.mem l.page_map in
      record k {
        boot_flag = 1;
        page_pool = pool;
        kmem = init_kmem m l.kmem_map l.shard_map;
        mem = m;
      }

  -- `main` up to `task_test`, for which the truth value stands, or to the endless loop behind the
  -- message. `start` is `init_hdd` of the drive. `interrupted` is what the interrupts, which are
  -- enabled from there on, do to the system until the file system has started; none is a wait that
  -- they never end.
  unfoldable pub main :
      (System State → Option (System State)) → System State → Option (Bool × System State)
  unfolding start_tables start_devices start_memory
  main interrupted k = do
    k1 ← start_tables k
    k2 ← start_devices k1
    (done, fs) ← init_filesys d start k2.fs
    k3 ← interrupted (record k2 { fs = fs })
    if done
        then some (true, start_memory k3)
        else (do k4 ← say (codes "PANIC\n") k3; some (false, k4))
