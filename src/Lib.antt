-- ===== src/Lib.antt =====
-- ZheOS, a bare-metal kernel for an emulated ARM64 machine, and what its parts are proved to do.
--
-- The kernel boots, reads what memory there is, keeps a map of it, and hands its pages out. On top
-- stand a heap, a table of four tasks with a round-robin scheduler, a console, and a monitor that
-- reads commands from it. It is built with `cargo build --release`, so arithmetic wraps; numbers
-- are natural numbers and each wrap is written out (`Common.Words`). Code that may panic returns
-- `Outcome`; an `Option` of the source is an `Option` here.
--
-- Which file models what (paths from the repository's root):
--   Common     tests on numbers, arrays as lists, machine words, panics, and the laws of `&` and `|`
--              (`Common.Bits`).
--   Ring       lib/ring_buffer.rs: the ring that interrupt handlers fill and tasks drain.
--              `Ring.Queue` is the abstract queue, `Ring.Refine` the refinement.
--   Mm.Pfn, Mm.Region, Mm.PageRange   mm/pfn.rs and mm/region.rs: page frame numbers, regions of
--              bytes, and the ranges of pages that they touch.
--   Mm.Gaps    mm/gaps.rs: the iterator over the free runs of an arena, as a function that collects
--              what the iterator yields. `Gaps.Cover`, `Gaps.Runs` and `Gaps.Bytes` go from one call
--              of the closure to the bytes of the taken regions.
--   Mm.Map     mm/map.rs: the memory map, `reserve` and `unreserved`, and alignment.
--   Mm.Entry, Mm.Pages   mm/pages.rs: the page table of the allocator. A word of the table stands
--              in a function from indices; `Pages.New` is the placement of the table in memory.
--   Mm.FreeLists   mm/frames/lists.rs: doubly linked lists of free blocks whose links stand in the
--              free pages themselves. Memory is a function from page frame numbers to two words.
--              `FreeLists.Lists` is the abstract view, eleven lists of pages, and `Refine`, `Unlink`
--              and `Blocks` say that the operations act on it.
--   Mm.Frames  mm/frames/mod.rs: the buddy allocator over the lists and the page table; the theorems so
--              far are about the blocks that `seed` cuts a run into (`Frames.Seed`).
--   Mm.Layout, Mm.Slab, Mm.Cache   mm/slab/mod.rs and mm/slab/cache.rs: size classes, a page cut into
--              slots, and for each class the list of the slabs with a free slot. The words that link
--              the free slots of a slab are a memory of their own beside that of the free lists: a
--              page is a slab or a free block, never both, and both write a word before they read it.
--              `Slab.Chain` and `Slab.Holds` say what a slab is as a list of its free slots.
--   Mm.Heap    mm/heap.rs: the heap over frames and cache. `Heap.Sizes` is about the choice of a size.
--   Kernel     kernel/task.rs, kernel/sched/mod.rs and kernel/sched/wait.rs, and the saved context
--              of arch/aarch64/context.rs. The lock is held through each operation, so an
--              operation is one step; a context switch is a value with the two slots. What the heap
--              answers for a stack is a parameter. `Kernel.Irq` is kernel/irq.rs, where what a handler
--              does is a parameter, and `Kernel.Time` the arithmetic of kernel/time.rs and the loop of
--              `rearm` of arch/aarch64/timer.rs over what the counter reads.
--   Tty        tty/input.rs and tty/console.rs: the ring of input bytes with its wait queue, where one
--              pass of the loop of `getc` is a step, and the line editor over the list of the bytes
--              that `getc` gives. `Console.Edit` is the edit of a text, `Console.Screen` what a
--              terminal shows of the bytes that are echoed.
--   Dtb        platform/dtb and platform/board.rs: the device tree and what is looked up in it. The
--              iterators are functions with fuel, and a search that runs out of it is told apart from one
--              that finds nothing (`Dtb.Search`); `Dtb.Within` to `Dtb.Discover` go
--              from a token to the whole of `Board::discover`.
--   Drivers    drivers/pl011.rs and drivers/gic.rs, with the writes of lib/mmio.rs. What registers read is
--              an argument, what is written to them a list.
--   Lock       lib/lock.rs: the spin lock as a step relation between states of any number of cores. A step
--              is one access of `locked`; a core that has the guard does not lock again before it drops it.
--   Mmu        arch/aarch64/mmu: levels, descriptors, the tables in memory (`Mmu.Table`, mmu/mod.rs), the
--              plan of mapped regions (`Mmu.Plan`, with `init` of mmu/mod.rs) and the registers
--              (`Mmu.Control`, mmu/init.rs). A table is the address of its page, its entries are words of
--              memory. What the heap answers to `alloc_layout` is a parameter with laws
--              (`Table.Ends.IsAllocator`): the pages it gives are new, and it keeps the words of those it
--              gave. `Table.Walk` has the walk of the hardware and the tree of tables, `Table.Grows` what an
--              operation keeps of it, and `Table.Slots` to `Table.Identity` and `Plan.Apart` to
--              `Plan.Apply` go from an entry to a plan; `Plan.Boot` to `Plan.Protected` are about
--              `init`. `Mm.Image` has the regions of the image, in the order of linker.ld.
--   Exception  arch/aarch64/exception.rs: the decoding of the syndrome, and the report of an exception
--              as a list of what is printed.
--   Zhemon     zhemon/cursor.rs, zhemon/parser.rs and zhemon/mod.rs: the monitor. Memory is a
--              function from addresses to bytes, the console a list of what was printed, and the
--              code that the command `R` calls a parameter. What `read_line` gives is an argument
--              of the type of `Tty.Console`.
--
-- Loops over arrays and lists are recursions on them. The others have fuel, with a theorem that it
-- is enough: the free runs of an arena with `n` taken regions take at most `n + 2` calls; the loop of
-- `parse_next` takes two rounds for each byte of the line and two more, since a round without a
-- command either moves on or leaves the mode that stores bytes; `validate` and `handle_line` take one
-- round for each byte and one more; `seed` one round for each page of a run and one more; the loops over nodes
-- and properties of the device tree eight rounds more than the block has bytes, of which each token takes
-- four; `map_range` one pass for each slot of a range and the passes of the two levels below, 1542 at
-- most. `blocks` has its fuel as an argument.
--
-- Lengths and addresses are bounded where the code could wrap: a line has fewer than 2 ^ 63 bytes, and
-- regions end below 2 ^ 64.
--
-- Not modelled: what the heap does when a dropped task gives its stack back, and that it can panic
-- there; the calls are a list, `freed` of `Kernel.Sched.Scheduler`. What an interrupt does behind its
-- handler is a list too.
-- Inline assembly, system registers, printing and the order of initialisation are left out for good.
pub mod Common
pub mod Ring
pub mod Mm
pub mod Zhemon
pub mod Kernel
pub mod Tty
pub mod Dtb
pub mod Drivers
pub mod Lock
pub mod Mmu
pub mod Exception
