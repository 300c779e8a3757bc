-- ===== src/Lib.antt =====
-- The kernel ArdaOS: its memory, its files and pipes, its input devices, its screen, its network,
-- and the system calls through which the programs use it.
--
-- The kernel hands out memory on four levels. A bitmap gives physical frames (src/memory.c,
-- pmm_alloc_block); a list of headers gives heap blocks (malloc, free); page tables let virtual
-- addresses lead to frames (src/task.c, map_vaddr_to_paddr, sys_sbrk); and two pointers that only
-- move up give whole pages. On the disk is a FAT16 volume, reached by sectors (src/disk.c,
-- ata_lba_read), through paths (fat16_find_entry) and through file descriptors (vfs_read), which
-- also lead to named pipes. The interrupts of the keyboard and the mouse fill a ring and move a
-- pointer, which the programs poll. The programs reach all of it through one interrupt, whose
-- router (src/idt.c, syscall_handler_main) calls the services of the other parts; a page that the
-- kernel and the window manager share holds the windows with their shapes, buttons and events.
--
-- Files of this library, and the code that they model:
--   Base      shared helpers: tests on numbers, lists, and the bits of a word
--   Text      src/string.c: strlen, strcmp, strncmp, strcpy, strcat, atoi, itoa
--   Pipe      src/disk.c: pipe_t, and the parts of vfs_open, vfs_read and vfs_write for pipes
--   Heap      src/memory.c: init_heap, malloc, free
--   Frames    src/memory.c: the bitmap, pmm_alloc_block, pmm_free_block
--   Disk      src/disk.c: ata_lba_read, ata_lba_write, init_disk, cluster_to_lba
--   Fat       src/disk.c: parse_path_node, fat16_find_entry
--   Files     src/disk.c: ardaos_read_file, ardaos_write_file, ardaos_delete_file, ardaos_list_files,
--             fat16_get_parent_dir, ardaos_create_dir
--   Vfs       src/disk.c: vfs_read on a disk file
--   Paging    src/task.c and src/memory.c: map_vaddr_to_paddr, map_shared_library, sys_sbrk,
--             alloc_page_aligned, alloc_user_page
--   Keyboard  src/keyboard.c: keyboard_handler_main, get_keyboard_char
--   Mouse     src/mouse.c: mouse_handler_main
--   Tasks     src/task.c and src/timer.c: timer_handler_main, wake_task_by_id, and where create_task
--             puts a task
--   Descriptors  src/gdt.c and src/idt.c: gdt_set_gate, idt_set_gate
--   Graphics  src/graphics.c: clipping, the changed region, pixels, rectangles, text and pointer, with
--             src/font.h and src/cursor.h
--   Network   src/rtl8139.c: sockets, the frames that are sent, and rtl8139_handler_main
--   Gui       sdk/ardaos.h, src/kernel.c and src/idt.c: the shared windows and the services on them,
--             the terminal's lines, and from sdk/wm.c the release of the mouse
--   Abi       src/idt.c and sdk/ardaos.h: syscall_handler_main, and the wrappers of the programs
--   Tests     runs on concrete inputs
-- A state is a record of the C variables; a function takes the state and returns the new one with
-- its result. Each component's own file has the definitions, and the modules below it the proofs.
--
-- Numbers. A word of 32 bits is a natural number with its wrap-around written out, wherever the
-- code can reach it. Chars and bytes are numbers below 256. An int that may be negative is its word
-- in Text and in sys_sbrk. A C object in Text is the list of its bytes, and an access behind its
-- end is `none`.
--
-- Loops are recursion on what shrinks: the bytes left, the rounds left, the list. Some have fuel.
-- The search of malloc and the loop of free get one round more than there are headers in four
-- megabytes; the loop of fat16_find_entry gets one round more than the path has bytes, since every
-- node takes a byte; the loop of vfs_read gets one round more than the bytes wanted, since every
-- round brings a byte. The loops over the circle of tasks take their fuel as an argument, a round
-- for each task. Reading a file gets one round more than it has sectors, the search for a folder's
-- parent one more than the path has bytes, and freeing a chain two more than the table and the memory
-- given behind it have words, which are enough. The fold of a checksum gets four rounds, which are enough for a sum of 32
-- bits, and the search for the end of a text the bound of its loop, or 65536 characters for the
-- terminal, whose loop has none. The theorems say that the calls return.
--
-- Parameters. The disk is a function from a sector and an offset to a byte; a transfer concerns the
-- sector that the six register writes select, by 28 bits, as the device documents it. Memory before
-- the boot is a function from an address. The words behind the table of a freed chain are a list. The router's calls of other parts (drivers, files, heap, tasks)
-- are an argument, a function from the service and the state to the result and the state. The
-- waiting loops on status ports are left out, with the messages on the screen.
--
-- The shared page. The windows are a record, and the memory of the programs a function; in the machine
-- the page lies in that memory, at 0xE00000. A service stores through a pointer without a test, so
-- the model keeps a log of these stores: the record is the page as long as no store of the log
-- touches it, and Abi/Shared has the calls for which none does.
--
-- Not modelled: starting and killing tasks (src/task.c), the switch between tasks (src/boot.asm),
-- the task state segment (src/gdt.c), the fault handler and the table of init_idt (src/idt.c), the
-- set-up of the network card and of the other devices, which is port output, the lines of the
-- network's log, the table of descriptors in vfs_open (src/disk.c), PCI and sound, the keyboard's
-- loop and the start-up code (src/kernel.c), and the programs (sdk/) but for the release of the
-- mouse.
pub mod Base
pub mod Text
pub mod Pipe
pub mod Heap
pub mod Frames
pub mod Disk
pub mod Fat
pub mod Files
pub mod Keyboard
pub mod Mouse
pub mod Vfs
pub mod Paging
pub mod Tasks
pub mod Descriptors
pub mod Graphics
pub mod Network
pub mod Gui
pub mod Abi
pub mod Tests
