-- ===== src/Lib.antt =====
-- The GSP bring-up code of RTXmacOC (driver/gsp), a driver core in portable C that the Linux
-- tools and the macOS drivers share, as executable definitions with proofs. To start the card,
-- the driver finds the FWSEC image in the VBIOS and patches it, parses the firmware files, lays
-- out the protected memory, fills the tables and the message queues that the GSP reads, and
-- resets, loads and starts the Falcon processors. A client then works with the allocator of video
-- memory, the page tables through which the GPU sees that memory, the arena of memory shared with
-- the CPU, and the plan that cuts the free video memory into the parts it needs. A caller takes a
-- physical range from the allocator's pool and maps it by the tables; tables and pool stand in
-- the same video memory, and the tables are written through a window of 1 MiB in the card's
-- registers.
--
-- Vram models driver/gsp/vram.c and vram.h. Vram/Defs has nv_vram_find_range and its loops,
-- Vram/Pool the pool and nv_vram_pool_init, nv_vram_alloc, nv_vram_free and nv_vram_resolve, each
-- as a function from the pool to the pool after the call or an error code. Vram/AlignUp,
-- FirstFit, Search, Places, Find and Offset describe the search, Vram/Invariant what a pool
-- keeps, Vram/Alloc, Taken, Request, Resolve, Safety, Free and History the calls.
--
-- Gmmu models driver/gsp/gmmu.c and gmmu.h. Gmmu/Pramin is the window with its cached base,
-- Gmmu/Entry the encoding of entries, Gmmu/Branch the tables of one branch (nv_gmmu_build_1page,
-- nv_gmmu_map_range, nv_gmmu_read_pte), Gmmu/Range the tables of a longer range
-- (nv_gmmu_range_plan, nv_gmmu_range_build). Gmmu/Window states what the hardware promises of the
-- window, Gmmu/Walk how the hardware reads the tables; Writes, Content, Chain, Mapped, Leaves,
-- Translate and Plan hold the proofs.
--
-- DmaArena models driver/gsp/nv_dma.h and FbLayout driver/gsp/fb_layout.c, each with its
-- definitions in Defs. GspMemory models driver/gsp/gsp_memory.c, which calls the search of Vram
-- and the plan of Gmmu; Layout, Regions and Plan hold the proofs.
--
-- Booter models driver/gsp/booter.c and Elf models driver/gsp/elf64.c, two parsers, and Fwsec
-- driver/gsp/fwsec_patch.c, the patches of the FWSEC image, and FwsecLocate
-- driver/gsp/fwsec_locate.c, the search for it in the VBIOS, over the checked buffers of Bytes: a
-- read or write outside the buffer is a fault, a value of its own beside the error codes. A
-- parser is given the length of its buffer, and after an error nothing is said of its outputs.
-- Falcon models driver/gsp/falcon.c: Falcon/Run has the register sequences that may stop with a
-- code and the polling loop they share, Falcon/Defs and Load the functions, Poll, Ends, Writes
-- and Fuses the proofs.
--
-- GspRpc models driver/gsp/gsp_rpc.c: the shared memory with its two queues and the commands in
-- them; Checksum, Message and Shared hold the proofs.
--
-- GspFw models driver/gsp/gsp_fw.c: the sections of the firmware image, which Elf finds, the boot
-- loader's container, the regions of WPR2, the radix tables through which the GSP reads the
-- image, and the arguments of libos. GspFw/Parse, Layout and Radix hold the proofs.
--
-- GspRm models driver/gsp/gsp_rm.c: GspRm/Channel has nv_gsp_rpc_call, which writes a command by
-- GspRpc and waits for the answer, Object the calls that allocate an object or send it a command,
-- Memory those about memory. The GSP is a parameter: it works on the shared memory while the
-- doorbell and the delay callbacks run, and not between them. Reply, Queue, Call, Send, Request,
-- Answer and Pages hold the proofs.
--
-- GspFifo models driver/gsp/gsp_fifo.c: Pushbuffer the words for the engines and the ring,
-- Channel and Devices the calls by GspRm. Methods states how the hardware reads a pushbuffer.
-- GspExec models driver/gsp/gsp_exec.c, a copy made by the GPU: the words go through the window
-- of Gmmu to VRAM; Queue and Command say what the GPU finds there, Wait what the caller learns.
--
-- GspDisp models the second half of driver/gsp/gsp_disp.c: Timing the parser of an EDID's first
-- timing, Methods and Window the streams of methods for a mode and for a window, Raster how the
-- hardware reads them and what it gets; Edid writes the EDID that the parser reads, Ramht reads
-- the entries of the table of handles.
--
-- Mmio is nv_mmio_t of driver/gsp/falcon.h: the platform's register access is a parameter. Base
-- has the machine words, the bit operations, lists, outcomes and the counted loop.
--
-- Numbers are natural numbers with the wrap of uint32_t and uint64_t written out. The search for
-- a gap runs on fuel: one round more than the candidates up to the end of the range, since each
-- round moves the candidate up. A polling loop runs on the timeout divided by its step, and two
-- rounds more: the wait grows by the step in each round. The loop over the status queue runs on
-- the number of its slots and one round more, which is enough when messages lead to the write
-- pointer; the subtraction that wraps a pointer on the pointer and one round more. The hash of a
-- handle of 32 bits runs on five rounds, one more than the handle has digits of ten bits. Other
-- loops count or follow a list. The pool has its 128 slots as a list. Pointers are given, never
-- null; a call that refuses its arguments leaves the state as it was. nv_pramin_fill is modelled
-- for lengths whose 32-bit counter does not wrap. The calls of gsp_rm.c and gsp_fifo.c other than
-- the ones named below, nv_gsp_gpu_pool_test, the methods and the descriptor of GspDisp/Window,
-- nv_gmmu_range_build, the parser of the FWSEC descriptor, the meta data, the arguments of libos,
-- the array of page entries, and the builders of rmargs, system information and registry are
-- definitions without theorems here. The parsers of container files take the image below 4 GiB
-- where 32-bit sums need it.
--
-- Not modelled: the other parts of driver/gsp (the queries of GR contexts and interrupts, the
-- display's RM calls, the bring-up sequence), the macOS drivers, the tools and the logging.
pub mod Base
pub mod Booter
pub mod Bytes
pub mod DmaArena
pub mod Elf
pub mod Falcon
pub mod FbLayout
pub mod Fwsec
pub mod FwsecLocate
pub mod Gmmu
pub mod GspDisp
pub mod GspExec
pub mod GspFifo
pub mod GspFw
pub mod GspMemory
pub mod GspRm
pub mod GspRpc
pub mod Mmio
pub mod Vram
