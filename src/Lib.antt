-- ===== src/Lib.antt =====
-- GitSTY1: the programming labs of an operating-systems course, in C.
--
-- Each lab is a program of its own; the labs share no code. The modules follow the folders.
--
-- Base: names that all modules share, lists and text over native numbers, bit fields.
--
-- Shlab, the shell of shlab/tsh.c:
--   Jobs: the job list (`clearjob`, `initjobs`, `maxjid`, `addjob`, `deletejob`, `fgpid`, `getjobpid`,
--     `getjobjid`, `pid2jid`, `listjobs`) on a `Shell` of the globals `jobs`, `nextjid`, `verbose` and
--     the output. An entry with pid 0 is free.
--   Parse: `parseline` on the text of a line. `argv` is a list; a store behind its end is an outcome.
--     The fuel of its loop is the length of the line, since each argument takes a character.
--   Shell: `eval`, `builtin_cmd`, `do_bgfg`, `waitfg` and the signal handlers. What the kernel answers
--     and the signals that each `sleep` lets in are arguments. `Run` has exits and faults as values.
--   `eval` uses Parse for the line and Jobs for the list; the handlers change the list in between.
--
-- Cachelab:
--   Csim: the cache simulator cachelab/csim.c, from its masks to the loop over a trace whose lines are
--     read already.
--   Trans: the transposes of cachelab/trans.c, `correctTrans` of cachelab/cachelab.c and `validate` of
--     cachelab/tracegen.c, on matrices as functions of row and column.
--
-- Malloclab:
--   Memlib: the simulated break of malloclab/memlib.c.
--   Ranges: the range list of malloclab/mdriver.c, by which the driver judges an allocator.
--   FirstFit: the allocator malloclab/mm-firstfit.c on words of 32 bits, over Memlib. FirstFit/Chain
--     reads the headers as a list of blocks, and FirstFit/Tags headers, footers and the epilogue.
--     Spans, Coalesce and Merge are about `coalesce`, Free about `mm_free`, Extend about `extend_heap`,
--     Place and Serve about `place` and `find_fit`, Allocate about `mm_malloc`, Init about `mm_init`,
--     Bytes and Realloc about `mm_realloc`. Owner is the abstract view, which bytes belong to whom;
--     Live, Payload, Joined, Reach and Safe are about any sequence of calls from `mm_init` on, and of
--     stores of the program into its own blocks. The fuel of `find_fit` bounds the blocks; one more than
--     there are is enough, and so is one more than the break has bytes.
--   FreeList: the free list of the allocator malloclab/mm.c, linked in both directions, and its
--     `coalesce` (FreeList/Boundary). Search, Insert, Add and Remove are about `find_fit`,
--     `add_free_block` and `remove_free_block`. The fuel bounds the blocks on the list.
--   Explicit: `mm_init`, `mm_malloc`, `mm_free` and `mm_realloc` of malloclab/mm.c over FreeList. Blocks is
--     a map from pointers to blocks, with gaps where bytes are lost, and Listed the free list over it;
--     Moves adds to the list and removes from it, Pick and Carve are about a block from the list, Fit and Grow
--     about the two ways of `mm_malloc`, Count about the fuel (one more than the break has bytes is
--     enough), Client about the blocks in use, Realloc and Moved about `mm_realloc` (2^32 is enough
--     there, as the heap may have grown in between).
--   Driver: `eval_mm_valid` of malloclab/mdriver.c for any allocator, over Ranges. Driver/Service is the
--     contract of an allocator, which Driver/FirstFit and Driver/Explicit show that the two keep; Recorded,
--     Slots and Passes are about the test of an allocator that keeps it.
--   Trace: `read_trace` of the same file, on the words of a trace file; the fuel is one more than the words.
--   Util and Speed: `eval_mm_util` and `eval_mm_speed` of the same file, for any allocator.
--   Clock: the cycle counter of malloclab/clock.c; the addition of two `double`s is a parameter.
--   Sampler: the K-best measurement of malloclab/fcyc.c. Its loop runs over the cycles measured;
--     `maxsamples` of them are enough. Insert has the reference, an insertion sort of all samples.
--
-- Kernellab:
--   Pid: the writers `kcurrent_write` and `pid_write` of kernellab/kernellab/kernellab.c, with the
--     calls of `kmalloc` and `kfree` in their order.
--
-- Proxylab:
--   Uri: `parse_uri` and `get_filetype` of proxylab/proxy.c. A port that is no `int` is an outcome.
--   Connect: `open_clientfd_ts` of proxylab/proxy.c and its mutex.
--   Relay: the loops of `doit` in proxylab/proxy.c that hand the response on, and the address in the log.
--     The fuel bounds the rounds; one more than the bytes and signals to come is enough.
--   Request: how `doit` of proxylab/proxy.c reads a request and builds the one for the server, over Rio and
--     Uri. The fuel bounds the header lines; two more than there are is enough.
--     `sprintf` onto its own argument, which C leaves undefined, is taken to append.
--   Threads: the loop of `main` in proxylab/proxy.c and what each thread finds as its argument.
--   Rio: the buffered input and output of proxylab/csapp.c. The kernel is a list of events (bytes, a
--     signal, an error). The fuel of a counted read is one more than the bytes and signals to come.
--
-- Not modelled: mains, printing and wrappers of system calls; programs that only test; the
-- copy mm2.c of the allocator malloclab/mm.c and its `mm_check`; the timers of malloclab; the rest of the proxies and Tiny; the example kernel modules.
-- Numbers are natural numbers, with the wrap-around of C written out where it can occur.
pub mod Base
pub mod Cachelab
pub mod Kernellab
pub mod Malloclab
pub mod Proxylab
pub mod Shlab
