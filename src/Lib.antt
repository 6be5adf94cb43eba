-- ===== src/Lib.antt =====
-- The coursework programs of CSC 246 (README.md), modelled from their C sources.
--
-- Kitchen: the four kitchen simulations of assignments/hw5. Kitchen/Threads.antt is what they share:
-- a chef thread (`Tad` ... `Ginny`) is its loop body as a list of calls (`Instr`: mutex lock and
-- unlock, `cook`, `rest`), a state has the owner of each mutex, what each thread has left, the dishes
-- cooked (`dishCount`) and `running`; `turn` makes one call of one thread, and `Step` lets any thread
-- or `main` (which clears `running`) go next. Kitchen/Original.antt is kitchen.c, Ordered.antt
-- ordered.c, Global.antt global.c; Kitchen/TakeAll.antt is takeAll.c, whose monitor makes each part
-- between two waits one step, with `pthread_cond_broadcast` and wakenings without a broadcast.
-- Kitchen/Held, Tails, Progress, Finish, Exclusive and Schedule hold the proofs that the three mutex
-- kitchens share. Mutexes are named by numbers, threads by their index in `chefList`.
-- Durations and output are not modelled, nor that `dishCount` is an `int`: a run of ten seconds does
-- not reach 2^31.
--
-- Deadlock: exercises/ex09/deadlock.c over the same thread model; `Instr.say` is its `printf`, and a
-- semaphore that starts at 1 is a mutex there.
--
-- Malloc: the allocator of exercises/ex11/myMalloc.c. Malloc/FreeList.antt has `getBlock` and
-- `returnBlock` on the list of holes in `next` order, Malloc/Heap.antt `malloc`, `free`, `calloc` and
-- `realloc` on the free list, the size fields of the blocks in use, and the bytes that programs keep
-- there. `mmap` and the page size are arguments; of `mmap` the theorems assume that it gives memory
-- that nobody uses. `size_t` is written with its wrap modulo 2^64. The index of the copy in `realloc`
-- is an `int` in the source; the model is about copies below 2^31 bytes. The printing functions are
-- not modelled.
--
-- Editor: the shared-memory editors. Editor.antt has the state of common.h and the C library's string
-- functions on lists of bytes; Editor/Plain.antt is `main` of assignments/hw3/edit.c and reset.c,
-- Editor/Locked.antt assignments/hw4/edit.c and reset.c with their semaphore. A call is an `Outcome`:
-- a value, a wait, `exit( 1 )`, or behaviour that C leaves undefined, such as an access behind the end
-- of a buffer; `main` gives its exit status beside the answer and the state. Shared memory and semaphore
-- are taken to be there. The index of an edit is a number, since `strIsInt` lets no sign through.
--
-- Editor/Server.antt: the editor behind message queues, assignments/hw2/server.c, one function per
-- request, `round` for a turn of its loop, `serve` for the loop; Editor/Server/Client.antt is client.c
-- up to what it prints. Of the queues and the signal handler the model keeps one thing: whether a
-- signal stops the server while it waits. `prev1` to `prev3` start with any bytes. The index of a
-- request is a number, since the client sends no other; `int` overflow of `atoi` is not modelled there.
--
-- Editor/Records.antt: assignments/hw3/edit2.c and reset2.c, the same editor with a history of undo
-- records, on the state of common2.h. Editor/Records/Chain.antt says which texts a history leads back to.
--
-- Parking: assignments/hw6/parkingServer.c. Parking.antt has the table, the commands `park`, `leave`
-- and `show` and their output, Parking/Client.antt the loop of `handleClient` from a line to its reply.
-- A command holds `tableLock` while it works, so that one command is one step and `serve` runs the
-- commands of all clients in the order of their turns. `float` is a parameter. Sockets, `main`, and
-- lines longer than the buffer are not modelled; `atoi` of more than an `int` holds is undefined in C
-- and is that number here, which the commands refuse.
--
-- Matchmaker: the monitor of assignments/hw5/matchmaker.c. The part of a function between two waits is
-- one step of `Step`; the waiting list is a list of player numbers, and each player calls `findMatch`
-- once and `donePlaying` once. Skills are numbers from 0, as matchmaker.h says. A wait on a player's
-- condition ends only by a signal. `destroyMonitor` is the list of the players that it frees; the
-- output is not modelled.
--
-- Exclude: assignments/hw1/exclude.c, with the bytes that `read` gives as one list; the number of a
-- line is read without a bound, since more than an `int` holds is undefined in C.
--
-- Floppy: the FAT12 directory readers of exercises/ex18. A disk is its size and its bytes; `read` is
-- `fseek` and `fread`, which fail only behind the end. Floppy.antt has `getFat12` of floppyDir.c and of
-- floppyDirNew.c, Floppy/Entry.antt what they read of an entry, Floppy/Report.antt `reportDirectory` and
-- `main`, which differ only in `getFat12`; Floppy/Fields.antt lays an entry out by the format. The
-- chains of clusters are followed on fuel, and a call that runs out of it is `unfinished`: the rank of
-- Floppy/Walk.antt gives a fuel that is enough. A size is the 32 bits of an `int`, which a shift into
-- the sign bit makes negative. The lines printed before `fail` are not kept.
--
-- Triangles: the triangle counters. Triangles.antt has `readList`, `checkTriangle` and `findTriangles` of
-- assignments/hw2/triangles.c and hw3/triangles-thread.c, whose `main` adds up what the workers count;
-- the rounds of the outer loop have fuel, one for each value, and a worker moves on by at least one.
-- Triangles/Sem.antt is hw4/triangles-sem.c: a step is one call or check of one worker, or a post of
-- `main`, in any order; a worker that would read behind `vList` has no step. Values are positive, and
-- sums of two and the counts fit in an `int`. `report`, the arguments, fork and the pipe are not
-- modelled.
--
-- Sorts: exercises/ex15, the quicksort of array.c on a list that is read and written by index, and that
-- of linked.c. Sorts/Nodes.antt has linked.c as it is, on a store of `next` pointers, with its `main`;
-- Sorts.antt has what its sort does to the values in order. The fuel is the depth of the calls, and on
-- the nodes the rounds of the loop as well; one for each value, and one more on the nodes, is enough.
-- What `rand` gives is a parameter. Prelude/Nodes.antt has what a linked list is.
--
-- Stash: the shell of assignments/hw1/stash.c. A line is taken apart by `parse_command` and dispatched by
-- `run_line`, which gives the actions of the turn; what `chdir`, `fork` and `waitpid` give is a
-- `System`, and a word that was never stored is `undefined`. What a child does behind a failed
-- `execvp`, the prompt and the freeing of words are not modelled.
--
-- PingPong: exercises/ex07/pingpong.c, two threads and two semaphores as a step relation, and, in
-- PingPong/Spin.antt, exercises/ex06/pingpong.c, where the threads wait in a loop on `nextTurn`, whose
-- reads and writes are taken to happen in one order, as a step relation too.
--
-- Critical: exercises/ex08/critical.c, a linked list whose nodes threads take from the head and put at
-- the tail. A critical section is one step, the threads that have a node are the list of those nodes,
-- and the report at the end has fuel, one for each node. Critical/Lock.antt has the lock by itself, a
-- round of the loop of `lockTestAndSet` as a step. The counters do not overflow.
--
-- Top: assignments/hw7/top.c and `top 2.c`, which checks more of its files. Top.antt has the processes of
-- /proc, from the lines that `fgets` gives to `output_proc`; Top/System.antt has the lines about the
-- system and `main`. What /proc holds is a parameter, as is `qsort` (Top/Order.antt says what is relied
-- on, and Top/Insertion.antt fills it). A number is a sign and a magnitude: one beyond its C type is
-- undefined. The time, the load averages and the columns of `printf` are not modelled, and `opendir`
-- and /proc/uptime do not fail.
-- Prelude/Scan.antt has what `sscanf` does, for the shell as well.
pub mod Prelude
pub mod Kitchen
pub mod Deadlock
pub mod Malloc
pub mod Editor
pub mod Parking
pub mod Matchmaker
pub mod Exclude
pub mod Floppy
pub mod Triangles
pub mod Sorts
pub mod Stash
pub mod PingPong
pub mod Critical
pub mod Top
