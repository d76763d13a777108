-- ===== src/Lib.antt =====
-- Verification library of the operating systems exercises (exer1 to exer4, in C). Each exercise is a
-- few small programs. The core is exer4: round-robin schedulers for processes that are stopped and
-- continued by signals, over a list of processes, with a shell that sends requests.
--
-- Base: lists, counting and signed integers over the native numbers, and Boolean tests.
--
-- ProcCommon: exer4/prio/proc-common.c, of which exer2, exer4/sched and exer4/shell hold equal copies.
-- The reports of `waitpid` are a list.
--
-- Text: the functions of the C library on strings that several programs call.
--
-- Exer1.Fconc: exer1/fconc/defs.c, fconc.c and fconc2.c. Defs has the loops that copy; the system
-- chooses how many bytes each `read` and `write` moves, and the loops run on fuel: one unit for each
-- byte and one for the last call. Program has both programs, from the arguments to the file system that
-- they leave; which files can be opened, on which of them `stat` succeeds, and which file a new name
-- makes, are parameters.
--
-- Exer1.Zing: exer1/zing/zing2.c, with the size of its buffer beside the string in it. Its loop runs on
-- fuel, one unit for each character.
--
-- Exer2.Tree, Exer2.ExprRv: exer2/ask2-expr-rv/ask2-expr.c. A process of the tree is what its parent
-- sees of it; `malloc` and `fork` succeed or fail as a parameter says.
--
-- Exer2.TreeFile: exer2/ask2-expr/tree.c, of which the other programs of exer2 hold equal copies. A file
-- is the list of its characters, and a tree is read on fuel, which its length and one more is enough for.
-- The counter of a node's children is an `int` in the source and has no bound here: the model is for
-- nodes of fewer than 2 ^ 31 children.
--
-- Exer2.ExprPipe: exer2/ask2-expr/ask2-expr.c. The pipe of a node holds the numbers that its children
-- wrote, and is read when both have ended. A result is an `int` that wraps around, which is what gcc's
-- code does where C leaves an overflow open. Each call of the system may fail. Value has the
-- processes, Program the whole program from its tree file on.
--
-- Exer2.Signals: exer2/ask2-signals/ask2-signals.c, as steps of a tree of processes. Steps has what one
-- step does with the names that are printed, Order what a whole run does.
--
-- Exer2.ForkTree: exer2/ask2-tree/ask2-tree.c, as steps of a tree of processes where any `fork` may fail.
--
-- Exer3.Simplesync: exer3/simplesync/simplesync.c, as steps of two threads, with atomic operations or
-- with a load and a store under a mutex. Safe has the invariant, Ends what steps are left.
--
-- Exer3.Mandel: exer3/mandel/mandel-lib.c and mandel.c. Colors has the colours of the terminal and the
-- palette, in thousandths; Output has the output of a line, with a system that chooses how many bytes
-- each `write` moves; Turns has the threads, whose steps come in any order, and their semaphores. The
-- number of iterations at a point, which is computed in floating point, is a parameter, and the threads
-- start when all semaphores are initialised. Turns is for any number of lines, which is `y_chars` in
-- mandel.c. Lines has the threads of mandel2.c and relates them to Turns.
--
-- Exer3.Kgarten: exer3/kgarten/kgarten.c. Any number of threads, each with its place in the code, take
-- steps in any order under one mutex. The tests multiply `int`s, which wrap around as gcc's code does;
-- InRange says of a ratio and a number of threads that no product leaves the range. Defs has the steps, Local what one step does beside the other
-- threads, Safety the states that are reached. In these a thread that waits on the condition variable may
-- wake at any time. Signals has the runs where only `pthread_cond_signal` wakes it; Refines relates the
-- two. Main has the arguments, where `malloc` and the pthread calls succeed.
--
-- Exer4.Plist: exer4/prio/plist.c, doubly linked rings of processes, on an explicit heap. Memory has
-- the heap and a command monad whose commands may return, follow NULL or a stray pointer, exit, or run
-- out of fuel; Ops has every function of the file, and Earlier what the copies in exer4/sched and
-- exer4/shell have in place of one; Ring says which heaps hold a ring. The loops run on fuel, and one
-- unit for each node of the ring is enough: the theorems on a ring say that the command returns. Memory
-- that `malloc` has just given holds any bytes.
--
-- Exer4.Os, Exer4.Safe: what the schedulers use of the system. `kill`, `fork` and `malloc` answer as a
-- function of the calls made before, and every call is written to a log. A run returns, ends the
-- program, fails an assertion or follows NULL. IsSafe says that it does neither of the last two, and
-- when it may end the program.
--
-- Exer4.Prio: exer4/prio/scheduler-shell.c, the scheduler with two priorities. The rings of plist.c are
-- lists here, which Exer4.Plist justifies. Defs has the functions and handlers; signals arrive one at
-- a time, since both are blocked while a handler or a request runs. Main has the start and the relation
-- of the states that a run comes to.
--
-- Exer4.Sched: exer4/sched/scheduler.c, the scheduler without a shell. Exer4.Shell: that of
-- exer4/shell/scheduler-shell.c, whose handlers are the same text; Handlers and Simulates relate it to
-- Exer4.Prio.
--
-- Exer4.Cmdline: exer4/prio/shell.c, from the characters of the input to the request.
--
-- Exer4.Session: the shell and the scheduler of exer4/prio at once, as steps over the two pipes between
-- them. A request or an answer is shorter than a pipe's buffer and goes through it whole. Args has the
-- descriptors of the pipes, which the scheduler gives to the shell as text.
--
-- The id of the next task is an `int` in the source and has no bound in Exer4.Plist, Exer4.Prio and
-- Exer4.Shell, which are for runs of fewer than 2 ^ 31 tasks.
--
-- Not modelled: terminal output other than what the properties name, the installing of signal handlers
-- and masks, the programs that the children run (exer4/*/prog.c), and the helpcode and .old directories,
-- which hold earlier copies of the same files.
pub mod Base
pub mod Text
pub mod ProcCommon
pub mod Exer1
pub mod Exer2
pub mod Exer3
pub mod Exer4
