-- ===== src/Lib.antt =====
-- A verification library for swe-daily-challenge, a repository of small systems programs: each
-- numbered folder is a program of its own, and they share no code. A model is translated from the
-- source of its program, and its theorems stand in the modules below it.
--
-- Base: what the models share: Boolean tests, C arrays as lists over the native numbers, and the
-- arithmetic of `&`, `|` and `^`.
--
-- Arena (01-arena_allocator/arena.c, arena.h and main.c): the record Arena is the struct;
-- arena_create, arena_alloc, arena_reset and arena_destroy are the functions, with the wrap-around
-- of size_t written out. VirtualAlloc and VirtualFree are arguments. Arena.Align is the rounding to
-- an alignment, Arena.Bounds one call of arena_alloc, Arena.Reset and Arena.Overflow what their
-- names say, and Arena.Cycles the test program, whose assertions and printed counts are the result.
--
-- Dns (04-dns_query/main.c): Dns.Name is encode_name, Dns.Query build_query, Dns.Skip skip_name,
-- Dns.Header print_header and Dns.Response parse_response. build_query calls encode_name;
-- parse_response calls print_header and skip_name. An access outside an array, which C leaves
-- undefined, is the outcome `fault`. Uninitialised arrays are arguments of any content. The loop of
-- skip_name takes fuel, one more than the bytes that are left, which is enough since each round
-- moves forward; running out would be the outcome `hang`. The other loops recur on lists or on
-- counters. Of an answer's address the model shows the four bytes that inet_ntop is given.
-- Dns.Program is main: the network is a parameter, which gives what comes back for a datagram that
-- is sent. The calls that set a timeout and the address of the server are not modelled.
--
-- Coro (09-stackful_croutines_ucontext_t/main.c): coro_spawn, done_spawn, scheduler_run with the
-- search, the switch and what follows it, finish_trampoline, worker and free_coros_stacks, on one
-- record with the globals. ucontext is not code of the repository: a saved context is a `Code`,
-- which is the rest of the program text to run; swapcontext runs it to its next coro_yield or to
-- its end, where uc_link leads through done_ctx, which can be used once each time done_spawn has
-- made it. The results of malloc are arguments. Fuel counts the rounds of the while loop: each runs
-- a coroutine up to a yield or to its end, so one more than those left is enough. Coro.Search is
-- the search, Coro.Round one round, Coro.Totals what the entries add up to, Coro.Promise what is
-- printed, Coro.Invariant the globals between two rounds, Coro.Ends the loop, Coro.Spawn the
-- program from coro_spawn on, Coro.Workers its order of output. The last line that main prints is
-- not modelled.
--
-- Reactor (06-epoll_reactor/reactor.c): handle_new_connection, handle_client_data and the loop of
-- main over what epoll_wait, accept4, read, write and epoll_ctl return, which is an argument: one
-- script for each call of a handler. A script that stops stands for a loop that is still running.
-- The state is the table of the open descriptors and of those that epoll watches, the listener
-- among them. Reactor.Client is about the calls for one connection, Reactor.Descriptors about the
-- table, and Reactor.Start is create_listen_socket, make_nonblocking and main around the loop. The
-- printed texts are not modelled.
--
-- Jit (07-JIT/main.c): the bytes that main stores in the page, the two function pointers and what
-- main returns. The processor is a parameter `run` on the bytes from an address on and the low
-- halves of the registers; Jit.Processor states the documented instructions and the calling
-- convention, Jit.Laws what follows. Whether mmap and mprotect succeed is an argument of jit_main.
--
-- Treiber (02-treiber_lock_free_stack/main.cpp): push, pop and empty of the stack, as the steps
-- that threads take one at a time on a shared memory, each an atomic access of the code; the memory
-- is sequentially consistent, and a weak compare-exchange may fail without a cause. A pointer is a
-- number, 0 is nullptr, and `new` gives any address that is not in use. Treiber.Spec is the stack
-- whose operations are one step, Treiber.Invariant what holds between two steps: who owns each
-- node, and the two lines of nodes that start at head and at trash. Treiber.Frame, Treiber.Account,
-- Treiber.Ledger, Treiber.Settle and Treiber.Moves say that each step keeps it, Treiber.Simulate
-- that it is a step of Treiber.Spec, and Treiber.Linear is the refinement, and Treiber.Progress
-- about a thread that runs alone. Treiber.Destroy is about the destructor, whose walks take fuel:
-- the nodes in the two lines are enough. Treiber.Values and Treiber.Conserve count what is pushed
-- and received. Treiber.Stress is the stress test of main: the sets of the consumers are read off
-- the events of a run, in which threads 0 to 3 are the producers and 4 to 7 the consumers.
--
-- Lsm (08-LSM_tree/main.cpp): all methods of LSMTree. The directory is a function from paths to
-- bytes, and whether a table's file can be opened for writing is an argument; a write to an open
-- file succeeds. std::map is a list in the order of its keys, std::sort an insertion sort.
-- Lsm.Strings is std::string with the decimal form of a number, which Lsm.Digits reads back and
-- Bloom and Printer use too, Lsm.File the format of a table's file, Lsm.Paths the order of the
-- paths, Lsm.Valid the invariant, Lsm.Laws what a client sees, Lsm.Reopen a second store on the
-- same directory, with Lsm.Order and Lsm.Sort on the order of strings. The reader takes fuel, one
-- more than the bytes of the file, which is enough since a round takes eight bytes at least; a
-- table's number is printed with ten digits of fuel. main is its calls of the store, with the
-- results of the six gets.
--
-- Hmac (10-HMAC_length_extension/main.cpp): the two servers and length_extension_attack. SHA-256 is
-- OpenSSL's: its three calls are parameters, and Hmac.Sha256 is what their documentation says, with
-- the compression function a parameter. HMAC is a parameter. Hmac.Program is main. The padding loop
-- has 64 rounds of fuel, enough for a remainder modulo 64. That HMAC resists the attack is no
-- theorem: it rests on SHA-256.
--
-- Bloom (11-bloom_filter/bloom.h): the two hashes and the finalizer with the wrap-around of
-- uint64_t, insert and contains. The floating-point formulas of the constructor are not modelled:
-- the number of bits and of hashes they give are arguments. theoretical_fpr is left out.
-- Bloom.Reference is the filter without an array, Bloom.Program is main up to the number of false
-- positives; its assertions on floating-point rates are left out. A number in a URL is printed with
-- twenty digits of fuel, which is enough for a size_t.
--
-- Ring (13-heap_ring_buffer/src/lib.rs): new, push, pop and Drop::drop. A slot of the allocation
-- holds a value or is not initialised, and the use of one that is not, or of one outside, is the
-- outcome `undefined`. Ring.Queue is the bounded queue, Ring.Slots the invariant, Ring.Steps that
-- push and pop keep it, Ring.Laws the refinement. The allocator is taken to succeed; Send and Sync
-- are not modelled.
--
-- Gcm (03-aes_gcm_AEAD_nonce_reuse/aes_gcm.cpp and main.cpp): aes_gcm_encrypt, aes_gcm_decrypt,
-- round_trip and the nonce reuse of main. The EVP calls of OpenSSL are a parameter: Gcm.Openssl
-- lists them, what their documentation says of AES-128-GCM where they succeed (IsAesGcm), and that
-- they do succeed (Works). A call that fails is taken to write nothing. A write past the end of a
-- buffer sets the flag overrun of the result. Gcm.Laws is about decryption whichever calls fail,
-- Gcm.Sent and Gcm.RoundTrip about runs in which they work, Gcm.Tamper about round trips that are
-- tampered with, Gcm.Buffers about bytes, Gcm.Program is main. That a forged tag is wrong is no
-- theorem: it rests on AES-GCM.
--
-- Elf (12-elf-inspector/main.c): main on the bytes of the mapped pages, with the layout of elf.h;
-- the result holds the values that are printed. A read outside the mapping is none. Elf.Bytes reads
-- fields and strings, Elf.Lines names the lines, Elf.Fields and Elf.Laws are about well-formed
-- tables. The offset of a field is not wrapped: one that leaves the address space is outside the
-- mapping. Elf.File is about section and program headers, Elf.Program is main around the mapping,
-- with what open, fstat and mmap return as an argument, and Elf.Whole a whole file through main.
--
-- Printer (05-gdb_python_pretty_printer/main.c and value_printer.py): a Value is its kind and the
-- 16 bytes of its union, low byte first, so that a member is read from the bytes that another left.
-- make_int, make_float, make_str and main fill them, and to_string of the Python printer reads them
-- in the debugger. Memory is a function from addresses to bytes; the fuel of strlen is more than
-- the length of the string. A double is its 64 bits, and the format `.5g` and gdb's decoding of
-- bytes are parameters.
--
-- Not modelled: the programs' printed texts, beyond the values that they hold; floating-point
-- formulas; the calls of the operating system whose results are not read; the registration of the
-- printer in gdb.
pub mod Base
pub mod Arena
pub mod Dns
pub mod Coro
pub mod Reactor
pub mod Jit
pub mod Treiber
pub mod Lsm
pub mod Elf
pub mod Gcm
pub mod Hmac
pub mod Bloom
pub mod Ring
pub mod Printer
