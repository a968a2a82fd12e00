-- ===== src/Lib.antt =====
-- Course programs in systems programming: a job-control shell, a proxy of threads with a bounded
-- buffer and a cache, a proxy of one thread with an event loop, a resolver of domain names, a
-- parallel picture of the Mandelbrot set, two processes with a pipe, a client, and functions on
-- strings.
--
-- The shell, shlab-handout/tsh.c:
--   Shell/Jobs       the array `jobs` and its helpers (`addjob`, `deletejob`, `fgpid`, ...)
--   Shell/Parse      `parseline` and `isnum`
--   Shell/Signals    the handlers of the four signals, and `waitfg`
--   Shell/Eval       `eval`, `builtin_cmd`, `do_bgfg`, in the parent process
--   Shell/Main       the options and the loop of `main`
--   Shell/Groups     the child of `eval` behind `fork`, the process groups, and what a key sends to them;
--                    in Session together with the shell, which is then any order of the calls around
--                    `fork`, of its handlers and of the jobs that it continues
-- The state of the shell is a record of its globals and of what it printed and signalled. The kernel
-- comes in as values: the result of `fork`, the signals that arrive while `fgets` waits at the prompt,
-- when SIGCHLD is unblocked, between the calls of `do_bgfg` and in each `sleep` of `waitfg`, and the
-- children that `waitpid` reports in a handler.
--
-- The proxy of threads, first-proxylab-handout:
--   Sbuf             sbuf.c: the operations alone, and any interleaving of the steps of any number
--                    of threads (Sbuf/Threads), with the invariant of all states that they reach;
--                    for a single caller a queue (Sbuf/Queue, Sbuf/Sequence)
--   Logbuf           logbuf.c: the same buffer for `char *`
--   Cache            cache.c: the operations alone, and any interleaving of the steps of any number
--                    of readers and writers (Cache/Threads), with a search among them (Search)
--   Pool             of proxy.c: `read_write`, `contact_host`, `logging` and the thread of the log, each
--                    with no other in the way
--   Pool/Threads     `main`, on what the calls for its socket return, and any interleaving of its loop
--                    over `accept` with the threads of `proxy_thread`, where `read_write` is one step
--
-- The proxy with an event loop, proxylab-handout/proxy.c:
--   Proxy/Parse      `parse` (and `parse_request`, its copy in the other proxy), with `strtok` and
--                    `strchr` on lists of bytes
--   Proxy/Events     `req_info_t`, the loops over `read` and `write`, the handlers and the body of the
--                    event loop (Server), on a table of requests (Table); the whole life of a request
--                    (Life), any run with others (History, Sound), and `main` with its loop over
--                    `epoll_wait` (Main); the results of the system calls come in as lists, and the
--                    resolver is a parameter. `fcntl` and `epoll_ctl` behind the loop of a handler
--                    succeed together or the program exits
--
-- The resolver, dnsresolverlab-handout/resolver.c:
--   Resolver         names as text and on the wire
--   Resolver/Query   the query that goes out, and the answers of a response; what `random` returns and
--                    what the memory behind an array holds are arguments. In Entries the list of
--                    the answers in memory: a freed entry is `none`, and no address is used again
--   Resolver/Main    `main`, on what `getaddrinfo` and `recv` return
--   Resolver/Dump    `print_bytes`, which nothing calls
--
-- The picture of the Mandelbrot set, hw7/mandelbrot.c:
--   Mandelbrot       the orbit of a point (Orbit), the stores of the parallel loop in any order (Schedule),
--                    and the points in the file (Pixels); `double` with its operations is a parameter
--
-- Two processes that share a file and a pipe, hw3/fork.c:
--   Fork             any interleaving of their steps, from `fork` on
--
-- The client of hw5, on what its calls return:
--   Client           client.c; the loop that writes is `send_request` of Pool, whose C code is the same
--
-- The functions on strings of hw4/strings/strings.c:
--   Strings          the six functions and the tests of `main`, on arrays that end and whose bytes may
--                    never have been written
--
-- Pointers into an array are indices and NULL is `none`. A read or a write through NULL or out of
-- range, and a `++` on the largest `int`, is a result of its own (`fault`, `overrun`, `undefined`,
-- `crashes`).
-- Loops are structural or run on fuel: a round of a parser takes at least one byte, so the length of
-- the text plus one is fuel enough, and `decimal` has one round for each digit.
-- Reading a name with pointers and the search in the cache need not end: the theorems on them name
-- the fuel that they take. A walk over a list of answers takes a round for each of them.
--
-- Not modelled: the order of the signal handlers inside one library call, errno and signal masks,
-- the options of sockets, the freeing of memory but for the buffers and the list
-- of the resolver, a count that passes SEM_VALUE_MAX, an overflow of `nextjid` or of a sum of sizes, and
-- negative sizes. The csapp library and the tiny server belong to another project, and hw6 holds examples
-- of its book. hw5/server.c calls `recv` on its listening socket, where it fails each time. hw2,
-- hw3/exec.c and the helpers of the shell print the results of fixed calls or sleep.
pub mod Base
pub mod Sbuf
pub mod Logbuf
pub mod Cache
pub mod Shell
pub mod Proxy
pub mod Pool
pub mod Resolver
pub mod Mandelbrot
pub mod Fork
pub mod Client
pub mod Strings
mod Tests
