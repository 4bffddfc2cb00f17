-- ===== src/Lib.antt =====
-- A verification of programs of this repository, which follow W. R. Stevens' Unix Network
-- Programming: library functions and system calls written again, the stream routines of the socket
-- servers, a reserved port search, the semaphore functions with a count of users, file copies
-- through a message queue and through shared memory, file locks, the passing of a descriptor,
-- datagram servers, daemons, and the inetd.
--
-- The parts, and where their code is. Below, LIB is "Chapter 6 - Berkely Sockets/my_
-- emulation/library_functions" and SOCKETS is "Chapter 6 - Berkely Sockets/Sockets".
--
-- Base: native numbers with Boolean tests, signed integers, errno, and lists by native length.
--
-- CString: my_strcmp and my_strlcpy (LIB/strcmp, LIB/strlcpy). A string is the list of its bytes
-- before the NUL; the destination is a list of bytes, and a write behind its end is no result.
--
-- Strtol: my_strtol (LIB/strtol/strtol.c). `long` is 64 bits and its arithmetic wraps around. The
-- definitions keep the function's order: spaces, sign, base and prefix, the search for the first
-- character that is no digit, the calculation from the last digit, and what goes through endptr.
--
-- Rresvport: my_rresvport and my_rresvport_udp (LIB/rresvport_tcp_udp/rresvport.c), over a
-- parameter for socket() and bind(). The loop runs down the ports, so it is recursion on the ports
-- left.
--
-- Stream: readn, writen, readline and str_echo (SOCKETS/utility_routines), over a parameter for
-- read() and write() with the documented behaviour as laws. The loops take fuel: readn and writen
-- one round more than the bytes asked for, since each round moves a byte at least; readline has its
-- own bound; str_echo one round more than there are lines.
--
-- Semaphore: semaphore.c ("Chapter 3 - Interprocess Communication/9_semaphores", with copies in
-- 10_shared_memory and 11_multi_buffer), over a parameter for semget(), semop() and semctl() with
-- laws in Semaphore/Sets. A call returns, ends the process, or sleeps in semop(); a sleeping call
-- has no further steps here. The fuel of sem_create is the number of times it may start again; its
-- theorems need one round. Theorems: Create, Close, and Usage for histories of calls.
--
-- Inetd: SOCKETS/12.inetd/inetd.c. Inetd has the tables, the opening of the sockets and sig_child;
-- Round the turn of the loop and the steps of the process; Child the descriptors and the path of a
-- forked child; Daemon daemon_start. Start and Invariant have what holds over every run, Serve a
-- request from its fork to its signal. Signals are steps between select() and the scan only.
--
-- MultiBuffer: server() and client() of "Chapter 3 - Interprocess Communication/11_multi_buffer", as
-- steps of two processes that share two semaphores and four buffers, in any order. Tokens has the
-- invariant, Ring the buffers, Receiver and Sender the steps of the two, Copy and Progress what
-- follows. A semaphore is its value here; the set behind it is the Semaphore module's.
--
-- Transfer: what the programs that copy a file from a server to a client share, with what fgets()
-- takes of the line, and the arrays that the error message must fit.
--
-- Multiplex: mesg_send, mesg_recv, server() and client() of "Chapter 3 - Interprocess
-- Communication/8_multiplexing_messages", as steps of two processes over a parameter for the
-- message queue. Invariant has the invariant, Copy and Progress what follows.
--
-- StreamMessages: mesg_send, mesg_recv, server() and client() of "Chapter 3 - Interprocess
-- Communication/6_stream_messages", over a parameter for the FIFO. Framing has the bytes of a
-- message, Programs the two programs, Transport a file's way, Exchange a request and its answer; the
-- fuel of client()'s loop is its rounds, one more than there are messages with bytes.
--
-- SharedMemory: server() and client() of "Chapter 3 - Interprocess Communication/10_shared_memory",
-- which take turns with one buffer. Turns lists the places of the two, Copy what follows.
--
-- Passing: my_open, openfile, my_sendfile and my_recvfile (SOCKETS/7.passing_file_descriptor), over
-- a parameter for sendmsg(), recvmsg() and open(). The parent and the child are run one behind the
-- other, since the parent waits for the child.
--
-- TcpDaemon: daemon_start and sig_child of SOCKETS/11.tcp_daemon/tcp_daemon.c. Start has its way to
-- the loop, Serve the loop, over a list of what accept() and fork() answer, and sig_child. The fuel
-- of sig_child is the calls of wait3(): one more than children that have ended. Daemon:
-- daemon_start of "Chapter 2 - The Unix Model/16_daemon/daemon.c".
--
-- Datagram: dg_echo of SOCKETS/utility_routines/connectionless_server, and the programs dg_echo and
-- dg_dis of SOCKETS/12.inetd, over a parameter for recvfrom() and sendto(). Fuel is the number of
-- turns; dg_echo needs one more than there are datagrams. Services: the programs str_echo and
-- str_dis of SOCKETS/12.inetd, over the modules of Stream; the fuel is the number of rounds.
--
-- Fifo: client(), server() and the mains of "Chapter 3 - Interprocess Communication/5_fifo" and
-- 3_pipes_client_server, as steps of two processes with two pipes. Sides has the server by itself,
-- Copy what follows.
--
-- DeadHolder: my_lock and my_unlock of "Chapter 3 - Interprocess Communication/9_semaphores/pitfalls",
-- as steps of processes that may die. Holders has the invariant, Undo what follows with SEM_UNDO, Lost
-- without it.
--
-- Clients: str_cli and dg_cli of SOCKETS/utility_routines. Session has str_cli on a socket
-- that delivers the lines that it sends, Answers what dg_cli has sent and printed.
--
-- Association: SOCKETS/accept.c, over what the system answers. Settled has the descriptors and the
-- memory behind tcp_open, tcp_connect and the loop; Interrupt the handler of SIGINT, whose fuel is its
-- calls of getchar() behind the first.
--
-- ErrRoutine: the error routines of SOCKETS/7.passing_file_descriptor (Client, Server) and of "Chapter
-- 3 - Interprocess Communication/9_semaphores" (Plain); Bounds has calls of err_ret.
--
-- UdpLog: the loop of SOCKETS/send_recv/connectionless/server.c; Bounds what its buffer has room for.
--
-- Handshake: SOCKETS/6.syscalls, the header of client.c and the answers of server.c, over the sockets
-- of Stream. Answers has what each of the two does, Agree that they come to the same decision.
--
-- AsyncIo: SOCKETS/9.async_io/async_io.c, its loop and its handler as steps. Wakeup has what holds
-- over every run.
--
-- SelectCopy: SOCKETS/10.select/stdin_stdout_select.c, over the list of what the calls answer.
--
-- Iptohex: "Chapter 5 - Communication Protocols/Exercises/tools/iptohex.c". A word is a number below
-- 2 ^ 32, with the wrap-around written out; 32 rounds are enough for the bits of a word.
--
-- Iovec: my_writev and my_readv ("Chapter 6 - Berkely Sockets/my_ emulation/syscalls/writev_readv"),
-- for my_readv on descriptors other than 0. The fuel of my_readv's loop is its number of reads.
--
-- Lock: the file locks of "Chapter 3 - Interprocess Communication/1_file_record_locking/lock.c", over
-- a parameter for the file system. Fuel is the number of tries; a free lock needs one, where open() succeeds.
--
-- Sequence: file_record.c of the same directory, as steps of any number of processes.
--
-- Left out throughout: messages and logs, main functions that only set things up, and the memory
-- behind a pointer where a list of bytes says as much. The other programs of the repository are
-- demonstrations, or not modelled.
pub mod Association
pub mod AsyncIo
pub mod Base
pub mod CString
pub mod Clients
pub mod Daemon
pub mod Datagram
pub mod DeadHolder
pub mod ErrRoutine
pub mod Fifo
pub mod Handshake
pub mod Inetd
pub mod Iovec
pub mod Iptohex
pub mod Lock
pub mod MultiBuffer
pub mod Multiplex
pub mod Passing
pub mod Rresvport
pub mod SelectCopy
pub mod Semaphore
pub mod Sequence
pub mod Services
pub mod SharedMemory
pub mod Stream
pub mod StreamMessages
pub mod Strtol
pub mod TcpDaemon
pub mod Transfer
pub mod UdpLog
