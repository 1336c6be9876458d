-- ===== src/Lib.antt =====
-- Verification of homework-module3, a course's C programs for Linux, each in a folder of its own.
--
-- The parts that are modelled, and where:
-- * 03/linked_list.c is LinkedList.antt: the circular doubly linked list, on a heap that maps an
--   address to a node. A pointer is a number and NULL is 0. Reading or writing through NULL or a
--   freed node is the result `fault`. The children of LinkedList hold the proofs: Segment and Ring
--   say how nodes are linked, Relink and Unlink what the assignments do, Insert, Remove, Iterate and
--   Order what the functions do.
-- * 03/phonebook.c is Phonebook.antt: contacts in memory beside the nodes, and the storage that
--   lists them by last name through linked_list.c. Book states the storage's invariant.
-- * 03/main.c is Menus.antt: the menus as commands on a `World`, which holds the storage, the memory and
--   the bytes of the input that are left. Input has the reading of lines and numbers, Screens and
--   Choice the menus; Input/Lines, Answers, Deletes and Adds hold the
--   proofs.
-- * 15/server.c is EpollServer.antt: the state machine of a client, stepped by `dostuff` with what
--   the system calls return as an argument (`Calls`) and what it sends and writes as a result
--   (`Effect`). Its children: Arithmetic has the four operations on `int`, Clients the table
--   `clients[100]` and the body of the event loop; Steps, Table, Search, Loop, Session, Upload and
--   Storage hold the proofs.
-- * 10/main.c is SharedMemory.antt: the parent's `put_data` and the child's `get_data` as steps from one
--   `semop` to the next, which `Reach` interleaves; Start has `init` and `writer_cleanup`; MinMax,
--   Exclusion and Lost hold the proofs.
-- * cross2/main.c is Drivers.antt: Routine is the state of a driver and its answers to a message,
--   Commands the operations of the master, which meets a driver through the replies in its pipe, and
--   Parse the command line. A pipe is taken to keep messages apart, and a write or a read to succeed.
--   The proofs are in Routine/Answers, Commands/Talk and Parse/Roundtrip.
-- * 06/server.c is MessageServer.antt: the parsing of a message, the registry of clients and one round of
--   `listen`. The proofs are in Clients, Broadcast and Requests.
-- * 04/main.c is Shell.antt: a line of commands, what each child's descriptors stand for, as a function
--   from descriptors to ends of pipes and files, and what the shell's own do. Words and Bars have the proofs
--   on the parsing, Descriptors and Wiring those on one child, Pipeline those on the whole line.
-- * 08/writer.c, 08/reader.c and 08/shared.c are NumberFiles.antt: the loops of the writer and the reader
--   over rounds, each with the results of its calls. Line, Search, Blocks and Overflow hold the proofs.
-- * 09/writer.c and 09/reader.c are PosixFiles.antt: the semaphores, the file and the two processes,
--   stepped call by call. Protocol and Names hold the proofs.
-- * cross1/server.c and cross1/client.c are UdpPair.antt: the table of clients, one datagram at the server
--   and one line at the client. Buffer, Counts, Served, Exchange and Lines hold the proofs.
-- * 13/server.c is ForkServer.antt: what the child does for its client, on a `World` with what each read and
--   write brings. ForkServer/Client is `send_file` of 13/client.c; Sum, Receive and Transfer hold the
--   proofs.
-- * 05/main.c is Signals.antt: the loop of `main`, stepped between the signals that `Reach` interleaves.
--   Log and Ends hold the proofs.
-- * 07/server.c and 07/client.c are Chat.antt: the two loops, stepped from one call on the queue to the
--   next. Turns and Heard hold the proofs.
-- * 14/main.c is PacketFilter.antt: the loop of `run` over the packets that come. Dump and Packet hold the
--   proofs on one packet, Matches those on all.
-- * Prelude holds what all share; Prelude/Runs is the result of running C code. CString models the
--   functions of string.h and stdlib.h that the programs call, on lists of bytes.
--
-- What is taken from outside: an address that `malloc` or `calloc` returns is an argument, NULL where
-- the allocation fails; theorems ask for one that is not NULL and not in use. The function pointer
-- of a list is a function of the two addresses, at the memory of the moment of the call. Output to
-- the terminal is left out but for what 14/main.c shows.
--
-- Fuel: the search for a file's name in 15/server.c takes the length of the path. The loops that walk
-- the ring take fuel, one unit for each node passed, and `out_of_fuel` is their result where it is
-- spent; the theorems on linked_list.c and phonebook.c say that fuel for one round of the ring is
-- enough. The loops over the tokens of a text in 04/main.c and 08/reader.c take one unit more than its
-- bytes, and the search for the lowest free descriptor 1024. `send_file` takes one more than the bytes
-- of the file. The menus of 03/main.c take fuel for these walks and for the rounds in which they ask again.
--
-- Not modelled: the set-up of the sockets in 15/server.c and of the pipes in cross2/main.c, the loop of
-- `main` there, the loop over `accept` in 13/server.c, the signal handlers and the making of the
-- semaphores of 08/, the call of the data file's functions in 03/main.c, and the programs of the other
-- folders. A `write` is taken to write all or to fail.
pub mod CString
pub mod Chat
pub mod Drivers
pub mod EpollServer
pub mod ForkServer
pub mod LinkedList
pub mod Menus
pub mod MessageServer
pub mod NumberFiles
pub mod PacketFilter
pub mod Phonebook
pub mod PosixFiles
pub mod Prelude
pub mod SharedMemory
pub mod Shell
pub mod Signals
pub mod UdpPair
