-- ===== src/Lib.antt =====
-- A TCP chat server with rooms, private messages and file transfers (server/*.c), and its client
-- program (client/*.c).
--
-- The parts. A connection logs in and then sends commands, each a message of a four-byte length
-- and that many bytes. The handlers of the commands work on three shared registries, the clients,
-- the rooms and the upload queue, and answer on the sockets.
--   Wire           send_message and receive_message of server/server_helper.c, which
--                  client/client_helper.c has too: framing over any kernel
--   Clients        server/dynamic_client.c, the linked list of clients
--   Rooms          server/dynamic_room.c, the linked list of rooms and the slots of a room
--   FileQueue      server/file_transfer.c, the upload queue and the checks of a file
--   FileTransfer   server/file_transfer.c, a file in chunks over a socket
--   Replies        the texts that the server sends
--   Server         server/server_helper.c: the shared state, one child module for each handler,
--                  Connection for login and cleanup, Dispatch for the message loop, and Session
--                  for the life of the whole state; Shutdown for server/server.c, main, and the
--                  end of the server
--   Client         client/client_helper.c and client/client.c: Commands for the check of a line,
--                  Input and Login for the loops over stdin, Messages for the receiving thread,
--                  Upload and Download for its two kinds of transfer, and Threads for the steps
--                  of its two threads in any order
--   Arguments      utils/utils.c, the command lines of the two programs
--   Safety         the invariant of the shared state, and what keeps it
--   Base, CString, Search
--                  helpers: numbers and options, the string functions of C, and linked lists
--   Examples       states at which the theorems are applied
--
-- How the state corresponds. A registry is the list of its nodes in the order of the next pointers.
-- A pointer to a client is the address of its node, which dangles as soon as no node has it; a read
-- through such a pointer makes the handler return `none`. A pointer to a room is never stored, and
-- is the first node of its name. A string in a fixed array is its bytes before the NUL, cut to the
-- array's size as strncpy and snprintf do. What the environment does is an argument: the results of
-- send and recv are arbitrary functions in the state, malloc and pthread_mutex_init may fail, and
-- the clock gives any number.
--
-- Bounds and fuel. A loop over send or recv has as many rounds as bytes, which is enough since each
-- round that goes on moves at least one. The message loop and the login loop take the list of their
-- rounds. Integers that the code sends are taken modulo 2 ^ 32, and the copy into an int is written
-- out. The counters of clients, rooms and messages are natural numbers here; that they would wrap
-- at 2 ^ 31 is left out. `atoi` returns an int: what it gives for a number that an int does not hold,
-- which C leaves undefined, is a parameter of the functions that read a port. `atol`, for the size in
-- the header of a download, is modelled for the numbers that a long holds. A chunk of a file that
-- the server sends is read from the block byte by byte, and a byte past its end is given as 256.
--
-- The login loop of the client reads a byte of stdin or more in each round. The writing of a chunk
-- of a download repeats a write that returns 0, so that its bound is an argument: 4096 is enough
-- where every write makes progress.
--
-- What is not modelled. Each handler is one step, from its command to its last reply: the
-- interleavings of handlers between their lock operations are left out, and so are the locks;
-- only the login is two steps as well, in Server/Connection/Race. What other threads do while the
-- handler of SIGINT waits is an argument. The sockets library, the client's handler of SIGINT,
-- the log file and the texts on the console are left out.
pub mod Base
pub mod CString
pub mod Wire
pub mod Search
pub mod Clients
pub mod Rooms
pub mod Replies
pub mod FileQueue
pub mod FileTransfer
pub mod Server
pub mod Safety
pub mod Client
pub mod Arguments
mod Examples
