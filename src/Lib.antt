-- ===== src/Lib.antt =====
-- Screen worms: the server of a network game in which worms leave a trail of eaten pixels on a
-- board, the messages that server and clients exchange, and what these stand on.
--
-- The server (src/server/main.c) waits for the tick of a round, for datagrams of clients and for
-- timeouts. A round calls `game_tick` (src/server/game.c), which moves every player, marks pixels
-- on the board (src/server/game_board.c) and returns the list of the events of that round; the
-- start of a game draws positions from a generator (src/server/rand.c). Each event is pushed to the
-- events storage (src/server/events_storage.c), which serializes it (src/common/messages.c, with
-- the checksum of src/common/crc32.c) into one growing block and keeps its place on a stack
-- (src/common/stack.c). `send_events` packs the stored events that a client has not seen into
-- datagrams. A message of a client is deserialized and turns into calls of `game_add_player`,
-- `game_set_turn_direction` and `send_events`; a timeout calls `game_remove_player`.
--
-- The client (src/client/main.c) waits for the tick of a timer, for datagrams of the server and for
-- text from a graphical interface. It takes the events of a datagram (src/client/game_client.c) in
-- the order of their numbers, checks them, and sends each to the interface as a line of text
-- (src/client/gui_messages.c, src/client/gui_client.c). The lines of the interface name keys, and each
-- tick sends the server the direction that they ask for and the number of the event expected next.
--
-- Files, each with the C file that it models:
--   Prelude: shared names; Boolean tests, lists and bits over native numbers.
--   Memory: bytes of an object as a list. `write_at` and `read_at` are `memcpy` with bounds: they
--     are `none` outside the object. `strlen`, and numbers in network byte order.
--   Crc32: src/common/crc32.c. Table holds its 256 entries, Bitwise the reference by single bits,
--     Detection what the checksum detects.
--   Rand: src/server/rand.c, its static variable passed on.
--   Messages: src/common/messages.h and src/common/messages.c. Client and Event are the
--     serializers, Parse the deserializer of events; Encoding is the wire format written down
--     independently of the code, and the other modules are proofs.
--   GameBoard: src/server/game_board.c, one bit of `data` for each pixel.
--   Stack: src/common/stack.c, the array with its spare places.
--   EventsStorage: src/server/events_storage.c. Stored says which events a storage holds.
--   SendEvents: `send_events` of src/server/main.c. Packing is the greedy grouping that it is
--     compared with.
--   Game: src/server/game.h and src/server/game.c. Lobby has the operations of clients and the
--     restart, Sorting `sort_players`, Tick the start of a game and a round; Standing, Moving,
--     Emitting, Rounds, Starting, Ordering, Invariant, Progress, Waiting and Safety are proofs. The
--     step relations are `Moves` for one player in a round, `Comes` for a player on a new place, and
--     `Plays` for the loop; `Acts` is the effect of a step on flags, counters and events.
--   ServerArgs: src/server/server_args.c and the number parsers of src/common/utils.c, with `strtol`
--     and `getopt` as parameters.
--   Clients: src/server/clients.c, with the file descriptors as numbers.
--   GuiMessages: src/client/gui_messages.c, the texts for the graphical interface.
--   Server: the handlers of src/server/main.c on one record of its global variables. Loop is a
--     turn of its main loop; Publishing, Loop/Actions and Loop/Turns are proofs.
--   ClientArgs: src/client/client_args.c, with `strtol` and `getopt` as parameters.
--   GameClient: src/client/game_client.c, the datagrams of the client.
--   GuiClient: src/client/gui_client.c, the stream between client and interface.
--   Client: src/client/main.c. The root has the handlers, Session the start and the loop of `main`;
--     Keys, Ordered, Playing, Accepting, Complete, Kept, Running and Ticking are proofs.
--   LinkedList: src/common/list.c, its nodes in a heap that is passed on. The other files use a
--     `list_t` as the list of its elements.
--   Examples: concrete inputs.
--
-- State is passed on explicitly: a function takes the object that the C function changes and
-- returns it beside the result. A failed assert, an access outside an object and a use of an
-- uninitialised value are `none`, or `fault` where the code also returns -1 (`refused`). Machine
-- integers are natural numbers with the wrap-around written out. A `list_t` of players is the list
-- of its elements, which `list_add` copies; allocation for a list, and for the board of a game that
-- is restarted, succeeds. Whether `realloc` finds memory, whether `send` takes a datagram whole, and
-- what `recv` answers when the buffer is full, are arguments. The floating-point numbers of a
-- player are a parameter, `Reals`: the C library computes `cos`, `sin` and `floor`, and what is
-- assumed of them is that half a pixel right of a whole number is rounded down to that number, and
-- that a number from 0 up to a bound is rounded down below that bound. `strcasecmp` is modelled in
-- the C locale.
--
-- Loops over lists are structural recursion. `sort_players` runs on fuel, the number of players; each
-- round removes one, and `sort_players-Sorted` shows that none is left. The loop of `send_events`
-- counts the events that are left, and that of `deserialize_names` the free places of its array.
--
-- The loop of `game_client_recv` has a round for each byte as fuel, and each event takes a byte at
-- least; that of `gui_client_recv_event` likewise. The loop around `send` ends if each call takes a
-- byte. `list_remove_all` frees a node in each round, and the cells of the heap are enough rounds.
--
-- Not modelled: connecting, the set-up of sockets, timers and epoll in src/server/main.c,
-- src/client/main.c, src/client/game_client.c and src/client/gui_client.c, which only calls the
-- system; the release of memory outside src/common/list.c; and the graphical interface in
-- src/gui/gui2, a program of its own.
pub mod Prelude
pub mod Memory
pub mod Crc32
pub mod Rand
pub mod Messages
pub mod GameBoard
pub mod Stack
pub mod EventsStorage
pub mod SendEvents
pub mod Game
pub mod Client
pub mod ClientArgs
pub mod Clients
pub mod GameClient
pub mod GuiClient
pub mod GuiMessages
pub mod LinkedList
pub mod Server
pub mod ServerArgs
pub mod Examples
