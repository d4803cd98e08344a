-- ===== src/Lib.antt =====
-- wheatserver: a verification library for the wheatserver network server.
--
-- The server's workers read each client's bytes into a chain of fixed-size buffers
-- (src/worker/mbuf.c), pass slices of them (src/slice.c) to a protocol's parser, and send slices
-- back. The modules model these parts and the containers they stand on.
--
--   Slice    src/slice.c. A pointer is the memory that can be read from it on; NULL is `none`.
--            `create`, `to`, `clear`, `remove_prefix`, `start_with`, `compare_slices` are
--            sliceCreate, sliceTo, sliceClear, sliceRemvoePrefix, sliceStartWith, sliceCompare.
--   Memory   the C library's memcpy and the block that malloc and realloc give: what they leave
--            unspecified is the parameter `junk`, over which every theorem quantifies.
--   Array    src/array.c, with the record and an operation under each function's name. Sizes are
--            `size_t`, modulo 2 ^ 64. The specification is the list of the elements.
--   Mbuf     src/worker/mbuf.c. The list linked by `next` from `protected` on is a List, and
--            `last_read` and `last_write` are places in it; `stream` is what is written and not
--            yet read. An operation is `none` where an assertion fails.
--   Number   ll2string, string2ll and getIntLen of src/util.c. Machine integers are ℕ and ℤ with
--            the tests of the source written out.
--   Redis    src/protocol/redis/proto_redis.c: Command and Table are the
--            command constants and the switch of redisCommandHandle, Data the parser's data, and
--            Request redisReqParser, one function for each stage and the loop over the bytes.
--            Encode writes the format down that the source documents; Steps, Lines, RoundTrip and
--            Whole compose the parser's steps on it. An `int` that would leave its range is an
--            outcome of its own. Response is redisResParser in the same form, Protocol
--            parseRedis and the walk by redisBodyStart and redisBodyNext. Slices are taken to be
--            shorter than 2 ^ 63 bytes.
--   Memcache src/protocol/memcache/proto_memcache.c: Data is the parser's data, and
--            Request and Loop are memcacheParseReq, with a function for each stage and the loop.
--            The loop's `pos--` and `pos++` are taken together: a step that goes back stays.
--            Ends and Falls bound the steps; Gives composes them from the end; Words, Numbers, Lines
--            and Values are the parts of a request, and Encode writes the format down; RoundTrip,
--            Retrieval, Arithmetic and Delete are about whole requests;
--            Protocol is parseMemcache and the accessors.
--   WheatRedis src/app/wheatredis. Hash is hashInit and hashDispatch of hashkit.c, Choose is
--            handleClientRequests of redis.c, and Timeout what timeouts do to an instance and to a
--            read. An array is the function of its indices, and an instance its index. rand(),
--            malloc, MD5's value and sendRedisData are parameters; sending is taken to leave alone
--            which instances are alive. Counts, Fair, Shuffle, Fill, Populate and Init follow
--            hashInit's loops, Best, Picks and Requests the choice of instances. Config is how
--            redis_config.c reads a reply of the server that keeps the configuration.
--   Worker   src/worker. Receive is asyncRecvData of worker_async.c with readBulkFrom of
--            src/networking.c, over Mbuf. Send is the sending side of worker.c: sendPacket,
--            clientSendPacketList and what frees a connection; Calls are finishConn,
--            sendClientData, sendClientFile, tryFreeClient, asyncSendData and sendReplyToClient.
--            A connection is its place in the client's list. Moves says what is relied on of
--            write() and sendfile(); Packets, Queues, Serve, Changes and Pipeline follow the
--            bytes from the queues to the socket, Order is the order of the responses, Responses
--            whole lives of a client, Whole and Drain a socket that always takes some bytes.
--            Clients is the pool of createClient and freeClient, and clientsCron. Requests is the
--            loop of handleRequest, with the protocol and the application as parameters, Stream
--            what a stream of bytes comes to when the parser is shown pieces of it. The operating system is a
--            parameter: a state, and what its calls answer in it.
--   Stats    sendStatPacket and parseStat of src/stats.c, with a packet as the list of its fields.
--            Sums is about the sums over the workers, Atoi, Places and Sending about what a
--            worker sends.
--   Common   the booleans' tests, lists over the native ℕ, and sizes modulo 2 ^ 64.
--   Tests    runs at concrete inputs, and instances of the theorems.
--
-- Loops over a list or a count recurse on it. The digit loops of Number are on fuel, one more than
-- the number, which is more than it has digits; the theorems are about the functions with that
-- fuel. The request parser's loop takes its fuel as an argument, and one unit for each byte is
-- enough for a whole request. sendPacket has a unit for each byte and one more, and the loop over
-- a client's connections one for each connection and one more, since each turn sends a byte at
-- least, or removes a connection but for the last turn. handleRequest's loop takes more fuel than
-- there are unread bytes, which is enough unless the parser counts no byte. The Memcache parser has three units for each byte, which is more than
-- it can use. The receiving loop takes more fuel than the peer sends bytes, and the loop of
-- hashInit that looks for the next instance twice as much as there are tokens. A write or read
-- outside a block is `none`.
--
-- Not modelled: the HTTP protocol, the applications but for the proxy's choices, the start and the
-- main loop of a worker, and the containers of src/dict.c, src/wstr.c and src/slab.c; the event
-- loop, processes, signals, sockets, files and logging, which are system calls; the vendored HTTP
-- parser and MD5; the glue to Python and RAMCloud.
pub mod Common
pub mod Slice
pub mod Stats
pub mod Memory
pub mod Array
pub mod Mbuf
pub mod Number
pub mod Redis
pub mod Worker
pub mod Memcache
pub mod WheatRedis
mod Tests
