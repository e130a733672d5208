-- ===== src/Lib.antt =====
-- Verification of the HTTP framework hertz-study.
--
-- The framework reads requests and writes responses over its own byte tools: internal/bytesconv
-- converts numbers and quotes text, pkg/protocol/args.go keeps the arguments of a query or a form
-- on top of it, contrib/websocket turns a connection into one of frames and messages, and
-- pkg/app/client decides how long to wait for a retry and which instance of a service to call. The
-- engine of pkg/route finds the handlers of a request in the router of its method; they run as the
-- chain of pkg/app/context.go, of which the one in pkg/app/fs.go reads the range of a file. The library has one module tree for each of these.
--
-- Base: the shared helpers. Numbers are natural numbers; a Go `int` is `ℤ`, and `signed64` says
--   which one a 64-bit pattern is. A byte string is a list of numbers, and a theorem that needs them
--   to be bytes says so. `if`, `==`, `ltb` and `leb` are the code's tests.
--
-- Bytesconv: internal/bytesconv. Tables holds the tables of bytesconv_table.go as they stand there,
--   Generator the functions of bytesconv_table_gen.go that make them, Lookup the access to them,
--   Errors the errors, Decimal ParseUint, ParseUintBuf and AppendUint, Hex ReadHexInt and
--   WriteHexInt, Quote AppendQuotedArg and AppendQuotedPath. Sums wrap at 2 ^ 64, as on a 64-bit
--   machine; the 32-bit build differs by one constant and is not modelled. AppendUint runs on the
--   20 places of its buffer, and leaving it is the panic of an index.
--
-- Args: pkg/protocol/args.go. Decode holds decodeArgAppend and decodeArgAppendNoPlus, Store the list
--   of pairs with setArg, peekArg, hasArg and delAllArgs, without the spare pairs that the code
--   reuses, Query the
--   argsScanner, ParseBytes, AppendBytes and the methods of Args. ParseBytes runs on fuel, one round
--   for each byte and one more: every round takes a byte at least.
--
-- WebSocket: contrib/websocket. Mask holds maskBytes of mask.go and of mask_safe.go, Close the close
--   codes and messages, Conn the state of a connection, Write the frame and message writer, Read the
--   frame reader, NextReader and the message reader. A step that may fail gives a Result and the new
--   state. The network is the input that will still come, the error behind it, and the output so
--   far. `World` says what the outside does at one write: the lock, an error with the bytes that got
--   out before it, and the random mask key. Reading and writing take the masking of mask_safe.go.
--   A word has 8 bytes, and `misaligned` is the address of a buffer modulo 8. NextReader runs on
--   fuel, one round more than there are bytes of input: every frame takes two bytes at least. The
--   write loop has one round for each byte, and the message reader two more than its input has bytes.
--   bufio.Reader gives a chunk of at most a given size, and may give the error behind the input with
--   its last bytes. The handlers are a parameter, with the default ones as a definition; utf8.ValidString and
--   strconv.Itoa are written out. Read/Header and Read/Handle are the steps of advanceFrame.
--   EndToEnd joins the two halves.
--
-- Client: pkg/app/client. Retry holds the delay policies, CombineDelay and Delay of retry/retry.go,
--   Weighted the balancer of loadbalance/weight_random.go with its cache. Durations and sums of
--   weights are 64-bit ints. The random numbers are a parameter.
--
-- App: Chain holds the index of a RequestContext of pkg/app/context.go with Next, Abort and IsAborted,
--   and combineHandlers of pkg/route/routergroup.go. The index is an int8, kept as its 8-bit pattern;
--   a handler is the sequence of its calls of Next and Abort. Next runs on fuel: one round for each
--   handler and one more are enough for handlers that call Next at most once. ByteRange is
--   ParseByteRange of pkg/app/fs.go; the length of the file is a natural number.
--
-- Route: the router of pkg/route/tree.go. Tree holds the nodes, Text the tests on paths, Insert
--   insert, AddRoute checkPathValid and addRoute, and Find find. A list of nodes is a chain of
--   nodes, a handler is a number, and nil is the empty chain of handlers. A node has no parent
--   pointer: the search keeps the nodes above the current one. The gotos of find are three places
--   between which its loop steps, on fuel: Find/Refines shows that some fuel is enough for each
--   tree and path, and that more changes nothing. url.QueryUnescape is a parameter. Seek is the
--   search as a recursion, Routes the list of routes that a tree stands for and the first of them
--   that matches a path; neither is in the source. Formed says which trees are well-formed.
--   AddRoute/Register adds a list of routes, AddRoute/Answers joins it with find. The capacity of
--   the parameters and findCaseInsensitivePath are left out. Engine is addRoute of
--   pkg/route/engine.go, with the routers of the methods, and the part of ServeHTTP that chooses what
--   answers a request; it searches with the same fuel in each router.
--
-- Not modelled: what only calls other packages (the HTTP date, compress/flate, the deadlines of a
-- connection, sync.Pool), the fields that no modelled operation reads, and the parts of the framework
-- that are not named above: the life cycle of the engine, URIs, headers, cookies, bodies, the serving
-- of files, the rest of the contexts, the connections of the client and the transports.
mod Base
pub mod Bytesconv
pub mod Args
pub mod WebSocket
pub mod Client
pub mod App
pub mod Route
