-- ===== src/Lib.antt =====
-- webrun-wire carries HTTP, RPC and plain byte streams over any message channel. This library models its
-- core, translated from the TypeScript sources, and proves what makes it correct.
--
-- Streams: packages/webrun-streams/src. Several streams share one byte channel (emulate-mux.ts), each
-- with credit-based flow control in both directions (flow-control.ts).
--   Streams/Credit/Ledger is `newCreditLedger`, with `reserve`, `grant` and `fail`; a promise is a ticket, and an
--   operation gives back the promises that it settles. Streams/Credit/Grantor is `newCreditGrantor`.
--   Streams/Uint32 is uint32.ts. Streams/Varint and Streams/Mux/Frame are the frames of emulate-mux.ts, Streams/Queue its
--   `makeInboundQueue`, and Streams/Mux/State, Outbound and Inbound the state of `emulateMux` and its functions.
--   An object that several closures hold is numbered, and the table maps a stream's id to it.
--   Streams/Mux/Step has the events: what the application, the channel, an input or a consumer does, and the
--   point at which a pump goes on after an `await`.
-- Msgpack: packages/webrun-msgpack/src/msgpack-core.ts. Msgpack/Value has the JavaScript values, Msgpack/Encode is
--   `serialize`, Msgpack/Decode is `deserialize`, and Msgpack/Utf8 has `encodeUtf8` and `decodeUtf8`. `TextDecoder` and
--   `String` of an object are the parameter `Host`; DecodesUtf8 in Msgpack/Texts states what is relied on.
-- Http: packages/webrun-http-streams/src. Http/Bytes is the `ByteReader` of bytes.ts, Http/Headers is
--   http1/headers.ts and Http/Chunked http1/chunked.ts. Http/Hosts has the host grammar of headers.ts and `splitTarget`;
--   Http/Bodies and Http/Messages are http1/encode.ts and http1/decode.ts. The constructor `new URL` is the
--   parameter `is_url`; what a generator throws stands beside what it yields.
-- Events: packages/webrun-http-events/src. Events/Broker is broker.ts.
-- Browser: packages/webrun-http-browser/src. Browser/MountTable is
--   relay/mount-table.ts, Browser/HandlerTable is sw/handler-table.ts, and Browser/WsFrames is ws/frames.ts.
-- Rpc: packages/webrun-rpc/src. Many virtual ports share one message port (multiplex-port.ts, virtual-port.ts). Rpc/Estimate is
--   `estimateMessageSize`, Rpc/Credit the `Credit` record with `flush`, `grant` and the windowed `deliver`, Rpc/Credit/Link two
--   such ends and the pipe between them, Rpc/Framing the frames of a large message at both ends, and Rpc/Ring the
--   fair-framing ring. Rpc/PortMux puts them together: State has the tables, Send what goes out, Ends how ports and
--   the mux begin and end, Frames and Receive `handleEnvelope`, Keepalive its timer, and Step the events. A port
--   is named by its place in `ports`, which the table's entries refer to as the closures of `attach` refer to their
--   `c`. A callback (`onPort`, a listener, a close signal) runs after the operation that calls it, as an event of
--   its own; only its answer is there at once. Rpc/PortMux/Stable carries a property of the table, the reassembly
--   count, the sent envelopes and the closed flag through every operation, once for all; Rpc/PortMux/Charges
--   counts what the partial messages of a table hold, and Rpc/PortMux/Accepting follows one frame.
-- Common has the library's names that all share, lists and options over native numbers, and maps.
--
-- Numbers are natural numbers; a 32-bit step keeps its `% 2 ^ 32`. Fuel: `read` of Msgpack/Decode has one unit more
-- than there are bytes, and a nested call stands behind at least one byte; `encode_loop` of
-- Streams/Varint has five, for five groups of seven bits hold 32; `read_header_section` and `read_trailers` have one
-- more than their bound in bytes, of which each round uses two; `read_data` has the size that is left and
-- `read_length` of Http/Bodies the length.
-- `pump_loop` of Rpc/PortMux has one unit for each turn and item of the ring, `free_id` one for each open port, and
-- `split_from` one for each byte. `decode_chunked` and `read_body` take their fuel as an argument: one more than
-- the number of chunks is enough.
--
-- Not modelled: the ServiceWorker behind its handler table, its links, the relay behind its mount table, RPC above the ports
-- (duplexOverPort, callPort, listenPort), the envelopes
-- and streams of http-streams beside its HTTP/1.1 codec, and the adapters to third-party transports, which mostly call those. Of the
-- modelled files: `invalidTypeReplacement` and the growth of the output buffer of msgpack-core.ts,
-- `peekByte` and `discard` of bytes.ts, and sources that fail there; of multiplex-port.ts: `ports`,
-- `describeKinds`, the checks of the options, the copy that `structuredClone` makes of a waiting message (a value here
-- is never changed), and what a callback does to the mux before it returns.
pub mod Common
pub mod Rpc
pub mod Streams
pub mod Msgpack
pub mod Http
pub mod Events
pub mod Browser
