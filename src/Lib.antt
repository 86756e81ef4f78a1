-- ===== src/Lib.antt =====
-- zbc-go: the Go client for the Zeebe broker.
--
-- The client talks to the broker in frames: a frame header, a transport header, a request-response
-- header or none, an SBE message header and an SBE message, whose variable data holds MessagePack.
--
-- Which file models what:
-- - Wire: errors and panics as values, and what the codecs take from Go's library: io.ReadFull,
--   encoding/binary in both byte orders, bytes.Buffer. A byte slice is a list of numbers, a reader
--   the bytes that it has left, a writer the bytes that it has got. Wire/Streams is the calculus by
--   which the codecs' do blocks are proved.
-- - Sbe/Field, Sbe/Enums, Sbe/Utf8: what the generated codecs of zbc/sbe share. The code of zbc/sbe
--   is generated field by field, each field by one of a few patterns; a pattern is one function here,
--   and the constants of a field are a record.
-- - Sbe/<Type>: zbc/sbe/<Type>.go, its Encode, Decode and RangeCheck as encode, decode, range_check.
-- - Protocol: zbc/protocol. Message: zbc/message.go. Writer: zbc/writer.go.
-- - Reader: zbc/reader.go. Reader/Buffer is bufio.Reader over a connection that delivers segments;
--   Reader/Headers is ReadHeaders, and Reader/Parse is ParseMessage.
-- - Request: zbc/request.go. Request/Values is map[string]interface{}.
-- - Client: zbc/client.go, its tables and one round of receiver (receive, dispatch). Client/Steps is
--   the relation by which the goroutines take turns: the receiver, the calls of Responder (register,
--   finish), the users of subscriptions and the end of TaskConsumer (subscribe).
--   Client/Promise is what the client promises, without tables, connection and receiver, as a relation
--   with actions; Client/Matching/Refinement and Client/Matching/Simulation relate the two.
--   Client/Calls is Responder and TaskConsumer as the two programs below see them.
-- - Cmd: cmd/main.go, zbctl. A run prints lines (Cmd/Printing) and ends well, or by an exit or a
--   panic; Cmd/Actions has the actions of the commands, and the table of commands.
-- - TaskService: examples/task-svc/main.go. Its loop (work) takes the list of what its rounds select;
--   TaskService/Views has the handlers of requests.
-- - Tests: runs of the model, and the theorems at concrete inputs.
--
-- Integers are natural numbers, and an int32 (Sbe/Signed) is an integer; that a field fits its Go
-- type is a hypothesis (Fits). A nil pointer is none, and its dereference the outcome panic. A nil
-- slice is the empty list. The MessagePack library is two parameters, marshal and unmarshal. Field
-- Data is spelled data_bytes and Length of a frame frame_length. A connection is the list of
-- segments that it still delivers, and a read gives at most one of them; a write to a closed
-- connection is an answer of the parameter conn_write. A channel is named by what it was made for,
-- so that a step can tell the channels apart; a missing key of a table reads as the nil channel. A
-- step of the client is atomic: the code guards its tables by no lock, and what a data race on them
-- does is not modelled. A panic of the receiver leaves it crashed, while Go would end the process.
--
-- The loop of align runs on fuel: seven rounds, since fewer than eight bytes are missing.
--
-- In Cmd and TaskService, what a call of Responder ends with is a parameter (answer), and NewClient is
-- its error. The files, YAML, TOML, JSON and MessagePack are parameters too, and so is the request id
-- that a constructor draws. The endless loops of the two programs run over what arrives: at the end of
-- the list they wait. A stop channel is a number, and a request to /stop is over when each worker in
-- the table has taken its true.
--
-- Not modelled: the dialling in NewClient; what the client and the service log; how the cli package
-- splits the command line; the HTTP server, which may run two handlers at once; and the vendored
-- libraries.
pub mod Common
pub mod Wire
pub mod Sbe
pub mod Protocol
pub mod Message
pub mod Writer
pub mod Reader
pub mod Request
pub mod Client
pub mod Cmd
pub mod TaskService
pub mod Tests
