-- ===== src/Lib.antt =====
-- A model of ilp-protocol-stream, the transport of money and data over Interledger packets, and what
-- is proved of it.
--
-- A connection (src/connection.ts) multiplexes streams (src/stream.ts) over packets (src/packet.ts).
-- A stream holds money for packets on the way and keeps data to be sent in a queue
-- (src/util/data-queue.ts) and data that arrived out of order in a sorter
-- (src/util/data-offset-sorter.ts). The connection splits the amount of an incoming packet over its
-- streams by their shares, counts totals, undoes rejected packets, and chooses packet sizes with a
-- congestion controller (src/util/congestion.ts). Arithmetic is on unsigned 64-bit numbers
-- (src/util/long.ts) and fractions of them (src/util/rational.ts); receipts (src/util/receipt.ts) are
-- signed totals. A server (src/server.ts) generates addresses whose tokens a pool (src/pool.ts) opens
-- as connections.
--
-- Files, and what they model:
--   Base, Base/...            shared names, lists, results, Boolean tests, association lists
--   Long                      src/util/long.ts: maxLong ... multiplyDivide, one function for each
--   Long/Interface            the `long` package, as the interface LongApi
--   OffsetSorter              src/util/data-offset-sorter.ts: OffsetSorter
--   DataQueue                 src/util/data-queue.ts: DataQueue
--   Stream                    src/stream.ts: the state of a DataAndMoneyStream
--   Stream/Money              its limits and holds: setSendMax ... _cancelHold
--   Stream/Data               its outgoing data: _getAvailableDataToSend, _resendOutgoingData, _write
--   Stream/Reading            its incoming data: _read, _pushIncomingData, _remoteEnded
--   Stream/Waiting            sendTotal and receiveTotal
--   Stream/Ending             _final, _destroy and _writev
--   Oer                       the `oer-utils` package, as the interface OerApi
--   Crypto                    src/util/crypto-node.ts; Node's ciphers are the interface CryptoApi
--   Packet                    src/packet.ts: frames, serialization and parsing
--   Packet/Padding            serializeAndEncrypt and decryptAndDeserialize
--   Rational                  src/util/rational.ts
--   Receipt                   src/util/receipt.ts
--   Congestion                src/util/congestion.ts
--   Connection                src/connection.ts: the state and the constructor
--   Connection/Updating       the change of one stream of the map
--   Connection/Totals         addIncomingHold ... addTotalDelivered, getNextPacketSequence
--   Connection/Shares         the amounts for the streams in handlePrepare
--   Connection/Streams        createStream, handleNewStream, removeStreamRecord
--   Connection/Rejects        undoRejectedPacket, handleConnectorError
--   Connection/Offsets        getOutgoingOffsets, getIncomingOffsets, frames that announce windows
--   Connection/Control        handleControlFrames and handleStreamClose
--   Connection/Prepare        handlePrepare: new streams, the window and the amount
--   Connection/Prepare/Fulfilling   its later stages: amounts, consent, credit, the response
--   Connection/Prepare/Handler      its stages in order
--   Connection/Sending        loadAndSendPacket: the money of a packet
--   Connection/Filling        loadAndSendPacket: its frames, up to the call of sendPacket
--   Connection/Responses      sendPacket from the response on, the end of loadAndSendPacket
--   Connection/Discovery      the test packets: sendTestPacketVolley, sendTestPacket
--   Connection/Discovery/Rates   what their results mean: determineExchangeRate, setupExchangeRate
--   Connection/SendLoop       startSendLoop
--   Connection/Closing        sendConnectionClose, end, destroy, stopTimers
--   Connection/Reaching       the connections that can come about, as steps of all these operations
--   Connection/Idle           startIdleTimer, testIdle, bumpIdle
--   Crypto/Browser            src/util/crypto-browser.ts; WebCrypto is the interface WebCryptoApi
--   Crypto/Keys               the keys and tokens of src/crypto.ts and src/util/crypto-node.ts
--   Server                    src/server.ts: generateAddressAndSecret, the identifier in an address
--   Pool                      src/pool.ts: the connection that a token opens
--   Pool/Requests             src/pool.ts: getConnection as a state machine
--   Tests, Tests/...          stand-ins for the packages, and examples of the theorems
-- The modules below these hold proofs, and are named for what they prove.
--
-- State is a record that a function takes and returns; a call that can throw returns a Result, or,
-- where it changes the state before it throws, an Outcome or an Answered with both. Calls that go on
-- by themselves (destroy, end, startSendLoop), events and what goes into Node's buffers are returned
-- as effects. What runs concurrently, the send loop, timers and promises, is a sequence of events, in
-- any order that the code admits. An unsigned Long is a number, and wrap-around is written out as
-- `% 2 ^ 64`. A Buffer or a string is a list of numbers, a Map an association list. Packages are
-- interfaces whose laws are their documentation: LongApi, OerApi, CryptoApi, WebCryptoApi, Base64Api
-- and NumberApi (what Long.fromNumber makes of a double), filled by stand-ins in Tests. How full
-- Node's buffers are, shouldFulfill, the texts of messages and the responses to packets are arguments.
--
-- Loops on fuel: multiplyDivide runs one round for each bit of its first factor, 64 for a Long;
-- countDigits one for each decimal digit, 20 for a Long; _read one call for each entry of the sorter and
-- one more. All three are proved to end by themselves within that. The discovery of the exchange rate
-- sends at most 15 volleys, as the source does (TEST_PACKET_MAX_ATTEMPTS); the first has 5 packets and
-- each further one at most one more, so that 180 bounds them all.
--
-- What a call that goes on by itself does before its first await (startSendLoop and destroy may take
-- packet numbers there) is an effect as well, which follows the call; Reachable has such numbers as
-- steps of their own. In the send loop, a discovery with all its test packets is one event and a
-- reject with a temporary error is followed by the next turn at once; a close packet takes a number and
-- closes the peer, and is not one of the loop's runs.
--
-- Not modelled: connect of a connection, which waits for events; what happens to the state while
-- shouldFulfill is awaited, or within a discovery of the exchange rate; Node's stream classes;
-- logging; the rest of the server (src/server.ts: listen, close and the answers of handleData);
-- createConnection (src/index.ts); and conversions from floating-point numbers and text. longFromValue
-- is applied before the model's functions are.
pub mod Base
pub mod Long
pub mod OffsetSorter
pub mod DataQueue
pub mod Stream
pub mod Oer
pub mod Crypto
pub mod Packet
pub mod Rational
pub mod Receipt
pub mod Congestion
pub mod Connection
pub mod Server
pub mod Pool
pub mod Tests
