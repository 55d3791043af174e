-- ===== src/Lib.antt =====
-- quic-tracker: the parts of a QUIC client that read and write the wire format and keep track of
-- what was received, acknowledged and sent.
--
-- The program is a connection (connection.go) that a set of agents (agents/) shares. A datagram is
-- decrypted and read as a packet (packets.go), whose payload is a list of frames (frames.go). STREAM
-- and CRYPTO frames are given to their streams (streams.go) while the payload is read. The numbers
-- of the packets received wait in a queue until GetAckFrame makes an ACK frame of them, and the
-- recovery agent keeps the frames of the packets sent until an ACK frame covers them.
--
-- Files:
--   Base, Base/*    Boolean tests, lists, bit masks, and calls that return or panic.
--   Reader          bytes.Reader, as a list of the bytes that are left, and the reads on it.
--                   Reader/Shrinks: no read adds bytes.
--   VarInt          lib/varint.go. VarInt/RoundTrip: encoding and decoding. VarInt/Value: the type
--                   VarInt of common.go. VarInt/Shrinks: reading takes a byte.
--   Intervals       streams.go, byteInterval and byteIntervalList. Intervals/Bounds: they stay
--                   within the data received.
--   Stream          streams.go, Stream and addToRead. Stream/Invariant: the bookkeeping.
--                   Stream/Delivery, Stream/Zeros: what is handed on.
--   Stream/Send     frames.go, NewStreamFrame and NewCryptoFrame.
--   Streams         streams.go, the map of streams. Streams/Interleaved: frames of many streams.
--   Frame           frames.go, the types of the frames. Frame/Write: writeTo. Frame/Length:
--                   FrameLength. Frame/Read: NewFrame and the readers. Frame/Wire: which frames
--                   can be written, and their bytes. Frame/RoundTrip, Frame/LengthLaw: how the
--                   three agree. Frame/Shrinks, Frame/Progress: reading takes bytes.
--   Ack             connection.go, GetAckFrame; frames.go, GetAckedPackets. Ack/Sort: the queue's
--                   order. Ack/Correct, Ack/Duplicates: queues without and with duplicates.
--                   Ack/Covered: GetAckedPackets.
--   Recovery        agents/recovery_agent.go. Recovery/Acked: ProcessAck.
--                   Recovery/Agent: the loop of Run. Recovery/Retransmit: RetransmitBatch.
--   BufferAgent     agents/buffer_agent.go, the loop of Run.
--   AckAgent        agents/ack_agent.go, the loop of Run. AckAgent/Answers: the queue.
--                   AckAgent/Acked: the ACK frames.
--   Level           crypto.go, the encryption levels.
--   SendAgent       agents/send_agent.go, the loop of Run. SendAgent/Merge: mergeAckFrames.
--                   SendAgent/Counts, SendAgent/Conserved: the frames it holds. SendAgent/Sent: the
--                   frames it sends. SendAgent/Merged: merged ACK frames.
--   PacketNumber    common.go, packet numbers and their truncation. PacketNumber/Recovered: what
--                   Join gives back.
--   Header          headers.go, long and short headers. Header/Make: the constructors.
--                   Header/Methods: the methods that both have. Header/Cids: the byte of two
--                   lengths. Header/Wire: the bytes of a long header. Header/Long: a long header
--                   written and read. Header/Masked: one with a masked packet number.
--   Packet          packets.go, the frames of a packet. Packet/Payload: writing and reading them.
--                   Packet/Progress: the loop ends. Packet/Make: the constructors.
--                   Packet/Negotiation, Packet/Retry: the packets without frames.
--                   Packet/Incoming: the readers of packets.
--   Protection      connection.go, SendPacket, and agents/parse_agent.go: the mask on the header;
--                   crypto.go, GetPacketSample. Protection/Mask: the bytes that it leaves.
--   Crypto          crypto.go, the keys of a level.
--   Connection      connection.go, ProcessVersionNegotation, TransitionTo, CloseConnection;
--                   agents/closing_agent.go. Connection/Send: SendPacket. Connection/Sealed: the
--                   datagram it writes. Connection/Initial: GetInitialPacket, TransitionTo.
--                   Connection/Padding: the length of the first datagram.
--   ParseAgent      agents/parse_agent.go, the loop of Run. ParseAgent/Ends: the loop over a
--                   datagram ends. ParseAgent/Opened: a packet that is decrypted.
--                   ParseAgent/RoundTrip: a packet that SendPacket wrote.
--   HandshakeAgent  agents/handshake_agent.go, the loop of Run. HandshakeAgent/Sound: the states
--                   that it gets to.
--   TlsAgent        agents/tls_agent.go, the loop of Run; crypto.go and common.go, the maps of epochs.
--                   TlsAgent/Announced: the levels it announces.
--   RttAgent        agents/rtt_agent.go, the loop of Run and UpdateRTT. RttAgent/Bounds: the estimates.
--   TransportParameters
--                   transport_parameters.go. TransportParameters/Received: what the peer learns.
--   Http3           http3/http3.go, the frames of HTTP/3. Http3/Read: the readers. Http3/Wire: their
--                   bytes. Http3/RoundTrip, Http3/Settings: reading what was written, and reading
--                   anything.
--   HttpAgent       agents/http_agent.go, attemptDecoding and peekVarInt. HttpAgent/Pieces: the length of
--                   a frame that is peeked at. HttpAgent/Cuts: a stream that comes in two pieces.
--   Examples, Examples/*
--                   the theorems at concrete inputs; Stream/Tests, Base/Tests: runs.
--
-- Conventions. Numbers are natural numbers, and where the source computes on uint64 or uint16 the
-- wrap-around is written out; an `int` made of a uint64 is taken for the same number, which it is
-- below 2 ^ 63. A byte is a number, and no theorem needs it to be below 256 unless it says so. A
-- call that panics has the result `panic`; an error that the source discards is the zero value
-- that Go returns beside it. Go's `make` panics past 2 ^ 48 bytes. A map is an association list;
-- a map of pointers to streams holds the streams, and what is done to a stream through its
-- pointer is put back under its id, if the map holds that id. What a stream hands to ReadChan is
-- kept as the list of the slices submitted. The loop that reads a payload runs on fuel, one more
-- than the number of bytes, which is enough since every frame takes a byte or more; the loops
-- that read HTTP/3 settings and that take HTTP/3 frames out of a stream likewise. The loops of
-- the agents are functions on a record of their variables, one call for one message or timer; a
-- timer is a flag that says whether it is armed, and what an agent submits or sends is kept as a
-- list. The cipher of the header's mask is a parameter, a function from a sample to its mask, and
-- so are the two functions of mint/syntax that put transport parameters into bytes and back.
--
-- The round-trip estimate is computed in float64, which is exact below 2 ^ 50 microseconds; the model
-- computes on whole numbers.
--
-- Not modelled: the goroutines and channels of the agents, the socket, the TLS, QPACK and capture
-- libraries, the scenarios and the command lines.
pub mod Base
pub mod Reader
pub mod VarInt
pub mod Intervals
pub mod Stream
pub mod Streams
pub mod Frame
pub mod Ack
pub mod Recovery
pub mod Packet
pub mod Examples
pub mod PacketNumber
pub mod Header
pub mod BufferAgent
pub mod Http3
pub mod Level
pub mod SendAgent
pub mod AckAgent
pub mod Connection
pub mod Protection
pub mod TransportParameters
pub mod Crypto
pub mod ParseAgent
pub mod HandshakeAgent
pub mod RttAgent
pub mod TlsAgent
pub mod HttpAgent
