-- ===== src/Lib.antt =====
-- A model of libdoip, a C++ library for diagnostics over IP (ISO 13400): a server that speaks
-- UDP, TCP and TLS to a tester, and a client.
--
-- The program's parts, and the files that model them:
-- * libdoipcommon/src/DoIPGenericHeaderHandler.cpp, the generic header that starts each message.
--   Header: parse_generic_header is parseGenericHeader, create_generic_header is
--   createGenericHeader. Header/Codes states the protocol's table of types and lengths apart from
--   the code, and where the code lets other lengths through; Header/Parse, Header/Length and
--   Header/Create hold the proofs.
-- * libdoipcommon/src/DiagnosticMessageHandler.cpp. Diagnostic: the builders of diagnostic
--   messages and acknowledgments; Diagnostic/Receive: parse_diagnostic_message;
--   Diagnostic/Create: the bytes.
-- * libdoipserver/src/RoutingActivationHandler.cpp. Routing and Routing/Laws.
-- * libdoipserver/src/VehicleIdentificationHandler.cpp. Vehicle and Vehicle/Laws.
-- * libdoipcommon/src/AliveCheckTimer.cpp. Timer and Timer/Laws; the loop of its thread is
--   wait_for_response in Connection/Transport, since the callback closes the connection.
-- * libdoipserver/src/DoIPConnection.cpp. Connection/State holds the members;
--   Connection/Transport reads, writes and closes over TCP or TLS, with Storing and Reading (the
--   read loop), Stream (what it reads), Threadless, Failing, Sending and Closing below it;
--   Connection/Handlers reacts to messages, with Replies, Activation, Diagnostics, Writing,
--   Oversized and Termination below it. Transport/Frame, Handlers/Frame and Handlers/Receiving
--   carry a predicate through everything that receiving a message does, given that each single
--   change keeps it (Exec/Keeps); Handlers/Answering does so for what the application sends, and
--   Handlers/Conjunction joins two predicates. Connection/Lifetime (what is closed and freed),
--   Connection/Delivery (the bytes received), Connection/Specification (the abstract machine) and
--   Connection/Safety (what a session needs for a run without faults, Exec/Safe) are such
--   predicates; Transport/Faultless, Handlers/Faultless and Handlers/Returning follow such a run,
--   with Header/Fit for what the header parser sets and Diagnostic/Receive/Faultless for a
--   diagnostic message. Handlers/Framing says which bytes make a message; Handlers/Departing and
--   Handlers/Admitting are the runs when the client has gone and when it asks for routing.
-- * libdoipserver/src/DoIPServer.cpp. Server/State holds the members and setters (and
--   Server/State/Identifiers the bytes of an identifier), Server/Sockets the setup, accept and
--   close calls (Server/Sockets/Waiting how accepting ends, in the terms of Exec/Ends),
--   Server/Udp the datagrams and announcements, with Answers and Announcements below it.
-- * libdoipclient/src/DoIPClient.cpp. Client/State, Client/Requests and Client/Replies;
--   Client/Replies/Identification reads an identification back. Client/Display is what
--   displayVIResponseInformation prints.
-- * What one part builds and another part reads. Exchange.
-- * examples/exampleDoIPServer.cpp. Example: the callbacks, as an application of the library, and
--   handle_client, which serves a client; Example/Program: the listening threads and main. Below
--   them, Frame, Counter and Serving carry predicates through handle_client, Ending and
--   Refinement are what comes out, Faultless, Returning and Served are about runs without faults,
--   Departing is the run for a client that has gone, Answers is what it replies,
--   Program/Accepting and Program/Main are the rest.
-- The server's accept calls give a connection; a connection reads a header, has it parsed, reads
-- the payload and hands it to the routing or diagnostic part; the diagnostic part calls the
-- application.
--
-- How code is modelled. Bytes are numbers below 256, conversions and shifts are written out, and
-- an int that can be negative is an element of ℤ. An array made by new has cells that are none
-- until they are written; a read of such a cell, of a pointer that was never set, or outside an
-- array is undefined behaviour, which is none in code that only uses memory (Base/Memory) and
-- undefined in code with effects (Exec). A C++ exception is throws. Memory is never exhausted,
-- and output to the console is left out but for displayVIResponseInformation. The operating
-- system and OpenSSL are a record of functions (System, Server/State, Client/State): every call
-- is added to a trace, and what it returns is any function of that trace. Every call returns: a
-- write to a connection that its peer has reset raises SIGPIPE, which ends the program unless the
-- signal is ignored; the library does not ignore it, and the model is of the runs in which no
-- such signal is raised or it is ignored. Named hypotheses say what is documented of the reads,
-- among it that one read stores fewer than 2^31 bytes, so that its result fits the int that keeps
-- it. The global server of the example has static storage, so that its members start as zero; a
-- server made otherwise has members without a value. The timer's thread may make a round each
-- time that a read has returned (timer_turn); it is not switched to at other places, so races
-- within a function are not modelled. The clock does not run backwards.
--
-- Fuel. receive_loop has as many rounds as bytes are wanted, and each round but the last stores
-- one. connect_loop, which the code ends only when the connection is made, takes its fuel as an
-- argument and diverges without any left. The loop of handleClient (serve) diverges without any
-- left too; each round in which the connection stays open has read a header of eight bytes, so a
-- client that sends fewer than eight times as many bytes as there are rounds is served to the
-- end. The loops of listenTcpOrTls and listenUdp, which are meant to go on, are modelled by their
-- first so many rounds. All other loops are counted.
--
-- Not modelled: the unit tests; examples/tls_example.c, a sample of OpenSSL's use, and
-- examples/unique_ptrs_it.cpp, an experiment with iterators, which are no part of the library;
-- the interleaving of the example's threads but for the order of the UDP thread and the
-- announcement. The counter of the example is shared by its threads; a client thread is modelled
-- as if it alone changed it.
mod Base
pub mod Exec
pub mod Header
pub mod Diagnostic
pub mod Routing
pub mod Vehicle
pub mod System
pub mod Timer
pub mod Connection
pub mod Server
pub mod Client
pub mod Exchange
pub mod Example
