-- ===== src/Lib.antt =====
-- The chat server wrongthink, modelled and verified.
--
-- The program. Clients call a gRPC service (WrongthinkServiceImpl.cpp) that keeps its data in a SQL
-- database (DB/DBPostgres.cpp, and DB/DBSQLite.cpp, which inherits it) and one live channel in
-- memory for each chat channel in use (SynchronizedChannel.cpp). Credentials travel in the metadata
-- of a call (Authentication/WrongthinkTokenAuthenticator.cpp), and an
-- interceptor (Interceptors/Interceptor.cpp) looks up bans before a handler runs. At its start the
-- program creates the tables that are missing (wrongthink.cpp).
--
-- The model. The state of the server is the record `Service` of Service.antt: the database `Db` of
-- Db/Tables.antt, seven tables of rows, and the map of live channels. Code that changes it and may
-- throw is an `Action` (Action.antt), which keeps what was written before a throw, since the source
-- uses no transactions. A handler returns its status, its response or the messages that it streams,
-- and the state.
--   * Db/Sql, Db/Sql/Schema and Db/Sql/Statements: the `create table` statements, the names in each
--     statement, and `execute`, which throws where a table or a name is missing. What a statement
--     does to the rows stands with the function that runs it: Db/Users (isUserValid, isUserAdmin,
--     isUserModerator, createUser), Db/Bans (banUser, isUserBanned, isIPBanned), Db/Channels
--     (createChannel, createCommunity, the row sets, getChannelRow), Db/Messages (the insert of the
--     send handlers, getChannelMessages). Db/Cells has the rows as SOCI hands them over.
--   * Db/Engine: what differs between database engines, and what the server relies on of them. The
--     theorems hold for each engine, under the laws that they name.
--   * Db/Setup: validate and clear. Db/Sql/Columns: the columns that each backend declares;
--     Db/Constraints: an insert checked against them. Db/Backends: the interface of
--     DB/DBInterface.h as a record, with the classes of DB/DBPostgres.h and DB/DBSQLite.h, and
--     Db/Sqlite: the methods that the latter overrides.
--   * Concurrent: calls that run at once on a shared state, by a schedule of their steps.
--     Db/Users/Threads, Db/Channels/Threads, Db/Bans/Threads and Db/Bans/Lookups: createUser,
--     createChannel and createCommunity, banUser, isUserBanned and isIPBanned, statement by
--     statement. Service/Accounts/Guarding and Service/Messaging/Entering: BanUser and the start of
--     ListenWrongthinkMessages in the same way. Server/Threads: all of them at once, and in its
--     child Ending how many steps each has left.
--   * Main: main of wrongthink.cpp, up to RunServer. Server: RunServer, each call through the
--     credential processor, the interceptor and its handler, and the program as a whole.
--   * Interceptor: Intercept of Interceptors/Interceptor.cpp.
--   * Auth: hasCredentials, getCredentials, addCredentials, GetMetadata, Process.
--   * Channel: SynchronizedChannel; Channel/Listeners: waitMessage in the loop of
--     ListenWrongthinkMessagesImpl, as a step relation; Channel/Wakeups: its notifications.
--   * Service: checkForChannel and the readers and writers; Service/Accounts (BanUser,
--     GenerateUser, CreateUser), Service/Places (communities and channels), Service/Messaging
--     (SendWrongthinkMessage, SendWrongthinkMessageWeb, GetWrongthinkMessages, and the start of
--     ListenWrongthinkMessages).
--   * Service/Messaging/Chat: an abstract chat, of posts and of messages handed to listeners, in
--     which what sending promises is said without keys, sequences and maps.
--   * Service/Messaging/Threads: SendWrongthinkMessageWeb step by step, in calls that interleave;
--     Service/Messaging/Watched: a listener among them.
--   * Service/Soundness: the calls of a client, and the integrity of the tables and of the map of
--     live channels.
--   * Tests: a PostgreSQL-like and a SQLite-like engine, and the theorems at a small chat.
--
-- Numbers. Keys and other `int32` fields that are stored and compared are their 32-bit patterns;
-- days and times, which are computed with, are signed, and their products wrap in 32 bits.
--
-- Loops. Loops over rows and lists are structural. `while (reader->Read(&msg))` runs on fuel, one
-- more than the number of messages, and the dash loops of GenerateUser on one more than the number
-- of characters; both are proved to be enough, by equations with functions that have no fuel.
--
-- Not modelled: log output, sockets, sessions and connection strings, the text of exceptions; the
-- generated protobuf classes beyond the fields that are used; the test client and the vendored
-- Boost library. In Service and Server, handlers run one at a time. In Channel/Listeners the
-- listeners run among senders in any order, and in Server/Threads all calls do, with each statement
-- and each use of `channelMap` as one step: a data race inside such a step is not modelled. What
-- gRPC does where an interceptor throws is left open: the call may go on to its handler or not. The
-- order in which gRPC calls the interceptor's hook points, and goes on to the handler, is an argument
-- of Server and of Server/Threads. A stream is prepared before its first message, which may throw on
-- a schema that is not complete: the statement is checked with each insert instead. What SOCI makes
-- of an `int` column and a `std::tm` is a parameter of Db/Engine with no law.
pub mod Base
pub mod Action
pub mod Concurrent
pub mod Proto
pub mod Db
pub mod Auth
pub mod Channel
pub mod Interceptor
pub mod Main
pub mod Service
pub mod Server
mod Tests
