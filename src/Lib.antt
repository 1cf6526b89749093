-- ===== src/Lib.antt =====
-- MindsDB: models of the server's own logic, with the theorems that make it correct.
--
-- The server answers two wire protocols. A MySQL client talks to mindsdb/api/mysql/mysql_proxy:
-- bytes become packets (data_types/mysql_packet.py), packets have fields
-- (data_types/mysql_datum.py), the proxy (mysql_proxy.py) lets a client in and answers its
-- commands in a loop, and a session (controllers/session_controller.py) keeps the statements that
-- the client has prepared. A MongoDB client talks to mindsdb/api/mongo/server.py: a loop reads
-- messages, responders (mindsdb/api/mongo/classes) answer them, and replies go back.
--
-- Files. Prelude and its children hold what all parts share: lists measured by native numbers
-- (Lists), Python's exceptions as the type Result (Raise), byte strings and struct's integers
-- (Bytes), bits (Bits), text and the codec utf-8 (Text, StrEq), dictionaries with text keys
-- (Dict), with numbers (Table) and with any keys that compare (Key, Assoc), signed numbers (Int).
--
-- Wire has the formats. Wire.Datum models class Datum: set_from_buff is setFromBuff,
-- to_string_packet is toStringPacket, lenenc_int is lenencInt. Wire.Packet models class Packet:
-- get_packet_string and get, over a socket that is a list of segments. Wire.Bodies models the
-- bodies of the packets that the server sends, one definition for each class of
-- data_types/mysql_packets, and Wire.BinaryRow the class BinaryResultsetRowPacket.
-- Wire.Capabilities has the flags, Wire.Handshake the class HandshakeResponsePacket.
--
-- Session models register_stmt and unregister_stmt, and the cursor of answer_stmt_fetch in
-- mysql_proxy.py. Proxy models the connection: Proxy.Params and Proxy.Command the class
-- CommandPacket, Proxy.Auth check_auth and the choice of the password in handshake,
-- Proxy.Packages and Proxy.ResultSet the sending of tables (packet, last_packet,
-- send_package_group, get_tabel_packets, _get_column_defenition_packets, answer_select), where
-- making a packet passes the session's sequence number on, Proxy.Dispatch the loop of handle with
-- answer_stmt_prepare, answer_stmt_fetch, answer_stmt_close and change_default_db. The SQL engine
-- behind it is the record Engine: what query_answer and the execution of a statement leave of the
-- session, which in the source never touches the table of statements (only register_stmt and
-- unregister_stmt change it).
--
-- Mongo models the MongoDB connection: Mongo.Socket is _read_bytes, Mongo.Responders the classes
-- Responder and RespondersCollection, Mongo.Reply the loop of MongoRequestHandler with get_answer
-- and to_bytes, Mongo.Request the methods handle of OpMsgResponder, OpQueryResponder and
-- OpInsertResponder, whose position in a buffer is a signed number as Python's slices read it and
-- whose loop over sections has fuel. The library bson is a parameter. Mongo.Scram is the class
-- Scram with hashes as the record Crypto, Mongo.Sasl the responders sasl_start.py and
-- sasl_continue.py, which keep an exchange in the session, Mongo.Predictors the responders
-- delete.py, count.py and aggregate.py, and Mongo.Insert the responder insert.py.
--
-- Query models the engine in classes/sql_query.py: Query.Vars the marks on variables
-- (markQueryVar, replaceQueryVar, unmarkQueryVar), Query.Fetch the steps FetchDataframeStep and
-- MapReduceStep with join_query_data, Query.Project the step ProjectStep and
-- _make_list_result_view, Query.Join the step JoinStep, Query.Plan the other steps, execute_step
-- and execute_query, Query.Prepare get_all_tables, prepare_query, the constructor,
-- to_mysql_columns and the view as dicts. Data nodes, str, == and the order of a set are
-- parameters.
--
-- Store models get_vacant_name of mindsdb/interfaces/datastore/datastore.py, which names a new
-- data source. Config models _merge_configs of mindsdb/utilities/config.py.
--
-- Bounds and fuel. count_from counts base-256 digits with the number itself for fuel; the loop of
-- Packet.get has the bytes on their way for fuel, since each round takes four at least, and
-- read_bytes the bytes that it still wants; serve has a round for each byte on its way and one
-- more, and is none where that is used up or where a responder does not return, as that of OP_MSG
-- does not on some messages; next_id has the hundred numbers that the source tries. Lengths on
-- the wire are bounded by their fields, which the theorems state as conditions. read_sections and
-- parse_msg take their fuel as an argument, since not every message ends the loop over its
-- sections; read_rows, which is a client's, has a round for each packet that it may read.
--
-- Not modelled: SQL parsing and rendering, storage, the machine-learning engine and the HTTP
-- interface, which are calls of other libraries for the most part; TLS, logging and threads; the
-- texts of error packets in Proxy.Dispatch.
pub mod Prelude
pub mod Wire
pub mod Session
pub mod Proxy
pub mod Mongo
pub mod Store
pub mod Config
pub mod Query
