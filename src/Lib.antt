-- ===== src/Lib.antt =====
-- A model of the inter-process messaging library of this repository (wrappers of nng
-- sockets in C++ with a C interface), of the system events and the system client built on
-- it, and theorems that make them correct.
--
-- Parts of the program and the files that model them (paths from the repository's root):
--
-- - Nng: the socket library nng, which is not part of the repository. It is a parameter: a
--   record that gives each call, after a history of calls, its return code, and a received
--   message its bytes. The calls are kept in a log. Of the completions of an
--   asynchronous operation AioWorker/System assumes which ones carry a message: a receive that
--   succeeds, and a send that fails; with any other the message may be any or null. Nothing else
--   of nng is assumed.
-- - Draft (NngIpcRequestHandler.cpp, NngIpcPublishHandler.cpp): the message m_msg, which
--   append starts and extends, send gives away and release frees.
-- - RequestHandler, PublishHandler, ResponseHandler, SubscribeHandler
--   (NngIpc*Handler.cpp): the four handlers with create, init, their operations, and release.
-- - AioWorker (NngIpcAioWorker.cpp): the state machine that asynchronous completions drive.
--   process is a function from the worker and a completion to a turn: the next state, the
--   operation that is started, and the number of messages freed. AioWorker/System has the
--   worker together with the operation in flight as a step relation, for a worker on which start
--   is called once: what a second start finds in an operation under way nng does not say.
-- - WorkerPool (NngIpcAioWorker.cpp and the loops of the two handlers over m_workers). The start
--   of a worker that was started before is none.
-- - Event, Event/Handle (implement/zwipcsystem/zwsystem_ipc_event.cpp): the events that the
--   system service publishes: their two headers as bytes, the check of a received event, and
--   the handle that publishes and listens.
-- - SystemApi (implement/zwsystemInterface/zwsystem_ipc_common.h, zwsystem_ipc_defined.h and the
--   functions of zwsystem_ipc_client.cpp): the commands, the records with the layout that C
--   gives them, and the table of the functions with their command, request and reply.
-- - SystemClient (implement/zwsystemInterface/zwsystem_ipc_client.cpp): the ids of requests, the
--   exchange of a request and its reply over a request handler, and the listener that sorts the
--   system's events.
-- - EnumTable (implement/zwsystemInterface/zwsystem_ipc_common.h): the tables that name the
--   values of an enumeration.
-- - Forwarder (NngIpcPubsubForwarder.c): the program that forwards from publishers to
--   subscribers.
-- - Camera (implement/zwsystemInterface/test_ipc/camera_parameters_manager.cpp): the parameters of
--   the camera. Store has the state of CameraParametersManager with its reads, its writes and the
--   callbacks that are told of a change; a call of a callback is a Notice in the result, and what
--   the callback does is the client's. Runs puts calls that change the state one behind
--   another: those of the parameters, the callbacks and the faces, the JSON update of the faces and
--   the naming of the camera; three of the parses are shown to be runs of them. Features and Faces are the table of faces and its update by a JSON text, FileNames the
--   names of the files of the faces, Base64 the decoder. Settings and Initial are the parses of
--   the four JSON texts, alone and together, Fields and SettingGetters the getters and setters.
--   rapidjson is not part of the model: its parser is an argument, and Json has the tests and
--   accessors of a parsed value.
-- - TimeZones (implement/zwsystemInterface/test_ipc/timezone_utils.cpp): the tables of time zones.
-- - P2pAgent (implement/cht_p2pagent): the camera agent's messages (cht_ipc_common.h,
--   cht_ipc_client.h), its client (cht_ipc_client.cpp) and the callback of its service
--   (system_service.cpp).
-- - Prelude has the lists, tests, bytes and memory that all of them use, and Examples applies the
--   theorems to concrete inputs.
--
-- Conventions. A method that holds its object's mutex for its whole body is one step. An
-- integer result -n of the C interfaces is the number n. Pointers to objects are the
-- objects, null is none. Headers have the layout of the LP64 little-endian ABI that the
-- build files target; bytes are numbers below 256, and Prelude/Memory reads and writes them.
-- The clock of a call that reads it more than once is read once. std::map is an association list,
-- since the order of its entries is not observed in what is modelled. The digits of an int are
-- printed on a fuel of eleven, more than any int has; no other definition runs on fuel: the
-- loops are structural recursions over the workers, the messages or the tables, and process runs
-- once per completion.
--
-- Not modelled: the socket library itself, the demonstration programs, the interactive test
-- programs, the handlers of the simulated camera under implement/zwsystemInterface/test_ipc, the
-- start-up, the files and the network time of CameraParametersManager, and logging.
pub mod AioWorker
pub mod Camera
pub mod Draft
pub mod EnumTable
pub mod Event
pub mod Examples
pub mod Forwarder
pub mod Nng
pub mod P2pAgent
pub mod Prelude
pub mod PublishHandler
pub mod RequestHandler
pub mod ResponseHandler
pub mod SubscribeHandler
pub mod SystemApi
pub mod SystemClient
pub mod TimeZones
pub mod WorkerPool
