-- ===== src/SystemApi.antt =====
-- The system service's interface, implement/zwsystemInterface: the commands of
-- zwsystem_ipc_defined.h, the records of zwsystem_ipc_common.h, and the functions of
-- zwsystem_ipc_client.cpp that bring them together.
pub mod Layout
pub mod Command
pub mod CameraRecords
pub mod PtzRecords
pub mod StreamRecords
pub mod Enumerations
pub mod EventRecords
pub mod MediaRecords
pub mod OtherRecords
pub mod Functions
pub mod Routing
pub mod Replies
pub mod Events
