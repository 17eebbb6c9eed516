-- ===== src/Camera.antt =====
-- The parameters of the camera: implement/zwsystemInterface/test_ipc/camera_parameters_manager.cpp.
pub mod Base64
pub mod Store
pub mod Features
pub mod Json
pub mod Faces
pub mod Settings
pub mod Initial
pub mod SettingGetters
pub mod Fields
pub mod Runs
