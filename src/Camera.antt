-- ===== src/Camera.antt =====
-- SmartDashboard/src/camera: the stream reader, and the sources that discover cameras.
pub mod Discovery
pub mod Mjpeg
