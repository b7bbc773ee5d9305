-- ===== src/Dockerclient.antt =====
-- The package dockerclient: the registry that serves a downloaded image to Docker, the display of
-- Docker's pull log, and the client that loads the image.
pub mod RegistryDriver
pub mod PullWriter
pub mod Load
