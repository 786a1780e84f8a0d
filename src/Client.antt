-- ===== src/Client.antt =====
-- src/client: the client's files, its peers, its downloads, and its part of the protocol.
pub mod PartFile
pub mod FilesDb
pub mod PeerDb
pub mod Hash
pub mod FileIo
pub mod ProcessRequest
pub mod Downloads
pub mod ProcessInput
pub mod Program
