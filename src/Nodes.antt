-- ===== src/Nodes.antt =====
-- libveo/api.cpp (src/libveo in the repository): how `veo_proc_create_static` chooses the VE node.
pub mod Text
pub mod Select
pub mod Fields
pub mod Assigned
mod Tests
