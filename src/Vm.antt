-- ===== src/Vm.antt =====
-- The virtual machine tools: vm/prepared.py, the check of a prepared base image, and vm/e2e.py.
pub mod Frame
pub mod Xml
pub mod Pattern
pub mod Prepared
pub mod Checks
pub mod Verify
pub mod Manifest
pub mod Lines
pub mod Owned
pub mod Machines
pub mod Cleanup
pub mod Prepare
pub mod Teardown
