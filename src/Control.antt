-- ===== src/Control.antt =====
-- control-plane/control: the parts of the ControlPlane that keep the state of the nodes.
pub mod UpdateManager
pub mod Enrollment
pub mod Registry
pub mod Dispatcher
pub mod Reboot
pub mod Reconciler
