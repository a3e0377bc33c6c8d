-- ===== src/Places/Fork.antt =====
-- `sys_fork`: the child stands behind the ready processes and behind the children of its parent.
pub mod Quiet
pub mod Copied
pub mod Born
pub mod Child
pub mod Runs
