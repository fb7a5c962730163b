-- ===== src/Admin.antt =====
-- internal/admin: the console. Its views of a configuration are in Admin/View, its key check in
-- Admin/Access, the save handler in Admin/Save, the probe in Admin/Probe, the choice of a handler in
-- Admin/Routes, and the whole of a request in Admin/Console.
pub mod View
pub mod Access
pub mod Save
pub mod Probe
pub mod Routes
pub mod Console
