-- ===== src/Render.antt =====
-- app/rendering: what both backends share, so that the sheet and its warnings cannot differ.
pub mod Assignments
pub mod Fit
pub mod Queue
pub mod Registry
