-- ===== src/Backup.antt =====
-- app/services/backup.py: the automatic backups and the dump.
pub mod Dump
pub mod Literal
pub mod Logs
pub mod Prune
pub mod Recipients
pub mod Row
pub mod Schedule
pub mod Service
