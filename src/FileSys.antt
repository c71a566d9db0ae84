-- ===== src/FileSys.antt =====
-- student-distrib/file_sys_driver.c: the read-only file system in the boot module.
pub mod Image
pub mod Dentry
pub mod Data
pub mod Tests
