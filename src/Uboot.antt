-- ===== src/Uboot.antt =====
-- uboot-shell/src: the checksum and the YMODEM sender.
pub mod Crc
pub mod Ymodem
