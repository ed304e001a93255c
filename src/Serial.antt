-- ===== src/Serial.antt =====
-- batterySystem/s800serialDAO.c: the commands to the battery sensors over a serial port, and the
-- declarations of batterySystem/battery.h that they share. The port itself, what the operating system
-- does on read, write, tcflush and usleep, is a parameter.
pub mod Port
pub mod Checksum
pub mod Decode
pub mod Exchange
pub mod Command
pub mod Select
pub mod Open
pub mod Steady
