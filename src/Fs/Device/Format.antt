-- ===== src/Fs/Device/Format.antt =====
-- fs_device_format: the disk that it leaves.
use avr_kernel.Fs.Cache.{Cache}
