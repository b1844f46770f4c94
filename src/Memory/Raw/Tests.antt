-- ===== src/Memory/Raw/Tests.antt =====
-- The byte operations on memory that holds the low byte of each address.
use alpha_os.Prelude.{◌%◌, ◌≡◌, refl, Ram, write}
use alpha_os.Memory.Raw.{memset, memcpy}

abbrev low_bytes : Ram
low_bytes a = a % 256

memset_run : memset low_bytes 8 0x1ff 2 9 ≡ 0xff
unfolding memset write
memset_run = refl

-- A target one byte behind the source is filled with the first byte.
memcpy_overlap : memcpy low_bytes 0x11 0x10 3 0x13 ≡ 0x10
unfolding memcpy write
memcpy_overlap = refl
