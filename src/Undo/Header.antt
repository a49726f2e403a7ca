-- ===== src/Undo/Header.antt =====
-- The header of a command in the undo buffer, `CommandHeader`: what is written can be read back.
use esp32_particulate_sensor.Prelude.{
  ℕ, ◌^◌, ◌<◌, ◌≡◌, refl, ap, some, List, ◌++◌, ◌>>=◌, arith, drop,
}
use esp32_particulate_sensor.Undo.{
  CommandType, update_tag, update_transform, header_bytes, header_type, header_data_size,
  command_type_at, command_type_value, header_size,
}

-- The type and the size that the header of a command holds are read back from the bytes, whatever
-- follows them, if the size is a u32; the type is one of the jump table, and the payload follows
-- the header.
pub header_bytes_lem :
    (t : CommandType) (size : ℕ) (rest : List ℕ)
    → size < 2 ^ 32
    → ((header_type (header_bytes t size ++ rest) >>= command_type_at) ≡ some t)
      × (header_data_size (header_bytes t size ++ rest) ≡ some size)
      × (drop header_size (header_bytes t size ++ rest) ≡ rest)
unfolding header_bytes header_type header_data_size command_type_at command_type_value header_size
header_bytes_lem update_tag size rest h = (refl, ap some (omega arith), refl)
header_bytes_lem update_transform size rest h = (refl, ap some (omega arith), refl)
