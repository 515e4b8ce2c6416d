-- ===== src/Virtual/Descriptors.antt =====
-- The descriptors of the page tables: `newCPTD`, `newSD`, `newLPD` and `newSPD`.
use osext.Common.{ℕ, ◌*◌, ◌/◌, ◌%◌, bit_or}

-- The arguments `domain`, `c`, `b` and `ap` are of type `unsigned char`.
unfoldable pub new_cptd : (domain base_address : ℕ) → ℕ
new_cptd domain base_address = bit_or (bit_or 17 (domain % 16 * 32)) (base_address / 1024 * 1024)

unfoldable pub new_sd : (c b domain ap base_address : ℕ) → ℕ
new_sd c b domain ap base_address =
    bit_or
      (bit_or (bit_or (bit_or (bit_or 18 (c % 2 * 8)) (b % 2 * 4)) (domain % 16 * 32))
        (ap % 4 * 1024))
      (base_address / 1048576 * 1048576)

unfoldable pub new_lpd : (c b ap base_address : ℕ) → ℕ
new_lpd c b ap base_address =
    bit_or (bit_or (bit_or (bit_or 1 (c % 2 * 8)) (b % 2 * 4)) (ap * 16))
      (base_address / 65536 * 65536)

unfoldable pub new_spd : (c b ap base_address : ℕ) → ℕ
new_spd c b ap base_address =
    bit_or (bit_or (bit_or (bit_or 2 (c % 2 * 8)) (b % 2 * 4)) (ap * 16))
      (base_address / 4096 * 4096)
