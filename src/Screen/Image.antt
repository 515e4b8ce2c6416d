-- ===== src/Screen/Image.antt =====
-- kernel/gui/img565.c. The data of an image is its halfwords by their indices.
use osext.Common.{ℕ, ◌+◌, ◌*◌, ◌/◌, ◌%◌, ◌^◌, Bool, ltb, ◌==◌, if◌then◌else◌, Option, none, some}
use osext.Physical.{Table, free_consecutive_pages}

-- An image with the address of its data.
pub record Image : Type 0 where
  pub width : ℕ
  pub height : ℕ
  pub address : ℕ

-- What `kmalloc` returns for the image, and for its data; `use_consecutive_pages` gives the address,
-- which is moved to the mapped RAM and back, and the table.
pub record Room : Type 0 where
  pub image : Bool
  pub data_address : ℕ
  pub use_consecutive_pages : (size : ℕ) → Table → ℕ × Table

-- The parameters are of type `uint16_t`. Data from `useConsecutivePages` passes the test for
-- `NULL`, since it is moved before. The product is an `int` in the source, which is undefined from
-- 2^31 on; here it is not bounded.
unfoldable pub create_img565 : Room → (width height : ℕ) → Table → Option Image × Table
create_img565 room width height t =
    let w = width % 2 ^ 16 in
    let h = height % 2 ^ 16 in
    let given = room.use_consecutive_pages (w * h * 2 / 4096 + 1) t in
    let large : Image = record { width = w; height = h; address = given.0 } in
    let small : Image = record { width = w; height = h; address = room.data_address } in
    if room.image
    then (if ltb 1024 (w * h * 2)
        then (some large, given.1)
        else if room.data_address == 0
        then (none, t)
        else (some small, t))
    else (none, t)

-- What `kfree` gets is not part of the table.
unfoldable pub destroy_img565 : Option Image → Table → Table
destroy_img565 none t = t
destroy_img565 (some img) t =
    if ltb 1024 (img.width * img.height * 2)
    then free_consecutive_pages img.address (img.width * img.height * 2 / 4096 + 1) t
    else t
